-- ===== src/Terminfo/Tparm/Machine.antt =====
-- The loop of _ti_tiparm in lib/libterminfo/tparm.c over the string.
mod Cursor
unfoldable pub use Cursor.*
use netbsd_curses.Base.{
  ℕ, ◌+◌, ◌-◌, ◌*◌, ◌%◌, ◌^◌, ltb, ◌==◌, if◌then◌else◌, Bool, true, false, not, ◌&&◌, ◌||◌, Option,
  none, some, List, [], ◌∷◌, ◌++◌, length, max, set, get_or,
}
use netbsd_curses.Terminfo.Tparm.{
  Op, plus, minus, times, divide, modulo, logical_and, logical_or, and, or, xor, equal, less_than,
  greater, apply, word, Value, number, Entries, pushed, refused, overrun, push, pop, Buffer,
  checkbuf, ochar, of_bool,
}
use netbsd_curses.Terminfo.Tparm.Analyse.{is_digit}
use netbsd_curses.Terminfo.Tparm.Format.{Spec}

-- The operator of a command character.
abbrev pub op_of : ℕ → Option Op
op_of c =
    if c == b'+'
    then some plus
    else if c == b'-'
    then some minus
    else if c == b'*'
    then some times
    else if c == b'/'
    then some divide
    else if c == b'm'
    then some modulo
    else if c == b'A'
    then some logical_and
    else if c == b'O'
    then some logical_or
    else if c == b'&'
    then some and
    else if c == b'|'
    then some or
    else if c == b'^'
    then some xor
    else if c == b'='
    then some equal
    else if c == b'<'
    then some less_than
    else if c == b'>'
    then some greater
    else none

unfoldable pub binary : Op → State → Turn
binary op s =
    let (val, s1) = popped s in
    let (val2, s2) = popped s1 in pushing (number (apply op val.num val2.num)) s2

abbrev pub with_buffer : State → Option Buffer → Turn
with_buffer s none = null
with_buffer s (some b) = go (record s { buffer = b })

-- onum; LONG_STR_MAX is 21. A print that is longer than its room leaves the rest unwritten.
unfoldable pub print_number : Libc → Spec → State → Turn
unfolding checkbuf
print_number libc f s =
    let (val, s1) = popped s in
    let text = libc.print_num f.fmt (val.num % 2 ^ 32) in
    let len = max f.olen 21 in
    elim (checkbuf libc.room (len + 2) s1.buffer) [
      | none ↦ null
      | some b ↦
          if length text == 0
          then null
          else if ltb (len + 1) (length text)
          then fault
          else go (record s1 { buffer = record b { text = b.text ++ text } })
    ]

unfoldable pub print_string : Libc → Spec → State → Turn
unfolding checkbuf
print_string libc f s =
    let (v, s1) = popped s in
    elim v.string [
      | none ↦ go s1
      | some cs ↦
          let l = max (length cs) f.olen in
          let text = libc.print_str f.fmt cs in
          elim (checkbuf libc.room (l + 1) s1.buffer) [
            | none ↦ null
            | some b ↦
                if ltb l (length text)
                then fault
                else go (record s1 { buffer = record b { text = b.text ++ text } })
          ]
    ]

abbrev pub string_length : Value → ℕ
string_length v = elim v.string [ none ↦ 0 | some cs ↦ length cs ]

-- if (piss[0] == 0) params[0].num++; if (piss[1] == 0) params[1].num++;
abbrev pub bump : List Bool → List Value → ℕ → List Value
bump piss params k =
    if get_or piss k false
    then params
    else let v = get_or params k (number 0) in set params k (record v { num = (v.num + 1) % word })

abbrev pub peek : State → (ℕ → List ℕ → Turn) → Turn
peek s k = elim s.str [ [] ↦ fault | c ∷ str ↦ k c str ]

-- The commands that look at the string behind them. `*str` is the next character: 'p' and a quote
-- take it, 'P' and 'g' do not.
unfoldable pub load_param : State → Turn
load_param s = peek s λ c str.
    if is_digit b'1' b'9' c
    then pushing (get_or s.params (c - b'1') (number 0)) (record s { str = str })
    else go s

unfoldable pub store_variable : State → Turn
store_variable s =
    let (val, s1) = popped s in
    peek s1 λ c str.
      if is_digit b'a' b'z' c
      then go (record s1 { dnums = set s1.dnums (c - b'a') val.num })
      else if is_digit b'A' b'Z' c
      then go (record s1 { snums = set s1.snums (c - b'A') val.num })
      else go s1

unfoldable pub load_variable : State → Turn
load_variable s = peek s λ c str.
    if is_digit b'a' b'z' c
    then pushing (number (get_or s.dnums (c - b'a') 0)) s
    else if is_digit b'A' b'Z' c
    then pushing (number (get_or s.snums (c - b'A') 0)) s
    else go s

abbrev pub after_skip : State → Turn → (List ℕ → Option (List ℕ)) → Turn
after_skip s (go s') k = at_str s' (k s'.str)
after_skip s null k = null
after_skip s fault k = fault

unfoldable pub load_quoted : State → Turn
unfolding skip_to
load_quoted s =
    peek s λ c str.
      let s' = record s { str = str } in after_skip s (pushing (number c) s') (skip_to quote)

unfoldable pub load_number : State → Turn
unfolding digits skip_to
load_number s =
    let (val, str) = digits 0 s.str in
    let s' = record s { str = str } in after_skip s (pushing (number val) s') (skip_to b'}')

unfoldable pub unary : ℕ → State → Turn
unary c s =
    let (val, s1) = popped s in
    pushing (number (if c == b'!' then of_bool (val.num == 0) else word - 1 - val.num)) s1

-- The case 't'.
unfoldable pub then_part : State → Turn
unfolding skip
then_part s =
    let (val, s1) = popped s in if val.num == 0 then at_str s1 (skip true 0 s1.str) else go s1

unfoldable pub print_char : Libc → State → Turn
unfolding ochar
print_char libc s =
    let (val, s1) = popped s in with_buffer s1 (ochar libc.room (val.num % 256) s1.buffer)

-- The case 'l', which does not look at the error of push.
unfoldable pub push_length : State → Turn
push_length s =
    let (v, s1) = popped s in
    elim (push (number (string_length v)) s1.stack) [
      | pushed st ↦ go (record s1 { stack = st })
      | refused ↦ go s1
      | overrun ↦ fault
    ]

-- The switch on the command `c`.
unfoldable pub command : Libc → ℕ → Spec → State → Turn
unfolding binary print_number print_string load_param store_variable load_variable load_quoted
    load_number unary then_part print_char push_length skip
command libc c f s =
    if c == b'c'
    then print_char libc s
    else if c == b's'
    then print_string libc f s
    else if c == b'l'
    then push_length s
    else if c == b'd' || c == b'o' || c == b'x' || c == b'X'
    then print_number libc f s
    else if c == b'p'
    then load_param s
    else if c == b'P'
    then store_variable s
    else if c == b'g'
    then load_variable s
    else if c == b'i'
    then go (record s { params = bump s.piss (bump s.piss s.params 0) 1 })
    else if c == quote
    then load_quoted s
    else if c == b'{'
    then load_number s
    else if c == b'!' || c == b'~'
    then unary c s
    else if c == b't'
    then then_part s
    else if c == b'e'
    then at_str s (skip false 0 s.str)
    else elim (op_of c) [ some op ↦ binary op s | none ↦ go s ]
