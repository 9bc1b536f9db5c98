-- ===== src/Terminfo/Tparm/Machine/Cursor.antt =====
-- The state of _ti_tiparm in lib/libterminfo/tparm.c, and the loops of its commands over the string.
use netbsd_curses.Base.{
  ℕ, ◌+◌, ◌-◌, ◌*◌, ◌%◌, ltb, ◌==◌, if◌then◌else◌, Bool, not, ◌&&◌, Option, none, some, List, [],
  ◌∷◌,
}
use netbsd_curses.Terminfo.Tparm.{word, Value, Entries, pushed, refused, overrun, push, pop, Buffer}
use netbsd_curses.Terminfo.Tparm.Analyse.{is_digit}

-- What the C library does for the expansion: `snprintf` with a format and an int or a string, and
-- `realloc`.
pub record Libc : Type 0 where
  pub print_num : List ℕ → ℕ → List ℕ
  pub print_str : List ℕ → List ℕ → List ℕ
  pub room : ℕ → Bool

-- `str`, the stack, `params`, the variables a-z and A-Z, and the buffer. `piss` is what the analysis
-- has found.
pub record State : Type 0 where
  pub str : List ℕ
  pub stack : Entries
  pub params : List Value
  pub piss : List Bool
  pub dnums : List ℕ
  pub snums : List ℕ
  pub buffer : Buffer

-- `null` is a return of NULL, `fault` an access outside an array or past the end of the string.
pub data Turn : Type 0 where
  go : State → Turn
  null fault : Turn

abbrev pub pushing : Value → State → Turn
pushing v s = elim (push v s.stack) [
  | pushed st ↦ go (record s { stack = st })
  | refused ↦ null
  | overrun ↦ fault
]

abbrev pub quote : ℕ
quote = 39

abbrev pub popped : State → Value × State
popped s = let (v, st) = pop s.stack in (v, record s { stack = st })

-- The rest of a string after a `t` or an `e` that is not taken: behind the matching `%;`, or with
-- `stop_at_else` behind a `%e` on the same level. No value: a read past the end.
unfoldable pub skip : Bool → ℕ → List ℕ → Option (List ℕ)
skip stop_at_else l [] = none
skip stop_at_else l (c ∷ []) = if c == 0 then some (c ∷ []) else none
skip stop_at_else l (c ∷ d ∷ str) =
    let plain = skip stop_at_else l (d ∷ str) in
    let deeper = skip stop_at_else (l + 1) str in
    let higher = skip stop_at_else (l - 1) str in
    let other = skip stop_at_else l str in
    if c == 0
    then some (c ∷ d ∷ str)
    else if not (c == b'%')
    then plain
    else if d == b'?'
    then deeper
    else if d == b';'
    then if ltb 0 l then higher else some str
    else if d == b'e' && (l == 0 && stop_at_else)
    then some str
    else other

-- while (*str != '\0' && *str != q) str++; if (*str == q) str++;
unfoldable pub skip_to : ℕ → List ℕ → Option (List ℕ)
skip_to q [] = none
skip_to q (c ∷ str) =
    let rest = skip_to q str in if c == q then some str else if c == 0 then some (c ∷ str) else rest

-- for (; isdigit(*str); str++) val = (val * 10) + (*str - '0');
unfoldable pub digits : ℕ → List ℕ → ℕ × List ℕ
digits val [] = (val, [])
digits val (c ∷ str) =
    let rest = digits ((val * 10 + (c - b'0')) % word) str in
    if is_digit b'0' b'9' c then rest else (val, c ∷ str)

abbrev pub at_str : State → Option (List ℕ) → Turn
at_str s none = fault
at_str s (some str) = go (record s { str = str })
