-- ===== src/Terminfo/Tparm.antt =====
-- lib/libterminfo/tparm.c: the expansion of parametrised strings. The stack, the numbers, the output
-- buffer and the state of the expansion; the children have the loops over the string.
pub mod Analyse
pub mod Format
pub mod Machine
pub mod Run
pub mod Ends
pub mod Commands
pub mod Total
pub mod Expr
pub mod Template
pub mod Limits
use netbsd_curses.Base.{
  ℕ, zero, suc, ◌+◌, ◌-◌, ◌*◌, ◌/◌, ◌%◌, ◌^◌, max, ltb, leb, ◌==◌, if◌then◌else◌, Bool, true, false,
  not, ◌&&◌, ◌||◌, Option, none, some, List, [], ◌∷◌, ◌++◌, length,
}
use Prim.Native.Nat.{bit_and, bit_or, bit_xor}

-- A `long` is its pattern of 64 bits; sums and products wrap.
abbrev pub word : ℕ
word = 2 ^ 64

abbrev pub is_negative : ℕ → Bool
is_negative a = leb (2 ^ 63) a

abbrev pub neg : ℕ → ℕ
neg a = (word - a) % word

abbrev pub magnitude : ℕ → ℕ
magnitude a = if is_negative a then neg a else a

abbrev pub of_bool : Bool → ℕ
of_bool b = if b then 1 else 0

abbrev pub less : ℕ → ℕ → Bool
less a b = ltb ((a + 2 ^ 63) % word) ((b + 2 ^ 63) % word)

abbrev pub same_sign : ℕ → ℕ → Bool
same_sign a b = if is_negative a then is_negative b else not (is_negative b)

-- The two-place operators, in the order of the source's switch.
pub data Op : Type 0 where
  plus minus times divide modulo logical_and logical_or and or xor equal less_than greater : Op

-- `val` was popped first, `val2` after it. C's division goes towards 0, and the remainder has the
-- sign of the dividend.
unfoldable pub apply : Op → ℕ → ℕ → ℕ
apply plus val val2 = (val + val2) % word
apply minus val val2 = (val2 + (word - val)) % word
apply times val val2 = val * val2 % word
apply divide val val2 =
    let q = magnitude val2 / magnitude val in
    if val == 0 then 0 else if same_sign val val2 then q % word else neg q
apply modulo val val2 =
    let r = magnitude val2 % magnitude val in
    if val == 0 then 0 else if is_negative val2 then neg r else r
apply logical_and val val2 = of_bool (not (val == 0) && not (val2 == 0))
apply logical_or val val2 = of_bool (not (val == 0) || not (val2 == 0))
apply and val val2 = bit_and val val2
apply or val val2 = bit_or val val2
apply xor val val2 = bit_xor val val2
apply equal val val2 = of_bool (val == val2)
apply less_than val val2 = of_bool (less val2 val)
apply greater val val2 = of_bool (less val val2)

-- An entry of TPSTACK, and a parameter (TPVAR): a number and a string, which may be NULL.
pub record Value : Type 0 where
  pub num : ℕ
  pub string : Option (List ℕ)

abbrev pub number : ℕ → Value
number n = record { num = n; string = none }

-- TPSTACK from the top down; `offset` is its length.
abbrev pub Entries : Type 0
Entries = List Value

-- `refused` is the error of push, `overrun` a write past the arrays of 20 entries.
pub data Push : Type 0 where
  pushed : Entries → Push
  refused overrun : Push

-- The guard compares with `sizeof(stack->nums)`, which counts bytes: 20 longs of 8.
unfoldable pub push : Value → Entries → Push
push v s =
    if leb 160 (length s) then refused else if leb 20 (length s) then overrun else pushed (v ∷ s)

-- The error of pop is not looked at; it leaves 0 and NULL.
unfoldable pub pop : Entries → Value × Entries
pop [] = (number 0, [])
pop (v ∷ s) = (v, s)

-- The buffer of a TERMINAL: `_buf` up to `_bufpos`, and `_buflen`.
pub record Buffer : Type 0 where
  pub text : List ℕ
  pub size : ℕ

-- `room n` says that `realloc` gives n bytes.
unfoldable pub checkbuf : (ℕ → Bool) → ℕ → Buffer → Option Buffer
checkbuf room len b =
    if leb b.size (length b.text + len)
    then (if room (b.size + max len 128)
        then some (record b { size = b.size + max len 128 })
        else none)
    else some b

-- No value is the result 0.
unfoldable pub ochar : (ℕ → Bool) → ℕ → Buffer → Option Buffer
unfolding checkbuf
ochar room c b = elim (checkbuf room 2 b) [
  | none ↦ none
  | some b' ↦ some (record b' { text = b'.text ++ (if c == 0 then 128 else c % 256) ∷ [] })
]
