-- ===== src/Terminfo/Tputs.antt =====
-- lib/libterminfo/tputs.c: a string is sent with its padding. Strings stand without their NUL; an int is
-- its 32 bits; the calls of `outc` are the list of the characters they are given.
pub mod Delays
pub mod Sends
pub mod Pieces
use netbsd_curses.Base.{
  ℕ, zero, suc, ◌+◌, ◌-◌, ◌*◌, ◌/◌, ◌%◌, ◌^◌, ltb, leb, ◌==◌, ◌&&◌, ◌||◌, not, if◌then◌else◌, Bool,
  true, false, Option, none, some, List, [], ◌∷◌, ◌++◌, length, get_or, replicate,
}
use netbsd_curses.Base.Int.{ℤ, pos, negsuc, pos_part, ==_ℤ}
use netbsd_curses.Terminfo.Bytes.{signed}
use mathlib.Core.Option

abbrev pub word : ℕ → ℕ
word n = n % 2 ^ 32

unfoldable pub is_digit : ℕ → Bool
is_digit c = leb b'0' c && leb c b'9'

-- The loop over the digits of a number.
unfoldable pub number : ℕ → List ℕ → ℕ × List ℕ
number i [] = (i, [])
number i (c ∷ str) =
    let rest = number (word (i * 10 + (c - b'0'))) str in if is_digit c then rest else (i, c ∷ str)

unfoldable pub drop_digits : List ℕ → List ℕ
drop_digits [] = []
drop_digits (c ∷ str) = let rest = drop_digits str in if is_digit c then rest else c ∷ str

-- Only the first digit behind the point counts.
unfoldable pub tenth : ℕ → List ℕ → ℕ
tenth i [] = i
tenth i (c ∷ str) = if is_digit c then word (i + (c - b'0')) else i

unfoldable pub fraction : ℕ → List ℕ → ℕ × List ℕ
fraction i [] = (i, [])
fraction i (c ∷ str) = if c == b'.' then (tenth i str, drop_digits str) else (i, c ∷ str)

-- What a delay is, whether it is mandatory and what follows it.
unfoldable pub suffix : ℕ → ℕ → List ℕ → ℕ × Bool × List ℕ
suffix affcnt i [] = (i, false, [])
suffix affcnt i (c ∷ str) =
    if c == b'*'
    then (word (i * affcnt), false, str)
    else if c == b'/'
    then (i, true, str)
    else (i, false, c ∷ str)

unfoldable pub calcdelay : ℕ → List ℕ → ℕ × Bool × List ℕ
calcdelay affcnt str =
    let n = number 0 str in let f = fraction (word (n.0 * 10)) (n.1) in suffix affcnt (f.0) (f.1)

abbrev pub tmspc10 : List ℕ
tmspc10 = 0 ∷ 2000 ∷ 1333 ∷ 909 ∷ 743 ∷ 666 ∷ 500 ∷ 333 ∷ 166 ∷ 83 ∷ 55 ∷ 41 ∷ 20 ∷ 10 ∷ 5 ∷ []

-- The number of characters that a delay takes at a speed, which is a short.
unfoldable pub pads : ℕ → ℕ → ℕ
pads delay mspc10 = elim mspc10 [
  | zero ↦ 0
  | suc m ↦ pos_part (signed (word (delay + suc m / 2))) / suc m
]

unfoldable pub outputdelay : ℕ → ℤ → ℕ → List ℕ
outputdelay delay os pc =
    let speed = pos_part os in
    if ltb (pos_part (signed delay)) 1 || (ltb speed 1 || leb 15 speed)
    then []
    else replicate (pads delay (get_or tmspc10 speed 0)) pc

unfoldable pub contains : ℕ → List ℕ → Bool
contains c [] = false
contains c (d ∷ str) = (d == c) || contains c str

-- What follows `$<` at the start of a string, where a delay stands there.
unfoldable pub delay_at : List ℕ → Option (List ℕ)
delay_at (a ∷ b ∷ c ∷ str) =
    if (a == b'$') && ((b == b'<') && ((is_digit c || (c == b'.')) && contains b'>' str))
    then some (c ∷ str)
    else none
delay_at str = none

-- The character behind a delay is passed over by the loop, whatever it is.
unfoldable pub behind : List ℕ → List ℕ
behind [] = []
behind (c ∷ str) = str

-- The loop, on fuel.
unfoldable pub send : Bool → ℤ → ℕ → ℕ → ℕ → List ℕ → Option (List ℕ)
send dodelay os pc affcnt fuel [] = some []
send dodelay os pc affcnt zero (c ∷ str) = none
send dodelay os pc affcnt (suc fuel) (c ∷ str) = elim (delay_at (c ∷ str)) [
  | none ↦ Option.map (λ out. c ∷ out) (send dodelay os pc affcnt fuel str)
  | some spec ↦
      let d = calcdelay affcnt spec in
      let pad = if dodelay || d.1 then outputdelay (d.0) os pc else [] in
      Option.map (λ out. pad ++ out) (send dodelay os pc affcnt fuel (behind (d.2)))
]

-- A delay at the start of the string comes after it.
unfoldable pub puts : Bool → ℤ → ℕ → List ℕ → ℕ → Option (List ℕ)
puts dodelay os pc str affcnt =
    let t = calcdelay affcnt str in
    let tail = if dodelay then outputdelay (t.0) os pc else [] in
    Option.map (λ out. out ++ tail) (send dodelay os pc affcnt (length (t.2)) (t.2))

-- What ti_puts reads of a terminal: whether the string is the one of bell or of flash_screen, which it
-- tells by the pointer, and the capabilities it asks for.
pub record Sender : Type 0 where
  pub is_bell : Bool
  pub is_flash : Bool
  pub xon_xoff : Bool
  pub padding_baud_rate : ℤ
  pub pad_char : Option (List ℕ)
  pub ospeed : ℤ

unfoldable pub needs_delay : Sender → Bool
needs_delay t =
    t.is_bell || (t.is_flash || (not t.xon_xoff && not (==_ℤ t.padding_baud_rate (pos 0))))

unfoldable pub pad_of : Option (List ℕ) → ℕ
pad_of none = 0
pad_of (some []) = 0
pad_of (some (c ∷ s)) = c

-- Nothing is sent for NULL.
unfoldable pub ti_puts : Sender → Option (List ℕ) → ℕ → Option (List ℕ)
ti_puts t none affcnt = some []
ti_puts t (some str) affcnt = puts (needs_delay t) t.ospeed (pad_of t.pad_char) str affcnt

unfoldable pub ti_putp : Sender → Option (List ℕ) → Option (List ℕ)
ti_putp t str = ti_puts t str 1

-- `speed` and `pc` are the variables ospeed and PC.
unfoldable pub tputs : ℤ → ℕ → Option (List ℕ) → ℕ → Option (List ℕ)
tputs speed pc none affcnt = some []
tputs speed pc (some str) affcnt = puts true speed pc str affcnt

unfoldable pub putp : ℤ → ℕ → Option (List ℕ) → Option (List ℕ)
putp speed pc str = tputs speed pc str 1
