-- ===== src/Terminfo/Tputs/Delays.antt =====
-- The delays in the strings that lib/libterminfo/tputs.c sends: how they are written and what they are.
use netbsd_curses.Base.{
  ℕ, zero, suc, ◌+◌, ◌-◌, ◌*◌, ◌/◌, ◌%◌, ◌^◌, ◌≤◌, ◌<◌, ◌≡◌, refl, ap, ◌∙◌, lt→ltb, ◌==◌, Bool,
  true, false, Option, none, some, List, [], ◌∷◌, ◌++◌, arith,
}
use netbsd_curses.Base.Int.{pos_part}
use netbsd_curses.Terminfo.Bytes.{signed}
use netbsd_curses.Terminfo.Tputs.{
  word, is_digit, number, drop_digits, tenth, fraction, suffix, calcdelay, pads,
}
use native.Mathlib.Nat.{div-mul-le_self, lt-div-mul-add}

pub data Mark : Type 0 where
  no_mark star slash : Mark

-- `whole.tenths` milliseconds; a star multiplies them by the lines affected, a slash is mandatory.
pub record Delay : Type 0 where
  pub whole : List ℕ
  pub tenths : Option (List ℕ)
  pub mark : Mark

pub data AllDigits : List ℕ → Type 0 where
  no_digit : AllDigits []
  and_digit : (c : ℕ) (ds : List ℕ) → is_digit c ≡ true → AllDigits ds → AllDigits (c ∷ ds)

abbrev pub OptionDigits : Option (List ℕ) → Type 0
OptionDigits none = 0 < 1
OptionDigits (some ds) = AllDigits ds

abbrev pub IsDelay : Delay → Type 0
IsDelay d = AllDigits d.whole × OptionDigits d.tenths

abbrev pub write_tenths : Option (List ℕ) → List ℕ → List ℕ
write_tenths none rest = rest
write_tenths (some ds) rest = b'.' ∷ (ds ++ rest)

abbrev pub write_mark : Mark → List ℕ → List ℕ
write_mark no_mark rest = rest
write_mark star rest = b'*' ∷ rest
write_mark slash rest = b'/' ∷ rest

abbrev pub write : Delay → List ℕ → List ℕ
write d rest = d.whole ++ write_tenths d.tenths (write_mark d.mark rest)

-- The number that digits are, in the 32 bits of an int.
abbrev pub decimal : ℕ → List ℕ → ℕ
decimal i [] = i
decimal i (c ∷ ds) = decimal (word (i * 10 + (c - b'0'))) ds

abbrev pub first_tenth : ℕ → Option (List ℕ) → ℕ
first_tenth i none = i
first_tenth i (some []) = i
first_tenth i (some (c ∷ ds)) = word (i + (c - b'0'))

abbrev pub marked : ℕ → ℕ → Mark → ℕ
marked affcnt i no_mark = i
marked affcnt i star = word (i * affcnt)
marked affcnt i slash = i

-- In tenths of a millisecond.
abbrev pub amount : ℕ → Delay → ℕ
amount affcnt d = marked affcnt (first_tenth (word (decimal 0 d.whole * 10)) d.tenths) d.mark

abbrev pub mandatory : Mark → Bool
mandatory slash = true
mandatory _ = false

-- What can follow a delay without being read as a part of it.
abbrev pub Stops : List ℕ → Type 0
Stops [] = 0 < 1
Stops (c ∷ str) =
    (is_digit c ≡ false) × ((c == b'.') ≡ false) × ((c == b'*') ≡ false) × ((c == b'/') ≡ false)

abbrev NoDigit : List ℕ → Type 0
NoDigit [] = 0 < 1
NoDigit (c ∷ str) = is_digit c ≡ false

number-decimal :
    (i : ℕ) (ds rest : List ℕ)
    → AllDigits ds
    → NoDigit rest
    → number i (ds ++ rest) ≡ (decimal i ds, rest)
unfolding number
number-decimal i [] [] h n = refl
number-decimal i [] (c ∷ rest) h n = rw n
number-decimal i (c ∷ ds) rest (and_digit _ _ e h) n =
    rw e (number-decimal (word (i * 10 + (c - b'0'))) ds rest h n)

drop_digits-rest :
    (ds rest : List ℕ) → AllDigits ds → NoDigit rest → drop_digits (ds ++ rest) ≡ rest
unfolding drop_digits
drop_digits-rest [] [] h n = refl
drop_digits-rest [] (c ∷ rest) h n = rw n
drop_digits-rest (c ∷ ds) rest (and_digit _ _ e h) n = rw e (drop_digits-rest ds rest h n)

tenth-first :
    (i : ℕ) (ds rest : List ℕ)
    → AllDigits ds
    → NoDigit rest
    → tenth i (ds ++ rest) ≡ first_tenth i (some ds)
unfolding tenth
tenth-first i [] [] h n = refl
tenth-first i [] (c ∷ rest) h n = rw n
tenth-first i (c ∷ ds) rest (and_digit _ _ e h) n = rw e

-- Behind the digits comes no point.
abbrev NoPoint : List ℕ → Type 0
NoPoint [] = 0 < 1
NoPoint (c ∷ str) = (is_digit c ≡ false) × ((c == b'.') ≡ false)

digit_after : (rest : List ℕ) → NoPoint rest → NoDigit rest
digit_after [] h = h
digit_after (c ∷ rest) h = h.0

fraction-tenths :
    (i : ℕ) (o : Option (List ℕ)) (rest : List ℕ)
    → OptionDigits o
    → NoPoint rest
    → fraction i (write_tenths o rest) ≡ (first_tenth i o, rest)
unfolding fraction
fraction-tenths i none [] h n = refl
fraction-tenths i none (c ∷ rest) h n = rw (n.1)
fraction-tenths i (some ds) rest h n =
    rw (
      tenth-first i ds rest h (digit_after rest n),
      drop_digits-rest ds rest h (digit_after rest n),
    )

suffix-mark :
    (affcnt i : ℕ) (m : Mark) (rest : List ℕ)
    → Stops rest
    → suffix affcnt i (write_mark m rest) ≡ (marked affcnt i m, mandatory m, rest)
unfolding suffix
suffix-mark affcnt i no_mark [] h = refl
suffix-mark affcnt i no_mark (c ∷ rest) h = rw (h.2, h.3)
suffix-mark affcnt i star rest h = refl
suffix-mark affcnt i slash rest h = refl

mark-Stops : (m : Mark) (rest : List ℕ) → Stops rest → NoPoint (write_mark m rest)
unfolding is_digit
mark-Stops no_mark [] h = h
mark-Stops no_mark (c ∷ rest) h = (h.0, h.1)
mark-Stops star rest h = (refl, refl)
mark-Stops slash rest h = (refl, refl)

tenths_stop : (o : Option (List ℕ)) (rest : List ℕ) → NoPoint rest → NoDigit (write_tenths o rest)
unfolding is_digit
tenths_stop none rest h = digit_after rest h
tenths_stop (some ds) rest h = refl

-- A delay is read as it is written.
pub calcdelay-write :
    (affcnt : ℕ) (d : Delay) (rest : List ℕ)
    → IsDelay d
    → Stops rest
    → calcdelay affcnt (write d rest) ≡ (amount affcnt d, mandatory d.mark, rest)
unfolding calcdelay
calcdelay-write affcnt d rest h stops =
    let after = mark-Stops d.mark rest stops in
    let e =
      number-decimal 0 d.whole (write_tenths d.tenths (write_mark d.mark rest)) (h.0)
        (tenths_stop d.tenths (write_mark d.mark rest) after) in
    let f =
      fraction-tenths (word (decimal 0 d.whole * 10)) d.tenths (write_mark d.mark rest) (h.1)
        after in
    ap
      (λ n. suffix affcnt (fraction (word (n.0 * 10)) (n.1)).0 (fraction (word (n.0 * 10)) (n.1)).1)
      e
    ∙ ap (λ g. suffix affcnt (g.0) (g.1)) f
    ∙ suffix-mark affcnt (first_tenth (word (decimal 0 d.whole * 10)) d.tenths) d.mark rest stops

signed_small : (n : ℕ) → n < 2 ^ 31 → pos_part (signed (word n)) ≡ n
unfolding signed
signed_small n h = let e : n % 2 ^ 32 ≡ n = omega arith in rw (e, lt→ltb n (2 ^ 31) h)

-- The padding characters sent for a delay, which does not overflow when half a character's time
-- is added, take its time to the nearest character at the speed.
pub pads_nearest :
    (delay mspc10 : ℕ)
    → 0 < mspc10
    → delay + mspc10 / 2 < 2 ^ 31
    → (pads delay mspc10 * mspc10 ≤ delay + mspc10 / 2)
      × (delay + mspc10 / 2 < pads delay mspc10 * mspc10 + mspc10)
unfolding pads
pads_nearest delay zero h l = ground arith
pads_nearest delay (suc m) h l =
    rw (signed_small (delay + suc m / 2) l)
      (div-mul-le_self (delay + suc m / 2) (suc m), lt-div-mul-add (omega arith))
