-- ===== src/Terminfo/Tputs/Sends.antt =====
-- What lib/libterminfo/tputs.c sends of a string whose characters and delays are known.
use netbsd_curses.Base.{
  ℕ, zero, suc, ◌+◌, ◌-◌, ◌*◌, ◌≤◌, ◌<◌, ◌≡◌, refl, ap, ◌==◌, ◌&&◌, ◌||◌, if◌then◌else◌, if_cases,
  Bool, Option, none, some, List, [], ◌∷◌, ◌++◌, length, arith,
}
use netbsd_curses.Base.Int.{ℤ}
use netbsd_curses.Terminfo.Tputs.{
  is_digit, number, drop_digits, fraction, suffix, calcdelay, outputdelay, contains, delay_at,
  behind, send, word,
}
use mathlib.Core.Option

number_shorter : (i : ℕ) (str : List ℕ) → length (number i str).1 ≤ length str
unfolding number
number_shorter i [] = omega arith
number_shorter i (c ∷ str) =
    if_cases (λ (r : ℕ × List ℕ). length r.1 ≤ suc (length str)) (is_digit c) _ _
      (λ _. omega (arith, number_shorter (word (i * 10 + (c - b'0'))) str)) (λ _. omega arith)

drop_digits_shorter : (str : List ℕ) → length (drop_digits str) ≤ length str
unfolding drop_digits
drop_digits_shorter [] = omega arith
drop_digits_shorter (c ∷ str) =
    if_cases (λ (s : List ℕ). length s ≤ suc (length str)) (is_digit c) _ _
      (λ _. omega (arith, drop_digits_shorter str)) (λ _. omega arith)

fraction_shorter : (i : ℕ) (str : List ℕ) → length (fraction i str).1 ≤ length str
unfolding fraction
fraction_shorter i [] = omega arith
fraction_shorter i (c ∷ str) =
    if_cases (λ (r : ℕ × List ℕ). length r.1 ≤ suc (length str)) (c == b'.') _ _
      (λ _. omega (arith, drop_digits_shorter str)) (λ _. omega arith)

suffix_shorter : (affcnt i : ℕ) (str : List ℕ) → length (suffix affcnt i str).2 ≤ length str
unfolding suffix
suffix_shorter affcnt i [] = omega arith
suffix_shorter affcnt i (c ∷ str) =
    let P : ℕ × Bool × List ℕ → Type 0 = λ r. length r.2 ≤ suc (length str) in
    if_cases P (c == b'*') _ _ (λ _. omega arith)
      (λ _. if_cases P (c == b'/') _ _ (λ _. omega arith) (λ _. omega arith))

pub calcdelay_shorter : (affcnt : ℕ) (str : List ℕ) → length (calcdelay affcnt str).2 ≤ length str
unfolding calcdelay
calcdelay_shorter affcnt str =
    let n = number 0 str in
    let f = fraction (word (n.0 * 10)) (n.1) in
    omega (
      arith,
      number_shorter 0 str,
      fraction_shorter (word (n.0 * 10)) (n.1),
      suffix_shorter affcnt (f.0) (f.1),
    )

-- A delay starts two characters on.
abbrev IsSpec : ℕ → Option (List ℕ) → Type 0
IsSpec n none = 0 < 1
IsSpec n (some spec) = suc (suc (length spec)) ≤ n

delay_at-IsSpec : (str : List ℕ) → IsSpec (length str) (delay_at str)
unfolding delay_at
delay_at-IsSpec [] = omega arith
delay_at-IsSpec (a ∷ []) = omega arith
delay_at-IsSpec (a ∷ b ∷ []) = omega arith
delay_at-IsSpec (a ∷ b ∷ c ∷ str) =
    if_cases (IsSpec (suc (suc (suc (length str)))))
      ((a == b'$') && ((b == b'<') && ((is_digit c || (c == b'.')) && contains b'>' str))) _ _
      (λ _. omega arith) (λ _. omega arith)

behind_shorter : (str : List ℕ) → length (behind str) ≤ length str
unfolding behind
behind_shorter [] = omega arith
behind_shorter (c ∷ str) = omega arith

module _ (dodelay : Bool) (os : ℤ) (pc affcnt : ℕ) where
  abbrev pub padding : ℕ × Bool × List ℕ → List ℕ
  padding d = if dodelay || d.1 then outputdelay (d.0) os pc else []

  -- On as much fuel as a string has characters, the loop that sends it ends, whatever the string
  -- is.
  pub send_ends :
      (fuel : ℕ) (str : List ℕ)
      → length str ≤ fuel
      → (out : List ℕ) × (send dodelay os pc affcnt fuel str ≡ some out)
  unfolding send
  send_ends fuel [] h = ([], refl)
  send_ends zero (c ∷ str) h = ground arith
  send_ends (suc fuel) (c ∷ str) h =
      go (delay_at (c ∷ str)) (delay_at-IsSpec (c ∷ str))
        (λ s l. send_ends fuel s (omega (arith, l, h)))
    where
      go :
          (o : Option (List ℕ))
          → IsSpec (suc (length str)) o
          → ((s : List ℕ)
              → length s ≤ length str
              → (out : List ℕ) × (send dodelay os pc affcnt fuel s ≡ some out))
          → (out : List ℕ) × (elim o as (λ _. Option (List ℕ)) [
            | none ↦ Option.map (λ out. c ∷ out) (send dodelay os pc affcnt fuel str)
            | some spec ↦
                let d = calcdelay affcnt spec in
                let pad = padding d in
                Option.map (λ out. pad ++ out) (send dodelay os pc affcnt fuel (behind (d.2)))
          ]
              ≡ some out)
      go none l rec =
          let r = rec str (omega arith) in (c ∷ r.0, ap (Option.map (λ out. c ∷ out)) (r.1))
      go (some spec) l rec =
          let d = calcdelay affcnt spec in
          let r =
            rec (behind (d.2))
              (omega (arith, behind_shorter (d.2), calcdelay_shorter affcnt spec, l)) in
          (padding d ++ r.0, ap (Option.map (λ out. padding d ++ out)) (r.1))
