-- ===== src/Form/Integer/Reads.antt =====
-- How lib/libform/type_integer.c reads the text that it prints.
use netbsd_curses.Base.{
  ℕ, zero, suc, ◌+◌, ◌-◌, ◌*◌, ◌/◌, ◌%◌, ◌^◌, ◌≤◌, ◌<◌, ◌≡◌, refl, sym, ap, ◌∙◌, ◌==◌, Bool, true,
  false, Bool-cases, inl, inr, some, List, [], ◌∷◌, length, arith,
}
use netbsd_curses.Base.Int.{ℤ, pos, negsuc}
use netbsd_curses.Form.Word.{is_blank, span}
use netbsd_curses.Form.Word.Padded.{All, none_left, one_more, span-append}
use netbsd_curses.Form.Integer.{
  is_digit, is_space, is_sign, value, signed, after_sign, numeric, in_long, print_digits, zeros,
  padded, print, judge, check_end, check_start, check_field,
}
use mathlib.Core.List.{append-nil}

-- The fuel of the digits.

value-print_digits :
    (fuel n : ℕ) (rest : List ℕ) → n < 10 ^ fuel → value 0 (print_digits fuel n rest) ≡ value n rest
unfolding print_digits value
value-print_digits zero n rest l = let e : 0 ≡ n = omega arith in ap (λ v. value v rest) e
value-print_digits (suc fuel) n rest l = elim (Bool-cases (n == 0)) [
  | inl e ↦ let z : 0 ≡ n = ground arith in rw e (ap (λ v. value v rest) z)
  | inr e ↦
      let small : n / 10 < 10 ^ fuel = omega arith in
      let back : n / 10 * 10 + ((b'0' + n % 10) - b'0') ≡ n = omega arith in
      rw (e, value-print_digits fuel (n / 10) ((b'0' + n % 10) ∷ rest) small, back)
]

print_digits-All :
    (fuel n : ℕ) (rest : List ℕ) → All is_digit rest → All is_digit (print_digits fuel n rest)
unfolding print_digits
print_digits-All zero n rest h = h
print_digits-All (suc fuel) n rest h = elim (Bool-cases (n == 0)) [
  | inl e ↦ rw e h
  | inr e ↦ rw e (
      print_digits-All fuel (n / 10) ((b'0' + n % 10) ∷ rest)
        (one_more (b'0' + n % 10) rest (ground arith) h))
]

value-zeros : (k : ℕ) (s : List ℕ) → value 0 (zeros k s) ≡ value 0 s
unfolding zeros value
value-zeros zero s = refl
value-zeros (suc k) s = value-zeros k s

zeros-All : (k : ℕ) (s : List ℕ) → All is_digit s → All is_digit (zeros k s)
unfolding zeros
zeros-All zero s h = h
zeros-All (suc k) s h = one_more b'0' (zeros k s) refl (zeros-All k s h)

length-zeros : (k : ℕ) (s : List ℕ) → length (zeros k s) ≡ k + length s
unfolding zeros
length-zeros zero s = omega arith
length-zeros (suc k) s = omega (arith, length-zeros k s)

value-padded : (p n : ℕ) → n < 10 ^ 20 → value 0 (padded p n) ≡ n
unfolding padded value
value-padded p n l =
    value-zeros (p - length (print_digits 20 n [])) (print_digits 20 n [])
    ∙ value-print_digits 20 n [] l

padded-All : (p n : ℕ) → All is_digit (padded p n)
unfolding padded
padded-All p n = zeros-All _ _ (print_digits-All 20 n [] none_left)

pub length-padded : (p n : ℕ) → p ≤ length (padded p n)
unfolding padded
length-padded p n =
    let e = length-zeros (p - length (print_digits 20 n [])) (print_digits 20 n []) in
    omega (arith, e)

-- The text is read as the number.

digit_not_blank : (c : ℕ) → is_digit c ≡ true → is_blank c ≡ false
digit_not_blank c h = ground arith

digit_not_space : (c : ℕ) → is_digit c ≡ true → is_space c ≡ false
digit_not_space c h = ground arith

digit_not_sign : (c : ℕ) → is_digit c ≡ true → is_sign c ≡ false
digit_not_sign c h = ground arith

digit_not_minus : (c : ℕ) → is_digit c ≡ true → (c == b'-') ≡ false
digit_not_minus c h = ground arith

span-All : (p : ℕ → Bool) (s : List ℕ) → All p s → span p s ≡ (s, [])
span-All p s h = ap (λ t. span p t) (sym (append-nil s)) ∙ span-append p s [] h (omega arith)

span-first : (p : ℕ → Bool) (c : ℕ) (s : List ℕ) → p c ≡ false → span p (c ∷ s) ≡ ([], c ∷ s)
span-first p c s h = span-append p [] (c ∷ s) none_left h

numeric-digits :
    (c : ℕ) (s : List ℕ) → All is_digit (c ∷ s) → numeric (c ∷ s) ≡ pos (value 0 (c ∷ s))
unfolding numeric
numeric-digits c s (one_more _ _ e h) =
    rw (digit_not_sign c e, digit_not_minus c e, span-All is_digit (c ∷ s) (one_more c s e h))

numeric-minus :
    (c : ℕ) (s : List ℕ)
    → All is_digit (c ∷ s)
    → numeric (b'-' ∷ c ∷ s) ≡ signed true (value 0 (c ∷ s))
unfolding numeric
numeric-minus c s h = rw (span-All is_digit (c ∷ s) h)

module _ (grants : ℕ → Bool) (precision : ℕ) (min max : ℤ) where
  pub check_field-read :
      (c : ℕ) (s : List ℕ)
      → is_blank c ≡ false
      → is_space c ≡ false
      → All is_digit (after_sign (c ∷ s))
      → check_field grants precision min max (some (c ∷ s))
        ≡ judge grants precision min max (numeric (c ∷ s))
  unfolding check_field check_start check_end
  check_field-read c s b w h =
      ap (λ r. check_start grants precision min max (c ∷ s) (r.1)) (span-first is_blank c s b)
      ∙ ap (λ r. check_end grants precision min max (c ∷ s) (span is_blank (r.1)).1)
          (span-All is_digit (after_sign (c ∷ s)) h)
      ∙ ap (λ r. check_end grants precision min max (c ∷ s) (r.1)) (span-All is_blank [] none_left)
      ∙ ap (λ r. judge grants precision min max (numeric (r.1))) (span-first is_space c s w)

  pub check_field-digits :
      (n : ℕ) (s : List ℕ)
      → All is_digit s
      → 1 ≤ length s
      → value 0 s ≡ n
      → check_field grants precision min max (some s) ≡ judge grants precision min max (pos n)
  check_field-digits n [] h l v = ground arith
  check_field-digits n (c ∷ s) (one_more _ _ e h) l v =
      check_field-read c s (digit_not_blank c e) (digit_not_space c e)
        (rw (digit_not_sign c e) (one_more c s e h))
      ∙ ap (λ i. judge grants precision min max i) (numeric-digits c s (one_more c s e h))
      ∙ ap (λ m. judge grants precision min max (pos m)) v

  pub check_field-minus :
      (n : ℕ) (s : List ℕ)
      → All is_digit s
      → 1 ≤ length s
      → value 0 s ≡ n
      → check_field grants precision min max (some (b'-' ∷ s))
        ≡ judge grants precision min max (signed true n)
  check_field-minus n [] h l v = ground arith
  check_field-minus n (c ∷ s) h l v =
      check_field-read b'-' (c ∷ s) refl refl h
      ∙ ap (λ i. judge grants precision min max i) (numeric-minus c s h)
      ∙ ap (λ m. judge grants precision min max (signed true m)) v

  pub check_field-print :
      (i : ℤ)
      → 1 ≤ precision
      → in_long i ≡ true
      → check_field grants precision min max (some (print precision i))
        ≡ judge grants precision min max i
  check_field-print (pos n) p l =
      let long = length-padded precision n in
      check_field-digits n (padded precision n) (padded-All precision n) (omega (arith, long))
        (value-padded precision n (ground arith))
  check_field-print (negsuc n) p l =
      let long = length-padded precision (suc n) in
      check_field-minus (suc n) (padded precision (suc n)) (padded-All precision (suc n))
        (omega (arith, long)) (value-padded precision (suc n) (ground arith))
