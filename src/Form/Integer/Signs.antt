-- ===== src/Form/Integer/Signs.antt =====
-- What lib/libform/type_integer.c makes of signs.
use netbsd_curses.Base.{
  ℕ, suc, ◌≤◌, ◌≡◌, ◌≢◌, refl, sym, ap, ◌∙◌, ◌==◌, Bool, true, false, some, List, [], ◌∷◌, ◌++◌,
  arith,
}
use netbsd_curses.Base.Int.{ℤ, pos, negsuc}
use netbsd_curses.Form.Word.{is_blank, span}
use netbsd_curses.Form.Word.Padded.{All, none_left, one_more, Fails, span-append}
use netbsd_curses.Form.Integer.{
  accepted, is_digit, is_space, is_sign, value, signed, after_sign, numeric, atol, format, judge,
  check_field,
}
use netbsd_curses.Form.Integer.Stable.{check_start-accepted}
use netbsd_curses.Form.Integer.Reads.{length-padded, check_field-read, check_field-digits}

sign_not_blank : (c : ℕ) → is_sign c ≡ true → is_blank c ≡ false
sign_not_blank c h = ground arith

sign_not_space : (c : ℕ) → is_sign c ≡ true → is_space c ≡ false
sign_not_space c h = ground arith

signed_zero : (b : Bool) → signed b 0 ≡ pos 0
signed_zero true = refl
signed_zero false = refl

after_lone : (c : ℕ) → is_sign c ≡ true → after_sign (c ∷ []) ≡ []
after_lone c h = rw h

numeric-lone : (c : ℕ) → is_sign c ≡ true → numeric (c ∷ []) ≡ pos 0
unfolding numeric span value
numeric-lone c h =
    ap (λ s. signed (c == b'-') (value 0 (span is_digit s).0)) (after_lone c h)
    ∙ signed_zero (c == b'-')

zero_read : value 0 (b'0' ∷ []) ≡ 0
unfolding value
zero_read = refl

-- A sign with no digits behind it is checked as 0 is.
pub check_field_lone_sign :
    (grants : ℕ → Bool) (precision : ℕ) (min max : ℤ) (c : ℕ)
    → is_sign c ≡ true
    → check_field grants precision min max (some (c ∷ []))
      ≡ check_field grants precision min max (some (b'0' ∷ []))
check_field_lone_sign grants precision min max c h =
    check_field-read grants precision min max c [] (sign_not_blank c h) (sign_not_space c h)
      (rw (after_lone c h) none_left)
    ∙ ap (λ i. judge grants precision min max i) (numeric-lone c h)
    ∙ sym (
        check_field-digits grants precision min max 0 (b'0' ∷ []) (one_more b'0' [] refl none_left)
          (omega arith) zero_read)

judge-negative :
    (grants : ℕ → Bool) (precision : ℕ) (min max : ℤ) (n : ℕ) (t : List ℕ)
    → 22 ≤ precision
    → judge grants precision min max (negsuc n) ≢ accepted t
unfolding judge format
judge-negative grants precision min max n t p h =
    let long = length-padded precision (suc n) in ground (arith, long)

blanks-All : (blanks : List ℕ) → All is_blank blanks → All is_space blanks
blanks-All [] none_left = none_left
blanks-All (c ∷ s) (one_more _ _ e h) = one_more c s (blank_space c e) (blanks-All s h)
  where
    blank_space : (c : ℕ) → is_blank c ≡ true → is_space c ≡ true
    blank_space c e = ground arith

blanks-Fails : (trail : List ℕ) → All is_blank trail → Fails is_digit trail
blanks-Fails [] h = omega arith
blanks-Fails (c ∷ s) (one_more _ _ e h) = blank_not_digit c e
  where
    blank_not_digit : (c : ℕ) → is_blank c ≡ true → is_digit c ≡ false
    blank_not_digit c e = ground arith

atol-negative :
    (n : ℕ) (blanks s trail : List ℕ)
    → All is_blank blanks
    → All is_digit s
    → All is_blank trail
    → value 0 s ≡ suc n
    → atol (blanks ++ b'-' ∷ (s ++ trail)) ≡ negsuc n
unfolding numeric
atol-negative n blanks s trail b h t v =
    ap (λ r. numeric (r.1))
      (span-append is_space blanks (b'-' ∷ (s ++ trail)) (blanks-All blanks b) refl)
    ∙ ap (λ r. signed true (value 0 (r.0))) (span-append is_digit s trail h (blanks-Fails trail t))
    ∙ ap (signed true) v

-- With a precision of 22 or more no negative number, with any blanks around it, is accepted, whatever
-- the range allows: the sign has no place in the text.
pub check_field_wide_negative :
    (grants : ℕ → Bool) (precision : ℕ) (min max : ℤ) (n : ℕ) (blanks s trail t : List ℕ)
    → 22 ≤ precision
    → All is_blank blanks
    → All is_digit s
    → All is_blank trail
    → value 0 s ≡ suc n
    → check_field grants precision min max (some (blanks ++ b'-' ∷ (s ++ trail))) ≢ accepted t
unfolding check_field
check_field_wide_negative grants precision min max n blanks s trail t p b h tr v k =
    judge-negative grants precision min max n t p (
      sym (ap (judge grants precision min max) (atol-negative n blanks s trail b h tr v))
      ∙ check_start-accepted grants precision min max (blanks ++ b'-' ∷ (s ++ trail)) _ t k)
