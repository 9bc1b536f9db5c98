-- ===== src/Form/Integer/Stable.antt =====
-- What lib/libform/type_integer.c makes of its own text.
use netbsd_curses.Base.{ℕ, ◌≤◌, ◌≡◌, ap, ◌∙◌, Bool, true, Option, none, some, List, [], ◌∷◌, arith}
use netbsd_curses.Base.Int.{ℤ}
use netbsd_curses.Form.Integer.{
  accepted, atol, in_long, print, format, judge, check_end, check_start, check_field,
}
use netbsd_curses.Form.Integer.Reads.{check_field-print}

module _ (grants : ℕ → Bool) (precision : ℕ) (min max : ℤ) where
  -- What a judgement that accepts goes back to.
  judge-accepted :
      (i : ℤ) (t : List ℕ)
      → judge grants precision min max i ≡ accepted t
      → t ≡ print precision i × in_long i ≡ true
  unfolding judge format
  judge-accepted i t h = ground arith

  check_end-accepted :
      (buf s t : List ℕ)
      → check_end grants precision min max buf s ≡ accepted t
      → judge grants precision min max (atol buf) ≡ accepted t
  unfolding check_end
  check_end-accepted buf [] t h = h
  check_end-accepted buf (c ∷ s) t h = ground arith

  pub check_start-accepted :
      (buf s t : List ℕ)
      → check_start grants precision min max buf s ≡ accepted t
      → judge grants precision min max (atol buf) ≡ accepted t
  unfolding check_start
  check_start-accepted buf [] t h = ground arith
  check_start-accepted buf (c ∷ s) t h = check_end-accepted buf _ t h

  check_field-accepted :
      (buf : Option (List ℕ)) (t : List ℕ)
      → check_field grants precision min max buf ≡ accepted t
      → (i : ℤ) × (judge grants precision min max i ≡ accepted t)
  unfolding check_field
  check_field-accepted none t h = ground arith
  check_field-accepted (some buf) t h = (atol buf, check_start-accepted buf _ t h)

-- With a precision of at least 1, the text that the check puts into the field is accepted by the same
-- check and does not change again, whatever the field held before.
pub check_field-stable :
    (grants : ℕ → Bool) (precision : ℕ) (min max : ℤ) (buf : Option (List ℕ)) (t : List ℕ)
    → 1 ≤ precision
    → check_field grants precision min max buf ≡ accepted t
    → check_field grants precision min max (some t) ≡ accepted t
check_field-stable grants precision min max buf t p h =
    let (i, k) = check_field-accepted grants precision min max buf t h in
    let (text, long) = judge-accepted grants precision min max i t k in
    ap (λ u. check_field grants precision min max (some u)) text
    ∙ check_field-print grants precision min max i p long
    ∙ k
