-- ===== src/Form/Tests.antt =====
-- Fields of lib/libform/type_alnum.c, type_alpha.c and type_integer.c at small inputs.
use netbsd_curses.Base.{
  ℕ, ◌≡◌, ◌≢◌, refl, ◌==◌, if◌then◌else◌, true, some, none, map, List, [], ◌∷◌, ◌++◌, length, arith,
}
use netbsd_curses.Base.Int.{pos, negsuc}
use netbsd_curses.Form.Integer
use netbsd_curses.Form.Integer.{refused, value, print_digits, zeros, padded, format, judge}
use netbsd_curses.Form.Integer.Stable.{check_field-stable}
use netbsd_curses.Form.Integer.Signs.{check_field_lone_sign, check_field_wide_negative}
use netbsd_curses.Form.Word.{alnum, span, overrun, accepted, check_field}
use netbsd_curses.Form.Word.Padded.{one_more, none_left, check_field-padded}

abbrev blank : List ℕ
blank = b' ' ∷ []

-- ab behind a blank.
check_field-padded_example :
    check_field (λ l. true) alnum (pos 5) (some (blank ++ (((b'a' ∷ []) ++ b'b' ∷ []) ++ blank)))
    ≡ (if length blank == 0 then accepted (map some (b'a' ∷ []) ++ none ∷ []) else overrun)
check_field-padded_example =
    check_field-padded (λ l. true) alnum 5 blank (b'a' ∷ []) blank b'b' (λ l. refl)
      (one_more b' ' [] refl none_left) (one_more b'a' _ refl (one_more b'b' [] refl none_left))
      (one_more b' ' [] refl none_left) (omega arith)

-- -42 with blanks around it, at three digits.
reformatted :
    Integer.check_field
      (λ l. true)
      3
      (negsuc 99)
      (pos 99)
      (some (b' ' ∷ b'-' ∷ b'4' ∷ b'2' ∷ b' ' ∷ []))
    ≡ Integer.accepted (b'-' ∷ b'0' ∷ b'4' ∷ b'2' ∷ [])
unfolding Integer.check_field Integer.check_start Integer.check_end Integer.numeric span value judge
    format padded zeros print_digits
reformatted = refl

check_field-stable_example :
    Integer.check_field (λ l. true) 3 (negsuc 99) (pos 99) (some (b'-' ∷ b'0' ∷ b'4' ∷ b'2' ∷ []))
    ≡ Integer.accepted (b'-' ∷ b'0' ∷ b'4' ∷ b'2' ∷ [])
check_field-stable_example =
    check_field-stable (λ l. true) 3 (negsuc 99) (pos 99)
      (some (b' ' ∷ b'-' ∷ b'4' ∷ b'2' ∷ b' ' ∷ [])) (b'-' ∷ b'0' ∷ b'4' ∷ b'2' ∷ []) (omega arith)
      reformatted

check_field_lone_sign_example :
    Integer.check_field (λ l. true) 1 (pos 0) (pos 9) (some (b'+' ∷ []))
    ≡ Integer.check_field (λ l. true) 1 (pos 0) (pos 9) (some (b'0' ∷ []))
check_field_lone_sign_example = check_field_lone_sign (λ l. true) 1 (pos 0) (pos 9) b'+' refl

abbrev four : List ℕ
four = b'4' ∷ []

four_read : value 0 four ≡ 4
unfolding value
four_read = refl

check_field_wide_negative_example :
    Integer.check_field (λ l. true) 30 (negsuc 9) (pos 9) (some (blank ++ b'-' ∷ (four ++ blank)))
    ≢ Integer.accepted []
check_field_wide_negative_example =
    check_field_wide_negative (λ l. true) 30 (negsuc 9) (pos 9) 3 blank four blank [] (omega arith)
      (one_more b' ' [] refl none_left) (one_more b'4' [] refl none_left)
      (one_more b' ' [] refl none_left) four_read
