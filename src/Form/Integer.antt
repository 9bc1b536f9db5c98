-- ===== src/Form/Integer.antt =====
-- lib/libform/type_integer.c. A buffer stands without its NUL, and long has 64 bits; the precision is
-- one that int holds.
pub mod Reads
pub mod Signs
pub mod Stable
use netbsd_curses.Base.{
  ℕ, zero, suc, ◌+◌, ◌-◌, ◌*◌, ◌/◌, ◌%◌, ◌^◌, ltb, leb, ◌==◌, ◌&&◌, ◌||◌, if◌then◌else◌, Bool, true,
  false, Option, none, some, List, [], ◌∷◌, length,
}
use netbsd_curses.Base.Int.{ℤ, pos, negsuc, pos_part, neg_part}
use netbsd_curses.Form.Word.{is_blank, span}

-- FALSE; TRUE with buffer 0 of the field set to the text; a number that atol has no value for.
pub data Outcome : Type 0 where
  refused undefined : Outcome
  accepted : List ℕ → Outcome

abbrev pub lt_ℤ : ℤ → ℤ → Bool
lt_ℤ a b = ltb (pos_part a + neg_part b) (pos_part b + neg_part a)

abbrev pub is_digit : ℕ → Bool
is_digit c = leb b'0' c && leb c b'9'

-- isspace in the C locale.
abbrev pub is_space : ℕ → Bool
is_space c = (c == b' ') || (leb 9 c && leb c 13)

abbrev pub is_sign : ℕ → Bool
is_sign c = (c == b'-') || (c == b'+')

-- The number that the digits continue.
unfoldable pub value : ℕ → List ℕ → ℕ
value v [] = v
value v (c ∷ s) = value (v * 10 + (c - b'0')) s

abbrev pub minus : ℕ → ℤ
minus zero = pos 0
minus (suc n) = negsuc n

abbrev pub after_sign : List ℕ → List ℕ
after_sign [] = []
after_sign (c ∷ s) = if is_sign c then s else c ∷ s

abbrev pub negated : List ℕ → Bool
negated [] = false
negated (c ∷ s) = c == b'-'

abbrev pub signed : Bool → ℕ → ℤ
signed true n = minus n
signed false n = pos n

-- atol, before the test that a long holds the number.
unfoldable pub numeric : List ℕ → ℤ
numeric s = signed (negated s) (value 0 (span is_digit (after_sign s)).0)

abbrev pub atol : List ℕ → ℤ
atol s = numeric (span is_space s).1

abbrev pub in_long : ℤ → Bool
in_long (pos n) = ltb n (2 ^ 63)
in_long (negsuc n) = ltb n (2 ^ 63)

-- The digits of a number below 10 ^ fuel, none for 0.
unfoldable pub print_digits : ℕ → ℕ → List ℕ → List ℕ
print_digits zero n rest = rest
print_digits (suc fuel) n rest =
    let more = print_digits fuel (n / 10) ((b'0' + n % 10) ∷ rest) in if n == 0 then rest else more

unfoldable pub zeros : ℕ → List ℕ → List ℕ
zeros zero s = s
zeros (suc k) s = b'0' ∷ zeros k s

-- At least as many digits as the precision says.
unfoldable pub padded : ℕ → ℕ → List ℕ
padded precision n = let ds = print_digits 20 n [] in zeros (precision - length ds) ds

-- "%.*ld".
abbrev pub print : ℕ → ℤ → List ℕ
print precision (pos n) = padded precision n
print precision (negsuc n) = b'-' ∷ padded precision (suc n)

-- The bytes that are allocated for the text.
abbrev pub room : ℕ → ℕ
room precision = if ltb 22 precision then precision + 1 else 23

-- `grants` says whether there is memory for so many characters.
module _ (grants : ℕ → Bool) (precision : ℕ) (min max : ℤ) where
  unfoldable pub format : ℤ → Outcome
  format number =
      if grants (room precision)
      then if leb (room precision) (length (print precision number))
        then refused
        else accepted (print precision number)
      else refused

  abbrev pub outside : ℤ → Bool
  outside number = lt_ℤ max min || (lt_ℤ number min || lt_ℤ max number)

  unfoldable pub judge : ℤ → Outcome
  judge number =
      if in_long number then if outside number then refused else format number else undefined

  -- What stands behind the digits and the blanks.
  unfoldable pub check_end : List ℕ → List ℕ → Outcome
  check_end buf (c ∷ s) = refused
  check_end buf [] = judge (atol buf)

  unfoldable pub check_start : List ℕ → List ℕ → Outcome
  check_start buf [] = refused
  check_start buf (c ∷ s) = check_end buf (span is_blank (span is_digit (after_sign (c ∷ s))).1).1

  unfoldable pub check_field : Option (List ℕ) → Outcome
  check_field none = refused
  check_field (some buf) = check_start buf (span is_blank buf).1

unfoldable pub check_char : ℕ → Bool
check_char c = is_digit c || is_sign c
