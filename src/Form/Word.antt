-- ===== src/Form/Word.antt =====
-- lib/libform/type_alnum.c and type_alpha.c, which differ in the class of the characters only. A buffer
-- stands without its NUL.
pub mod Padded
use netbsd_curses.Base.{
  ℕ, zero, suc, ◌+◌, ltb, leb, ◌==◌, ◌&&◌, ◌||◌, if◌then◌else◌, Bool, true, false, Option, none,
  some, List, [], ◌∷◌, length,
}
use netbsd_curses.Base.Int.{ℤ, pos, negsuc}

-- TYPE_ALNUM and TYPE_ALPHA.
pub data Kind : Type 0 where
  alnum alpha : Kind

abbrev pub is_letter : ℕ → Bool
is_letter c = (leb b'a' c && leb c b'z') || (leb b'A' c && leb c b'Z')

-- isalnum and isalpha in the C locale.
abbrev pub is_in : Kind → ℕ → Bool
is_in alnum c = is_letter c || (leb b'0' c && leb c b'9')
is_in alpha c = is_letter c

abbrev pub is_blank : ℕ → Bool
is_blank c = (c == b' ') || (c == 9)

-- The characters passed over and what follows them.
unfoldable pub span : (ℕ → Bool) → List ℕ → List ℕ × List ℕ
span p [] = ([], [])
span p (c ∷ s) = let r = span p s in if p c then (c ∷ r.0, r.1) else ([], c ∷ s)

-- FALSE; TRUE with buffer 0 of the field set to what is given, in which `none` is a character that was
-- never written; a write behind the allocated buffer.
pub data Checked : Type 0 where
  refused overrun : Checked
  accepted : List (Option ℕ) → Checked

-- All but the last character are copied, and the NUL is put behind the place of the last.
unfoldable pub copied : List ℕ → List (Option ℕ)
copied [] = []
copied (c ∷ []) = none ∷ []
copied (c ∷ d ∷ word) = some c ∷ copied (d ∷ word)

-- The NUL of a word that starts at `start` goes to the index of its end in the field.
unfoldable pub set_word : ℕ → List ℕ → Checked
set_word start [] = accepted []
set_word start (c ∷ word) =
    if ltb (start + length (c ∷ word)) (length (c ∷ word) + 1)
    then accepted (copied (c ∷ word))
    else overrun

abbrev pub wider : ℕ → ℤ → Bool
wider n (pos width) = ltb width n
wider n (negsuc width) = true

-- `grants` says whether there is memory for so many characters.
module _ (grants : ℕ → Bool) (kind : Kind) (width : ℤ) where
  unfoldable pub check_end : ℕ → List ℕ → List ℕ → Checked
  check_end start word (d ∷ rest) = refused
  check_end start word [] = if grants (length word + 1) then set_word start word else refused

  unfoldable pub check_word : ℕ → List ℕ → Checked
  check_word start s =
      let word = span (is_in kind) s in
      if wider (length (word.0)) width
      then refused
      else check_end start (word.0) (span is_blank (word.1)).1

  unfoldable pub check_start : List ℕ × List ℕ → Checked
  check_start (blanks, []) = refused
  check_start (blanks, c ∷ s) = check_word (length blanks) (c ∷ s)

  unfoldable pub check_field : Option (List ℕ) → Checked
  check_field none = refused
  check_field (some buf) = check_start (span is_blank buf)

unfoldable pub check_char : Kind → ℕ → Bool
check_char kind c = is_in kind c
