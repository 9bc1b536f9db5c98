-- ===== src/Form/Word/Padded.antt =====
-- What lib/libform/type_alnum.c and type_alpha.c make of a word with blanks around it.
use netbsd_curses.Base.{
  ℕ, suc, ◌+◌, ◌≤◌, ◌<◌, ◌≡◌, refl, sym, ap, ◌∙◌, ltb, ◌==◌, if◌then◌else◌, Bool, true, false,
  Bool-cases, inl, inr, some, none, map, length-append, List, [], ◌∷◌, ◌++◌, length, arith,
}
use netbsd_curses.Base.Int.{pos}
use netbsd_curses.Form.Word.{
  Kind, alnum, alpha, is_in, is_blank, span, refused, overrun, accepted, copied, set_word, wider,
  check_end, check_start, check_word, check_field,
}
use mathlib.Core.List.{append-nil}

pub data All (p : ℕ → Bool) : List ℕ → Type 0 where
  none_left : All p []
  one_more : (c : ℕ) (s : List ℕ) → p c ≡ true → All p s → All p (c ∷ s)

abbrev pub Fails : (ℕ → Bool) → List ℕ → Type 0
Fails p [] = 0 < 1
Fails p (c ∷ s) = p c ≡ false

pub span-append :
    (p : ℕ → Bool) (xs ys : List ℕ) → All p xs → Fails p ys → span p (xs ++ ys) ≡ (xs, ys)
unfolding span
span-append p [] [] none_left f = refl
span-append p [] (c ∷ ys) none_left f = rw f
span-append p (c ∷ xs) ys (one_more _ _ e h) f = rw (e, span-append p xs ys h f)

in_not_blank : (kind : Kind) (c : ℕ) → is_in kind c ≡ true → is_blank c ≡ false
in_not_blank alnum c h = ground arith
in_not_blank alpha c h = ground arith

blank_not_in : (kind : Kind) (c : ℕ) → is_blank c ≡ true → is_in kind c ≡ false
blank_not_in alnum c h = ground arith
blank_not_in alpha c h = ground arith

blanks-Fails : (kind : Kind) (trail : List ℕ) → All is_blank trail → Fails (is_in kind) trail
blanks-Fails kind [] h = omega arith
blanks-Fails kind (c ∷ s) (one_more _ _ e h) = blank_not_in kind c e

set_word-start :
    (start c : ℕ) (word : List ℕ)
    → set_word start (c ∷ word) ≡ (if start == 0 then accepted (copied (c ∷ word)) else overrun)
unfolding set_word
set_word-start start c word = elim (Bool-cases (start == 0)) [
  | inl e ↦
      let in_room : ltb (start + suc (length word)) (suc (length word) + 1) ≡ true = ground arith in
      rw (e, in_room)
  | inr e ↦
      let past : ltb (start + suc (length word)) (suc (length word) + 1) ≡ false = ground arith in
      rw (e, past)
]

-- What the check makes of a word `c ∷ word` with any blanks around it.
check_field-word :
    (grants : ℕ → Bool) (kind : Kind) (width : ℕ) (blanks word trail : List ℕ) (c : ℕ)
    → ((l : ℕ) → grants l ≡ true)
    → All is_blank blanks
    → All (is_in kind) (c ∷ word)
    → All is_blank trail
    → length (c ∷ word) ≤ width
    → check_field grants kind (pos width) (some (blanks ++ ((c ∷ word) ++ trail)))
      ≡ (if length blanks == 0 then accepted (copied (c ∷ word)) else overrun)
unfolding check_field check_start check_word check_end
check_field-word grants kind width blanks word trail c g b (one_more _ _ e w) t l =
    let first = span-append is_blank blanks (c ∷ (word ++ trail)) b (in_not_blank kind c e) in
    let middle =
      span-append (is_in kind) (c ∷ word) trail (one_more c word e w) (blanks-Fails kind trail t) in
    let last : span is_blank trail ≡ (trail, []) =
      ap (λ s. span is_blank s) (sym (append-nil trail))
      ∙ span-append is_blank trail [] t (omega arith) in
    let fits : ltb width (suc (length word)) ≡ false = ground (arith, l) in
    ap (λ r. check_start grants kind (pos width) r) first
    ∙ ap
        (λ r.
          if wider (length (r.0)) (pos width)
          then refused
          else check_end grants kind (pos width) (length blanks) (r.0) (span is_blank (r.1)).1)
        middle
    ∙ ap
        (λ b.
          if b
          then refused
          else check_end grants kind (pos width) (length blanks) (c ∷ word) (span is_blank trail).1)
        fits
    ∙ ap (λ r. check_end grants kind (pos width) (length blanks) (c ∷ word) (r.1)) last
    ∙ ap (λ b. if b then set_word (length blanks) (c ∷ word) else refused)
        (g (length (c ∷ word) + 1))
    ∙ set_word-start (length blanks) c word

copied-body : (body : List ℕ) (c : ℕ) → copied (body ++ c ∷ []) ≡ map some body ++ none ∷ []
unfolding copied
copied-body [] c = refl
copied-body (b ∷ []) c = refl
copied-body (b ∷ d ∷ body) c = ap (λ s. some b ∷ s) (copied-body (d ∷ body) c)

-- A word of the class, not longer than the width and with any blanks around it, is accepted, but with
-- a character that was never written in place of its last one, `c`, if it starts the field; behind a
-- blank the NUL is written outside the new buffer.
pub check_field-padded :
    (grants : ℕ → Bool) (kind : Kind) (width : ℕ) (blanks body trail : List ℕ) (c : ℕ)
    → ((l : ℕ) → grants l ≡ true)
    → All is_blank blanks
    → All (is_in kind) (body ++ c ∷ [])
    → All is_blank trail
    → length body < width
    → check_field grants kind (pos width) (some (blanks ++ ((body ++ c ∷ []) ++ trail)))
      ≡ (if length blanks == 0 then accepted (map some body ++ none ∷ []) else overrun)
check_field-padded grants kind width blanks [] trail c g b w t l =
    check_field-word grants kind width blanks [] trail c g b w t (omega arith)
    ∙ ap (λ s. if length blanks == 0 then accepted s else overrun) (copied-body [] c)
check_field-padded grants kind width blanks (d ∷ body) trail c g b w t l =
    check_field-word grants kind width blanks (body ++ c ∷ []) trail d g b w t
      (omega (arith, length-append body (c ∷ [])))
    ∙ ap (λ s. if length blanks == 0 then accepted s else overrun) (copied-body (d ∷ body) c)
