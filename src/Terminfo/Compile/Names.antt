-- ===== src/Terminfo/Compile/Names.antt =====
-- lib/libterminfo/compile.c: _ti_find_extra finds no name that is not there.
use netbsd_curses.Base.{
  ℕ, suc, ◌+◌, ◌^◌, ◌<◌, ◌≡◌, refl, sym, ap, ◌∙◌, ◌⊎◌, inl, inr, leb, ◌==◌, ◌||◌, if◌then◌else◌,
  Bool, true, false, Bool-cases, none, some, List, [], ◌∷◌, ◌++◌, length, map,
}
use netbsd_curses.Terminfo.Bytes.{Answer, gives, ◌>>=◌, Rtype, split}
use netbsd_curses.Terminfo.Bytes.RoundTrip.{u16, decode_16-then, split-then}
use netbsd_curses.Terminfo.Tbuf.{Tbuf, first, is_string, extra_from, find_extra, skip_value}
use netbsd_curses.Terminfo.Tbuf.Writes.{granted}
use netbsd_curses.Terminfo.Tbuf.Entries.{kind, value_bytes, IsFit, skip_value-bytes}
use netbsd_curses.Terminfo.Compile.{Host, up_to, same, use_cap}
use netbsd_curses.Terminfo.Compile.Describes.{
  Extra, extra_bytes, extras_bytes, AllExtra, and_extra, HoldsExtra,
}
use mathlib.Core.List.{append_assoc, append-nil}

-- The memory never runs out.
abbrev pub Grants : Host → Type 0
Grants host = (l : ℕ) → host.grants l ≡ true

pub granted_all : (host : Host) (t : Tbuf) (n : ℕ) → Grants host → granted host.grants t n ≡ true
unfolding granted
granted_all host t n g = or_true (leb (length t.text + n) t.size) _ (g (length t.text + n))
  where
    or_true : (a b : Bool) → b ≡ true → (a || b) ≡ true
    or_true true b h = refl
    or_true false b h = h

-- The names of capabilities, and whether one is among them.
abbrev pub names : List Extra → List (List ℕ)
names es = map (λ (e : Extra). up_to 0 e.id) es

abbrev pub among : List ℕ → List (List ℕ) → Bool
among name [] = false
among name (other ∷ others) = same other name || among name others

-- Behind the names `seen`, no name but use comes a second time.
pub data NoneTwice : List (List ℕ) → List (List ℕ) → Type 0 where
  no_name : (seen : List (List ℕ)) → NoneTwice seen []
  new_name :
      (seen : List (List ℕ)) (name : List ℕ) (rest : List (List ℕ))
      → (same name use_cap ≡ true) ⊎ (among name seen ≡ false)
      → NoneTwice (seen ++ name ∷ []) rest
      → NoneTwice seen (name ∷ rest)

-- The comparison of strings that end at their NUL.
is_string-same :
    (s tail code : List ℕ)
    → is_string ((s ++ 0 ∷ []) ++ tail) code ≡ gives (same (up_to 0 (s ++ 0 ∷ [])) code)
unfolding is_string same up_to
is_string-same [] tail [] = refl
is_string-same [] tail (c ∷ code) = refl
is_string-same (d ∷ s) tail [] = elim (Bool-cases (d == 0)) [ inl z ↦ rw z | inr z ↦ rw z ]
is_string-same (d ∷ s) tail (c ∷ code) = elim (Bool-cases (d == 0)) [
  | inl z ↦ rw z
  | inr z ↦ elim (Bool-cases (d == c)) [
    | inl e ↦ rw (z, e) (is_string-same s tail code)
    | inr e ↦ rw (z, e)
  ]
]

-- One capability that is not the one searched for.
extra_from-other :
    (rtype : Rtype) (code : List ℕ) (n : ℕ) (e : Extra) (s rest : List ℕ)
    → e.id ≡ s ++ 0 ∷ []
    → length e.id < 2 ^ 16
    → IsFit e.value
    → same (up_to 0 e.id) code ≡ false
    → extra_from rtype code (suc n) (extra_bytes rtype e ++ rest) ≡ extra_from rtype code n rest
unfolding extra_from split first
extra_from-other rtype code n e s rest named l fit differs =
    let tail = kind e.value ∷ (value_bytes rtype e.value ++ rest) in
    let compared : is_string (e.id ++ tail) code ≡ gives false =
      ap (λ id. is_string (id ++ tail) code) named
      ∙ is_string-same s tail code
      ∙ ap (λ id. gives (same (up_to 0 id) code)) (sym named)
      ∙ ap gives differs in
    ap (λ cap. extra_from rtype code (suc n) cap)
      (append_assoc (u16 (length e.id) ++ e.id) (kind e.value ∷ value_bytes rtype e.value) rest)
    ∙ decode_16-then (length e.id) e.id tail _ l
    ∙ ap
        (λ (r : Answer Bool). r >>= λ b. split (length e.id) (e.id ++ tail) >>= λ p.
          if b
          then gives (some (p.1))
          else (split 1 (p.1) >>= λ q.
              skip_value rtype (first (q.0)) (q.1) >>= λ cap. extra_from rtype code n cap))
        compared
    ∙ split-then e.id tail _
    ∙ ap (λ (r : Answer (List ℕ)). r >>= λ cap. extra_from rtype code n cap)
        (skip_value-bytes rtype e.value rest fit)

or_false : (a b : Bool) → (a || b) ≡ false → (a ≡ false) × (b ≡ false)
or_false true b h = cc
or_false false b h = (refl, h)

extra_from-none :
    (rtype : Rtype) (code : List ℕ) (es : List Extra) (cap : List ℕ)
    → AllExtra es
    → among code (names es) ≡ false
    → extra_from rtype code (length es) (extras_bytes rtype es ++ cap) ≡ gives none
unfolding extra_from
extra_from-none rtype code [] cap h a = refl
extra_from-none rtype code (e ∷ es) cap (and_extra _ _ s named l fit h) a =
    let (differs, rest) = or_false (same (up_to 0 e.id) code) (among code (names es)) a in
    ap (λ bs. extra_from rtype code (suc (length es)) bs)
      (append_assoc (extra_bytes rtype e) (extras_bytes rtype es) cap)
    ∙ extra_from-other rtype code (length es) e s (extras_bytes rtype es ++ cap) named l fit differs
    ∙ extra_from-none rtype code es cap h rest

pub find_extra-none :
    (rtype : Rtype) (t : Tbuf) (es : List Extra) (code : List ℕ)
    → HoldsExtra rtype t es
    → among code (names es) ≡ false
    → find_extra rtype t code ≡ gives none
unfolding find_extra
find_extra-none rtype t es code h a =
    ap (λ n. extra_from rtype code n t.text) h.count
    ∙ ap (λ bs. extra_from rtype code (length es) bs)
        (h.bytes ∙ sym (append-nil (extras_bytes rtype es)))
    ∙ extra_from-none rtype code es [] h.fits a
