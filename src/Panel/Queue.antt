-- ===== src/Panel/Queue.antt =====
-- The TAILQ macros that panel_impl.h uses, on the list of the entries: the links `tqe_next` and
-- `tqe_prev` of a linked entry are its neighbours in the list, and those of any other are NULL.
use netbsd_curses.Base.{
  ℕ, ◌≡◌, refl, ◌≢◌, Bool, true, false, ◌||◌, Option, none, some, List, [], ◌∷◌, ◌++◌, ◌==◌,
  if◌then◌else◌, arith,
}
use mathlib.Core.Option

-- TAILQ_LINKED_NP
unfoldable pub mem : ℕ → List ℕ → Bool
mem p [] = false
mem p (x ∷ xs) = x == p || mem p xs

-- TAILQ_REMOVE_NP
unfoldable pub remove : ℕ → List ℕ → List ℕ
remove p [] = []
remove p (x ∷ xs) = if x == p then xs else x ∷ remove p xs

-- TAILQ_INSERT_AFTER: no value if `a` is not linked.
unfoldable pub insert_after : ℕ → ℕ → List ℕ → Option (List ℕ)
insert_after a p [] = none
insert_after a p (x ∷ xs) =
    if x == a then some (x ∷ p ∷ xs) else Option.map (λ q. x ∷ q) (insert_after a p xs)

abbrev pub head? : List ℕ → Option ℕ
head? [] = none
head? (x ∷ xs) = some x

-- TAILQ_NEXT
unfoldable pub next : ℕ → List ℕ → Option ℕ
next p [] = none
next p (x ∷ xs) = if x == p then head? xs else next p xs

-- TAILQ_PREV
unfoldable pub prev : ℕ → List ℕ → Option ℕ
prev p [] = none
prev p (x ∷ []) = none
prev p (x ∷ y ∷ xs) = if y == p then some x else prev p (y ∷ xs)

-- TAILQ_LAST
unfoldable pub last? : List ℕ → Option ℕ
last? [] = none
last? (x ∷ []) = some x
last? (x ∷ y ∷ xs) = last? (y ∷ xs)

-- TAILQ_EMPTY
abbrev pub is_empty : List ℕ → Bool
is_empty [] = true
is_empty (x ∷ xs) = false

-- No entry is linked twice.
abbrev pub Distinct : List ℕ → Type 0
Distinct [] = Unit {0}
Distinct (x ∷ xs) = (mem x xs ≡ false) × Distinct xs

pub mem-append : (p : ℕ) (xs ys : List ℕ) → mem p (xs ++ ys) ≡ (mem p xs || mem p ys)
unfolding mem
mem-append p [] ys = refl
mem-append p (x ∷ xs) ys = ground (arith, mem-append p xs ys)

pub mem-remove_ne : (p q : ℕ) (xs : List ℕ) → p ≢ q → mem q (remove p xs) ≡ mem q xs
unfolding mem remove
mem-remove_ne p q [] h = refl
mem-remove_ne p q (x ∷ xs) h = ground (arith, mem-remove_ne p q xs)

pub mem-remove_self : (p : ℕ) (xs : List ℕ) → Distinct xs → mem p (remove p xs) ≡ false
unfolding mem remove
mem-remove_self p [] h = refl
mem-remove_self p (x ∷ xs) h = ground (arith, mem-remove_self p xs h.1)

pub mem-remove_le : (p q : ℕ) (xs : List ℕ) → mem q xs ≡ false → mem q (remove p xs) ≡ false
unfolding mem remove
mem-remove_le p q [] h = refl
mem-remove_le p q (x ∷ xs) h = ground (arith, mem-remove_le p q xs)

pub remove-Distinct : (p : ℕ) (xs : List ℕ) → Distinct xs → Distinct (remove p xs)
unfolding mem remove
remove-Distinct p [] h = tt
remove-Distinct p (x ∷ xs) h = ground (arith, remove-Distinct p xs h.1, mem-remove_le p x xs h.0)

pub append-Distinct :
    (p : ℕ) (xs : List ℕ) → mem p xs ≡ false → Distinct xs → Distinct (xs ++ p ∷ [])
unfolding mem
append-Distinct p [] n h = (refl, tt)
append-Distinct p (x ∷ xs) n h = ground (arith, append-Distinct p xs, mem-append x xs (p ∷ []))

pub remove_absent : (p : ℕ) (xs : List ℕ) → mem p xs ≡ false → remove p xs ≡ xs
unfolding mem remove
remove_absent p [] h = refl
remove_absent p (x ∷ xs) h = ground (arith, remove_absent p xs)

pub mem-of_mem-remove : (p q : ℕ) (xs : List ℕ) → mem q (remove p xs) ≡ true → mem q xs ≡ true
unfolding mem remove
mem-of_mem-remove p q [] h = h
mem-of_mem-remove p q (x ∷ xs) h = ground (arith, mem-of_mem-remove p q xs)

pub last?-mem : (q : ℕ) (xs : List ℕ) → last? xs ≡ some q → mem q xs ≡ true
unfolding mem last?
last?-mem q [] h = cc
last?-mem q (x ∷ []) h = ground arith
last?-mem q (x ∷ y ∷ xs) h = ground (arith, last?-mem q (y ∷ xs) h)
