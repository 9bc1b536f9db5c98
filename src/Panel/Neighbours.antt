-- ===== src/Panel/Neighbours.antt =====
-- panel_above and panel_below walk the visible panels.
use netbsd_curses.Base.{
  ℕ, ◌≡◌, refl, ◌≢◌, true, false, none, some, List, [], ◌∷◌, ◌==◌, arith, subst, Bool-cases,
  Option-cases, inl, inr, ◌↔◌,
}
use netbsd_curses.Panel.Queue.{mem, head?, next, prev, last?, Distinct, last?-mem}
use netbsd_curses.Panel.{Deck, stdscr_panel, panel_above, panel_below, unless_stdscr}
use netbsd_curses.Panel.Invariant.{IsValid}
use netbsd_curses.Panel.Zorder.{tail, zorder}

next_absent : (p : ℕ) (xs : List ℕ) → mem p xs ≡ false → next p xs ≡ none
unfolding next mem
next_absent p [] h = refl
next_absent p (x ∷ xs) h = ground (arith, next_absent p xs)

prev-mem : (p q : ℕ) (xs : List ℕ) → prev q xs ≡ some p → mem p xs ≡ true
unfolding prev mem
prev-mem p q [] h = cc
prev-mem p q (x ∷ []) h = cc
prev-mem p q (x ∷ y ∷ xs) h = ground (arith, prev-mem p q (y ∷ xs))

next-mem : (p q y : ℕ) (xs : List ℕ) → next p (y ∷ xs) ≡ some q → mem q xs ≡ true
unfolding next mem
next-mem p q y [] h = ground arith
next-mem p q y (x ∷ xs) h = ground (arith, next-mem p q x xs)

-- In a list with no entry twice, the successor's predecessor is the entry itself.
prev-next : (p q : ℕ) (xs : List ℕ) → Distinct xs → (next p xs ≡ some q) ↔ (prev q xs ≡ some p)
unfolding next prev mem
prev-next p q [] h = (λ e. cc, λ e. cc)
prev-next p q (x ∷ []) h = (λ e. ground arith, λ e. ground arith)
prev-next p q (x ∷ y ∷ xs) h = (
  λ e. ground (arith, (prev-next p q (y ∷ xs) h.1).0, next-mem p q y xs),
  λ e. ground (arith, (prev-next p q (y ∷ xs) h.1).1, prev-mem p q (y ∷ xs)),
)

last?-tail :
    (x : ℕ) (xs : List ℕ)
    → x ≡ stdscr_panel
    → Distinct (x ∷ xs)
    → unless_stdscr (last? (x ∷ xs)) ≡ last? xs
unfolding last? mem
last?-tail x [] e h = ground arith
last?-tail x (y ∷ xs) e h = elim (Option-cases (last? (y ∷ xs))) [
  | inl n ↦ rw n
  | inr (q, s) ↦ rw s (ground (arith, last?-mem q (y ∷ xs) s))
]

prev_first : (p y : ℕ) (xs : List ℕ) → mem p xs ≡ false → prev p (y ∷ xs) ≡ none
unfolding prev mem
prev_first p y [] h = refl
prev_first p y (x ∷ xs) h = ground (arith, prev_first p x xs)

unless_stdscr_other :
    (p : ℕ) (xs : List ℕ) → mem stdscr_panel xs ≡ false → unless_stdscr (prev p xs) ≡ prev p xs
unless_stdscr_other p xs h = elim (Option-cases (prev p xs)) [
  | inl n ↦ rw n
  | inr (q, s) ↦ rw s (ground (arith, prev-mem q p xs s))
]

prev-tail :
    (p x : ℕ) (xs : List ℕ)
    → x ≡ stdscr_panel
    → Distinct (x ∷ xs)
    → unless_stdscr (prev p (x ∷ xs)) ≡ prev p xs
unfolding prev mem
prev-tail p x [] e h = refl
prev-tail p x (y ∷ xs) e h = elim (Bool-cases (y == p)) [
  | inl hit ↦ ground (arith, hit, prev_first p y xs)
  | inr miss ↦ rw miss (unless_stdscr_other p (y ∷ xs) (subst (λ a. mem a (y ∷ xs) ≡ false) e h.0))
]

module _ {W : Type 0} (d : Deck W) (v : IsValid d) where
  pub above-null : panel_above none d ≡ head? (zorder d)
  unfolding panel_above next
  above-null = bottom d.queue refl
    where
      bottom : (q : List ℕ) → d.queue ≡ q → panel_above none d ≡ head? (zorder d)
      bottom [] e = ground arith
      bottom (x ∷ q) e = ground arith

  pub below-null : panel_below none d ≡ last? (zorder d)
  unfolding panel_below last?
  below-null = top d.queue refl
    where
      top : (q : List ℕ) → d.queue ≡ q → panel_below none d ≡ last? (zorder d)
      top [] e = rw e
      top (x ∷ q) e = rw e (last?-tail x q (rw e at v.anchored) (rw e at v.distinct))

  pub above_lem : (p : ℕ) → p ≢ stdscr_panel → panel_above (some p) d ≡ next p (zorder d)
  unfolding panel_above next mem
  above_lem p n = linked d.queue refl
    where
      linked : (q : List ℕ) → d.queue ≡ q → panel_above (some p) d ≡ next p (zorder d)
      linked [] e = ground arith
      linked (x ∷ q) e = ground (arith, next_absent p q)

  pub below_lem : (p : ℕ) → p ≢ stdscr_panel → panel_below (some p) d ≡ prev p (zorder d)
  unfolding panel_below prev mem
  below_lem p n = linked d.queue refl
    where
      linked : (q : List ℕ) → d.queue ≡ q → panel_below (some p) d ≡ prev p (zorder d)
      linked [] e = ground arith
      linked (x ∷ q) e =
          ground
            (arith, prev_first p x q, prev-tail p x q (rw e at v.anchored) (rw e at v.distinct))

  -- On a valid deck the panel above `p` is `q` exactly when the panel below `q` is `p`, for panels
  -- other than the phantom one.
  pub below-above :
      (p q : ℕ)
      → p ≢ stdscr_panel
      → q ≢ stdscr_panel
      → (panel_above (some p) d ≡ some q) ↔ (panel_below (some q) d ≡ some p)
  below-above p q np nq =
      rw (above_lem p np, below_lem q nq)
        (prev-next p q (zorder d) (tail-Distinct d.queue v.distinct))
    where
      tail-Distinct : (xs : List ℕ) → Distinct xs → Distinct (tail xs)
      tail-Distinct [] h = tt
      tail-Distinct (x ∷ xs) h = h.1
