-- ===== src/Menu/Draw/Rows.antt =====
-- Drawing moves no item of lib/libmenu to another row.
use netbsd_curses.Base.{
  ℕ, zero, suc, ◌+◌, ◌≡◌, refl, ◌∙◌, leb, ◌==◌, Bool, true, false, Option, none, some, List, [],
  ◌∷◌, length, Bool-cases, inl, inr, if_cases,
}
use netbsd_curses.Menu.{Item, Menu}
use netbsd_curses.Menu.Draw.{
  change, set_visible, stride, incr, hide_line, show_line, row_at, skip_lines, show_lines,
  hide_lines,
}

-- The same rows, position by position.
abbrev pub SameRows : List Item → List Item → Type 0
SameRows xs ys = (k : ℕ) → row_at ys k ≡ row_at xs k

pub change-SameRows :
    (b : Bool) (i : ℕ) (xs : List Item) → SameRows xs (change (set_visible b) i xs)
unfolding change
change-SameRows b i [] k = refl
change-SameRows b zero (x ∷ xs) zero = refl
change-SameRows b zero (x ∷ xs) (suc k) = refl
change-SameRows b (suc i) (x ∷ xs) zero = refl
change-SameRows b (suc i) (x ∷ xs) (suc k) = change-SameRows b i xs k

hide_line-SameRows : (n st i : ℕ) (xs : List Item) → SameRows xs (hide_line n st i xs)
unfolding hide_line
hide_line-SameRows zero st i xs k = refl
hide_line-SameRows (suc n) st i xs k = elim (Bool-cases (leb (length xs) i)) [
  | inl e ↦ rw e
  | inr e ↦ rw e (
      hide_line-SameRows n st (i + st) (change (set_visible false) i xs) k
      ∙ change-SameRows false i xs k)
]

show_line-SameRows : (n st i : ℕ) (xs : List Item) → SameRows xs (show_line n st i xs)
unfolding show_line
show_line-SameRows zero st i xs k = refl
show_line-SameRows (suc n) st i xs k = elim (Bool-cases (leb (length xs) i)) [
  | inl e ↦ rw e (show_line-SameRows n st (i + st) xs k)
  | inr e ↦ rw e (
      show_line-SameRows n st (i + st) (change (set_visible true) i xs) k
      ∙ change-SameRows true i xs k)
]

-- A property of the result, where there is one.
abbrev pub IfSome {ℓ} : {A : Type ℓ} → (A → Type 0) → Option A → Type 0
IfSome P none = Unit {0}
IfSome P (some a) = P a

module _ (m : Menu) where
  pub skip_lines-SameRows :
      (f i p : ℕ) (xs : List Item) → IfSome (λ r. SameRows xs r.2) (skip_lines f m i p xs)
  unfolding skip_lines
  skip_lines-SameRows zero i p xs = tt
  skip_lines-SameRows (suc f) i p xs =
      let hidden = hide_line m.item_cols (stride m) i xs in
      let ih = skip_lines-SameRows f (i + incr m) (p + 1) hidden in
      if_cases (IfSome (λ r. SameRows xs r.2)) (leb (length xs) i) _ _ (λ _ k. refl)
        λ _.
          if_cases (IfSome (λ r. SameRows xs r.2)) (row_at xs i == m.top_row) _ _ (λ _ k. refl)
            λ _. hidden_first hidden _ (hide_line-SameRows m.item_cols (stride m) i xs) ih
    where
      hidden_first :
          (ys : List Item) (o : Option (ℕ × ℕ × List Item))
          → SameRows xs ys
          → IfSome (λ r. SameRows ys r.2) o
          → IfSome (λ r. SameRows xs r.2) o
      hidden_first ys none a b = tt
      hidden_first ys (some r) a b = λ k. b k ∙ a k

  pub show_lines-SameRows : (n i : ℕ) (xs : List Item) → SameRows xs (show_lines n m i xs)
  unfolding show_lines
  show_lines-SameRows zero i xs k = refl
  show_lines-SameRows (suc n) i xs k =
      show_lines-SameRows n (i + incr m) (show_line m.cols (stride m) i xs) k
      ∙ show_line-SameRows m.cols (stride m) i xs k

  pub hide_lines-SameRows : (n i : ℕ) (xs : List Item) → SameRows xs (hide_lines n m i xs)
  unfolding hide_lines
  hide_lines-SameRows zero i xs k = refl
  hide_lines-SameRows (suc n) i xs k =
      hide_lines-SameRows n (i + incr m) (hide_line m.item_cols (stride m) i xs) k
      ∙ hide_line-SameRows m.item_cols (stride m) i xs k
