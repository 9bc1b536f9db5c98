-- ===== src/Menu/Draw/Counts.antt =====
-- Drawing in lib/libmenu/internals.c keeps the number of items.
use netbsd_curses.Base.{
  ℕ, zero, suc, ◌+◌, ◌≡◌, refl, ap, ◌∙◌, leb, ◌==◌, true, false, Option, none, some, List, [], ◌∷◌,
  length, if_cases,
}
use netbsd_curses.Menu.{Item, Menu}
use netbsd_curses.Menu.Draw.{
  change, set_visible, stride, incr, hide_line, show_line, row_at, skip_lines, show_lines,
  hide_lines,
}

pub length-change : (f : Item → Item) (i : ℕ) (xs : List Item) → length (change f i xs) ≡ length xs
unfolding change
length-change f i [] = refl
length-change f zero (x ∷ xs) = refl
length-change f (suc i) (x ∷ xs) = ap suc (length-change f i xs)

pub length-hide_line : (n st i : ℕ) (xs : List Item) → length (hide_line n st i xs) ≡ length xs
unfolding hide_line
length-hide_line zero st i xs = refl
length-hide_line (suc n) st i xs =
    if_cases (λ ys. length ys ≡ length xs) (leb (length xs) i) xs _ (λ _. refl)
      λ _.
        length-hide_line n st (i + st) (change (set_visible false) i xs)
        ∙ length-change (set_visible false) i xs

length-show_line : (n st i : ℕ) (xs : List Item) → length (show_line n st i xs) ≡ length xs
unfolding show_line
length-show_line zero st i xs = refl
length-show_line (suc n) st i xs =
    length-show_line n st (i + st) _
    ∙ if_cases (λ ys. length ys ≡ length xs) (leb (length xs) i) xs _ (λ _. refl)
        (λ _. length-change (set_visible true) i xs)

pub length-show_lines :
    (m : Menu) (n i : ℕ) (xs : List Item) → length (show_lines n m i xs) ≡ length xs
unfolding show_lines
length-show_lines m zero i xs = refl
length-show_lines m (suc n) i xs =
    length-show_lines m n (i + incr m) (show_line m.cols (stride m) i xs)
    ∙ length-show_line m.cols (stride m) i xs

pub length-hide_lines :
    (m : Menu) (n i : ℕ) (xs : List Item) → length (hide_lines n m i xs) ≡ length xs
unfolding hide_lines
length-hide_lines m zero i xs = refl
length-hide_lines m (suc n) i xs =
    length-hide_lines m n (i + incr m) (hide_line m.item_cols (stride m) i xs)
    ∙ length-hide_line m.item_cols (stride m) i xs

-- The items above the top row, if the loop ends.
abbrev pub SameLength : List Item → Option (ℕ × ℕ × List Item) → Type 0
SameLength xs none = Unit {0}
SameLength xs (some r) = length r.2 ≡ length xs

pub skip_lines-SameLength :
    (m : Menu) (f i p : ℕ) (xs : List Item) → SameLength xs (skip_lines f m i p xs)
unfolding skip_lines
skip_lines-SameLength m zero i p xs = tt
skip_lines-SameLength m (suc f) i p xs =
    let hidden = hide_line m.item_cols (stride m) i xs in
    if_cases (SameLength xs) (leb (length xs) i) _ _ (λ _. refl)
      λ _.
        if_cases (SameLength xs) (row_at xs i == m.top_row) _ _ (λ _. refl)
          λ _.
            as_before hidden _ (length-hide_line m.item_cols (stride m) i xs)
              (skip_lines-SameLength m f (i + incr m) (p + 1) hidden)
  where
    as_before :
        (ys : List Item) (o : Option (ℕ × ℕ × List Item))
        → length ys ≡ length xs
        → SameLength ys o
        → SameLength xs o
    as_before ys none a b = tt
    as_before ys (some r) a b = b ∙ a
