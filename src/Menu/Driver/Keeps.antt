-- ===== src/Menu/Driver/Keeps.antt =====
-- The switch of menu_driver in lib/libmenu moves neither the window nor the current item itself.
use netbsd_curses.Base.{
  ℕ, zero, suc, ◌+◌, ◌≡◌, refl, ap, ◌==◌, Bool, true, false, not, ◌&&◌, ◌||◌, Option, none, some,
  List, [], ◌∷◌, get_elem?, if_cases, length,
}
use netbsd_curses.Menu.{Item, Menu}
use netbsd_curses.Menu.Match.{items_of, count}
use netbsd_curses.Menu.Draw.{change, row_at}
use netbsd_curses.Menu.Draw.Rows.{SameRows}
use netbsd_curses.Menu.Draw.Keeps.{Drawn, Drawn-trans, draw_item-Drawn}
use netbsd_curses.Menu.Draw.Counts.{length-change}
use netbsd_curses.Menu.Driver.{
  Leave, return, onward, fault, follow, walk, deselect_others, toggle_radio, toggle_one, toggle,
  set_selected, selected_at, selectable_at, select_and_draw,
}

-- The switch has moved neither the window nor the current item yet.
abbrev pub Kept : Menu → Leave → Type 0
Kept m (return code m') = Drawn m m'
Kept m (onward m' p top status) = Drawn m m'
Kept m fault = Unit {0}

-- A change to fields that the window does not depend on.
abbrev pub same : (m : Menu) → Drawn m m
same m = record {
  same_rows = λ k. refl;
  same_top = refl;
  same_item = refl;
  same_height = refl;
  same_posted = refl;
  same_count = refl;
  same_cols = refl;
  same_item_cols = refl;
}

pub unmoved :
    (m m' : Menu)
    → items_of m' ≡ items_of m
    → m'.top_row ≡ m.top_row
    → m'.cur_item ≡ m.cur_item
    → m'.rows ≡ m.rows
    → m'.posted ≡ m.posted
    → m'.cols ≡ m.cols
    → m'.item_cols ≡ m.item_cols
    → Drawn m m'
unmoved m m' a b c d e f g = record {
  same_rows = λ k. ap (λ xs. row_at xs k) a;
  same_top = b;
  same_item = c;
  same_height = d;
  same_posted = e;
  same_count = ap length a;
  same_cols = f;
  same_item_cols = g;
}

select-SameRows : (b : Bool) (i : ℕ) (xs : List Item) → SameRows xs (change (set_selected b) i xs)
unfolding change
select-SameRows b i [] k = refl
select-SameRows b zero (x ∷ xs) zero = refl
select-SameRows b zero (x ∷ xs) (suc k) = refl
select-SameRows b (suc i) (x ∷ xs) zero = refl
select-SameRows b (suc i) (x ∷ xs) (suc k) = select-SameRows b i xs k

select_and_draw-Drawn : (b : Bool) (i : ℕ) (m : Menu) → Drawn m (select_and_draw b i m)
select_and_draw-Drawn b i m =
    Drawn-trans {b = record m { items = some (change (set_selected b) i (items_of m)) }}
      (record {
        same_rows = select-SameRows b i (items_of m);
        same_top = refl;
        same_item = refl;
        same_height = refl;
        same_posted = refl;
        same_count = length-change (set_selected b) i (items_of m);
        same_cols = refl;
        same_item_cols = refl;
      })
      (draw_item-Drawn _ i)

deselect_others-Drawn : (n i this : ℕ) (m : Menu) → Drawn m (deselect_others n i this m)
unfolding deselect_others
deselect_others-Drawn zero i this m = same m
deselect_others-Drawn (suc n) i this m =
    Drawn-trans
      (if_cases (Drawn m) (selected_at m i && not (i == this)) (select_and_draw false i m) m
        (λ _. select_and_draw-Drawn false i m) (λ _. same m))
      (deselect_others-Drawn n (i + 1) this _)

pub follow-Kept :
    (link : Item → Option ℕ) (m : Menu) (i : ℕ) (k : Option ℕ → Leave)
    → ((p : Option ℕ) → Kept m (k p))
    → Kept m (follow link m i k)
follow-Kept link m i k h = at (get_elem? (items_of m) i)
  where
    at : (o : Option Item) → Kept m (elim o [ none ↦ fault | some x ↦ k (link x) ])
    at none = tt
    at (some x) = h (link x)

toggle_radio-Kept : (m : Menu) (i : ℕ) → Kept m (toggle_radio m i)
unfolding toggle_radio
toggle_radio-Kept m i =
    if_cases (Kept m) (not (selectable_at m i)) _ _ (λ _. same m)
      λ _.
        if_cases (Kept m) (selected_at m i) _ _ (λ _. same m)
          λ _. Drawn-trans (deselect_others-Drawn (count m) 0 i m) (select_and_draw-Drawn true i _)

toggle_one-Kept : (m : Menu) (i : ℕ) → Kept m (toggle_one m i)
unfolding toggle_one
toggle_one-Kept m i =
    if_cases (Kept m) (selectable_at m i) _ _
      (λ _. select_and_draw-Drawn (not (selected_at m i)) i m) (λ _. same m)

pub toggle-Kept : (m : Menu) (i : ℕ) → Kept m (toggle m i)
unfolding toggle
toggle-Kept m i =
    if_cases (Kept m) (m.opts.radio || m.opts.onevalue) _ _
      (λ _.
        if_cases (Kept m) m.opts.radio _ _
          (λ _. follow-Kept (λ x. none) m i (λ p. toggle_radio m i) (λ p. toggle_radio-Kept m i))
          (λ _. same m))
      λ _. follow-Kept (λ x. none) m i (λ p. toggle_one m i) (λ p. toggle_one-Kept m i)

pub walk-Kept :
    (link : Item → Option ℕ) (m : Menu) (n : ℕ) (p : Option ℕ) (k : Option ℕ → Leave)
    → ((p : Option ℕ) → Kept m (k p))
    → Kept m (walk link m n p k)
unfolding walk
walk-Kept link m zero p k h = h p
walk-Kept link m (suc n) none k h = tt
walk-Kept link m (suc n) (some i) k h =
    follow-Kept link m i (λ p. walk link m n p k) (λ p. walk-Kept link m n p k h)
