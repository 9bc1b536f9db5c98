-- ===== src/Menu/Draw/Ends.antt =====
-- Drawing and _menui_goto_item of lib/libmenu/internals.c come to an end without a read outside the
-- array and without a division by 0.
use netbsd_curses.Base.{
  ℕ, zero, suc, ◌+◌, ◌<◌, ◌≡◌, refl, sym, subst, ◌∙◌, lt→ltb, ltb, leb, ◌==◌, not, if◌then◌else◌,
  true, Option, none, some, List, length, if_cases, arith,
}
use netbsd_curses.Menu.{Item, Menu}
use netbsd_curses.Menu.Match.{items_of, count}
use netbsd_curses.Menu.Draw.{
  set_visible, draw_item, stride, incr, hide_line, row_at, skip_lines, is_drawable, draw_from,
  draw_menu, draw_at, draw_current, redraw_menu, Hooks, goto_item, move_to, init_item, gone,
  at_item, go_top, call,
}
use netbsd_curses.Menu.Draw.Counts.{length-change, length-hide_line}

-- There is a result.
abbrev pub Returns {ℓ} : {A : Type ℓ} → Option A → Type 0
Returns none = ⊥
Returns (some r) = Unit {0}

-- The menu has items, in at least one column, and shows at least one.
pub record IsReady (m : Menu) : Type 0 where
  pub some_items : 0 < count m
  pub some_cols : 0 < m.cols
  pub some_item_cols : 0 < m.item_cols

incr-positive : (m : Menu) → IsReady m → 0 < incr m
incr-positive m r =
    if_cases (λ n. 0 < n) m.opts.rowmajor m.item_cols 1 (λ _. r.some_item_cols) (λ _. omega arith)

skip_lines-Returns :
    (m : Menu) (f i p : ℕ) (xs : List Item)
    → 0 < incr m
    → 0 < f
    → length xs < i + f
    → Returns (skip_lines f m i p xs)
unfolding skip_lines
skip_lines-Returns m zero i p xs k z l = ground arith
skip_lines-Returns m (suc f) i p xs k z l =
    let same = length-hide_line m.item_cols (stride m) i xs in
    if_cases Returns (leb (length xs) i) _ _ (λ _. tt)
      λ before.
        if_cases Returns (row_at xs i == m.top_row) _ _ (λ _. tt)
          λ _.
            let inside : i < length xs = ground arith in
            skip_lines-Returns m f (i + incr m) (p + 1) (hide_line m.item_cols (stride m) i xs) k
              (omega arith) (omega (arith, same))

draw_from-Returns :
    (width : ℕ) (m : Menu) (o : Option (ℕ × ℕ × List Item))
    → is_drawable m ≡ true
    → Returns o
    → Returns (draw_from width m o)
unfolding draw_from
draw_from-Returns width m none d r = r
draw_from-Returns width m (some r) d _ = rw d tt

draw_menu-Returns : (width : ℕ) (m : Menu) → IsReady m → Returns (draw_menu width m)
unfolding draw_menu
draw_menu-Returns width m r = draw_from-Returns width m _ drawable (
    skip_lines-Returns m (count m + 1) 0 0 (items_of m) (incr-positive m r) (omega arith)
      (omega arith))
  where
    drawable : is_drawable m ≡ true
    drawable = rw (lt→ltb 0 m.cols r.some_cols, lt→ltb 0 (count m) r.some_items)

draw_at-Returns : (m : Menu) (i : ℕ) → i < count m → Returns (draw_at m i)
unfolding draw_at
draw_at-Returns m i l = rw (lt→ltb i (count m) l) tt

draw_current-Returns : (m : Menu) → m.cur_item < count m → Returns (draw_current (some m))
unfolding draw_current
draw_current-Returns m l = draw_at-Returns m m.cur_item l

-- An old item is drawn before the current one.
draw_both-Returns :
    (m : Menu) (i : ℕ) → i < count m → m.cur_item < count m → Returns (draw_current (draw_at m i))
unfolding draw_at draw_item
draw_both-Returns m i l c =
    subst (λ b. Returns (draw_current (if b then some (draw_item m i) else none)))
      (sym (lt→ltb i (count m) l))
      (draw_current-Returns (draw_item m i)
        (omega (arith, length-change (set_visible true) i (items_of m))))

redraw_menu-Returns :
    (width : ℕ) (m : Menu) (top cur : ℕ)
    → IsReady m
    → m.cur_item < count m
    → cur < count m
    → Returns (redraw_menu width m top cur)
unfolding redraw_menu
redraw_menu-Returns width m top cur r here old =
    if_cases Returns (not (m.top_row == top)) _ _ (λ _. draw_menu-Returns width m r)
      λ _.
        if_cases (λ o. Returns (draw_current o)) (not (m.cur_item == cur)) _ _
          (λ _. draw_both-Returns m cur old here) (λ _. draw_current-Returns m here)

-- What the functions of the application keep of a menu.
pub record SameShape (m m' : Menu) : Type 0 where
  pub same_count : count m' ≡ count m
  pub same_cols : m'.cols ≡ m.cols
  pub same_item_cols : m'.item_cols ≡ m.item_cols

abbrev pub KeepsShape : Option (Menu → Menu) → Type 0
KeepsShape none = Unit {0}
KeepsShape (some f) = (m : Menu) → SameShape m (f m)

-- No function of the application changes the number of items or of columns.
pub record KeepShape (h : Hooks) : Type 0 where
  pub by_menu_init : KeepsShape h.menu_init
  pub by_menu_term : KeepsShape h.menu_term
  pub by_item_term : KeepsShape h.item_term

abbrev unchanged : (m : Menu) → SameShape m m
unchanged m = record { same_count = refl; same_cols = refl; same_item_cols = refl }

SameShape-trans : (a b c : Menu) → SameShape a b → SameShape b c → SameShape a c
SameShape-trans a b c p q = record {
  same_count = q.same_count ∙ p.same_count;
  same_cols = q.same_cols ∙ p.same_cols;
  same_item_cols = q.same_item_cols ∙ p.same_item_cols;
}

call-SameShape : (f : Option (Menu → Menu)) (m : Menu) → KeepsShape f → SameShape m (call f m)
call-SameShape none m k = unchanged m
call-SameShape (some f) m k = if_cases (SameShape m) m.posted (f m) m (λ _. k m) (λ _. unchanged m)

go_top-SameShape : (h : Hooks) (top : ℕ) (m : Menu) → KeepShape h → SameShape m (go_top h top m)
go_top-SameShape h top m k =
    if_cases (SameShape m) (m.top_row == top) m _ (λ _. unchanged m)
      λ _.
        let left = call h.menu_term m in
        let a = call-SameShape h.menu_term m k.by_menu_term in
        let b = call-SameShape h.menu_init (record left { top_row = top }) k.by_menu_init in
        record {
          same_count = b.same_count ∙ a.same_count;
          same_cols = b.same_cols ∙ a.same_cols;
          same_item_cols = b.same_item_cols ∙ a.same_item_cols;
        }

init_item-Returns : (h : Hooks) (o : Option Menu) → Returns o → Returns (init_item h o)
init_item-Returns h none r = r
init_item-Returns h (some m) r = tt

move_to-Returns :
    (width : ℕ) (h : Hooks) (i top cur : ℕ) (m : Menu)
    → IsReady m
    → i < count m
    → cur < count m
    → Returns (move_to width h i top cur m)
unfolding move_to
move_to-Returns width h i top cur m r l old =
    if_cases Returns (ltb i (count m)) _ _
      (λ _. init_item-Returns h _ (
        if_cases Returns m.posted _ _
          (λ _. redraw_menu-Returns width (at_item i m) top cur ready l old) (λ _. tt)))
      (λ e. ground (arith, l, e))
  where
    ready : IsReady (at_item i m)
    ready = record {
      some_items = r.some_items;
      some_cols = r.some_cols;
      some_item_cols = r.some_item_cols;
    }

gone-Returns : (o : Option Menu) → Returns o → Returns (gone o)
gone-Returns none r = r
gone-Returns (some m) r = tt

pub goto_item-Returns :
    (width : ℕ) (h : Hooks) (m : Menu) (i top : ℕ)
    → KeepShape h
    → IsReady m
    → i < count m
    → m.cur_item < count m
    → Returns (goto_item width h m (some i) top)
unfolding goto_item
goto_item-Returns width h m i top k r l here = gone-Returns _ (
    if_cases Returns (topped.cur_item == i) _ _ (λ _. tt)
      λ _.
        move_to-Returns width h i m.top_row m.cur_item left
          (record {
            some_items = omega (arith, r.some_items, same.same_count);
            some_cols = omega (arith, r.some_cols, same.same_cols);
            some_item_cols = omega (arith, r.some_item_cols, same.same_item_cols);
          })
          (omega (arith, same.same_count)) (omega (arith, same.same_count)))
  where
    topped : Menu
    topped = go_top h top (record m { in_init = true })

    left : Menu
    left = call h.item_term topped

    same : SameShape (record m { in_init = true }) left
    same =
        SameShape-trans (record m { in_init = true }) topped left
          (go_top-SameShape h top (record m { in_init = true }) k)
          (call-SameShape h.item_term topped k.by_item_term)
