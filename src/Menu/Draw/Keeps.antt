-- ===== src/Menu/Draw/Keeps.antt =====
-- Drawing and _menui_goto_item of lib/libmenu move no item to another row, and drawing neither the
-- top row nor the current item.
use netbsd_curses.Base.{
  ℕ, ◌+◌, ◌-◌, ◌*◌, ◌≡◌, refl, ◌∙◌, ◌==◌, true, false, not, ltb, Option, none, some, List, arith,
  if_cases, ap,
}
use netbsd_curses.Menu.{Item, Menu}
use netbsd_curses.Menu.Match.{items_of, count}
use netbsd_curses.Menu.Draw.{
  set_visible, draw_item, incr, row_at, skip_lines, show_lines, is_drawable, draw_from, draw_menu,
  draw_at, draw_current, redraw_menu, Hooks, goto_item, go_item, move_to, init_item, gone, at_item,
  go_top,
}
use netbsd_curses.Menu.Draw.Counts.{
  length-change, length-show_lines, length-hide_lines, SameLength, skip_lines-SameLength,
}
use netbsd_curses.Menu.Draw.Rows.{
  SameRows, change-SameRows, IfSome, skip_lines-SameRows, show_lines-SameRows, hide_lines-SameRows,
}

-- What drawing leaves alone.
pub record Drawn (m m' : Menu) : Type 0 where
  pub same_rows : SameRows (items_of m) (items_of m')
  pub same_top : m'.top_row ≡ m.top_row
  pub same_item : m'.cur_item ≡ m.cur_item
  pub same_height : m'.rows ≡ m.rows
  pub same_posted : m'.posted ≡ m.posted
  pub same_count : count m' ≡ count m
  pub same_cols : m'.cols ≡ m.cols
  pub same_item_cols : m'.item_cols ≡ m.item_cols

pub draw_item-Drawn : (m : Menu) (i : ℕ) → Drawn m (draw_item m i)
unfolding draw_item
draw_item-Drawn m i = record {
  same_rows = change-SameRows true i (items_of m);
  same_top = refl;
  same_item = refl;
  same_height = refl;
  same_posted = refl;
  same_count = length-change (set_visible true) i (items_of m);
  same_cols = refl;
  same_item_cols = refl;
}

pub Drawn-trans : {a b c : Menu} → Drawn a b → Drawn b c → Drawn a c
Drawn-trans p q = record {
  same_rows = λ k. q.same_rows k ∙ p.same_rows k;
  same_top = q.same_top ∙ p.same_top;
  same_item = q.same_item ∙ p.same_item;
  same_height = q.same_height ∙ p.same_height;
  same_posted = q.same_posted ∙ p.same_posted;
  same_count = q.same_count ∙ p.same_count;
  same_cols = q.same_cols ∙ p.same_cols;
  same_item_cols = q.same_item_cols ∙ p.same_item_cols;
}

draw_menu-Drawn : (width : ℕ) (m : Menu) → IfSome (Drawn m) (draw_menu width m)
unfolding draw_menu draw_from
draw_menu-Drawn width m =
    of (skip_lines (count m + 1) m 0 0 (items_of m))
      (skip_lines-SameRows m (count m + 1) 0 0 (items_of m))
      (skip_lines-SameLength m (count m + 1) 0 0 (items_of m))
  where
    of :
        (o : Option (ℕ × ℕ × List Item))
        → IfSome (λ r. SameRows (items_of m) r.2) o
        → SameLength (items_of m) o
        → IfSome (Drawn m) (draw_from width m o)
    of none h l = tt
    of (some r) h l =
        if_cases (IfSome (Drawn m)) (is_drawable m) _ _
          (λ _. record {
            same_rows = λ k.
                hide_lines-SameRows m (m.item_rows - (r.1 + m.rows)) (r.0 + m.rows * incr m)
                  (show_lines m.rows m r.0 r.2) k
                ∙ show_lines-SameRows m m.rows r.0 r.2 k
                ∙ h k;
            same_top = refl;
            same_item = refl;
            same_height = refl;
            same_posted = refl;
            same_count =
                length-hide_lines m (m.item_rows - (r.1 + m.rows)) (r.0 + m.rows * incr m)
                  (show_lines m.rows m r.0 r.2)
                ∙ length-show_lines m m.rows r.0 r.2
                ∙ l;
            same_cols = refl;
            same_item_cols = refl;
          })
          (λ _. tt)

draw_at-Drawn : (m : Menu) (i : ℕ) → IfSome (Drawn m) (draw_at m i)
unfolding draw_at
draw_at-Drawn m i =
    if_cases (IfSome (Drawn m)) (ltb i (count m)) _ _ (λ _. draw_item-Drawn m i) (λ _. tt)

IfSome-Drawn : (m n : Menu) (o : Option Menu) → Drawn m n → IfSome (Drawn n) o → IfSome (Drawn m) o
IfSome-Drawn m n none d h = tt
IfSome-Drawn m n (some u) d h = Drawn-trans d h

draw_current-Drawn :
    (m : Menu) (o : Option Menu) → IfSome (Drawn m) o → IfSome (Drawn m) (draw_current o)
unfolding draw_current
draw_current-Drawn m none h = tt
draw_current-Drawn m (some n) h = IfSome-Drawn m n _ h (draw_at-Drawn n n.cur_item)

-- If it comes to an end, redrawing keeps the current item, the top row, the number of rows shown, the
-- row of every item, and whether the menu is posted.
pub redraw_menu-Drawn :
    (width : ℕ) (m : Menu) (top cur : ℕ) → IfSome (Drawn m) (redraw_menu width m top cur)
unfolding redraw_menu
redraw_menu-Drawn width m top cur =
    if_cases (IfSome (Drawn m)) (not (m.top_row == top)) _ _ (λ _. draw_menu-Drawn width m)
      λ _. draw_current-Drawn m _ (
        if_cases (IfSome (Drawn m)) (not (m.cur_item == cur)) _ _ (λ _. draw_at-Drawn m cur)
          (λ _. record {
            same_rows = λ k. refl;
            same_top = refl;
            same_item = refl;
            same_height = refl;
            same_posted = refl;
            same_count = refl;
            same_cols = refl;
            same_item_cols = refl;
          }))

abbrev pub no_hooks : Hooks
no_hooks = record { menu_init = none; menu_term = none; item_init = none; item_term = none }

-- Where _menui_goto_item leaves a menu that calls no hooks.
pub record Arrived (m : Menu) (i top : ℕ) (m' : Menu) : Type 0 where
  pub there : m'.cur_item ≡ i
  pub top_there : m'.top_row ≡ top
  pub same_height : m'.rows ≡ m.rows
  pub same_rows : SameRows (items_of m) (items_of m')
  pub idle : m'.in_init ≡ false

-- From `n` to item `i`, with the top row as it is.
record Went (n : Menu) (i : ℕ) (m' : Menu) : Type 0 where
  there : m'.cur_item ≡ i
  same_top : m'.top_row ≡ n.top_row
  same_height : m'.rows ≡ n.rows
  same_rows : SameRows (items_of n) (items_of m')

go_item-Went :
    (width : ℕ) (n : Menu) (i t c : ℕ) → IfSome (Went n i) (go_item width no_hooks i t c n)
unfolding move_to
go_item-Went width n i t c =
    if_cases (IfSome (Went n i)) (n.cur_item == i) (some n) _ (λ e. stay (ground arith))
      λ _.
        if_cases (IfSome (Went n i)) (ltb i (count n)) _ none
          (λ _. init _ (
            if_cases (IfSome (Went n i)) n.posted _ _
              (λ _.
                drawn (redraw_menu width (at_item i n) t c)
                  (redraw_menu-Drawn width (at_item i n) t c))
              λ _. record {
                there = refl;
                same_top = refl;
                same_height = refl;
                same_rows = λ k. refl;
              }))
          (λ _. tt)
  where
    init : (o : Option Menu) → IfSome (Went n i) o → IfSome (Went n i) (init_item no_hooks o)
    init none w = tt
    init (some m) w = w

    drawn : (o : Option Menu) → IfSome (Drawn (at_item i n)) o → IfSome (Went n i) o
    drawn none d = tt
    drawn (some m) d = record {
      there = d.same_item;
      same_top = d.same_top;
      same_height = d.same_height;
      same_rows = d.same_rows;
    }

    stay : n.cur_item ≡ i → Went n i n
    stay e = record { there = e; same_top = refl; same_height = refl; same_rows = λ k. refl }

-- With no hooks, if _menui_goto_item comes to an end, it makes the item the current one and the row the
-- top one, keeps the number of rows shown and the row of every item, and leaves the menu out of
-- `in_init`.
pub goto_item-Arrived :
    (width : ℕ) (m : Menu) (i top : ℕ)
    → IfSome (λ r. Arrived m i top r.1) (goto_item width no_hooks m (some i) top)
unfolding goto_item
goto_item-Arrived width m i top =
    arrive (go_item width no_hooks i m.top_row m.cur_item topped)
      (go_item-Went width topped i m.top_row m.cur_item)
  where
    started : Menu
    started = record m { in_init = true }

    topped : Menu
    topped = go_top no_hooks top started

    raised : (topped.top_row ≡ top) × (topped.rows ≡ m.rows) × (items_of topped ≡ items_of m)
    raised =
        if_cases (λ t. (t.top_row ≡ top) × (t.rows ≡ m.rows) × (items_of t ≡ items_of m))
          (m.top_row == top) started (record started { top_row = top })
          (λ e. (ground arith, refl, refl)) λ e. (refl, refl, refl)

    arrive :
        (o : Option Menu) → IfSome (Went topped i) o → IfSome (λ r. Arrived m i top r.1) (gone o)
    arrive none w = tt
    arrive (some u) w = record {
      there = w.there;
      top_there = w.same_top ∙ raised.0;
      same_height = w.same_height ∙ raised.1;
      same_rows = λ k. w.same_rows k ∙ ap (λ xs. row_at xs k) raised.2;
      idle = refl;
    }
