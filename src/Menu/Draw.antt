-- ===== src/Menu/Draw.antt =====
-- _menui_draw_item and _menui_draw_menu of lib/libmenu/internals.c, and _menui_goto_item: what they
-- do to the menu. The characters that they write to the window are not modelled.
pub mod Counts
pub mod Rows
pub mod Keeps
pub mod Ends
use netbsd_curses.Base.{
  ℕ, zero, suc, ◌+◌, ◌-◌, ◌*◌, ◌/◌, ltb, leb, ◌==◌, if◌then◌else◌, Bool, true, false, not, ◌&&◌,
  ◌||◌, Option, none, some, List, [], ◌∷◌, length, get_elem?, set,
}
use netbsd_curses.Menu.{Item, Menu, Code, e_ok, e_request_denied}
use netbsd_curses.Menu.Match.{items_of, count}

-- A write to an item; out of range it changes nothing.
unfoldable pub change : (Item → Item) → ℕ → List Item → List Item
change f i [] = []
change f zero (x ∷ xs) = f x ∷ xs
change f (suc i) (x ∷ xs) = x ∷ change f i xs

abbrev pub set_visible : Bool → Item → Item
set_visible b x = record x { visible = b }

unfoldable pub draw_item : Menu → ℕ → Menu
unfolding change
draw_item m i = record m { items = some (change (set_visible true) i (items_of m)) }

-- The first item of the line after `i`, and of the next column.
abbrev pub stride : Menu → ℕ
stride m = if m.opts.rowmajor then 1 else m.item_rows

abbrev pub incr : Menu → ℕ
incr m = if m.opts.rowmajor then m.item_cols else 1

-- for (j = 0; j < item_cols; j++) { if (offset >= item_count) break; visible = 0; }
unfoldable pub hide_line : ℕ → ℕ → ℕ → List Item → List Item
unfolding change
hide_line zero st offset items = items
hide_line (suc n) st offset items =
    if leb (length items) offset
    then items
    else hide_line n st (offset + st) (change (set_visible false) offset items)

-- for (j = 0; j < cols; j++) if (offset < item_count) _menui_draw_item(menu, offset);
unfoldable pub show_line : ℕ → ℕ → ℕ → List Item → List Item
unfolding change
show_line zero st offset items = items
show_line (suc n) st offset items =
    show_line n st (offset + st)
      (if leb (length items) offset then items else change (set_visible true) offset items)

abbrev pub row_at : List Item → ℕ → ℕ
row_at items i = elim (get_elem? items i) [ none ↦ 0 | some x ↦ x.row ]

-- The lines above the top row. The result is where the loop stops, the lines it has passed, and the
-- items; it has none where the rounds do not come to an end. A round that moves `i` on can be followed
-- by as many others as there are items, and no more.
unfoldable pub skip_lines : ℕ → Menu → ℕ → ℕ → List Item → Option (ℕ × ℕ × List Item)
unfolding hide_line
skip_lines zero m i passed items = none
skip_lines (suc f) m i passed items =
    let rest =
      skip_lines f m (i + incr m) (passed + 1) (hide_line m.item_cols (stride m) i items) in
    if leb (length items) i
    then some (i, passed, items)
    else if row_at items i == m.top_row
    then some (i, passed, items)
    else rest

unfoldable pub show_lines : ℕ → Menu → ℕ → List Item → List Item
unfolding show_line
show_lines zero m i items = items
show_lines (suc n) m i items = show_lines n m (i + incr m) (show_line m.cols (stride m) i items)

unfoldable pub hide_lines : ℕ → Menu → ℕ → List Item → List Item
unfolding hide_line
hide_lines zero m i items = items
hide_lines (suc n) m i items =
    hide_lines n m (i + incr m) (hide_line m.item_cols (stride m) i items)

-- The width is divided by `cols`, and the row of items[item_count - 1] is read where there is a place
-- with no item.
abbrev pub is_drawable : Menu → Bool
is_drawable m = ltb 0 m.cols && (ltb 0 (count m) || (m.rows == 0))

-- The lines from the top row on, and those below the window.
unfoldable pub draw_from : ℕ → Menu → Option (ℕ × ℕ × List Item) → Option Menu
unfolding show_lines hide_lines
draw_from width m none = none
draw_from width m (some (i, passed, above)) =
    let shown = show_lines m.rows m i above in
    let next = i + m.rows * incr m in
    if is_drawable m
    then some (record m {
      col_width = width / m.cols;
      items = some (hide_lines (m.item_rows - (passed + m.rows)) m next shown);
    })
    else none

-- `width` is getmaxx of the window. There is no value where the code does not end, divides by 0, or
-- reads outside the array.
unfoldable pub draw_menu : ℕ → Menu → Option Menu
unfolding skip_lines draw_from
draw_menu width m = draw_from width m (skip_lines (count m + 1) m 0 0 (items_of m))

-- Drawing the item at a position, which has to be one of the array.
unfoldable pub draw_at : Menu → ℕ → Option Menu
unfolding draw_item
draw_at m i = if ltb i (count m) then some (draw_item m i) else none

unfoldable pub draw_current : Option Menu → Option Menu
unfolding draw_at
draw_current none = none
draw_current (some m) = draw_at m m.cur_item

unfoldable pub redraw_menu : ℕ → Menu → ℕ → ℕ → Option Menu
unfolding draw_menu draw_current
redraw_menu width m old_top_row old_cur_item =
    if not (m.top_row == old_top_row)
    then draw_menu width m
    else draw_current (if not (m.cur_item == old_cur_item) then draw_at m old_cur_item else some m)

-- The functions of the application that the menu calls, NULL where it has none.
pub record Hooks : Type 0 where
  pub menu_init : Option (Menu → Menu)
  pub menu_term : Option (Menu → Menu)
  pub item_init : Option (Menu → Menu)
  pub item_term : Option (Menu → Menu)

-- if ((menu->posted == 1) && (menu->hook != NULL)) menu->hook(menu);
abbrev pub call : Option (Menu → Menu) → Menu → Menu
call none m = m
call (some f) m = if m.posted then f m else m

abbrev pub col_at : List Item → ℕ → ℕ
col_at items i = elim (get_elem? items i) [ none ↦ 0 | some x ↦ x.col ]

abbrev pub go_top : Hooks → ℕ → Menu → Menu
go_top h new_top_row m =
    if m.top_row == new_top_row
    then m
    else call h.menu_init (record (call h.menu_term m) { top_row = new_top_row })

abbrev pub at_item : ℕ → Menu → Menu
at_item i m = record m {
  cur_item = i;
  cur_row = row_at (items_of m) i;
  cur_col = col_at (items_of m) i;
}

abbrev pub init_item : Hooks → Option Menu → Option Menu
init_item h none = none
init_item h (some m) = some (call h.item_init m)

-- The item is made the current one, and drawn if the menu is posted.
unfoldable pub move_to : ℕ → Hooks → ℕ → ℕ → ℕ → Menu → Option Menu
unfolding redraw_menu
move_to width h i old_top_row old_cur_item m =
    let moved = at_item i m in
    if ltb i (count m)
    then init_item h
        (if m.posted then redraw_menu width moved old_top_row old_cur_item else some moved)
    else none

abbrev pub go_item : ℕ → Hooks → ℕ → ℕ → ℕ → Menu → Option Menu
go_item width h i old_top_row old_cur_item m =
    if m.cur_item == i
    then some m
    else move_to width h i old_top_row old_cur_item (call h.item_term m)

abbrev pub gone : Option Menu → Option (Code × Menu)
gone none = none
gone (some m) = some (e_ok, record m { in_init = false })

-- `target` is the item, no value for NULL.
unfoldable pub goto_item : ℕ → Hooks → Menu → Option ℕ → ℕ → Option (Code × Menu)
unfolding move_to
goto_item width h m none new_top_row = some (e_request_denied, m)
goto_item width h m (some i) new_top_row =
    let topped = go_top h new_top_row (record m { in_init = true }) in
    gone (go_item width h i m.top_row m.cur_item topped)
