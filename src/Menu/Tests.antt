-- ===== src/Menu/Tests.antt =====
-- Two menus of lib/libmenu, and what the theorems say of them.
use netbsd_curses.Base.{
  ◌≤◌, replicate, get_elem?, List, ℕ, ◌<◌, ◌≡◌, refl, ◌↔◌, ◌⊎◌, inl, inr, true, false, none, some,
  [], ◌∷◌, arith,
}
use netbsd_curses.Menu.{Options, e_ok, Item, Menu, default_item}
use netbsd_curses.Menu.Layout.{
  calc_neighbours, stitch_items, Shape, up_of, down_of, left_of, right_of,
}
use netbsd_curses.Menu.Layout.Bounds.{IsShape, InRange, neighbours-InRange}
use netbsd_curses.Menu.Layout.Stitch.{IsStitched, stitch_items-IsStitched}
use netbsd_curses.Menu.Layout.Cycle.{up-down}
use netbsd_curses.Menu.Match.{
  items_of, next_reverse, matches, search_from, match_items, name_matches, same_start,
}
use netbsd_curses.Menu.Match.Search.{Finds, search_forward, search_next}
use netbsd_curses.Menu.Match.Reverse.{next_reverse_hangs}
use netbsd_curses.Menu.Draw.{goto_item}
use netbsd_curses.Menu.Draw.Keeps.{no_hooks}
use netbsd_curses.Menu.Driver.{
  dispatch, fault, scr_dpage, scr_upage, dpage_scroll, upage_scroll, menu_driver,
}
use netbsd_curses.Menu.Setup.{set_menu_opts, set_top_row}
use netbsd_curses.Menu.Setup.Radio.{selected_count, set_menu_opts_radio}
use netbsd_curses.Menu.Setup.TopRow.{Topped, set_top_row-Topped}
use netbsd_curses.Menu.Draw.Ends.{Returns, KeepShape}
use netbsd_curses.Menu.Driver.Stitched.{stitched-Returns}
use netbsd_curses.Menu.Driver.Null.{page-null}
use netbsd_curses.Menu.Driver.Window.{Shown, menu_driver-Shown}

-- Five items in two columns.
abbrev by_rows : Shape
by_rows = record { rowmajor = true; noncyclic = false; rows = 3; cols = 2; count = 5 }

-- Six items in four columns of two, where the last column is empty.
abbrev by_columns : Shape
by_columns = record { rowmajor = false; noncyclic = false; rows = 2; cols = 4; count = 5 }

by_rows-IsShape : IsShape by_rows
by_rows-IsShape = record {
  some_rows = omega arith;
  some_cols = omega arith;
  filled = omega arith;
  enough = omega arith;
}

by_columns-IsShape : IsShape by_columns
by_columns-IsShape = record {
  some_rows = omega arith;
  some_cols = omega arith;
  filled = omega arith;
  enough = omega arith;
}

neighbours-InRange_example :
    InRange by_rows (up_of by_rows 4)
    × InRange by_rows (down_of by_rows 4)
    × InRange by_rows (left_of by_rows 4)
    × InRange by_rows (right_of by_rows 4)
neighbours-InRange_example = neighbours-InRange by_rows 4 by_rows-IsShape (omega arith) (inl refl)

up-down_example : (up_of by_rows 1 ≡ some 3) ↔ (down_of by_rows 3 ≡ some 1)
up-down_example = up-down by_rows 1 3 by_rows-IsShape (omega arith) (omega arith) refl

abbrev named : ℕ → ℕ → Item
named c row = record default_item { name = c ∷ []; row = row }

-- The items "a", "b" and "c" in one column, of which two rows are shown, with the pattern "b".
abbrev three_items : Menu
three_items = record {
  rows = 2;
  cols = 1;
  item_rows = 3;
  item_cols = 1;
  cur_row = 0;
  cur_col = 0;
  mark_length = 1;
  unmark_length = 1;
  opts = record {
    onevalue = true;
    showdesc = false;
    rowmajor = true;
    ignorecase = false;
    showmatch = true;
    noncyclic = false;
    radio = false;
  };
  pattern = some (b'b' ∷ []);
  plen = 1;
  match_len = 0;
  posted = true;
  top_row = 0;
  max_item_width = 2;
  col_width = 2;
  items = some (named b'a' 0 ∷ named b'b' 1 ∷ named b'c' 2 ∷ []);
  cur_item = 0;
  in_init = false;
}

-- The same menu at its last item, with the pattern "a".
abbrev at_last : Menu
at_last = record three_items { pattern = some (b'a' ∷ []); cur_item = 2; top_row = 1 }

-- And at the first.
abbrev at_first : Menu
at_first = record three_items { pattern = some (b'a' ∷ []) }

search_forward_example : Finds three_items 0 3 (search_from 4 three_items true 0)
search_forward_example = search_forward three_items (omega arith) 4 (omega arith)

search_next_example : Finds three_items 1 2 (search_from 4 three_items true 1)
search_next_example = search_next three_items (omega arith) 4 (omega arith) (omega arith)

others_miss : (k : ℕ) → 0 < k → k < 3 → matches at_first k ≡ false
unfolding matches name_matches same_start
others_miss k lo hi = elim (among k lo hi) [ inl e ↦ rw e refl | inr e ↦ rw e refl ]
  where
    among : (k : ℕ) → 0 < k → k < 3 → (k ≡ 1) ⊎ (k ≡ 2)
    among k lo hi = ground arith

next_reverse_hangs_example : match_items 1000 at_first next_reverse ≡ none
next_reverse_hangs_example = next_reverse_hangs at_first refl (omega arith) others_miss 1000

three_items-Shown : Shown three_items
three_items-Shown = (omega arith, omega arith)

-- After REQ_LAST_ITEM the first item is out of the window.
abbrev at_end : Menu
at_end = record three_items {
  pattern = none;
  plen = 0;
  top_row = 1;
  cur_item = 2;
  cur_row = 2;
  col_width = 80;
  items = some (
      named b'a' 0
      ∷ record (named b'b' 1) { visible = true }
      ∷ record (named b'c' 2) { visible = true }
      ∷ []);
}

last_item_lem : menu_driver 4 true 80 no_hooks three_items 0x44a ≡ some (e_ok, at_end)
unfolding menu_driver goto_item
last_item_lem = refl

menu_driver-Shown_example : Shown at_end
menu_driver-Shown_example =
    menu_driver-Shown 4 true 80 three_items 0x44a (omega arith) three_items-Shown last_item_lem

-- Two columns, not posted yet.
abbrev two_columns : Menu
two_columns = record three_items { posted = false; cols = 2 }

abbrev three_names : List Item
three_names = named b'a' 0 ∷ named b'b' 1 ∷ named b'c' 2 ∷ []

stitch_items-IsStitched_example :
    IsStitched two_columns three_names (stitch_items two_columns).0 (stitch_items two_columns).1
stitch_items-IsStitched_example =
    stitch_items-IsStitched two_columns three_names refl refl (omega arith) (omega arith)

no_hooks-KeepShape : KeepShape no_hooks
no_hooks-KeepShape = record { by_menu_init = tt; by_menu_term = tt; by_item_term = tt }

stitched-Returns_example :
    Returns
      (menu_driver 4 true 80 no_hooks (record (stitch_items two_columns).1 { posted = true }) 0x443)
stitched-Returns_example =
    stitched-Returns 4 true 80 no_hooks two_columns three_names 0x443 no_hooks-KeepShape refl refl
      refl (inl refl) (omega arith) (omega arith) (omega arith) (λ e. cc) (λ e. cc)

-- Ten items in three columns, of which the last has two, in a menu that is not cyclic.
abbrev ten_items : Menu
ten_items = record three_items {
  posted = false;
  cols = 3;
  cur_item = 9;
  opts = record three_items.opts { rowmajor = false; noncyclic = true };
  items = some (replicate 10 default_item);
}

abbrev ten_stitched : Menu
ten_stitched = (stitch_items ten_items).1

abbrev tenth : Item
tenth =
    calc_neighbours (record { rowmajor = false; noncyclic = true; rows = 4; cols = 3; count = 10 })
      9 default_item

tenth-there : get_elem? (items_of ten_stitched) 9 ≡ some tenth
unfolding stitch_items
tenth-there = refl

tenth-down : tenth.down ≡ none
unfolding calc_neighbours
tenth-down = refl

page-null_example :
    (tenth.down ≡ none
      → 2 ≤ dpage_scroll ten_stitched
      → dispatch 11 true scr_dpage ten_stitched ≡ fault)
    × (tenth.up ≡ none
        → 2 ≤ upage_scroll ten_stitched
        → dispatch 11 true scr_upage ten_stitched ≡ fault)
unfolding stitch_items
page-null_example = page-null 11 true ten_stitched tenth tenth-there

-- Two items are selected.
abbrev two_selected : Menu
two_selected = record three_items {
  posted = false;
  items =
      some (
        record (named b'a' 0) { selected = true } ∷ record (named b'b' 1) { selected = true } ∷ []);
}

abbrev radio_options : Options
radio_options = record two_selected.opts { radio = true; rowmajor = false }

set_menu_opts_radio_example :
    selected_count (items_of (set_menu_opts radio_options two_selected).1) ≡ 1
set_menu_opts_radio_example =
    set_menu_opts_radio radio_options two_selected
      (record (named b'a' 0) { selected = true } ∷ record (named b'b' 1) { selected = true } ∷ [])
      refl refl (omega arith)

set_top_row-Topped_example : Topped three_items 3 (set_top_row no_hooks 3 three_items)
set_top_row-Topped_example = set_top_row-Topped 3 three_items
