-- ===== src/Menu.antt =====
-- lib/libmenu: menus of items laid out in rows and columns. The records are `struct __item` and
-- `struct __menu` of menu.h; the pointers among the items of a menu are positions in its array.
pub mod Layout
pub mod Match
pub mod Draw
pub mod Driver
pub mod Setup
mod Tests
use netbsd_curses.Base.{ℕ, Bool, true, false, Option, none, List, []}

-- The results of menu.h that the functions return.
pub data Code : Type 0 where
  e_ok e_system_error e_bad_argument e_posted e_connected e_bad_state e_no_room : Code
  e_not_posted e_unknown_command e_no_match e_not_selectable e_not_connected : Code
  e_request_denied : Code

-- The flags of `OPTIONS` for a menu.
pub record Options : Type 0 where
  pub onevalue : Bool
  pub showdesc : Bool
  pub rowmajor : Bool
  pub ignorecase : Bool
  pub showmatch : Bool
  pub noncyclic : Bool
  pub radio : Bool

-- A neighbour is no value where it is NULL, and otherwise the position of the array that was read.
pub record Item : Type 0 where
  pub name : List ℕ
  pub description : List ℕ
  pub visible : Bool
  pub selected : Bool
  pub selectable : Bool
  pub row : ℕ
  pub col : ℕ
  pub left : Option ℕ
  pub right : Option ℕ
  pub up : Option ℕ
  pub down : Option ℕ

-- `items` is the array up to its final NULL, so its length is `item_count`. Of `mark` and `unmark`
-- only the lengths matter here.
pub record Menu : Type 0 where
  pub rows : ℕ
  pub cols : ℕ
  pub item_rows : ℕ
  pub item_cols : ℕ
  pub cur_row : ℕ
  pub cur_col : ℕ
  pub mark_length : ℕ
  pub unmark_length : ℕ
  pub opts : Options
  pub pattern : Option (List ℕ)
  pub plen : ℕ
  pub match_len : ℕ
  pub posted : Bool
  pub top_row : ℕ
  pub max_item_width : ℕ
  pub col_width : ℕ
  pub items : Option (List Item)
  pub cur_item : ℕ
  pub in_init : Bool

abbrev pub default_item : Item
default_item = record {
  name = [];
  description = [];
  visible = false;
  selected = false;
  selectable = true;
  row = 0;
  col = 0;
  left = none;
  right = none;
  up = none;
  down = none;
}
