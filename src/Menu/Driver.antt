-- ===== src/Menu/Driver.antt =====
-- menu_driver of lib/libmenu/driver.c: the requests of a posted menu.
pub mod Keeps
pub mod Requests
pub mod Window
pub mod Returns
pub mod Total
pub mod Stitched
pub mod Null
use netbsd_curses.Base.{
  ℕ, zero, suc, ◌+◌, ◌-◌, ◌%◌, min, ltb, leb, ◌==◌, if◌then◌else◌, Bool, true, false, not, ◌&&◌,
  ◌||◌, Option, none, some, List, [], ◌∷◌, length, get_elem?,
}
use netbsd_curses.Menu.{
  Code, e_ok, e_not_posted, e_not_connected, e_bad_state, e_system_error, e_request_denied,
  e_not_selectable, e_unknown_command, e_bad_argument, Item, Menu,
}
use netbsd_curses.Menu.Match.{
  items_of, count, Outcome, match_pattern, Direction, forward, next_forward, next_reverse, is_print,
}
use netbsd_curses.Menu.Draw.{Hooks, change, draw_item, goto_item, row_at}

-- The requests REQ_LEFT_ITEM to REQ_PREV_MATCH of menu.h, in the order of their numbers.
pub data Request : Type 0 where
  left_item right_item up_item down_item scr_uline scr_dline scr_dpage scr_upage : Request
  first_item last_item next_item prev_item toggle_item clear_pattern back_pattern : Request
  next_match prev_match : Request

-- REQ_BASE_NUM: KEY_MAX + 0x200
abbrev pub req_base_num : ℕ
req_base_num = 0x440

abbrev pub max_command : ℕ
max_command = 0x451

abbrev pub requests : List Request
requests =
    left_item ∷ right_item ∷ up_item ∷ down_item ∷ scr_uline ∷ scr_dline ∷ scr_dpage ∷ scr_upage
    ∷ first_item ∷ last_item ∷ next_item ∷ prev_item ∷ toggle_item ∷ clear_pattern ∷ back_pattern
    ∷ next_match ∷ prev_match ∷ []

-- A character `c` with REQ_BASE_NUM < c <= MAX_COMMAND is a request.
abbrev pub request_of : ℕ → Option Request
request_of c = if ltb req_base_num c then get_elem? requests (c - req_base_num - 1) else none

-- How the switch leaves: by a return, or with the item to go to (no value for NULL), the row at the
-- top and the status. `fault` is a read through NULL or past the array, a write outside the pattern,
-- or a search with no end.
pub data Leave : Type 0 where
  return : Code → Menu → Leave
  onward : Menu → Option ℕ → ℕ → Code → Leave
  fault : Leave

abbrev pub keeps_pattern : Request → Bool
keeps_pattern back_pattern = true
keeps_pattern next_match = true
keeps_pattern prev_match = true
keeps_pattern _ = false

abbrev pub clear : Menu → Menu
clear m = record m { pattern = none; plen = 0; match_len = 0 }

-- The neighbour of the item at `i`.
abbrev pub follow : (Item → Option ℕ) → Menu → ℕ → (Option ℕ → Leave) → Leave
follow link m i k = elim (get_elem? (items_of m) i) [ none ↦ fault | some x ↦ k (link x) ]

-- while (drv_scroll-- > 0) drv_new_item = drv_new_item->down;
unfoldable pub walk : (Item → Option ℕ) → Menu → ℕ → Option ℕ → (Option ℕ → Leave) → Leave
walk link m zero p k = k p
walk link m (suc n) none k = fault
walk link m (suc n) (some i) k = follow link m i (λ p. walk link m n p k)

-- Toggling in a radio menu: every other selected item is deselected and drawn, then this one.
abbrev pub set_selected : Bool → Item → Item
set_selected b x = record x { selected = b }

abbrev pub selected_at : Menu → ℕ → Bool
selected_at m i = elim (get_elem? (items_of m) i) [ none ↦ false | some x ↦ x.selected ]

abbrev pub selectable_at : Menu → ℕ → Bool
selectable_at m i = elim (get_elem? (items_of m) i) [ none ↦ false | some x ↦ x.selectable ]

abbrev pub select_and_draw : Bool → ℕ → Menu → Menu
select_and_draw b i m =
    draw_item (record m { items = some (change (set_selected b) i (items_of m)) }) i

unfoldable pub deselect_others : ℕ → ℕ → ℕ → Menu → Menu
deselect_others zero i this m = m
deselect_others (suc n) i this m =
    deselect_others n (i + 1) this
      (if selected_at m i && not (i == this) then select_and_draw false i m else m)

-- A read of the item at `i`.
abbrev pub reading : Menu → ℕ → Leave → Leave
reading m i l = follow (λ x. none) m i (λ p. l)

-- The item alone is selected.
unfoldable pub toggle_radio : Menu → ℕ → Leave
unfolding deselect_others
toggle_radio m i =
    if not (selectable_at m i)
    then return e_not_selectable m
    else if selected_at m i
    then return e_request_denied m
    else onward (select_and_draw true i (deselect_others (count m) 0 i m)) (some i) m.top_row e_ok

unfoldable pub toggle_one : Menu → ℕ → Leave
toggle_one m i =
    if selectable_at m i
    then onward (select_and_draw (not (selected_at m i)) i m) (some i) m.top_row e_ok
    else return e_not_selectable m

unfoldable pub toggle : Menu → ℕ → Leave
unfolding toggle_radio toggle_one
toggle m i =
    if m.opts.radio || m.opts.onevalue
    then if m.opts.radio then reading m i (toggle_radio m i) else return e_request_denied m
    else reading m i (toggle_one m i)

-- The position that a search leaves in `it`, which begins as the current item.
abbrev pub searched : Menu → Option Outcome → Leave
searched m none = fault
searched m (some o) = elim o.matched [
  | none ↦ onward o.menu (some m.cur_item) m.top_row o.code
  | some i ↦ onward o.menu (some i) m.top_row o.code
]

abbrev pub by_match : ℕ → Bool → Menu → Direction → Leave
by_match fuel room m dir = elim m.pattern [
  | none ↦ return e_request_denied m
  | some cs ↦ searched m (match_pattern fuel room m 0 dir)
]

abbrev pub dpage_scroll : Menu → ℕ
dpage_scroll m = min (m.item_rows - m.rows - m.top_row) m.rows

abbrev pub upage_scroll : Menu → ℕ
upage_scroll m = if ltb m.rows m.top_row then m.rows else m.top_row

-- The switch, on a menu whose pattern has been cleared where it is to be.
unfoldable pub dispatch : ℕ → Bool → Request → Menu → Leave
unfolding walk toggle
dispatch fuel room left_item m = follow (λ x. x.left) m m.cur_item (λ p. onward m p m.top_row e_ok)
dispatch fuel room right_item m =
    follow (λ x. x.right) m m.cur_item (λ p. onward m p m.top_row e_ok)
dispatch fuel room up_item m = follow (λ x. x.up) m m.cur_item (λ p. onward m p m.top_row e_ok)
dispatch fuel room down_item m = follow (λ x. x.down) m m.cur_item (λ p. onward m p m.top_row e_ok)
dispatch fuel room scr_uline m =
    if m.top_row == 0
    then return e_request_denied m
    else follow (λ x. x.up) m m.cur_item (λ p. onward m p (m.top_row - 1) e_ok)
dispatch fuel room scr_dline m =
    if ltb m.item_rows (m.top_row + 1 + m.rows - 1)
    then return e_request_denied m
    else follow (λ x. x.down) m m.cur_item (λ p. onward m p (m.top_row + 1) e_ok)
dispatch fuel room scr_dpage m =
    let scroll = dpage_scroll m in
    if scroll == 0
    then return e_request_denied m
    else walk (λ x. x.down) m scroll (some m.cur_item) (λ p. onward m p (m.top_row + scroll) e_ok)
dispatch fuel room scr_upage m =
    let scroll = upage_scroll m in
    if scroll == 0
    then return e_request_denied m
    else walk (λ x. x.up) m scroll (some m.cur_item) (λ p. onward m p (m.top_row - scroll) e_ok)
dispatch fuel room first_item m = onward m (some 0) m.top_row e_ok
dispatch fuel room last_item m = onward m (some (count m - 1)) m.top_row e_ok
dispatch fuel room next_item m =
    if leb (count m) (m.cur_item + 1)
    then if m.opts.noncyclic then return e_request_denied m else onward m (some 0) m.top_row e_ok
    else onward m (some (m.cur_item + 1)) m.top_row e_ok
dispatch fuel room prev_item m =
    if m.cur_item == 0
    then if m.opts.noncyclic
      then return e_request_denied m
      else onward m (some (count m - 1)) m.top_row e_ok
    else onward m (some (m.cur_item - 1)) m.top_row e_ok
dispatch fuel room toggle_item m = toggle m m.cur_item
dispatch fuel room clear_pattern m = onward m (some m.cur_item) m.top_row e_ok
dispatch fuel room back_pattern m = elim m.pattern [
  | none ↦ return e_request_denied m
  | some cs ↦
      if m.plen == 0
      then return e_request_denied m
      else onward (record m { plen = m.plen - 1 }) (some m.cur_item) m.top_row e_ok
]
dispatch fuel room next_match m = by_match fuel room m next_forward
dispatch fuel room prev_match m = by_match fuel room m next_reverse

abbrev pub is_clear : Request → Bool
is_clear clear_pattern = true
is_clear _ = false

abbrev pub has_pattern : Menu → Bool
has_pattern m = elim m.pattern [ none ↦ false | some cs ↦ true ]

unfoldable pub request : ℕ → Bool → Request → Menu → Leave
unfolding dispatch
request fuel room r m =
    if keeps_pattern r
    then dispatch fuel room r m
    else if is_clear r && not (has_pattern m)
    then return e_request_denied m
    else dispatch fuel room r (clear m)

-- The row at the top is moved so that the item's row is in the window.
abbrev pub scrolled : ℕ → ℕ → ℕ → ℕ
scrolled rows row top =
    let top' = if ltb row top then row else top in
    if leb (top' + rows) row then row + 1 - rows else top'

abbrev pub with_status : Code → Option (Code × Menu) → Option (Code × Menu)
with_status status none = none
with_status status (some r) = some (status, r.1)

unfoldable pub finish : ℕ → Hooks → Leave → Option (Code × Menu)
finish width h (return code m) = some (code, m)
finish width h fault = none
finish width h (onward m none top status) = some (e_request_denied, m)
finish width h (onward m (some i) top status) = elim (get_elem? (items_of m) i) [
  | none ↦ none
  | some x ↦
      let top' = scrolled m.rows x.row top in
      if i == m.cur_item && top' == m.top_row
      then some (status, m)
      else with_status status (goto_item width h m (some i) top')
]

-- What menu_driver does with the character `c`, past its guards.
unfoldable pub drive : ℕ → Bool → Menu → ℕ → Leave
unfolding request
drive fuel room m c = elim (request_of c) [
  | some r ↦ request fuel room r m
  | none ↦
      if ltb max_command c
      then return e_unknown_command m
      else if is_print (c % 256)
      then searched m (match_pattern fuel room m (c % 256) forward)
      else return e_bad_argument m
]

-- The menu is not NULL. `fuel` bounds the rounds of a search, `room` says that `realloc` succeeds,
-- and `width` is getmaxx of the window.
unfoldable pub menu_driver : ℕ → Bool → ℕ → Hooks → Menu → ℕ → Option (Code × Menu)
unfolding finish drive
menu_driver fuel room width h m c =
    if not m.posted
    then some (e_not_posted, m)
    else if not (ltb 0 (count m))
    then some (e_not_connected, m)
    else if m.in_init
    then some (e_bad_state, m)
    else if m.cur_item == count m
    then some (e_system_error, m)
    else finish width h (drive fuel room m c)
