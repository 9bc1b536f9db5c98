-- ===== src/Menu/Setup.antt =====
-- The options and the top row of a menu: set_menu_opts and set_top_row of lib/libmenu/menu.c, for a
-- menu that is not NULL.
pub mod Radio
pub mod TopRow
use netbsd_curses.Base.{
  ℕ, zero, suc, ◌+◌, ltb, ◌==◌, if◌then◌else◌, Bool, true, false, not, ◌&&◌, ◌||◌, Option, none,
  some, List, [], ◌∷◌,
}
use netbsd_curses.Menu.{
  Code, e_ok, e_bad_argument, e_not_connected, e_bad_state, e_system_error, Options, Item, Menu,
}
use netbsd_curses.Menu.Match.{items_of}
use netbsd_curses.Menu.Layout.{stitch_items}
use netbsd_curses.Menu.Draw.{Hooks, change}
use netbsd_curses.Menu.Driver.{set_selected}

-- Of the selected items the first stays selected. The result begins with `seen`.
unfoldable pub keep_first : Bool → List Item → Bool × List Item
keep_first seen [] = (seen, [])
keep_first seen (x ∷ xs) =
    let rest = keep_first (seen || x.selected) xs in
    (rest.0, (if x.selected && seen then set_selected false x else x) ∷ rest.1)

-- One item is selected, the first if there was none.
unfoldable pub select_one : List Item → List Item
unfolding keep_first change
select_one xs =
    let kept = keep_first false xs in if kept.0 then kept.1 else change (set_selected true) 0 kept.1

abbrev pub for_radio : Menu → Menu
for_radio m = elim m.items [ none ↦ m | some xs ↦ record m { items = some (select_one xs) } ]

abbrev pub same_bool : Bool → Bool → Bool
same_bool a b = if a then b else not b

unfoldable pub set_menu_opts : Options → Menu → Code × Menu
unfolding select_one stitch_items
set_menu_opts opts m =
    let set = record m { opts = opts } in
    let chosen = if opts.radio then for_radio set else set in
    (e_ok, if same_bool opts.rowmajor m.opts.rowmajor then chosen else (stitch_items chosen).1)

-- The first item on a row, from the position `i` on.
unfoldable pub first_on_row : ℕ → ℕ → List Item → Option ℕ
first_on_row row i [] = none
first_on_row row i (x ∷ xs) =
    let rest = first_on_row row (suc i) xs in if row == x.row then some i else rest

abbrev pub hook : Option (Menu → Menu) → Menu → Menu
hook none m = m
hook (some f) m = f m

-- if (menu->posted == 1) { if (f != NULL) f(menu); if (g != NULL) g(menu); }
abbrev pub call_both : Option (Menu → Menu) → Option (Menu → Menu) → Menu → Menu
call_both f g m = if m.posted then hook g (hook f m) else m

abbrev pub move_top : Hooks → ℕ → ℕ → Menu → Menu
move_top h row i m =
    let left = call_both h.menu_term h.item_term (record m { in_init = true }) in
    let moved = record left { cur_item = i; top_row = row } in
    record (call_both h.menu_init h.item_init moved) { in_init = false }

unfoldable pub set_top_row : Hooks → ℕ → Menu → Code × Menu
unfolding first_on_row
set_top_row h row m = if ltb m.item_rows row then (e_bad_argument, m) else elim m.items [
  | none ↦ (e_not_connected, m)
  | some xs ↦ if m.in_init then (e_bad_state, m) else elim (first_on_row row 0 xs) [
    | none ↦ (e_system_error, move_top h row 0 m)
    | some i ↦ (e_ok, move_top h row i m)
  ]
]
