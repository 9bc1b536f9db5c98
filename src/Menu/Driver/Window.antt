-- ===== src/Menu/Driver/Window.antt =====
-- menu_driver of lib/libmenu keeps the current item in the window of visible rows.
use netbsd_curses.Base.{
  ℕ, ◌+◌, ◌≤◌, ◌<◌, ◌≡◌, refl, ap, subst, sym, ltb, ◌==◌, if◌then◌else◌, Bool, true, not, ◌&&◌,
  Option, none, some, get_elem?, arith, if_cases, and_true, ==_iff,
}
use netbsd_curses.Menu.{Code, Item, Menu}
use netbsd_curses.Menu.Match.{items_of, count}
use netbsd_curses.Menu.Draw.{goto_item, row_at}
use netbsd_curses.Menu.Draw.Rows.{IfSome}
use netbsd_curses.Menu.Draw.Keeps.{Drawn, no_hooks, Arrived, goto_item-Arrived}
use netbsd_curses.Menu.Driver.Keeps.{Kept}
use netbsd_curses.Menu.Driver.Requests.{drive-Kept}
use netbsd_curses.Menu.Driver.{
  Leave, return, onward, fault, finish, drive, menu_driver, scrolled, with_status,
}

-- The current item's row is one of the `rows` rows from the top row on.
abbrev pub Shown : Menu → Type 0
Shown m =
    (m.top_row ≤ row_at (items_of m) m.cur_item)
    × (row_at (items_of m) m.cur_item < m.top_row + m.rows)

Drawn-Shown : {m m' : Menu} → Drawn m m' → Shown m → Shown m'
Drawn-Shown {m = m} {m' = m'} d s = omega (
  arith,
  d.same_top,
  d.same_height,
  d.same_rows m.cur_item,
  ap (row_at (items_of m')) d.same_item,
)

scrolled-Shown :
    (rows row top : ℕ)
    → 0 < rows
    → (scrolled rows row top ≤ row) × (row < scrolled rows row top + rows)
scrolled-Shown rows row top h = ground arith

Arrived-Shown :
    (m m' : Menu) (i top : ℕ)
    → 0 < m.rows
    → Arrived m i (scrolled m.rows (row_at (items_of m) i) top) m'
    → Shown m'
Arrived-Shown m m' i top h a = omega (
  arith,
  scrolled-Shown m.rows (row_at (items_of m) i) top h,
  a.same_rows i,
  a.top_there,
  a.same_height,
  ap (row_at (items_of m')) a.there,
)

-- If the driver returns, it leaves such a menu.
abbrev Leaves : Option (Code × Menu) → Type 0
Leaves none = Unit {0}
Leaves (some (code, m)) = Shown m

finish-Leaves :
    (width : ℕ) (m : Menu) (l : Leave)
    → 0 < m.rows
    → Shown m
    → Kept m l
    → Leaves (finish width no_hooks l)
unfolding finish
finish-Leaves width m (return code m1) h s k = Drawn-Shown k s
finish-Leaves width m fault h s k = tt
finish-Leaves width m (onward m1 none top status) h s k = Drawn-Shown k s
finish-Leaves width m (onward m1 (some i) top status) h s k = at (get_elem? (items_of m1) i) refl
  where
    tall : 0 < m1.rows
    tall = omega (arith, k.same_height)

    stay :
        (row : ℕ)
        → row_at (items_of m1) i ≡ row
        → (i == m1.cur_item && scrolled m1.rows row top == m1.top_row) ≡ true
        → Shown m1
    stay row r both =
        let (a, b) = and_true _ _ both in
        let here : i ≡ m1.cur_item = (==_iff i m1.cur_item).0 a in
        omega (
          arith,
          scrolled-Shown m1.rows row top tall,
          (==_iff (scrolled m1.rows row top) m1.top_row).0 b,
          r,
          ap (row_at (items_of m1)) here,
        )

    arrived :
        (o : Option (Code × Menu))
        → IfSome (λ r. Arrived m1 i (scrolled m1.rows (row_at (items_of m1) i) top) r.1) o
        → Leaves (with_status status o)
    arrived none a = tt
    arrived (some r) a = Arrived-Shown m1 r.1 i top tall a

    at :
        (o : Option Item)
        → get_elem? (items_of m1) i ≡ o
        → Leaves (elim o [
          | none ↦ none
          | some x ↦
              let top' = scrolled m1.rows x.row top in
              if i == m1.cur_item && top' == m1.top_row
              then some (status, m1)
              else with_status status (goto_item width no_hooks m1 (some i) top')
        ])
    at none e = tt
    at (some x) e =
        let row : row_at (items_of m1) i ≡ x.row = rw (e, row_at) in
        let top' = scrolled m1.rows x.row top in
        if_cases Leaves (i == m1.cur_item && top' == m1.top_row) (some (status, m1)) _
          (stay x.row row)
          λ _. arrived (goto_item width no_hooks m1 (some i) top') (
            subst
              (λ r.
                IfSome (λ q. Arrived m1 i (scrolled m1.rows r top) q.1)
                  (goto_item width no_hooks m1 (some i) top'))
              (sym row) (goto_item-Arrived width m1 i top'))

-- With no hooks and at least one row to show, whatever the character, if the row of the current
-- item is among those shown before menu_driver, it is among those shown after it.
pub menu_driver-Shown :
    (fuel : ℕ) (room : Bool) (width : ℕ) (m : Menu) (c : ℕ) {code : Code} {m' : Menu}
    → 0 < m.rows
    → Shown m
    → menu_driver fuel room width no_hooks m c ≡ some (code, m')
    → Shown m'
unfolding menu_driver
menu_driver-Shown fuel room width m c h s e = subst Leaves e (
    if_cases Leaves (not m.posted) _ _ (λ _. s)
      λ _.
        if_cases Leaves (not (ltb 0 (count m))) _ _ (λ _. s)
          λ _.
            if_cases Leaves m.in_init _ _ (λ _. s)
              λ _.
                if_cases Leaves (m.cur_item == count m) _ _ (λ _. s)
                  λ _. finish-Leaves width m (drive fuel room m c) h s (drive-Kept fuel room m c))
