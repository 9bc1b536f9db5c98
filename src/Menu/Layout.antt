-- ===== src/Menu/Layout.antt =====
-- _menui_stitch_items and _menui_calc_neighbours of lib/libmenu/internals.c: the place of each item
-- in the rows and columns of a menu, and its neighbours.
pub mod Bounds
pub mod Stride
pub mod Cycle
pub mod Stitch
use netbsd_curses.Base.{
  ℕ, zero, suc, ◌+◌, ◌-◌, ◌*◌, ◌/◌, ◌%◌, max, ltb, leb, ◌==◌, if◌then◌else◌, Bool, true, false, not,
  ◌&&◌, Option, none, some, List, [], ◌∷◌, length,
}
use netbsd_curses.Menu.{Code, e_ok, e_posted, e_bad_argument, Item, Menu}

-- What the two functions read of the menu: the options O_ROWMAJOR and O_NONCYCLIC, the rows and
-- columns, and the number of items.
pub record Shape : Type 0 where
  pub rowmajor : Bool
  pub noncyclic : Bool
  pub rows : ℕ
  pub cols : ℕ
  pub count : ℕ

unfoldable pub row_of : Shape → ℕ → ℕ
row_of s i = if s.rowmajor then i / s.cols else i % s.rows

unfoldable pub col_of : Shape → ℕ → ℕ
col_of s i = if s.rowmajor then i % s.cols else i / s.rows

-- A neighbour over the edge is NULL in a menu that is not cyclic.
abbrev pub at_edge : Shape → ℕ → Option ℕ
at_edge s n = if s.noncyclic then none else some n

-- `neighbour -= k` if it is out of range, and the same with the last item.
abbrev pub back_by : Shape → ℕ → ℕ → ℕ
back_by s k n = if leb s.count n then n - k else n

abbrev pub or_last : Shape → ℕ → ℕ
or_last s n = if leb s.count n then s.count - 1 else n

unfoldable pub up_of : Shape → ℕ → Option ℕ
unfolding row_of col_of
up_of s i =
    let row = row_of s i in
    let col = col_of s i in
    if ltb s.rows 2
    then at_edge s i
    else if ltb s.cols 2
    then if i == 0 then at_edge s (s.count - 1) else some (i - 1)
    else if s.rowmajor
    then if row == 0
      then at_edge s (back_by s s.cols ((s.rows - 1) * s.cols + col))
      else some (i - s.cols)
    else if row == 0
    then at_edge s (or_last s (s.rows * col + s.rows - 1))
    else some (i - 1)

unfoldable pub down_of : Shape → ℕ → Option ℕ
unfolding row_of col_of
down_of s i =
    let row = row_of s i in
    let col = col_of s i in
    if ltb s.rows 2
    then at_edge s i
    else if ltb s.cols 2
    then if i == s.count - 1 then at_edge s 0 else some (i + 1)
    else if s.rowmajor
    then if row == s.rows - 1
      then at_edge s col
      else if leb s.count (i + s.cols)
      then at_edge s col
      else some (i + s.cols)
    else if row == s.rows - 1
    then at_edge s (col * s.rows)
    else if leb s.count (i + 1)
    then at_edge s (col * s.rows)
    else some (i + 1)

unfoldable pub left_of : Shape → ℕ → Option ℕ
unfolding row_of col_of
left_of s i =
    let row = row_of s i in
    let col = col_of s i in
    if ltb s.cols 2
    then at_edge s i
    else if ltb s.rows 2
    then if i == 0 then at_edge s (s.count - 1) else some (i - 1)
    else if s.rowmajor
    then if col == 0 then at_edge s (or_last s (i + s.cols - 1)) else some (i - 1)
    else if col == 0
    then at_edge s (back_by s s.rows (s.rows * (s.cols - 1) + row))
    else some (i - s.rows)

unfoldable pub right_of : Shape → ℕ → Option ℕ
unfolding row_of col_of
right_of s i =
    let row = row_of s i in
    let col = col_of s i in
    if ltb s.cols 2
    then at_edge s i
    else if ltb s.rows 2
    then if i == s.count - 1 then at_edge s 0 else some (i + 1)
    else if s.rowmajor
    then if col == s.cols - 1
      then at_edge s (i + 1 - s.cols)
      else if i == s.count - 1
      then at_edge s (row * s.cols)
      else some (i + 1)
    else if col == s.cols - 1
    then at_edge s row
    else if leb s.count (i + s.rows)
    then at_edge s row
    else some (i + s.rows)

-- `item_rows` and `item_cols` of a menu of `count` items in `cols` columns.
unfoldable pub rows_for : ℕ → ℕ → ℕ
rows_for count cols = let r = count / cols in if ltb (r * cols) count then r + 1 else r

abbrev pub shape : Menu → List Item → Shape
shape m items = record {
  rowmajor = m.opts.rowmajor;
  noncyclic = m.opts.noncyclic;
  rows = rows_for (length items) m.cols;
  cols = m.cols;
  count = length items;
}

-- _menui_calc_neighbours, with the row and column that _menui_stitch_items has filled in.
unfoldable pub calc_neighbours : Shape → ℕ → Item → Item
unfolding row_of col_of up_of down_of left_of right_of
calc_neighbours s i item = record item {
  row = row_of s i;
  col = col_of s i;
  left = left_of s i;
  right = right_of s i;
  up = up_of s i;
  down = down_of s i;
}

-- The loop over the items, from position `i` on.
unfoldable pub stitch_from : Shape → ℕ → List Item → List Item
unfolding calc_neighbours
stitch_from s i [] = []
stitch_from s i (item ∷ items) = calc_neighbours s i item ∷ stitch_from s (suc i) items

-- _menui_max_item_size: the widest entry so far.
unfoldable pub widest : Menu → ℕ → List Item → ℕ
widest m w [] = w
widest m w (item ∷ items) =
    let width =
      length item.name
      + max m.mark_length m.unmark_length
      + (if m.opts.showdesc then length item.description + 1 else 0) in
    widest m (max w width) items

abbrev pub count_of : Option (List Item) → ℕ
count_of none = 0
count_of (some items) = length items

unfoldable pub max_item_size : Menu → Menu
unfolding widest
max_item_size m = elim m.items [
  | none ↦ m
  | some items ↦ record m { max_item_width = widest m m.max_item_width items }
]

unfoldable pub stitch_items : Menu → Code × Menu
unfolding rows_for max_item_size stitch_from
stitch_items m = if m.posted then (e_posted, m) else elim m.items [
  | none ↦ (e_bad_argument, m)
  | some items ↦ (
    e_ok,
    record (max_item_size m) {
      item_rows = rows_for (length items) m.cols;
      item_cols = m.cols;
      items = some (stitch_from (shape m items) 0 items);
    },
  )
]
