-- ===== src/Menu/Layout/Bounds.antt =====
-- The neighbours that lib/libmenu computes lie in the menu's array.
use netbsd_curses.Base.{
  ℕ, zero, suc, ◌+◌, ◌-◌, ◌*◌, ◌/◌, ◌≤◌, ◌<◌, ◌≡◌, ltb, if◌then◌else◌, true, false, Option, none,
  some, arith, Bool-cases, inl, inr, ◌⊎◌,
}
use native.Mathlib.Nat.{mod-eq_of_lt, div-eq_of_lt}
use netbsd_curses.Menu.Layout.{Shape, up_of, down_of, left_of, right_of, rows_for}

-- The items fill all the rows but perhaps the last.
pub record IsShape (s : Shape) : Type 0 where
  pub some_rows : 0 < s.rows
  pub some_cols : 0 < s.cols
  pub filled : (s.rows - 1) * s.cols < s.count
  pub enough : s.count ≤ s.rows * s.cols

abbrev fit : ℕ → ℕ → ℕ → ℕ
fit q cols count = if ltb (q * cols) count then q + 1 else q

fit_bounds :
    (q cols count : ℕ)
    → 0 < cols
    → 0 < count
    → q * cols ≤ count
    → count < q * cols + cols
    → (0 < fit q cols count)
      × ((fit q cols count - 1) * cols < count)
      × (count ≤ fit q cols count * cols)
fit_bounds zero cols count hc hn lo hi = ground arith
fit_bounds (suc q) cols count hc hn lo hi = elim (Bool-cases (ltb (suc q * cols) count)) [
  | inl e ↦ grind arith
  | inr e ↦ grind arith
]

-- For a positive number of items and of columns, the division of _menui_stitch_items gives at
-- least one row, no more rows than the items need, and enough for all of them.
pub rows_for-IsShape :
    (s : Shape) → 0 < s.cols → 0 < s.count → s.rows ≡ rows_for s.count s.cols → IsShape s
unfolding rows_for
rows_for-IsShape s hc hn e =
    let b = fit_bounds (s.count / s.cols) s.cols s.count hc hn (omega arith) (omega arith) in
    record { some_rows = rw e b.0; some_cols = hc; filled = rw e b.1; enough = rw e b.2 }

abbrev pub InRange : Shape → Option ℕ → Type 0
InRange s none = Unit {0}
InRange s (some n) = n < s.count

module _ (s : Shape) (i : ℕ) (v : IsShape s) (h : i < s.count) where
  -- In a menu whose rows hold its items, the neighbour above an item, if there is one, is one of
  -- the items.
  pub up-InRange : InRange s (up_of s i)
  unfolding up_of
  up-InRange = ground arith

  -- In a menu whose rows hold its items, the neighbour below an item, if there is one, is one of
  -- the items.
  pub down-InRange : InRange s (down_of s i)
  unfolding down_of
  down-InRange = ground arith

  -- In a menu whose rows hold its items, the neighbour to the right of an item, if there is one,
  -- is one of the items.
  pub right-InRange : InRange s (right_of s i)
  unfolding right_of
  right-InRange = ground arith

  -- In a menu whose rows hold its items, by rows or with an item in every column, the neighbour to
  -- the left of an item, if there is one, is one of the items.
  pub left-InRange :
      (s.rowmajor ≡ true) ⊎ (s.rows * (s.cols - 1) < s.count) → InRange s (left_of s i)
  unfolding left_of
  left-InRange full = ground arith

  -- In a menu whose rows hold its items, by rows or with an item in every column, each of the
  -- neighbours of an item that there is above, below, to the left and to the right is one of the
  -- items.
  pub neighbours-InRange :
      (s.rowmajor ≡ true) ⊎ (s.rows * (s.cols - 1) < s.count)
      → InRange s (up_of s i)
        × InRange s (down_of s i)
        × InRange s (left_of s i)
        × InRange s (right_of s i)
  neighbours-InRange full = (up-InRange, down-InRange, left-InRange full, right-InRange)

  -- In a cyclic menu by columns with at least two rows and two columns, the left neighbour of an
  -- item of the first column is past the items, if so many columns are empty that the last place
  -- of its row is past them by the height of a column.
  pub left_past :
      s.rowmajor ≡ false
      → s.noncyclic ≡ false
      → 2 ≤ s.rows
      → 2 ≤ s.cols
      → i < s.rows
      → s.count ≤ s.rows * (s.cols - 1) + i - s.rows
      → ¬ InRange s (left_of s i)
  unfolding left_of
  left_past rm nc r2 c2 hi full = ground (arith, div-eq_of_lt hi, mod-eq_of_lt hi)
