-- ===== src/Menu/Layout/Cycle.antt =====
-- In a cyclic menu the neighbours of lib/libmenu lead back.
use netbsd_curses.Base.{
  ℕ, ◌+◌, ◌-◌, ◌*◌, ◌/◌, ◌≤◌, ◌<◌, ◌≡◌, ap, ltb, ◌==◌, true, false, some, arith, Bool-cases, inl,
  inr, ◌⊎◌, ◌↔◌,
}
use native.Mathlib.Decide.{dec_lt}
use native.Mathlib.Nat.{div-eq_of_lt, mod-lt}
use netbsd_curses.Menu.Layout.{Shape, up_of, down_of, left_of, right_of}
use netbsd_curses.Menu.Layout.Bounds.{IsShape}
use netbsd_curses.Menu.Layout.Stride.{
  back, forth, left, right, forth-back, back-forth, right-left, left-right, place_lem, one_line,
  two_lines,
}

first_line : (i c : ℕ) → 0 < c → (ltb i c ≡ true) ↔ ((i / c == 0) ≡ true)
first_line i c h = (
  λ e. ground (arith, div-eq_of_lt {n = i} {m = c}),
  λ e. ground (arith, place_lem i c, mod-lt i h),
)

in_last_line : (i c l count : ℕ) → 2 ≤ l → count ≤ l * c → i / c ≡ l - 1 → count ≤ i + c
in_last_line i c l count two enough e =
    omega (arith, place_lem i c, ap (λ n. n * c) e, one_line l c two, two_lines l c two)

-- Two functions that undo one another at `i` and at `j`.
swapped :
    (f g : ℕ → ℕ) (i j : ℕ)
    → f (g i) ≡ i
    → g (f j) ≡ j
    → (some (g i) ≡ some j) ↔ (some (f j) ≡ some i)
swapped f g i j a b = (λ e. ground arith, λ e. ground arith)

module _ (s : Shape) (v : IsShape s) (cyclic : s.noncyclic ≡ false) (r2 : 2 ≤ s.rows)
    (c2 : 2 ≤ s.cols) where
  module _ (rm : s.rowmajor ≡ true) where
    up_rows : (i : ℕ) → i < s.count → up_of s i ≡ some (back s.cols (s.rows - 2) s.count i)
    unfolding up_of
    up_rows i h = ground (arith, first_line i s.cols v.some_cols, one_line s.rows s.cols r2)

    down_rows : (i : ℕ) → i < s.count → down_of s i ≡ some (forth s.cols s.count i)
    unfolding down_of
    down_rows i h = ground (arith, in_last_line i s.cols s.rows s.count r2 v.enough)

    left_rows : (i : ℕ) → i < s.count → left_of s i ≡ some (left s.cols s.count i)
    unfolding left_of
    left_rows i h = ground arith

    right_rows : (i : ℕ) → i < s.count → right_of s i ≡ some (right s.cols s.count i)
    unfolding right_of
    right_rows i h = ground arith

  module _ (cm : s.rowmajor ≡ false) where
    up_cols : (i : ℕ) → i < s.count → up_of s i ≡ some (left s.rows s.count i)
    unfolding up_of
    up_cols i h = ground (arith, place_lem i s.rows)

    down_cols : (i : ℕ) → i < s.count → down_of s i ≡ some (right s.rows s.count i)
    unfolding down_of
    down_cols i h = ground (arith, place_lem i s.rows)

    -- Every column has an item.
    module _ (full : s.rows * (s.cols - 1) < s.count) where
      left_cols : (i : ℕ) → i < s.count → left_of s i ≡ some (back s.rows (s.cols - 2) s.count i)
      unfolding left_of
      left_cols i h = ground (arith, first_line i s.rows v.some_rows, one_line s.cols s.rows c2)

      right_cols : (i : ℕ) → i < s.count → right_of s i ≡ some (forth s.rows s.count i)
      unfolding right_of
      right_cols i h = ground (arith, in_last_line i s.rows s.cols s.count c2)

  rows_pair :
      (i j : ℕ)
      → i < s.count
      → j < s.count
      → s.rowmajor ≡ true
      → (up_of s i ≡ some j) ↔ (down_of s j ≡ some i)
  rows_pair i j hi hj rm =
      rw (up_rows rm i hi, down_rows rm j hj)
        (swapped (forth s.cols s.count) (back s.cols (s.rows - 2) s.count) i j
          (forth-back s.cols (s.rows - 2) s.count filled enough v.some_cols i hi)
          (back-forth s.cols (s.rows - 2) s.count filled enough v.some_cols j hj))
    where
      filled : (s.rows - 2) * s.cols + s.cols < s.count
      filled = omega (arith, v.filled, one_line s.rows s.cols r2)

      enough : s.count ≤ (s.rows - 2) * s.cols + s.cols + s.cols
      enough = omega (arith, v.enough, two_lines s.rows s.cols r2)

  cols_pair :
      (i j : ℕ)
      → i < s.count
      → j < s.count
      → s.rowmajor ≡ false
      → (up_of s i ≡ some j) ↔ (down_of s j ≡ some i)
  cols_pair i j hi hj cm =
      rw (up_cols cm i hi, down_cols cm j hj)
        (swapped (right s.rows s.count) (left s.rows s.count) i j
          (right-left s.rows s.count r2 i hi) (left-right s.rows s.count r2 j hj))

  rows_side :
      (i j : ℕ)
      → i < s.count
      → j < s.count
      → s.rowmajor ≡ true
      → (left_of s i ≡ some j) ↔ (right_of s j ≡ some i)
  rows_side i j hi hj rm =
      rw (left_rows rm i hi, right_rows rm j hj)
        (swapped (right s.cols s.count) (left s.cols s.count) i j
          (right-left s.cols s.count c2 i hi) (left-right s.cols s.count c2 j hj))

  cols_side :
      (i j : ℕ)
      → i < s.count
      → j < s.count
      → s.rowmajor ≡ false
      → s.rows * (s.cols - 1) < s.count
      → (left_of s i ≡ some j) ↔ (right_of s j ≡ some i)
  cols_side i j hi hj cm full =
      rw (left_cols cm full i hi, right_cols cm full j hj)
        (swapped (forth s.rows s.count) (back s.rows (s.cols - 2) s.count) i j
          (forth-back s.rows (s.cols - 2) s.count filled enough v.some_rows i hi)
          (back-forth s.rows (s.cols - 2) s.count filled enough v.some_rows j hj))
    where
      filled : (s.cols - 2) * s.rows + s.rows < s.count
      filled = omega (arith, full, one_line s.cols s.rows c2)

      enough : s.count ≤ (s.cols - 2) * s.rows + s.rows + s.rows
      enough = omega (arith, v.enough, two_lines s.cols s.rows c2)

-- A menu of one row or one column.
thin_pair :
    (s : Shape) (i j : ℕ)
    → s.noncyclic ≡ false
    → (s.rows < 2) ⊎ (s.cols < 2)
    → i < s.count
    → j < s.count
    → (up_of s i ≡ some j) ↔ (down_of s j ≡ some i)
unfolding up_of down_of
thin_pair s i j cyclic (inl t) hi hj = (λ e. ground arith, λ e. ground arith)
thin_pair s i j cyclic (inr t) hi hj = (λ e. ground arith, λ e. ground arith)

thin_side :
    (s : Shape) (i j : ℕ)
    → s.noncyclic ≡ false
    → (s.rows < 2) ⊎ (s.cols < 2)
    → i < s.count
    → j < s.count
    → (left_of s i ≡ some j) ↔ (right_of s j ≡ some i)
unfolding left_of right_of
thin_side s i j cyclic (inl t) hi hj = (λ e. ground arith, λ e. ground arith)
thin_side s i j cyclic (inr t) hi hj = (λ e. ground arith, λ e. ground arith)

Thin-cases : (s : Shape) → ((s.rows < 2) ⊎ (s.cols < 2)) ⊎ ((2 ≤ s.rows) × (2 ≤ s.cols))
Thin-cases s = elim (dec_lt s.rows 2) [
  | yes a ↦ inl (inl a)
  | no a ↦ elim (dec_lt s.cols 2) [ yes b ↦ inl (inr b) | no b ↦ inr (omega arith, omega arith) ]
]

module _ (s : Shape) (i j : ℕ) (v : IsShape s) (hi : i < s.count) (hj : j < s.count) where
  -- In a cyclic menu whose rows hold its items, the item above `i` is `j` exactly when the item
  -- below `j` is `i`.
  pub up-down : s.noncyclic ≡ false → (up_of s i ≡ some j) ↔ (down_of s j ≡ some i)
  up-down cyclic = elim (Thin-cases s) [
    | inl thin ↦ thin_pair s i j cyclic thin hi hj
    | inr (r2, c2) ↦ elim (Bool-cases s.rowmajor) [
      | inl rm ↦ rows_pair s v cyclic r2 c2 i j hi hj rm
      | inr cm ↦ cols_pair s v cyclic r2 c2 i j hi hj cm
    ]
  ]

  -- In a cyclic menu whose rows hold its items, by rows or with an item in every column, the item
  -- to the left of `i` is `j` exactly when the item to the right of `j` is `i`.
  pub left-right_pair :
      s.noncyclic ≡ false
      → (s.rowmajor ≡ true) ⊎ (s.rows * (s.cols - 1) < s.count)
      → (left_of s i ≡ some j) ↔ (right_of s j ≡ some i)
  left-right_pair cyclic full = elim (Thin-cases s) [
    | inl thin ↦ thin_side s i j cyclic thin hi hj
    | inr (r2, c2) ↦ elim (Bool-cases s.rowmajor) [
      | inl rm ↦ rows_side s v cyclic r2 c2 i j hi hj rm
      | inr cm ↦ elim full [ inl rm ↦ cc | inr f ↦ cols_side s v cyclic r2 c2 i j hi hj cm f ]
    ]
  ]
