-- ===== src/Menu/Layout/Stride.antt =====
-- Two ways round a grid of `count` items that lies in lines of `st`: across the lines, by steps of
-- `st`, and along a line. Each way back undoes the way forth.
use netbsd_curses.Base.{
  ℕ, zero, suc, ◌+◌, ◌-◌, ◌*◌, ◌/◌, ◌%◌, ◌≤◌, ◌<◌, ◌≡◌, ap, ◌∙◌, ltb, leb, ◌==◌, if◌then◌else◌,
  arith, Bool-cases, inl, inr, ◌⊎◌, ltb_ge,
}
use native.Mathlib.Decide.{dec_lt}
use native.Mathlib.Nat.{
  mod-eq_of_lt, div-eq_of_lt, mul-add-div_right, mul-add-mod_self_right, div-add-mod, mod-lt,
}

-- A number by its quotient and remainder.
pub place_div : (r k c : ℕ) → k < c → (r * c + k) / c ≡ r
place_div r k c h = omega (arith, mul-add-div_right {m = c} (omega arith) r k, div-eq_of_lt h)

pub place_mod : (r k c : ℕ) → k < c → (r * c + k) % c ≡ k
place_mod r k c h = mul-add-mod_self_right r c k ∙ mod-eq_of_lt h

pub place_at : (n q k c : ℕ) → k < c → n ≡ q * c + k → (n / c ≡ q) × (n % c ≡ k)
place_at n q k c h e = (rw e (place_div q k c h), rw e (place_mod q k c h))

pub place_lem : (i c : ℕ) → i / c * c + i % c ≡ i
place_lem i c = omega (arith, div-add-mod i c)

pub one_line : (l s : ℕ) → 2 ≤ l → (l - 1) * s ≡ (l - 2) * s + s
one_line zero s h = absurd (omega arith)
one_line (suc zero) s h = absurd (omega arith)
one_line (suc (suc l)) s h =
    let e : suc (suc l) - 1 ≡ suc l = omega arith in
    let f : suc (suc l) - 2 ≡ l = omega arith in rw (e, f) (omega arith)

pub two_lines : (l s : ℕ) → 2 ≤ l → l * s ≡ (l - 2) * s + s + s
two_lines zero s h = absurd (omega arith)
two_lines (suc zero) s h = absurd (omega arith)
two_lines (suc (suc l)) s h = let f : suc (suc l) - 2 ≡ l = omega arith in rw f (omega arith)

mul_step : (q m s : ℕ) → q < m → q * s + s ≤ m * s
mul_step q m s h = let e : suc q * s ≤ m * s = grind arith in omega arith

-- The last item of a column, of those in `m + 2` lines.
abbrev pub column_end : ℕ → ℕ → ℕ → ℕ → ℕ
column_end st m count i = if leb count (m * st + st + i) then m * st + i else m * st + st + i

abbrev pub back : ℕ → ℕ → ℕ → ℕ → ℕ
back st m count i = if ltb i st then column_end st m count i else i - st

abbrev pub forth : ℕ → ℕ → ℕ → ℕ
forth st count j = if ltb (j + st) count then j + st else j % st

module _ (st m count : ℕ) (filled : m * st + st < count) (enough : count ≤ m * st + st + st)
    (pos : 0 < st) where
  column_end-mod : (i : ℕ) → i < st → column_end st m count i % st ≡ i
  column_end-mod i h = elim (Bool-cases (leb count (m * st + st + i))) [
    | inl e ↦ rw e (place_mod m i st h)
    | inr e ↦ rw e (ap (λ n. n % st) regroup ∙ place_mod (suc m) i st h)
  ]
    where
      regroup : m * st + st + i ≡ suc m * st + i
      regroup = omega arith

  pub forth-back : (i : ℕ) → i < count → forth st count (back st m count i) ≡ i
  forth-back i h = elim (Bool-cases (ltb i st)) [
    | inl e ↦ ground (arith, column_end-mod i)
    | inr e ↦ ground arith
  ]

  -- An item that has none below it stands in one of the last two lines.
  last_line :
      (q k : ℕ) → k < st → q * st + k < count → count ≤ q * st + k + st → (q ≡ m) ⊎ (q ≡ suc m)
  last_line q k hk lo hi = elim (dec_lt q m) [
    | yes a ↦ absurd (omega (arith, mul_step q m st a))
    | no a ↦ elim (dec_lt (suc m) q) [
      | yes b ↦ absurd (omega (arith, mul_step (suc m) q st b))
      | no b ↦ elim (dec_lt m q) [ yes c ↦ inr (omega arith) | no c ↦ inl (omega arith) ]
    ]
  ]

  pub back-forth : (j : ℕ) → j < count → back st m count (forth st count j) ≡ j
  back-forth j h = elim (Bool-cases (ltb (j + st) count)) [
    | inl e ↦ ground arith
    | inr e ↦ wrapped (ltb_ge (j + st) count e)
  ]
    where
      quotient : count ≤ j + st → (j / st ≡ m) ⊎ (j / st ≡ suc m)
      quotient e =
          last_line (j / st) (j % st) (mod-lt j pos) (omega (arith, place_lem j st))
            (omega (arith, place_lem j st))

      wrapped : count ≤ j + st → back st m count (forth st count j) ≡ j
      wrapped e = elim (quotient e) [
        | inl q ↦ ground (arith, mod-lt j pos, place_lem j st, ap (λ n. n * st) q)
        | inr q ↦ ground (arith, mod-lt j pos, place_lem j st, ap (λ n. n * st) q)
      ]

-- Along a line of length `st`; the last line may be short.
abbrev pub left : ℕ → ℕ → ℕ → ℕ
left st count i =
    if i % st == 0 then if leb count (i + st - 1) then count - 1 else i + st - 1 else i - 1

abbrev pub right : ℕ → ℕ → ℕ → ℕ
right st count j =
    if j % st == st - 1 then j + 1 - st else if j == count - 1 then j / st * st else j + 1

module _ (st count : ℕ) (two : 2 ≤ st) where
  pub right-left : (i : ℕ) → i < count → right st count (left st count i) ≡ i
  right-left i h = elim (Bool-cases (i % st == 0)) [
    | inl start ↦ ground (
      arith,
      start,
      place_lem i st,
      place_at (count - 1) (i / st) (count - 1 - i) st,
      place_at (i + st - 1) (i / st) (st - 1) st,
    )
    | inr inside ↦ ground (
      arith,
      inside,
      place_lem i st,
      mod-lt i {m = st} (omega arith),
      place_at (i - 1) (i / st) (i % st - 1) st,
    )
  ]

  pub left-right : (j : ℕ) → j < count → left st count (right st count j) ≡ j
  left-right j h = elim (Bool-cases (j % st == st - 1)) [
    | inl end ↦ ground (arith, end, place_lem j st, place_at (j + 1 - st) (j / st) 0 st)
    | inr inside ↦ elim (Bool-cases (j == count - 1)) [
      | inl last ↦ ground (
        arith,
        inside,
        last,
        place_lem j st,
        mod-lt j {m = st} (omega arith),
        place_at (j / st * st) (j / st) 0 st,
      )
      | inr more ↦ ground (
        arith,
        inside,
        more,
        place_lem j st,
        mod-lt j {m = st} (omega arith),
        place_at (j + 1) (j / st) (j % st + 1) st,
      )
    ]
  ]
