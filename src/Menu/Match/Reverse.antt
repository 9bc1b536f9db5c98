-- ===== src/Menu/Match/Reverse.antt =====
-- The backward search of lib/libmenu steps over the first item: `if (--i <= 0)`.
use netbsd_curses.Base.{
  ℕ, zero, suc, ◌-◌, ◌<◌, ◌≡◌, refl, leb, false, none, some, arith, Bool-cases, inl, inr, ◌≢◌,
}
use netbsd_curses.Menu.{Menu}
use netbsd_curses.Menu.Match.{matches, count, search_from, start, next_reverse, match_items}

module _ (m : Menu) where
  hangs_from :
      m.cur_item ≡ 0
      → ((k : ℕ) → 0 < k → k < count m → matches m k ≡ false)
      → (fuel i : ℕ) → 0 < i
      → i < count m
      → search_from fuel m false i ≡ none
  unfolding search_from
  hangs_from c alone zero i lo hi = refl
  hangs_from c alone (suc f) i lo hi = elim (Bool-cases (leb i 1)) [
    | inl one ↦ ground (arith, alone i lo hi, one, hangs_from c alone f (count m - 1))
    | inr more ↦ ground (arith, alone i lo hi, more, hangs_from c alone f (i - 1))
  ]

  -- On the first of several items the search for the previous match never ends if no other item
  -- matches: no number of rounds is enough.
  pub next_reverse_hangs :
      m.cur_item ≡ 0
      → 1 < count m
      → ((k : ℕ) → 0 < k → k < count m → matches m k ≡ false)
      → (fuel : ℕ) → match_items fuel m next_reverse ≡ none
  unfolding match_items
  next_reverse_hangs c two alone fuel = ground (arith, hangs_from c alone fuel (count m - 1))

  -- From any item behind the second it never finds the first item.
  skips_from : (fuel i : ℕ) → 0 < i → i < count m → search_from fuel m false i ≢ some (some 0)
  unfolding search_from
  skips_from zero i lo hi e = cc
  skips_from (suc f) i lo hi e = elim (Bool-cases (leb i 1)) [
    | inl one ↦ ground (arith, one, skips_from f (count m - 1))
    | inr more ↦ ground (arith, more, skips_from f (i - 1))
  ]

  -- From an item behind the second, the search for the previous match never finds the first item,
  -- whatever the pattern.
  pub next_reverse_skips :
      1 < m.cur_item
      → m.cur_item < count m
      → (fuel : ℕ) → search_from fuel m false (start m next_reverse) ≢ some (some 0)
  next_reverse_skips two inside fuel = ground (arith, skips_from fuel (m.cur_item - 1))
