-- ===== src/Menu/Match/Search.antt =====
-- The forward search of lib/libmenu ends, and finds the first match round the menu.
use netbsd_curses.Base.{
  ℕ, zero, suc, ◌+◌, ◌-◌, ◌≤◌, ◌<◌, ◌≡◌, ◌==◌, true, false, Option, none, some, arith, Bool-cases,
  inl, inr, ◌⊎◌,
}
use native.Mathlib.Decide.{dec_lt}
use netbsd_curses.Menu.{Menu}
use netbsd_curses.Menu.Match.{matches, count, search_from, advance, start, forward, next_forward}

module _ (m : Menu) where
  -- The item that comes `d` steps after item `i`.
  abbrev pub At : ℕ → ℕ → ℕ → Type 0
  At i d k = (k ≡ i + d) ⊎ (k + count m ≡ i + d)

  -- Item `k` is among the `n` items from item `i` on.
  abbrev pub Among : ℕ → ℕ → ℕ → Type 0
  Among i n k = ((i ≤ k) × (k < i + n)) ⊎ (k + count m < i + n)

  abbrev pub NoneAmong : ℕ → ℕ → Type 0
  NoneAmong i n = (k : ℕ) → k < count m → Among i n k → matches m k ≡ false

  -- What a search of the `n` items from item `i` on must return.
  abbrev pub Finds : ℕ → ℕ → Option (Option ℕ) → Type 0
  Finds i n none = ⊥
  Finds i n (some none) = NoneAmong i n
  Finds i n (some (some k)) =
      (d : ℕ) × (d < n) × At i d k × (k < count m) × (matches m k ≡ true) × NoneAmong i d

  -- One miss before a search of the others.
  NoneAmong-step :
      (i i' n : ℕ)
      → i < count m
      → 0 < n
      → n ≤ count m
      → At i 1 i'
      → matches m i ≡ false
      → NoneAmong i' (n - 1)
      → NoneAmong i n
  NoneAmong-step i i' n hi hn le at miss rest k hk a = elim (dec_lt k i) [
    | yes lo ↦ rest k hk (omega arith)
    | no lo ↦ elim (dec_lt i k) [
      | yes hi' ↦ rest k hk (omega arith)
      | no hi' ↦ let e : k ≡ i = omega arith in rw e miss
    ]
  ]

  Finds-step :
      (i i' n : ℕ) (r : Option (Option ℕ))
      → i < count m
      → 1 < n
      → n ≤ count m
      → At i 1 i'
      → matches m i ≡ false
      → Finds i' (n - 1) r
      → Finds i n r
  Finds-step i i' n none hi hn le at miss h = h
  Finds-step i i' n (some none) hi hn le at miss h =
      NoneAmong-step i i' n hi (omega arith) le at miss h
  Finds-step i i' n (some (some k)) hi hn le at miss h = (
    suc h.0,
    omega arith,
    omega arith,
    h.3,
    h.4,
    NoneAmong-step i i' (suc h.0) hi (omega arith) (omega arith) at miss
        (let e : suc h.0 - 1 ≡ h.0 = omega arith in rw e h.5),
  )

  module _ (inside : m.cur_item < count m) where
    search_from-Finds :
        (f n i : ℕ)
        → n < f
        → 0 < n
        → i < count m
        → At i n m.cur_item
        → n ≤ count m
        → Finds i n (search_from f m true i)
    unfolding search_from
    search_from-Finds zero n i hf hn hi at le = elim hf [ ]
    search_from-Finds (suc f) n i hf hn hi at le = elim (Bool-cases (matches m i)) [
      | inl hit ↦ rw hit (0, hn, inl (omega arith), hi, hit, λ k hk a. absurd (omega arith))
      | inr miss ↦ elim (Bool-cases (advance m true i == m.cur_item)) [
        | inl back ↦ rw (miss, back) (λ k hk a. let e : k ≡ i = ground arith in rw e miss)
        | inr more ↦
            rw (miss, more)
              (Finds-step i (advance m true i) n _ hi (ground arith) le next miss (
                search_from-Finds f (n - 1) (advance m true i) (omega arith) (ground arith)
                  (ground arith) (ground arith) (omega arith)))
      ]
    ]
      where
        next : At i 1 (advance m true i)
        next = ground arith

    -- With the current item in the menu and more rounds than items, the forward search ends. It
    -- finds the first match in the order of the items from the current one on, going round, or
    -- reports that no item matches.
    pub search_forward :
        (fuel : ℕ)
        → count m < fuel
        → Finds m.cur_item (count m) (search_from fuel m true (start m forward))
    search_forward fuel h =
        search_from-Finds fuel (count m) m.cur_item h (omega arith) inside (inr (omega arith))
          (omega arith)

    -- With the current item in the menu, at least two items and more rounds than items, the search
    -- for the next match ends. It finds the first match in the order of the items from the one
    -- behind the current one on, going round, or reports that no item but perhaps the current one
    -- matches.
    pub search_next :
        (fuel : ℕ)
        → count m < fuel
        → 1 < count m
        → Finds
            (start m next_forward)
            (count m - 1)
            (search_from fuel m true (start m next_forward))
    search_next fuel h others =
        search_from-Finds fuel (count m - 1) (start m next_forward) (omega arith) (omega arith)
          (ground arith) (ground arith) (omega arith)
