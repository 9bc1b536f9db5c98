-- ===== src/Menu/Driver/Returns.antt =====
-- The cases of menu_driver in lib/libmenu/driver.c lead to an item, where every item has its
-- neighbours.
use netbsd_curses.Base.{
  ℕ, zero, suc, ◌+◌, ◌-◌, ◌<◌, ◌≡◌, refl, subst, sym, ◌∙◌, ltb, leb, ◌==◌, Bool, true, false, not,
  ◌&&◌, ◌||◌, Option, none, some, List, [], ◌∷◌, length, get_elem?, arith, Bool-cases, inl, inr,
  if_cases, ltb→lt,
}
use mathlib.Core.Option.{some-injective}
use netbsd_curses.Menu.{Item, Menu}
use netbsd_curses.Menu.Match.{
  items_of, count, Outcome, match_pattern, match_items, search_from, Direction, outcome, no_match,
  drop_char, push_char, keep_matched, is_print, forward, reverse, is_forward, start, next_forward,
  next_reverse,
}
use netbsd_curses.Menu.Match.Search.{Finds, search_forward, search_next}
use netbsd_curses.Menu.Draw.{change, draw_item, set_visible}
use netbsd_curses.Menu.Draw.Counts.{length-change}
use netbsd_curses.Menu.Driver.{
  Leave, return, onward, fault, follow, walk, deselect_others, toggle_radio, toggle_one, reading,
  toggle, searched, set_selected, selected_at, selectable_at, select_and_draw,
}

-- Each link of an item leads to an item.
abbrev pub Links : (Item → Option ℕ) → Menu → Type 0
Links link m =
    (i : ℕ) (x : Item)
    → get_elem? (items_of m) i ≡ some x
    → (j : ℕ) × (link x ≡ some j) × (j < count m)

-- The current item is an item, and all neighbours are.
pub record IsLinked (m : Menu) : Type 0 where
  pub inside : m.cur_item < count m
  pub lefts : Links (λ x. x.left) m
  pub rights : Links (λ x. x.right) m
  pub ups : Links (λ x. x.up) m
  pub downs : Links (λ x. x.down) m

-- The switch leads to an item.
abbrev pub Leads : Leave → Type 0
Leads (return code m) = Unit {0}
Leads (onward m none top status) = Unit {0}
Leads (onward m (some i) top status) = i < count m
Leads fault = ⊥

pub get_elem?-some :
    (xs : List Item) (i : ℕ) → i < length xs → (x : Item) × (get_elem? xs i ≡ some x)
get_elem?-some [] i h = ground arith
get_elem?-some (x ∷ xs) zero h = (x, refl)
get_elem?-some (x ∷ xs) (suc i) h = get_elem?-some xs i (omega arith)

count-select_and_draw : (b : Bool) (i : ℕ) (m : Menu) → count (select_and_draw b i m) ≡ count m
unfolding draw_item
count-select_and_draw b i m =
    length-change (set_visible true) i (change (set_selected b) i (items_of m))
    ∙ length-change (set_selected b) i (items_of m)

count-deselect_others : (n i this : ℕ) (m : Menu) → count (deselect_others n i this m) ≡ count m
unfolding deselect_others
count-deselect_others zero i this m = refl
count-deselect_others (suc n) i this m =
    count-deselect_others n (i + 1) this _
    ∙ if_cases (λ u. count u ≡ count m) (selected_at m i && not (i == this))
        (select_and_draw false i m) m (λ _. count-select_and_draw false i m) (λ _. refl)

reading-Leads : (m : Menu) (i : ℕ) (l : Leave) → i < count m → Leads l → Leads (reading m i l)
reading-Leads m i l h k =
    let (x, e) = get_elem?-some (items_of m) i h in
    subst (λ o. Leads (elim o [ none ↦ fault | some x ↦ l ])) (sym e) k

toggle_radio-Leads : (m : Menu) → m.cur_item < count m → Leads (toggle_radio m m.cur_item)
unfolding toggle_radio
toggle_radio-Leads m h =
    if_cases Leads (not (selectable_at m m.cur_item)) _ _ (λ _. tt)
      λ _.
        if_cases Leads (selected_at m m.cur_item) _ _ (λ _. tt)
          λ _. omega (
            arith,
            count-select_and_draw true m.cur_item (deselect_others (count m) 0 m.cur_item m),
            count-deselect_others (count m) 0 m.cur_item m,
          )

toggle_one-Leads : (m : Menu) → m.cur_item < count m → Leads (toggle_one m m.cur_item)
unfolding toggle_one
toggle_one-Leads m h =
    if_cases Leads (selectable_at m m.cur_item) _ _
      (λ _. omega (arith, count-select_and_draw (not (selected_at m m.cur_item)) m.cur_item m))
      (λ _. tt)

pub toggle-Leads : (m : Menu) → m.cur_item < count m → Leads (toggle m m.cur_item)
unfolding toggle
toggle-Leads m h =
    if_cases Leads (m.opts.radio || m.opts.onevalue) _ _
      (λ _.
        if_cases Leads m.opts.radio _ _
          (λ _. reading-Leads m m.cur_item (toggle_radio m m.cur_item) h (toggle_radio-Leads m h))
          (λ _. tt))
      λ _. reading-Leads m m.cur_item (toggle_one m m.cur_item) h (toggle_one-Leads m h)

pub follow-Leads :
    (link : Item → Option ℕ) (m : Menu) (i : ℕ) (k : Option ℕ → Leave)
    → Links link m
    → i < count m
    → ((j : ℕ) → j < count m → Leads (k (some j)))
    → Leads (follow link m i k)
follow-Leads link m i k links h next =
    let (x, e) = get_elem?-some (items_of m) i h in
    let (j, l, inside) = links i x e in
    subst (λ o. Leads (elim o [ none ↦ fault | some x ↦ k (link x) ])) (sym e)
      (subst (λ p. Leads (k p)) (sym l) (next j inside))

pub walk-Leads :
    (link : Item → Option ℕ) (m : Menu) (n i : ℕ) (k : Option ℕ → Leave)
    → Links link m
    → i < count m
    → ((j : ℕ) → j < count m → Leads (k (some j)))
    → Leads (walk link m n (some i) k)
unfolding walk
walk-Leads link m zero i k links h next = next i h
walk-Leads link m (suc n) i k links h next =
    follow-Leads link m i (λ p. walk link m n p k) links h
      (λ j l. walk-Leads link m n j k links l next)

-- A search has come to its end, in the same items.
abbrev pub Found : Menu → Option Outcome → Type 0
Found m none = ⊥
Found m (some o) = (count o.menu ≡ count m) × ((i : ℕ) → o.matched ≡ some i → i < count m)

search-ends :
    (m : Menu) (dir : Direction)
    → is_forward dir ≡ true
    → m.cur_item < count m
    → (fuel : ℕ) → count m < fuel
    → (i n : ℕ) × Finds m i n (search_from fuel m true (start m dir))
search-ends m forward f h fuel l = (m.cur_item, count m, search_forward m h fuel l)
search-ends m next_forward f h fuel l = elim (Bool-cases (ltb 1 (count m))) [
  | inl many ↦ (start m next_forward, count m - 1, search_next m h fuel l (ltb→lt 1 (count m) many))
  | inr one ↦
      let e : start m next_forward ≡ m.cur_item = ground arith in
      (
        m.cur_item,
        count m,
        subst (λ i. Finds m m.cur_item (count m) (search_from fuel m true i)) (sym e)
            (search_forward m h fuel l),
      )
]
search-ends m reverse f h fuel l = cc
search-ends m next_reverse f h fuel l = cc

match_items-Found :
    (fuel : ℕ) (m : Menu) (dir : Direction)
    → is_forward dir ≡ true
    → m.cur_item < count m
    → count m < fuel
    → Found m (match_items fuel m dir)
unfolding match_items
match_items-Found fuel m dir f h l =
    let (i, n, found) = search-ends m dir f h fuel l in
    subst
      (λ b.
        Found m
          (elim (search_from fuel m b (start m dir)) [ none ↦ none | some r ↦ some (outcome m r) ]))
      (sym f) (of i n (search_from fuel m true (start m dir)) found)
  where
    of :
        (i n : ℕ) (r : Option (Option ℕ))
        → Finds m i n r
        → Found m (elim r [ none ↦ none | some r ↦ some (outcome m r) ])
    of i n none h = h
    of i n (some none) h = (refl, λ k e. cc)
    of i n (some (some k)) h = (refl, λ j e. subst (λ z. z < count m) (some-injective k j e) h.3)

keep_matched-Found : (m : Menu) (o : Option Outcome) → Found m o → Found m (keep_matched o)
keep_matched-Found m none h = h
keep_matched-Found m (some o) h = of o.matched refl
  where
    of :
        (r : Option ℕ)
        → o.matched ≡ r
        → Found m (elim r [ none ↦ some (no_match (drop_char o.menu)) | some i ↦ some o ])
    of none e = (h.0, λ k e. cc)
    of (some i) e = h

unnegated : (b : Bool) → not b ≡ false → b ≡ true
unnegated true h = refl
unnegated false h = cc

pub match_pattern-Found :
    (fuel : ℕ) (room : Bool) (m : Menu) (c : ℕ) (dir : Direction)
    → is_forward dir ≡ true
    → m.cur_item < count m
    → count m < fuel
    → (is_print c ≡ true → m.plen ≡ 0)
    → Found m (match_pattern fuel room m c dir)
unfolding match_pattern
match_pattern-Found fuel room m c dir f h l first =
    if_cases (Found m) (not (ltb 0 (count m))) _ _ (λ _. (refl, λ k e. cc))
      λ _.
        if_cases (Found m) (not (is_print c)) _ _ (λ _. match_items-Found fuel m dir f h l)
          λ typed.
            if_cases (Found m) (not room) _ _ (λ _. (refl, λ k e. cc))
              λ _.
                if_cases (Found m) (ltb 0 m.plen) _ _ (λ more. begun typed more)
                  λ _.
                    if_cases (Found m) (leb (push_char m c).max_item_width (push_char m c).plen) _ _
                      (λ _. (refl, λ k e. cc))
                      λ _.
                        keep_matched-Found m (match_items fuel (push_char m c) dir)
                          (match_items-Found fuel (push_char m c) dir f h l)
  where
    begun : not (is_print c) ≡ false → ltb 0 m.plen ≡ true → ⊥
    begun typed more =
        let print : is_print c ≡ true = unnegated (is_print c) typed in
        let none_yet = first print in ground arith

pub searched-Leads :
    (m : Menu) (o : Option Outcome) → m.cur_item < count m → Found m o → Leads (searched m o)
searched-Leads m none h f = f
searched-Leads m (some o) h f = of o.matched refl
  where
    of :
        (r : Option ℕ)
        → o.matched ≡ r
        → Leads (elim r [
          | none ↦ onward o.menu (some m.cur_item) m.top_row o.code
          | some i ↦ onward o.menu (some i) m.top_row o.code
        ])
    of none e = omega (arith, f.0)
    of (some i) e = omega (arith, f.0, f.1 i e)
