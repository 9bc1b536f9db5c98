-- ===== src/Menu/Setup/Radio.antt =====
-- The menus of lib/libmenu with O_RADIO have one selected item.
use netbsd_curses.Base.{
  ℕ, suc, ◌+◌, ◌<◌, ◌≡◌, refl, ap, sym, ◌∙◌, if◌then◌else◌, Bool, true, false, ◌||◌, Option, none,
  some, List, [], ◌∷◌, length, if_cases, arith, Bool-cases, inl, inr,
}
use netbsd_curses.Menu.{Code, e_ok, e_posted, e_bad_argument, Options, Item, Menu}
use netbsd_curses.Menu.Match.{items_of}
use netbsd_curses.Menu.Layout.{
  Shape, shape, stitch_from, stitch_items, calc_neighbours, max_item_size, rows_for,
}
use netbsd_curses.Menu.Draw.{change}
use netbsd_curses.Menu.Driver.{set_selected}
use netbsd_curses.Menu.Setup.{keep_first, select_one, for_radio, same_bool, set_menu_opts}

abbrev pub selected_count : List Item → ℕ
selected_count [] = 0
selected_count (x ∷ xs) = (if x.selected then 1 else 0) + selected_count xs

keep_first_count :
    (seen : Bool) (xs : List Item)
    → selected_count (keep_first seen xs).1 + (if seen then 1 else 0)
      ≡ (if (keep_first seen xs).0 then 1 else 0)
unfolding keep_first
keep_first_count true [] = refl
keep_first_count false [] = refl
keep_first_count true (x ∷ xs) = ground (arith, keep_first_count true xs)
keep_first_count false (x ∷ xs) =
    ground (arith, keep_first_count true xs, keep_first_count false xs)

length-keep_first : (seen : Bool) (xs : List Item) → length (keep_first seen xs).1 ≡ length xs
unfolding keep_first
length-keep_first seen [] = refl
length-keep_first seen (x ∷ xs) = ap suc (length-keep_first (seen || x.selected) xs)

select_one_count : (xs : List Item) → 0 < length xs → selected_count (select_one xs) ≡ 1
unfolding select_one
select_one_count xs h = elim (Bool-cases (keep_first false xs).0) [
  | inl found ↦ rw found (ground (arith, found, keep_first_count false xs))
  | inr missing ↦ rw missing (
      first (keep_first false xs).1 (omega (arith, length-keep_first false xs))
        (ground (arith, missing, keep_first_count false xs)))
]
  where
    first :
        (ys : List Item)
        → 0 < length ys
        → selected_count ys ≡ 0
        → selected_count (change (set_selected true) 0 ys) ≡ 1
    first [] l z = ground arith
    first (y ∷ ys) l z = ground arith

stitch_from_count :
    (s : Shape) (i : ℕ) (xs : List Item) → selected_count (stitch_from s i xs) ≡ selected_count xs
unfolding stitch_from calc_neighbours
stitch_from_count s i [] = refl
stitch_from_count s i (x ∷ xs) =
    ap (λ n. (if x.selected then 1 else 0) + n) (stitch_from_count s (suc i) xs)

abbrev count_in : Option (List Item) → ℕ
count_in o = selected_count (elim o [ none ↦ [] | some xs ↦ xs ])

stitch_items_count :
    (m : Menu) → selected_count (items_of (stitch_items m).1) ≡ selected_count (items_of m)
unfolding stitch_items
stitch_items_count m =
    if_cases (λ (r : Code × Menu). selected_count (items_of r.1) ≡ selected_count (items_of m))
      m.posted (e_posted, m) _ (λ _. refl) (λ _. of m.items refl)
  where
    result : Option (List Item) → Code × Menu
    result o = elim o [
      | none ↦ (e_bad_argument, m)
      | some xs ↦ (
        e_ok,
        record (max_item_size m) {
          item_rows = rows_for (length xs) m.cols;
          item_cols = m.cols;
          items = some (stitch_from (shape m xs) 0 xs);
        },
      )
    ]

    of :
        (o : Option (List Item))
        → m.items ≡ o
        → selected_count (items_of (result o).1) ≡ selected_count (items_of m)
    of none e = refl
    of (some xs) e = stitch_from_count (shape m xs) 0 xs ∙ ap count_in (sym e)

-- After set_menu_opts with O_RADIO exactly one item of a menu that has items is selected, whether or not the layout is computed anew.
pub set_menu_opts_radio :
    (opts : Options) (m : Menu) (xs : List Item)
    → opts.radio ≡ true
    → m.items ≡ some xs
    → 0 < length xs
    → selected_count (items_of (set_menu_opts opts m).1) ≡ 1
unfolding set_menu_opts
set_menu_opts_radio opts m xs r e n =
    if_cases (λ u. selected_count (items_of u) ≡ 1) (same_bool opts.rowmajor m.opts.rowmajor) chosen
      (stitch_items chosen).1 (λ _. one) (λ _. stitch_items_count chosen ∙ one)
  where
    set : Menu
    set = record m { opts = opts }

    chosen : Menu
    chosen = if opts.radio then for_radio set else set

    one : selected_count (items_of chosen) ≡ 1
    one =
        ap (λ b. selected_count (items_of (if b then for_radio set else set))) r
        ∙ ap
            (λ o. selected_count (
              items_of
                (elim o [ none ↦ set | some ys ↦ record set { items = some (select_one ys) } ])))
            e
        ∙ select_one_count xs n
