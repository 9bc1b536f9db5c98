-- ===== src/Menu/Layout/Stitch.antt =====
-- _menui_stitch_items of lib/libmenu/internals.c as a whole: what a stitched menu holds.
use netbsd_curses.Base.{
  ℕ, zero, suc, ◌+◌, ◌≤◌, ◌<◌, ◌≡◌, refl, sym, ap, ◌∙◌, false, Option, none, some, List, [], ◌∷◌,
  length, get_elem?, max, arith, subst, if◌then◌else◌,
}
use netbsd_curses.Menu.{Code, e_ok, e_posted, e_bad_argument, Item, Menu}
use netbsd_curses.Menu.Match.{items_of, count}
use netbsd_curses.Menu.Layout.{
  Shape, shape, rows_for, calc_neighbours, stitch_from, stitch_items, widest, max_item_size,
}
use netbsd_curses.Menu.Layout.Bounds.{IsShape, rows_for-IsShape}

abbrev placed : Shape → ℕ → Option Item → Option Item
placed s i o = elim o [ none ↦ none | some x ↦ some (calc_neighbours s i x) ]

get_elem?-stitch_from :
    (s : Shape) (i : ℕ) (xs : List Item) (k : ℕ)
    → get_elem? (stitch_from s i xs) k ≡ placed s (i + k) (get_elem? xs k)
unfolding stitch_from
get_elem?-stitch_from s i [] k = refl
get_elem?-stitch_from s i (y ∷ xs) zero =
    let e : i ≡ i + 0 = omega arith in ap (λ n. placed s n (some y)) e
get_elem?-stitch_from s i (y ∷ xs) (suc k) =
    let e : suc i + k ≡ i + suc k = omega arith in
    get_elem?-stitch_from s (suc i) xs k ∙ ap (λ n. placed s n (get_elem? xs k)) e

length-stitch_from : (s : Shape) (i : ℕ) (xs : List Item) → length (stitch_from s i xs) ≡ length xs
unfolding stitch_from
length-stitch_from s i [] = refl
length-stitch_from s i (x ∷ xs) = ap suc (length-stitch_from s (suc i) xs)

-- The width of an entry, with its mark and its description.
abbrev pub width_of : Menu → Item → ℕ
width_of m item =
    length item.name
    + max m.mark_length m.unmark_length
    + (if m.opts.showdesc then length item.description + 1 else 0)

widest-le : (m : Menu) (w : ℕ) (xs : List Item) → w ≤ widest m w xs
unfolding widest
widest-le m w [] = omega arith
widest-le m w (x ∷ xs) = omega (arith, widest-le m (max w (width_of m x)) xs)

abbrev width_at : Menu → Option Item → ℕ
width_at m o = elim o [ none ↦ 0 | some x ↦ width_of m x ]

widest-covers :
    (m : Menu) (w : ℕ) (xs : List Item) (k : ℕ) → width_at m (get_elem? xs k) ≤ widest m w xs
unfolding widest
widest-covers m w [] k = omega arith
widest-covers m w (y ∷ xs) zero = omega (arith, widest-le m (max w (width_of m y)) xs)
widest-covers m w (y ∷ xs) (suc k) = widest-covers m (max w (width_of m y)) xs k

-- What stitching the items `items` of `m` returns and leaves.
pub record IsStitched (m : Menu) (items : List Item) (code : Code) (m' : Menu) : Type 0 where
  pub succeeds : code ≡ e_ok
  pub same_count : count m' ≡ length items
  pub same_item : m'.cur_item ≡ m.cur_item
  pub holds : IsShape (shape m items)
  pub rows_there : m'.item_rows ≡ (shape m items).rows
  pub cols_there : m'.item_cols ≡ m.cols
  pub linked :
      (k : ℕ) (x : Item)
      → get_elem? items k ≡ some x
      → get_elem? (items_of m') k ≡ some (calc_neighbours (shape m items) k x)
  pub wide : (k : ℕ) (x : Item) → get_elem? items k ≡ some x → width_of m x ≤ m'.max_item_width

stitched : Menu → List Item → Menu
stitched m items = record (record m { max_item_width = widest m m.max_item_width items }) {
  item_rows = rows_for (length items) m.cols;
  item_cols = m.cols;
  items = some (stitch_from (shape m items) 0 items);
}

max_item_size-lem :
    (m : Menu) (items : List Item)
    → m.items ≡ some items
    → max_item_size m ≡ record m { max_item_width = widest m m.max_item_width items }
unfolding max_item_size
max_item_size-lem m items e =
    ap
      (λ o. elim o [
        | none ↦ m
        | some xs ↦ record m { max_item_width = widest m m.max_item_width xs }
      ])
      e

stitch_items-lem :
    (m : Menu) (items : List Item)
    → m.posted ≡ false
    → m.items ≡ some items
    → stitch_items m ≡ (e_ok, stitched m items)
unfolding stitch_items stitched
stitch_items-lem m items p e =
    ap (λ b. if b then (e_posted, m) else body m.items) p
    ∙ ap body e
    ∙ ap (λ u. (e_ok, sized u items)) (max_item_size-lem m items e)
  where
    sized : Menu → List Item → Menu
    sized u xs = record u {
      item_rows = rows_for (length xs) m.cols;
      item_cols = m.cols;
      items = some (stitch_from (shape m xs) 0 xs);
    }

    body : Option (List Item) → Code × Menu
    body o = elim o [ none ↦ (e_bad_argument, m) | some xs ↦ (e_ok, sized (max_item_size m) xs) ]

-- Stitching a menu that is not posted, with items and at least one column, reports success, keeps the number of items and the current one, gives the menu rows that hold them, gives each item its place and its neighbours, and makes the entries at least as wide as each item.
pub stitch_items-IsStitched :
    (m : Menu) (items : List Item)
    → m.posted ≡ false
    → m.items ≡ some items
    → 0 < m.cols
    → 0 < length items
    → IsStitched m items (stitch_items m).0 (stitch_items m).1
unfolding stitched
stitch_items-IsStitched m items p e c n =
    subst (λ r. IsStitched m items r.0 r.1) (sym (stitch_items-lem m items p e))
      (record {
        succeeds = refl;
        same_count = length-stitch_from (shape m items) 0 items;
        same_item = refl;
        holds = rows_for-IsShape (shape m items) c n refl;
        rows_there = refl;
        cols_there = refl;
        linked = λ k x h.
            get_elem?-stitch_from (shape m items) 0 items k
            ∙ ap (λ o. placed (shape m items) (0 + k) o) h
            ∙ (let z : 0 + k ≡ k = omega arith in ap (λ j. placed (shape m items) j (some x)) z);
        wide = λ k x h.
            subst (λ o. width_at m o ≤ widest m m.max_item_width items) h
              (widest-covers m m.max_item_width items k);
      })
