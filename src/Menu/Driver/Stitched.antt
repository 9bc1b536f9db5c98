-- ===== src/Menu/Driver/Stitched.antt =====
-- menu_driver of lib/libmenu on a menu that _menui_stitch_items has laid out.
use mathlib.Core.Option.{some-injective}
use netbsd_curses.Base.{
  ℕ, zero, suc, ◌-◌, ◌*◌, ◌<◌, ◌≡◌, ◌≢◌, refl, ap, sym, ◌∙◌, ◌⊎◌, Bool, true, false, Option, none,
  some, List, [], ◌∷◌, length, get_elem?, arith,
}
use netbsd_curses.Menu.{Code, Item, Menu}
use netbsd_curses.Menu.Match.{items_of}
use netbsd_curses.Menu.Layout.{
  Shape, shape, up_of, down_of, left_of, right_of, calc_neighbours, stitch_items, max_item_size,
}
use netbsd_curses.Menu.Layout.Bounds.{
  InRange, up-InRange, down-InRange, left-InRange, right-InRange,
}
use netbsd_curses.Menu.Layout.Stitch.{IsStitched, stitch_items-IsStitched}
use netbsd_curses.Menu.Draw.{Hooks}
use netbsd_curses.Menu.Driver.{prev_match, request_of, menu_driver}
use netbsd_curses.Menu.Driver.Returns.{Links, IsLinked, get_elem?-some}
use netbsd_curses.Menu.Draw.Ends.{Returns, IsReady, KeepShape}
use netbsd_curses.Menu.Driver.Total.{Starts, menu_driver-Returns}

-- In a cyclic menu no neighbour is NULL.
module _ (s : Shape) (i : ℕ) (cyclic : s.noncyclic ≡ false) where
  up-some : up_of s i ≢ none
  unfolding up_of
  up-some e = ground arith

  down-some : down_of s i ≢ none
  unfolding down_of
  down-some e = ground arith

  left-some : left_of s i ≢ none
  unfolding left_of
  left-some e = ground arith

  right-some : right_of s i ≢ none
  unfolding right_of
  right-some e = ground arith

in_items : (xs : List Item) (i : ℕ) (x : Item) → get_elem? xs i ≡ some x → i < length xs
in_items [] i x e = cc
in_items (y ∷ xs) zero x e = omega arith
in_items (y ∷ xs) (suc i) x e = omega (arith, in_items xs i x e)

module _ (m : Menu) (items : List Item) {code : Code} (m' : Menu)
    (st : IsStitched m items code m') where
  -- A link that is computed from the place of an item, never NULL, and in the menu.
  links :
      (link : Item → Option ℕ) (of_place : Shape → ℕ → Option ℕ)
      → ((i : ℕ) (x : Item)
          → link (calc_neighbours (shape m items) i x) ≡ of_place (shape m items) i)
      → ((i : ℕ) → of_place (shape m items) i ≢ none)
      → ((i : ℕ) → i < length items → InRange (shape m items) (of_place (shape m items) i))
      → Links link m'
  links link of_place computes never_null in_range i x e =
      let h = in_items (items_of m') i x e in
      let c : i < length items = omega (arith, st.same_count) in
      let (y, e') = get_elem?-some items i c in
      let same =
        some-injective x (calc_neighbours (shape m items) i y) (sym e ∙ st.linked i y e') in
      let (j, l, b) = place (of_place (shape m items) i) (never_null i) (in_range i c) in
      (j, ap link same ∙ computes i y ∙ l, omega (arith, st.same_count))
    where
      place :
          (o : Option ℕ)
          → o ≢ none
          → InRange (shape m items) o
          → (j : ℕ) × (o ≡ some j) × (j < length items)
      place none n r = absurd (n refl)
      place (some j) n r = (j, refl, r)

  stitched-IsLinked :
      m.opts.noncyclic ≡ false
      → (m.opts.rowmajor ≡ true) ⊎ ((shape m items).rows * (m.cols - 1) < length items)
      → m'.cur_item < length items
      → IsLinked m'
  unfolding calc_neighbours
  stitched-IsLinked cyclic full h =
      let s = shape m items in
      record {
        inside = omega (arith, st.same_count);
        ups =
            links (λ x. x.up) up_of (λ i x. refl) (λ i. up-some s i cyclic)
              (λ i l. up-InRange s i st.holds l);
        downs =
            links (λ x. x.down) down_of (λ i x. refl) (λ i. down-some s i cyclic)
              (λ i l. down-InRange s i st.holds l);
        lefts =
            links (λ x. x.left) left_of (λ i x. refl) (λ i. left-some s i cyclic)
              (λ i l. left-InRange s i st.holds l full);
        rights =
            links (λ x. x.right) right_of (λ i x. refl) (λ i. right-some s i cyclic)
              (λ i l. right-InRange s i st.holds l);
      }

module _ (m : Menu) (items : List Item) (p : m.posted ≡ false) (e : m.items ≡ some items) where
  max_item_size_plen : (max_item_size m).plen ≡ m.plen
  unfolding max_item_size
  max_item_size_plen = rw e

  stitch_items_plen : (stitch_items m).1.plen ≡ m.plen
  unfolding stitch_items
  stitch_items_plen = rw (p, e) max_item_size_plen

  max_item_size_cols : (max_item_size m).cols ≡ m.cols
  unfolding max_item_size
  max_item_size_cols = rw e

  stitch_items_cols : (stitch_items m).1.cols ≡ m.cols
  unfolding stitch_items
  stitch_items_cols = rw (p, e) max_item_size_cols

  stitch_items_item_cols : (stitch_items m).1.item_cols ≡ m.cols
  unfolding stitch_items
  stitch_items_item_cols = rw (p, e)

-- A cyclic menu, by rows or with an item in every column, that is stitched and then posted: with more rounds than items, hooks that change neither the number of items nor that of columns, and a typed character that is the first of the pattern, menu_driver returns for every character but REQ_PREV_MATCH.
pub stitched-Returns :
    (fuel : ℕ) (room : Bool) (width : ℕ) (h : Hooks) (m : Menu) (items : List Item) (c : ℕ)
    → KeepShape h
    → m.posted ≡ false
    → m.items ≡ some items
    → m.opts.noncyclic ≡ false
    → (m.opts.rowmajor ≡ true) ⊎ ((shape m items).rows * (m.cols - 1) < length items)
    → 0 < m.cols
    → m.cur_item < length items
    → length items < fuel
    → request_of c ≢ some prev_match
    → Starts m c
    → Returns (menu_driver fuel room width h (record (stitch_items m).1 { posted = true }) c)
stitched-Returns fuel room width h m items c k p e cyclic full cols inside enough n first =
    menu_driver-Returns fuel room width h (record (stitch_items m).1 { posted = true }) c k ready
      posted (omega (arith, st.same_count)) n
      (λ r typed. stitch_items_plen m items p e ∙ first r typed)
  where
    st : IsStitched m items (stitch_items m).0 (stitch_items m).1
    st = stitch_items-IsStitched m items p e cols (omega arith)

    linked : IsLinked (stitch_items m).1
    linked =
        stitched-IsLinked m items (stitch_items m).1 st cyclic full (omega (arith, st.same_item))

    ready : IsReady (record (stitch_items m).1 { posted = true })
    ready = record {
      some_items = omega (arith, st.same_count);
      some_cols = omega (arith, stitch_items_cols m items p e);
      some_item_cols = omega (arith, stitch_items_item_cols m items p e);
    }

    posted : IsLinked (record (stitch_items m).1 { posted = true })
    posted = record {
      inside = linked.inside;
      lefts = linked.lefts;
      rights = linked.rights;
      ups = linked.ups;
      downs = linked.downs;
    }
