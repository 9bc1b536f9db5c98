-- ===== src/Menu/Driver/Total.antt =====
-- menu_driver of lib/libmenu/driver.c returns, where every item has its neighbours.
use netbsd_curses.Base.{
  ℕ, ◌+◌, ◌-◌, ◌<◌, ◌≡◌, true, refl, ap, subst, sym, ltb, ◌==◌, if◌then◌else◌, Bool, not, ◌&&◌,
  Option, none, some, List, arith, ◌≢◌, if_cases, ◌%◌,
}
use netbsd_curses.Menu.{Code, e_ok, Item, Menu, e_request_denied, e_unknown_command, e_bad_argument}
use netbsd_curses.Menu.Match.{items_of, count, match_pattern, is_print, forward, next_forward}
use netbsd_curses.Menu.Draw.{Hooks, goto_item}
use netbsd_curses.Menu.Draw.Ends.{Returns, IsReady, KeepShape, goto_item-Returns}
use netbsd_curses.Menu.Driver.Keeps.{Kept}
use netbsd_curses.Menu.Driver.Requests.{drive-Kept}
use netbsd_curses.Menu.Driver.{
  with_status, Request, Leave, return, onward, fault, searched, by_match, dispatch, request, finish,
  drive, menu_driver, scrolled, clear, dpage_scroll, upage_scroll, left_item, right_item, up_item,
  down_item, scr_uline, scr_dline, scr_dpage, scr_upage, first_item, last_item, next_item,
  prev_item, toggle_item, clear_pattern, back_pattern, next_match, prev_match, keeps_pattern,
  is_clear, has_pattern, request_of, max_command,
}
use netbsd_curses.Menu.Driver.Returns.{
  IsLinked, Leads, get_elem?-some, toggle-Leads, follow-Leads, walk-Leads, match_pattern-Found,
  searched-Leads,
}

by_match-Leads :
    (fuel : ℕ) (room : Bool) (m : Menu)
    → m.cur_item < count m
    → count m < fuel
    → Leads (by_match fuel room m next_forward)
by_match-Leads fuel room m h l = of m.pattern
  where
    of :
        (o : Option (List ℕ))
        → Leads (elim o [
          | none ↦ return e_request_denied m
          | some cs ↦ searched m (match_pattern fuel room m 0 next_forward)
        ])
    of none = tt
    of (some cs) =
        searched-Leads m _ h (match_pattern-Found fuel room m 0 next_forward refl h l (λ e. cc))

dispatch-Leads :
    (fuel : ℕ) (room : Bool) (r : Request) (m : Menu)
    → IsLinked m
    → count m < fuel
    → r ≢ prev_match
    → Leads (dispatch fuel room r m)
unfolding dispatch
dispatch-Leads fuel room left_item m v l n =
    follow-Leads (λ x. x.left) m m.cur_item _ v.lefts v.inside λ j h. h
dispatch-Leads fuel room right_item m v l n =
    follow-Leads (λ x. x.right) m m.cur_item _ v.rights v.inside λ j h. h
dispatch-Leads fuel room up_item m v l n =
    follow-Leads (λ x. x.up) m m.cur_item _ v.ups v.inside λ j h. h
dispatch-Leads fuel room down_item m v l n =
    follow-Leads (λ x. x.down) m m.cur_item _ v.downs v.inside λ j h. h
dispatch-Leads fuel room scr_uline m v l n =
    if_cases Leads (m.top_row == 0) _ _ (λ _. tt)
      λ _. follow-Leads (λ x. x.up) m m.cur_item _ v.ups v.inside λ j h. h
dispatch-Leads fuel room scr_dline m v l n =
    if_cases Leads (ltb m.item_rows (m.top_row + 1 + m.rows - 1)) _ _ (λ _. tt)
      λ _. follow-Leads (λ x. x.down) m m.cur_item _ v.downs v.inside λ j h. h
dispatch-Leads fuel room scr_dpage m v l n =
    if_cases Leads (dpage_scroll m == 0) _ _ (λ _. tt)
      λ _. walk-Leads (λ x. x.down) m (dpage_scroll m) m.cur_item _ v.downs v.inside λ j h. h
dispatch-Leads fuel room scr_upage m v l n =
    if_cases Leads (upage_scroll m == 0) _ _ (λ _. tt)
      λ _. walk-Leads (λ x. x.up) m (upage_scroll m) m.cur_item _ v.ups v.inside λ j h. h
dispatch-Leads fuel room first_item m v l n = omega (arith, v.inside)
dispatch-Leads fuel room last_item m v l n = omega (arith, v.inside)
dispatch-Leads fuel room next_item m v l n = ground (arith, v.inside)
dispatch-Leads fuel room prev_item m v l n = ground (arith, v.inside)
dispatch-Leads fuel room toggle_item m v l n = toggle-Leads m v.inside
dispatch-Leads fuel room clear_pattern m v l n = v.inside
dispatch-Leads fuel room back_pattern m v l n = of m.pattern
  where
    of :
        (o : Option (List ℕ))
        → Leads (elim o [
          | none ↦ return e_request_denied m
          | some cs ↦
              if m.plen == 0
              then return e_request_denied m
              else onward (record m { plen = m.plen - 1 }) (some m.cur_item) m.top_row e_ok
        ])
    of none = tt
    of (some cs) = if_cases Leads (m.plen == 0) _ _ (λ _. tt) (λ _. v.inside)
dispatch-Leads fuel room next_match m v l n = by_match-Leads fuel room m v.inside l
dispatch-Leads fuel room prev_match m v l n = absurd (n refl)

clear-IsLinked : (m : Menu) → IsLinked m → IsLinked (clear m)
clear-IsLinked m v = record {
  inside = v.inside;
  lefts = v.lefts;
  rights = v.rights;
  ups = v.ups;
  downs = v.downs;
}

request-Leads :
    (fuel : ℕ) (room : Bool) (r : Request) (m : Menu)
    → IsLinked m
    → count m < fuel
    → r ≢ prev_match
    → Leads (request fuel room r m)
unfolding request
request-Leads fuel room r m v l n =
    if_cases Leads (keeps_pattern r) _ _ (λ _. dispatch-Leads fuel room r m v l n)
      λ _.
        if_cases Leads (is_clear r && not (has_pattern m)) _ _ (λ _. tt)
          λ _. dispatch-Leads fuel room r (clear m) (clear-IsLinked m v) l n

-- A character that is typed, and is no request, is the first of the pattern.
abbrev pub Starts : Menu → ℕ → Type 0
Starts m c = request_of c ≡ none → is_print (c % 256) ≡ true → m.plen ≡ 0

drive-Leads :
    (fuel : ℕ) (room : Bool) (m : Menu) (c : ℕ)
    → IsLinked m
    → count m < fuel
    → request_of c ≢ some prev_match
    → Starts m c
    → Leads (drive fuel room m c)
unfolding drive
drive-Leads fuel room m c v l n first = of (request_of c) n first
  where
    of :
        (o : Option Request)
        → o ≢ some prev_match
        → (o ≡ none → is_print (c % 256) ≡ true → m.plen ≡ 0)
        → Leads (elim o [
          | some r ↦ request fuel room r m
          | none ↦
              if ltb max_command c
              then return e_unknown_command m
              else if is_print (c % 256)
              then searched m (match_pattern fuel room m (c % 256) forward)
              else return e_bad_argument m
        ])
    of (some r) n s = request-Leads fuel room r m v l (λ e. n (ap some e))
    of none n s =
        if_cases Leads (ltb max_command c) _ _ (λ _. tt)
          λ _.
            if_cases Leads (is_print (c % 256)) _ _
              (λ _.
                searched-Leads m _ v.inside
                  (match_pattern-Found fuel room m (c % 256) forward refl v.inside l (s refl)))
              (λ _. tt)

with_status-Returns :
    (status : Code) (o : Option (Code × Menu)) → Returns o → Returns (with_status status o)
with_status-Returns status none r = r
with_status-Returns status (some x) r = tt

finish-Returns :
    (width : ℕ) (h : Hooks) (m : Menu) (d : Leave)
    → KeepShape h
    → IsReady m
    → m.cur_item < count m
    → Kept m d
    → Leads d
    → Returns (finish width h d)
unfolding finish
finish-Returns width h m (return code m') k r c d l = tt
finish-Returns width h m (onward m' none top status) k r c d l = tt
finish-Returns width h m (onward m' (some i) top status) k r c d l =
    let (x, e) = get_elem?-some (items_of m') i l in
    subst (λ o. Returns (at o)) (sym e)
      (if_cases Returns (i == m'.cur_item && scrolled m'.rows x.row top == m'.top_row) _ _ (λ _. tt)
        λ _. with_status-Returns status _ (
          goto_item-Returns width h m' i (scrolled m'.rows x.row top) k ready l
            (omega (arith, d.same_item, d.same_count))))
  where
    ready : IsReady m'
    ready = record {
      some_items = omega (arith, r.some_items, d.same_count);
      some_cols = omega (arith, r.some_cols, d.same_cols);
      some_item_cols = omega (arith, r.some_item_cols, d.same_item_cols);
    }

    at : Option Item → Option (Code × Menu)
    at o = elim o [
      | none ↦ none
      | some x ↦
          let top' = scrolled m'.rows x.row top in
          if i == m'.cur_item && top' == m'.top_row
          then some (status, m')
          else with_status status (goto_item width h m' (some i) top')
    ]
finish-Returns width h m fault k r c d l = l

-- If the current item is an item, every neighbour of an item is an item, there are more rounds than items and columns to show, the hooks change neither the number of items nor that of columns, and a character that is typed is the first of the pattern, menu_driver returns for every character but REQ_PREV_MATCH: no NULL is followed, nothing outside an array is read or written, nothing is divided by 0, and no loop goes on for ever.
pub menu_driver-Returns :
    (fuel : ℕ) (room : Bool) (width : ℕ) (h : Hooks) (m : Menu) (c : ℕ)
    → KeepShape h
    → IsReady m
    → IsLinked m
    → count m < fuel
    → request_of c ≢ some prev_match
    → Starts m c
    → Returns (menu_driver fuel room width h m c)
unfolding menu_driver
menu_driver-Returns fuel room width h m c k r v l n first =
    if_cases Returns (not m.posted) _ _ (λ _. tt)
      λ _.
        if_cases Returns (not (ltb 0 (count m))) _ _ (λ _. tt)
          λ _.
            if_cases Returns m.in_init _ _ (λ _. tt)
              λ _.
                if_cases Returns (m.cur_item == count m) _ _ (λ _. tt)
                  λ _.
                    finish-Returns width h m (drive fuel room m c) k r v.inside
                      (drive-Kept fuel room m c) (drive-Leads fuel room m c v l n first)
