-- ===== src/Menu/Driver/Requests.antt =====
-- No request of menu_driver in lib/libmenu/driver.c moves the window before its end.
use netbsd_curses.Base.{
  ℕ, ◌+◌, ◌-◌, refl, ltb, leb, ◌==◌, if◌then◌else◌, Bool, not, ◌&&◌, Option, none, some, List,
  if_cases, ◌%◌,
}
use netbsd_curses.Menu.{Code, e_ok, Menu}
use netbsd_curses.Menu.Match.{
  count, Outcome, match_pattern, match_items, search_from, Direction, outcome, no_match, drop_char,
  push_char, keep_matched, is_print, forward, is_forward, start, next_forward, next_reverse,
}
use netbsd_curses.Menu.Draw.Keeps.{Drawn, Drawn-trans}
use netbsd_curses.Menu.Driver.{
  Request, Leave, return, onward, fault, searched, by_match, dispatch, request, drive, clear,
  dpage_scroll, upage_scroll, left_item, right_item, up_item, down_item, scr_uline, scr_dline,
  scr_dpage, scr_upage, first_item, last_item, next_item, prev_item, toggle_item, clear_pattern,
  back_pattern, next_match, prev_match, keeps_pattern, is_clear, has_pattern, request_of,
  max_command,
}
use netbsd_curses.Menu.Driver.Keeps.{Kept, same, unmoved, toggle-Kept, follow-Kept, walk-Kept}

-- The menu of a search's outcome.
abbrev OfOutcome : Menu → Option Outcome → Type 0
OfOutcome m none = Unit {0}
OfOutcome m (some o) = Drawn m o.menu

match_items-OfOutcome :
    (fuel : ℕ) (m : Menu) (dir : Direction) → OfOutcome m (match_items fuel m dir)
unfolding match_items
match_items-OfOutcome fuel m dir = of (search_from fuel m (is_forward dir) (start m dir))
  where
    of :
        (r : Option (Option ℕ)) → OfOutcome m (elim r [ none ↦ none | some f ↦ some (outcome m f) ])
    of none = tt
    of (some none) = unmoved _ _ refl refl refl refl refl refl refl
    of (some (some i)) = unmoved _ _ refl refl refl refl refl refl refl

keep_matched-OfOutcome :
    (m : Menu) (r : Option Outcome) → OfOutcome m r → OfOutcome m (keep_matched r)
keep_matched-OfOutcome m none h = tt
keep_matched-OfOutcome m (some o) h = of o.matched
  where
    of :
        (x : Option ℕ)
        → OfOutcome m (elim x [ none ↦ some (no_match (drop_char o.menu)) | some i ↦ some o ])
    of none = Drawn-trans h (unmoved _ _ refl refl refl refl refl refl refl)
    of (some i) = h

OfOutcome-trans : {a b : Menu} (r : Option Outcome) → Drawn a b → OfOutcome b r → OfOutcome a r
OfOutcome-trans none d h = tt
OfOutcome-trans (some o) d h = Drawn-trans d h

match_pattern-OfOutcome :
    (fuel : ℕ) (room : Bool) (m : Menu) (c : ℕ) (dir : Direction)
    → OfOutcome m (match_pattern fuel room m c dir)
unfolding match_pattern
match_pattern-OfOutcome fuel room m c dir =
    if_cases (OfOutcome m) (not (ltb 0 (count m))) _ _ (λ _. same m)
      λ _.
        if_cases (OfOutcome m) (not (is_print c)) _ _ (λ _. match_items-OfOutcome fuel m dir)
          λ _.
            if_cases (OfOutcome m) (not room) _ _
              (λ _. unmoved _ _ refl refl refl refl refl refl refl)
              λ _.
                if_cases (OfOutcome m) (ltb 0 m.plen) _ _ (λ _. tt)
                  λ _.
                    if_cases (OfOutcome m) (leb m.max_item_width (m.plen + 1)) _ _
                      (λ _. unmoved _ _ refl refl refl refl refl refl refl)
                      λ _. keep_matched-OfOutcome m (match_items fuel (push_char m c) dir) (
                        OfOutcome-trans _ (unmoved _ _ refl refl refl refl refl refl refl)
                          (match_items-OfOutcome fuel (push_char m c) dir))

searched-Kept : (m : Menu) (r : Option Outcome) → OfOutcome m r → Kept m (searched m r)
searched-Kept m none h = tt
searched-Kept m (some o) h = of o.matched
  where
    of :
        (x : Option ℕ)
        → Kept m (elim x [
          | none ↦ onward o.menu (some m.cur_item) m.top_row o.code
          | some i ↦ onward o.menu (some i) m.top_row o.code
        ])
    of none = h
    of (some i) = h

by_match-Kept :
    (fuel : ℕ) (room : Bool) (m : Menu) (dir : Direction) → Kept m (by_match fuel room m dir)
by_match-Kept fuel room m dir = of m.pattern
  where
    of :
        (x : Option (List ℕ))
        → Kept m (elim x [
          | none ↦ return Code.e_request_denied m
          | some cs ↦ searched m (match_pattern fuel room m 0 dir)
        ])
    of none = same m
    of (some cs) = searched-Kept m _ (match_pattern-OfOutcome fuel room m 0 dir)

dispatch-Kept : (fuel : ℕ) (room : Bool) (r : Request) (m : Menu) → Kept m (dispatch fuel room r m)
unfolding dispatch
dispatch-Kept fuel room left_item m =
    follow-Kept (λ x. x.left) m m.cur_item (λ p. onward m p m.top_row e_ok) (λ p. same m)
dispatch-Kept fuel room right_item m =
    follow-Kept (λ x. x.right) m m.cur_item (λ p. onward m p m.top_row e_ok) (λ p. same m)
dispatch-Kept fuel room up_item m =
    follow-Kept (λ x. x.up) m m.cur_item (λ p. onward m p m.top_row e_ok) (λ p. same m)
dispatch-Kept fuel room down_item m =
    follow-Kept (λ x. x.down) m m.cur_item (λ p. onward m p m.top_row e_ok) (λ p. same m)
dispatch-Kept fuel room scr_uline m =
    if_cases (Kept m) (m.top_row == 0) _ _ (λ _. same m)
      λ _. follow-Kept (λ x. x.up) m m.cur_item (λ p. onward m p (m.top_row - 1) e_ok) (λ p. same m)
dispatch-Kept fuel room scr_dline m =
    if_cases (Kept m) (ltb m.item_rows (m.top_row + 1 + m.rows - 1)) _ _ (λ _. same m)
      λ _.
        follow-Kept (λ x. x.down) m m.cur_item (λ p. onward m p (m.top_row + 1) e_ok) (λ p. same m)
dispatch-Kept fuel room scr_dpage m =
    if_cases (Kept m) (dpage_scroll m == 0) _ _ (λ _. same m)
      λ _.
        walk-Kept (λ x. x.down) m (dpage_scroll m) (some m.cur_item)
          (λ p. onward m p (m.top_row + dpage_scroll m) e_ok) (λ p. same m)
dispatch-Kept fuel room scr_upage m =
    if_cases (Kept m) (upage_scroll m == 0) _ _ (λ _. same m)
      λ _.
        walk-Kept (λ x. x.up) m (upage_scroll m) (some m.cur_item)
          (λ p. onward m p (m.top_row - upage_scroll m) e_ok) (λ p. same m)
dispatch-Kept fuel room first_item m = same m
dispatch-Kept fuel room last_item m = same m
dispatch-Kept fuel room next_item m =
    if_cases (Kept m) (leb (count m) (m.cur_item + 1)) _ _
      (λ _. if_cases (Kept m) m.opts.noncyclic _ _ (λ _. same m) (λ _. same m)) (λ _. same m)
dispatch-Kept fuel room prev_item m =
    if_cases (Kept m) (m.cur_item == 0) _ _
      (λ _. if_cases (Kept m) m.opts.noncyclic _ _ (λ _. same m) (λ _. same m)) (λ _. same m)
dispatch-Kept fuel room toggle_item m = toggle-Kept m m.cur_item
dispatch-Kept fuel room clear_pattern m = same m
dispatch-Kept fuel room back_pattern m = of m.pattern
  where
    of :
        (x : Option (List ℕ))
        → Kept m (elim x [
          | none ↦ return Code.e_request_denied m
          | some cs ↦
              if m.plen == 0
              then return Code.e_request_denied m
              else onward (record m { plen = m.plen - 1 }) (some m.cur_item) m.top_row e_ok
        ])
    of none = same m
    of (some cs) =
        if_cases (Kept m) (m.plen == 0) _ _ (λ _. same m)
          (λ _. unmoved _ _ refl refl refl refl refl refl refl)
dispatch-Kept fuel room next_match m = by_match-Kept fuel room m next_forward
dispatch-Kept fuel room prev_match m = by_match-Kept fuel room m next_reverse

Kept-clear : (m : Menu) (l : Leave) → Kept (clear m) l → Kept m l
Kept-clear m (return code m') h = Drawn-trans (unmoved _ _ refl refl refl refl refl refl refl) h
Kept-clear m (onward m' p top status) h =
    Drawn-trans (unmoved _ _ refl refl refl refl refl refl refl) h
Kept-clear m fault h = tt

request-Kept : (fuel : ℕ) (room : Bool) (r : Request) (m : Menu) → Kept m (request fuel room r m)
unfolding request
request-Kept fuel room r m =
    if_cases (Kept m) (keeps_pattern r) _ _ (λ _. dispatch-Kept fuel room r m)
      λ _.
        if_cases (Kept m) (is_clear r && not (has_pattern m)) _ _ (λ _. same m)
          λ _. Kept-clear m _ (dispatch-Kept fuel room r (clear m))

pub drive-Kept : (fuel : ℕ) (room : Bool) (m : Menu) (c : ℕ) → Kept m (drive fuel room m c)
unfolding drive
drive-Kept fuel room m c = of (request_of c)
  where
    of :
        (x : Option Request)
        → Kept m (elim x [
          | some r ↦ request fuel room r m
          | none ↦
              if ltb max_command c
              then return Code.e_unknown_command m
              else if is_print (c % 256)
              then searched m (match_pattern fuel room m (c % 256) forward)
              else return Code.e_bad_argument m
        ])
    of (some r) = request-Kept fuel room r m
    of none =
        if_cases (Kept m) (ltb max_command c) _ _ (λ _. same m)
          λ _.
            if_cases (Kept m) (is_print (c % 256)) _ _
              (λ _. searched-Kept m _ (match_pattern-OfOutcome fuel room m (c % 256) forward))
              (λ _. same m)
