-- ===== src/Menu/Match.antt =====
-- _menui_match_items and _menui_match_pattern of lib/libmenu/internals.c: the search for an item
-- whose name starts with the pattern.
pub mod Search
pub mod Reverse
use netbsd_curses.Base.{
  ℕ, zero, suc, ◌+◌, ◌-◌, ltb, leb, ◌==◌, if◌then◌else◌, Bool, true, false, not, ◌&&◌, Option, none,
  some, List, [], ◌∷◌, ◌++◌, length, get_elem?, take,
}
use netbsd_curses.Menu.{Code, e_ok, e_bad_argument, e_system_error, e_no_match, Item, Menu}

-- MATCH_FORWARD, MATCH_REVERSE, MATCH_NEXT_FORWARD, MATCH_NEXT_REVERSE
pub data Direction : Type 0 where
  forward reverse next_forward next_reverse : Direction

abbrev pub is_forward : Direction → Bool
is_forward forward = true
is_forward next_forward = true
is_forward reverse = false
is_forward next_reverse = false

abbrev pub to_lower : ℕ → ℕ
to_lower c = if leb b'A' c && leb c b'Z' then c + 32 else c

-- strncmp or strncasecmp, with what it does to each character, returns 0. A string ends before its
-- NUL, so no character is 0.
unfoldable pub same_start : (ℕ → ℕ) → ℕ → List ℕ → List ℕ → Bool
same_start fold zero xs ys = true
same_start fold (suc n) [] [] = true
same_start fold (suc n) [] (y ∷ ys) = false
same_start fold (suc n) (x ∷ xs) [] = false
same_start fold (suc n) (x ∷ xs) (y ∷ ys) = fold x == fold y && same_start fold n xs ys

abbrev pub chars : Option (List ℕ) → List ℕ
chars none = []
chars (some cs) = cs

-- The test of the loop's body on one item.
unfoldable pub name_matches : Menu → Item → Bool
unfolding same_start
name_matches m item =
    leb m.plen (length item.name)
    && same_start (if m.opts.ignorecase then to_lower else λ c. c) m.plen item.name
        (chars m.pattern)

abbrev pub items_of : Menu → List Item
items_of m = elim m.items [ none ↦ [] | some items ↦ items ]

unfoldable pub matches : Menu → ℕ → Bool
unfolding name_matches
matches m i = elim (get_elem? (items_of m) i) [ none ↦ false | some item ↦ name_matches m item ]

abbrev pub count : Menu → ℕ
count m = length (items_of m)

-- Where the loop begins.
abbrev pub start : Menu → Direction → ℕ
start m forward = m.cur_item
start m reverse = m.cur_item
start m next_forward = if leb (count m) (m.cur_item + 1) then 0 else m.cur_item + 1
start m next_reverse = if m.cur_item == 0 then count m - 1 else m.cur_item - 1

-- `if (++i >= item_count) i = 0` and `if (--i <= 0) i = item_count - 1`
abbrev pub advance : Menu → Bool → ℕ → ℕ
advance m true i = if leb (count m) (i + 1) then 0 else i + 1
advance m false i = if leb i 1 then count m - 1 else i - 1

-- The do-while loop. The outer option is no value where the fuel runs out, the inner one where the
-- loop ends without a match.
unfoldable pub search_from : ℕ → Menu → Bool → ℕ → Option (Option ℕ)
search_from zero m fwd i = none
search_from (suc f) m fwd i =
    let i' = advance m fwd i in
    let rest = search_from f m fwd i' in
    if matches m i then some (some i) else if i' == m.cur_item then some none else rest

-- What the caller's `item_matched` receives, if anything.
pub record Outcome : Type 0 where
  pub code : Code
  pub menu : Menu
  pub matched : Option ℕ

abbrev pub outcome : Menu → Option ℕ → Outcome
outcome m none = record { code = e_no_match; menu = record m { match_len = 0 }; matched = none }
outcome m (some i) = record {
  code = e_ok;
  menu = record m { match_len = m.plen };
  matched = some i;
}

unfoldable pub match_items : ℕ → Menu → Direction → Option Outcome
unfolding search_from matches
match_items fuel m dir = elim (search_from fuel m (is_forward dir) (start m dir)) [
  | none ↦ none
  | some found ↦ some (outcome m found)
]

abbrev pub is_print : ℕ → Bool
is_print c = leb 32 c && ltb c 127

-- `pattern[plen] = c; pattern[++plen] = '\0'`, where the pattern has room for the NUL.
abbrev pub push_char : Menu → ℕ → Menu
push_char m c = record m {
  pattern = some (take m.plen (chars m.pattern) ++ c ∷ []);
  plen = m.plen + 1;
}

-- `pattern[--plen] = '\0'`
abbrev pub drop_char : Menu → Menu
drop_char m = record m { pattern = some (take (m.plen - 1) (chars m.pattern)); plen = m.plen - 1 }

abbrev pub no_match : Menu → Outcome
no_match m = record { code = e_no_match; menu = m; matched = none }

-- The typed character is taken out of the pattern again if nothing matches.
abbrev pub keep_matched : Option Outcome → Option Outcome
keep_matched none = none
keep_matched (some o) = elim o.matched [
  | none ↦ some (no_match (drop_char o.menu))
  | some i ↦ some o
]

-- `room` says that `realloc` succeeds. It asks for plen + 1 bytes, or for 2 where plen is 0, so behind
-- a character the NUL is written outside the pattern, and there is no value.
unfoldable pub match_pattern : ℕ → Bool → Menu → ℕ → Direction → Option Outcome
unfolding match_items
match_pattern fuel room m c dir =
    if not (ltb 0 (count m))
    then some (record { code = e_bad_argument; menu = m; matched = none })
    else if not (is_print c)
    then match_items fuel m dir
    else if not room
    then some (record { code = e_system_error; menu = record m { pattern = none }; matched = none })
    else if ltb 0 m.plen
    then none
    else let typed = push_char m c in
      if leb typed.max_item_width typed.plen
      then some (no_match (drop_char typed))
      else keep_matched (match_items fuel typed dir)
