-- ===== src/Menu/Driver/Null.antt =====
-- The page requests of lib/libmenu/driver.c follow a neighbour that is NULL.
use netbsd_curses.Base.{
  ℕ, zero, suc, ◌+◌, ◌-◌, ◌≤◌, ◌≡◌, ap, ◌∙◌, ◌==◌, if◌then◌else◌, Bool, Option, none, some,
  get_elem?, if_cases, arith,
}
use netbsd_curses.Menu.{Item, Menu, e_request_denied, e_ok}
use netbsd_curses.Menu.Match.{items_of}
use netbsd_curses.Menu.Driver.{
  Leave, return, onward, fault, walk, dispatch, scr_dpage, scr_upage, dpage_scroll, upage_scroll,
}

walk_null :
    (link : Item → Option ℕ) (m : Menu) (n i : ℕ) (x : Item) (k : Option ℕ → Leave)
    → get_elem? (items_of m) i ≡ some x
    → link x ≡ none
    → walk link m (suc (suc n)) (some i) k ≡ fault
unfolding walk
walk_null link m n i x k e l =
    ap (λ o. elim o [ none ↦ fault | some y ↦ walk link m (suc n) (link y) k ]) e
    ∙ ap (λ p. walk link m (suc n) p k) l

-- REQ_SCR_DPAGE by two or more lines reads through NULL where the current item has no neighbour below, and REQ_SCR_UPAGE where it has none above.
pub page-null :
    (fuel : ℕ) (room : Bool) (m : Menu) (x : Item)
    → get_elem? (items_of m) m.cur_item ≡ some x
    → (x.down ≡ none → 2 ≤ dpage_scroll m → dispatch fuel room scr_dpage m ≡ fault)
      × (x.up ≡ none → 2 ≤ upage_scroll m → dispatch fuel room scr_upage m ≡ fault)
unfolding dispatch
page-null fuel room m x e = (down (dpage_scroll m), up (upage_scroll m))
  where
    down :
        (n : ℕ)
        → x.down ≡ none
        → 2 ≤ n
        → (if n == 0
            then return e_request_denied m
            else walk (λ x. x.down) m n (some m.cur_item) (λ p. onward m p (m.top_row + n) e_ok))
          ≡ fault
    down zero l h = ground arith
    down (suc zero) l h = ground arith
    down (suc (suc n)) l h =
        if_cases (λ r. r ≡ fault) (suc (suc n) == 0) _ _ (λ z. ground arith)
          λ _. walk_null (λ x. x.down) m n m.cur_item x _ e l

    up :
        (n : ℕ)
        → x.up ≡ none
        → 2 ≤ n
        → (if n == 0
            then return e_request_denied m
            else walk (λ x. x.up) m n (some m.cur_item) (λ p. onward m p (m.top_row - n) e_ok))
          ≡ fault
    up zero l h = ground arith
    up (suc zero) l h = ground arith
    up (suc (suc n)) l h =
        if_cases (λ r. r ≡ fault) (suc (suc n) == 0) _ _ (λ z. ground arith)
          λ _. walk_null (λ x. x.up) m n m.cur_item x _ e l
