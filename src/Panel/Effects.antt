-- ===== src/Panel/Effects.antt =====
-- What each function of lib/libpanel does to the list of linked panels and to the live addresses.
use netbsd_curses.Base.{
  ℕ, ◌≡◌, refl, ◌≢◌, true, false, some, List, [], ◌∷◌, ◌++◌, if◌then◌else◌, arith,
}
use netbsd_curses.Base.Int.{ℤ}
use netbsd_curses.Panel.Queue.{
  mem, remove, insert_after, is_empty, Distinct, mem-remove_self, remove_absent,
}
use netbsd_curses.Panel.{
  Curses, Deck, ok, err, stdscr_panel, show_panel, hide_panel, top_panel, bottom_panel, del_panel,
  new_panel, link_new_panel, move_panel, is_stdscr_last,
}

module _ {W : Type 0} (c : Curses W) (p : ℕ) (d : Deck W) where
  pub queue-hide_panel : (hide_panel c (some p) d).1.queue ≡ remove p d.queue
  unfolding hide_panel
  queue-hide_panel = ground (arith, remove_absent p d.queue)

  pub live-hide_panel : (hide_panel c (some p) d).1.live ≡ d.live
  unfolding hide_panel
  live-hide_panel = ground arith

  pub queue-show_panel :
      (show_panel (some p) d).1.queue ≡ (if mem p d.queue then d.queue else d.queue ++ p ∷ [])
  unfolding show_panel
  queue-show_panel = ground arith

  pub live-show_panel : (show_panel (some p) d).1.live ≡ d.live
  unfolding show_panel
  live-show_panel = ground arith

-- The deck that del_panel leaves: the phantom panel goes with the last panel.
abbrev pub without : ℕ → List ℕ → List ℕ
without q xs =
    if is_stdscr_last (remove q xs) then remove stdscr_panel (remove q xs) else remove q xs

module _ {W : Type 0} (c : Curses W) (p : ℕ) (d : Deck W) where
  abbrev hid : Deck W
  hid = (hide_panel c (some p) d).1

  pub queue-top_panel :
      Distinct d.queue
      → (top_panel c (some p) d).1.queue
        ≡ (if mem p d.queue then remove p d.queue ++ p ∷ [] else d.queue)
  unfolding top_panel
  queue-top_panel h =
      ground (arith, queue-hide_panel c p d, queue-show_panel c p hid, mem-remove_self p d.queue h)

  pub live-top_panel : (top_panel c (some p) d).1.live ≡ d.live
  unfolding top_panel
  live-top_panel = ground (arith, live-hide_panel c p d, live-show_panel c p hid)

  pub queue-del_panel : (del_panel c (some p) d).1.queue ≡ without p d.queue
  unfolding del_panel
  queue-del_panel = ground (
    arith,
    queue-hide_panel c p d,
    queue-hide_panel c stdscr_panel (record hid { live = remove p hid.live }),
  )

  pub live-del_panel : (del_panel c (some p) d).1.live ≡ remove p d.live
  unfolding del_panel
  live-del_panel = ground (
    arith,
    live-hide_panel c p d,
    live-hide_panel c stdscr_panel (record hid { live = remove p hid.live }),
  )

-- What bottom_panel leaves, and that it is an error exactly on a hidden panel.
pub bottom_panel_hidden :
    {W : Type 0} (c : Curses W) (p : ℕ) (d : Deck W)
    → mem p d.queue ≡ false
    → bottom_panel c (some p) d ≡ some (err, d)
unfolding bottom_panel
bottom_panel_hidden c p d h = rw h

pub insert_after_head : (a p : ℕ) (xs : List ℕ) → insert_after a p (a ∷ xs) ≡ some (a ∷ p ∷ xs)
unfolding insert_after
insert_after_head a p xs = ground arith

-- Past the phantom panel, which stays at the bottom.
pub bottom_panel_linked :
    {W : Type 0} (c : Curses W) (p : ℕ) (d : Deck W) (xs : List ℕ)
    → mem p d.queue ≡ true
    → p ≢ stdscr_panel
    → d.queue ≡ stdscr_panel ∷ xs
    → bottom_panel c (some p) d
      ≡ some (ok, record (hide_panel c (some p) d).1 { queue = stdscr_panel ∷ p ∷ remove p xs })
unfolding bottom_panel remove
bottom_panel_linked c p d xs m n e =
    ground (arith, queue-hide_panel c p d, insert_after_head stdscr_panel p (remove p xs))

module _ {W : Type 0} (c : Curses W) (w p : ℕ) (d : Deck W) where
  pub queue-new_panel :
      w ≢ c.stdscr
      → (new_panel c (some w) (some p) d).1.queue
        ≡ (if is_empty d.queue then stdscr_panel ∷ p ∷ [] else d.queue ++ p ∷ [])
  unfolding new_panel link_new_panel
  queue-new_panel h = queue_cases d.queue refl
    where
      queue_cases :
          (q : List ℕ)
          → d.queue ≡ q
          → (new_panel c (some w) (some p) d).1.queue
            ≡ (if is_empty d.queue then stdscr_panel ∷ p ∷ [] else d.queue ++ p ∷ [])
      queue_cases [] e = ground arith
      queue_cases (x ∷ q) e = ground arith

  pub live-new_panel : w ≢ c.stdscr → (new_panel c (some w) (some p) d).1.live ≡ p ∷ d.live
  unfolding new_panel link_new_panel
  live-new_panel h = ground arith

module _ {W : Type 0} (c : Curses W) (p : ℕ) (y x : ℤ) (d : Deck W) where
  pub queue-move_panel : (move_panel c (some p) y x d).1.queue ≡ d.queue
  unfolding move_panel
  queue-move_panel = ground arith

  pub live-move_panel : (move_panel c (some p) y x d).1.live ≡ d.live
  unfolding move_panel
  live-move_panel = ground arith
