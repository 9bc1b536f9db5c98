-- ===== src/Panel/Orphans.antt =====
-- Deleting the last visible panel takes the phantom panel away even if hidden panels are left, and
-- show_panel does not bring it back.
use netbsd_curses.Base.{ℕ, ◌≡◌, ◌≢◌, false, none, some, [], ◌∷◌, arith}
use netbsd_curses.Panel.Queue.{mem, remove, insert_after, next, last?}
use netbsd_curses.Panel.Effects.{queue-del_panel, queue-hide_panel}
use netbsd_curses.Panel.{
  Curses, Deck, stdscr_panel, show_panel, del_panel, bottom_panel, panel_hidden, panel_above,
}

module _ {W : Type 0} (c : Curses W) (p q : ℕ) (d : Deck W) where
  -- The deck after del_panel of the only visible panel and show_panel of a hidden one.
  abbrev pub reshown : Deck W
  reshown = (show_panel (some q) (del_panel c (some p) d).1).1

  queue-reshown : d.queue ≡ stdscr_panel ∷ p ∷ [] → p ≢ stdscr_panel → reshown.queue ≡ q ∷ []
  unfolding show_panel mem remove last?
  queue-reshown e n = ground (arith, queue-del_panel c p d)

  -- After del_panel of the only visible panel and show_panel of another one, the shown panel is
  -- linked, but panel_above(NULL) does not find it, and bottom_panel on it inserts after the
  -- phantom panel, which is not linked.
  pub reshown_lost :
      d.queue ≡ stdscr_panel ∷ p ∷ []
      → p ≢ stdscr_panel
      → q ≢ stdscr_panel
      → (panel_hidden (some q) reshown ≡ some false)
        × (panel_above none reshown ≡ none)
        × (bottom_panel c (some q) reshown ≡ none)
  reshown_lost e n m = (linked, lost, stuck)
    where
      one : reshown.queue ≡ q ∷ []
      one = queue-reshown e n

      linked : panel_hidden (some q) reshown ≡ some false
      linked = unfold panel_hidden mem in ground (arith, one)

      lost : panel_above none reshown ≡ none
      lost = unfold panel_above next in ground (arith, one)

      stuck : bottom_panel c (some q) reshown ≡ none
      stuck =
          unfold bottom_panel mem remove insert_after in
          ground (arith, one, queue-hide_panel c q reshown)
