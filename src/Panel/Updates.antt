-- ===== src/Panel/Updates.antt =====
-- What lib/libpanel asks of libcurses, read from a log of its calls.
use netbsd_curses.Base.{
  ℕ, ◌≡◌, refl, sym, false, some, List, [], ◌∷◌, ◌++◌, map, ◌==◌, arith, Bool-cases, inl, inr,
}
use mathlib.Core.List.{append_assoc, append-nil}
use netbsd_curses.Base.Int.{ℤ}
use netbsd_curses.Panel.Queue.{mem, remove, Distinct}
use netbsd_curses.Panel.{
  Curses, Deck, ok, hide_panel, replace_panel, touch_each, touch_others, touch_pairs, refresh_each,
  update_panels,
}

pub data Event : Type 0 where
  touched : ℕ → ℕ → Event
  refreshed : ℕ → Event

-- Windows that only record what is asked of them.
abbrev pub logging : (ℕ → ℤ × ℤ) → ℕ → Curses (List Event)
logging place stdscr = record {
  stdscr = stdscr;
  getbegyx = λ s w. place w;
  touchoverlap = λ a b s. s ++ touched a b ∷ [];
  wnoutrefresh = λ w s. s ++ refreshed w ∷ [];
  mvwin = λ w y x s. (ok, s);
}

-- Each panel below each panel above it, from the bottom up.
unfoldable pub overlaps : (ℕ → ℕ) → List ℕ → List Event
overlaps win [] = []
overlaps win (p ∷ above) = map (λ q. touched (win p) (win q)) above ++ overlaps win above

unfoldable pub refreshes : (ℕ → ℕ) → List ℕ → List Event
refreshes win q = map (λ p. refreshed (win p)) q

module _ (place : ℕ → ℤ × ℤ) (std : ℕ) where
  log-touch_each :
      (win : ℕ → ℕ) (w : ℕ) (q : List ℕ) (s : List Event)
      → touch_each (logging place std) win w q s ≡ s ++ map (λ o. touched w (win o)) q
  unfolding touch_each
  log-touch_each win w [] s = sym (append-nil s)
  log-touch_each win w (o ∷ q) s =
      rw (log-touch_each win w q (s ++ touched w (win o) ∷ []), append_assoc)

  log-touch_pairs :
      (win : ℕ → ℕ) (q : List ℕ) (s : List Event)
      → touch_pairs (logging place std) win q s ≡ s ++ overlaps win q
  unfolding touch_pairs overlaps
  log-touch_pairs win [] s = sym (append-nil s)
  log-touch_pairs win (p ∷ q) s = rw (
    log-touch_pairs win q (touch_each (logging place std) win (win p) q s),
    log-touch_each win (win p) q s,
    append_assoc,
  )

  log-refresh_each :
      (win : ℕ → ℕ) (q : List ℕ) (s : List Event)
      → refresh_each (logging place std) win q s ≡ s ++ refreshes win q
  unfolding refresh_each refreshes
  log-refresh_each win [] s = sym (append-nil s)
  log-refresh_each win (p ∷ q) s =
      rw (log-refresh_each win q (s ++ refreshed (win p) ∷ []), append_assoc)

  -- update_panels touches the overlap of each panel with each panel above it, and only then
  -- refreshes every panel once, from the bottom to the top.
  pub log-update_panels :
      (d : Deck (List Event))
      → (update_panels (logging place std) d).screen
        ≡ d.screen ++ overlaps d.win d.queue ++ refreshes d.win d.queue
  unfolding update_panels
  log-update_panels d = rw (
    log-refresh_each d.win d.queue (touch_pairs (logging place std) d.win d.queue d.screen),
    log-touch_pairs d.win d.queue d.screen,
  )

module _ {W : Type 0} (c : Curses W) where
  touch_others_absent :
      (win : ℕ → ℕ) (p : ℕ) (q : List ℕ) (s : W)
      → mem p q ≡ false
      → touch_others c win p q s ≡ touch_each c win (win p) q s
  unfolding touch_others touch_each mem
  touch_others_absent win p [] s h = refl
  touch_others_absent win p (o ∷ q) s h = elim (Bool-cases (o == p)) [
    | inl e ↦ ground (arith, e)
    | inr e ↦ rw e (touch_others_absent win p q (c.touchoverlap (win p) (win o) s) (rw e at h))
  ]

  touch_others-remove :
      (win : ℕ → ℕ) (p : ℕ) (q : List ℕ) (s : W)
      → Distinct q
      → touch_others c win p q s ≡ touch_each c win (win p) (remove p q) s
  unfolding touch_others touch_each remove
  touch_others-remove win p [] s h = refl
  touch_others-remove win p (o ∷ q) s h = elim (Bool-cases (o == p)) [
    | inl e ↦ rw e (touch_others_absent win p q s (ground (arith, h.0, e)))
    | inr e ↦ rw e (touch_others-remove win p q (c.touchoverlap (win p) (win o) s) h.1)
  ]

  -- Hiding a panel and replacing its window touch the overlaps with the same other panels in the
  -- same order, if no panel is linked twice.
  pub hide-replace_exposed :
      (p w : ℕ) (d : Deck W)
      → Distinct d.queue
      → (hide_panel c (some p) d).1.screen ≡ (replace_panel c (some p) (some w) d).1.screen
  unfolding hide_panel replace_panel
  hide-replace_exposed p w d h = ground (arith, touch_others-remove d.win p d.queue d.screen h)
