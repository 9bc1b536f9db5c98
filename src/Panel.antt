-- ===== src/Panel.antt =====
-- lib/libpanel: curses windows with a Z-order. The deck is the TAILQ `_deck` of panel_impl.h, seen
-- as the list of its entries from bottom to top; a panel is the address of its `struct __panel`.
pub mod Queue
pub mod Calls
pub mod Effects
pub mod Invariant
pub mod Preserve
pub mod Zorder
pub mod Refine
pub mod Reach
pub mod Neighbours
pub mod Orphans
pub mod Updates
mod Tests
use netbsd_curses.Base.{
  ℕ, Bool, true, false, not, ◌&&◌, Option, none, some, List, [], ◌∷◌, ◌++◌, ◌==◌, if◌then◌else◌,
}
use netbsd_curses.Base.Int.{ℤ, ==_ℤ}
use Queue.{mem, remove, insert_after, next, prev, last?, is_empty}

pub data Status : Type 0 where
  ok err : Status

-- What libpanel calls of libcurses. `W` is the state of all windows; a window is its address.
pub record Curses (W : Type 0) : Type 0 where
  pub stdscr : ℕ
  pub getbegyx : W → ℕ → ℤ × ℤ
  pub touchoverlap : ℕ → ℕ → W → W
  pub wnoutrefresh : ℕ → W → W
  pub mvwin : ℕ → ℤ → ℤ → W → Status × W

-- `_stdscr_panel`, the static panel that is not visible to the user.
abbrev pub stdscr_panel : ℕ
stdscr_panel = 0

-- `_deck` and the panels that it links: their fields `win` and `user`, by address. `live` holds
-- the addresses that `malloc` gave and `free` has not taken back.
pub record Deck (W : Type 0) : Type 0 where
  pub queue : List ℕ
  pub win : ℕ → ℕ
  pub user : ℕ → Option ℕ
  pub live : List ℕ
  pub screen : W

abbrev pub update {ℓ} : {A : Type ℓ} → (ℕ → A) → ℕ → A → ℕ → A
update f p v q = if q == p then v else f q

-- The test at the end of panel_below.
abbrev pub unless_stdscr : Option ℕ → Option ℕ
unless_stdscr none = none
unless_stdscr (some q) = if q == stdscr_panel then none else some q

-- TAILQ_LAST(&_deck, deck) == &_stdscr_panel
abbrev pub is_stdscr_last : List ℕ → Bool
is_stdscr_last q = elim (last? q) [ none ↦ false | some p ↦ p == stdscr_panel ]

module _ {W : Type 0} where
  -- PANEL_HIDDEN: a panel that is not linked.
  abbrev pub hidden : Deck W → ℕ → Bool
  hidden d p = not (mem p d.queue)

  -- panel_hidden: no value is ERR.
  pub panel_hidden : Option ℕ → Deck W → Option Bool
  panel_hidden none d = none
  panel_hidden (some p) d = if hidden d p then some true else some false

  pub panel_above : Option ℕ → Deck W → Option ℕ
  panel_above none d = if is_empty d.queue then none else next stdscr_panel d.queue
  panel_above (some p) d = if hidden d p then none else next p d.queue

  pub panel_below : Option ℕ → Deck W → Option ℕ
  panel_below none d = unless_stdscr (last? d.queue)
  panel_below (some p) d = if hidden d p then none else unless_stdscr (prev p d.queue)

  pub panel_window : Option ℕ → Deck W → Option ℕ
  panel_window none d = none
  panel_window (some p) d = some (d.win p)

  pub panel_userptr : Option ℕ → Deck W → Option ℕ
  panel_userptr none d = none
  panel_userptr (some p) d = d.user p

  pub set_panel_userptr : Option ℕ → Option ℕ → Deck W → Status × Deck W
  set_panel_userptr none u d = (err, d)
  set_panel_userptr (some p) u d = (ok, record d { user = update d.user p u })

  pub show_panel : Option ℕ → Deck W → Status × Deck W
  show_panel none d = (err, d)
  show_panel (some p) d =
      if hidden d p then (ok, record d { queue = d.queue ++ p ∷ [] }) else (err, d)

module _ {W : Type 0} (c : Curses W) where
  -- FOREACH_PANEL (other) touchoverlap(w, other->win)
  pub touch_each : (ℕ → ℕ) → ℕ → List ℕ → W → W
  touch_each win w [] s = s
  touch_each win w (other ∷ q) s = touch_each win w q (c.touchoverlap w (win other) s)

  -- FOREACH_PANEL (other) if (other != p) touchoverlap(p->win, other->win)
  pub touch_others : (ℕ → ℕ) → ℕ → List ℕ → W → W
  touch_others win p [] s = s
  touch_others win p (other ∷ q) s =
      touch_others win p q (if other == p then s else c.touchoverlap (win p) (win other) s)

  pub hide_panel : Option ℕ → Deck W → Status × Deck W
  hide_panel none d = (err, d)
  hide_panel (some p) d = if hidden d p then (ok, d) else (
    ok,
    record d {
      queue = remove p d.queue;
      screen = touch_each d.win (d.win p) (remove p d.queue) d.screen;
    },
  )

  pub top_panel : Option ℕ → Deck W → Status × Deck W
  top_panel none d = (err, d)
  top_panel (some p) d =
      if hidden d p then (err, d) else (ok, (show_panel (some p) (hide_panel (some p) d).1).1)

  -- No value: TAILQ_INSERT_AFTER stands at a panel that is not linked.
  abbrev pub with_queue : Deck W → Option (List ℕ) → Option (Status × Deck W)
  with_queue d none = none
  with_queue d (some q) = some (ok, record d { queue = q })

  pub bottom_panel : Option ℕ → Deck W → Option (Status × Deck W)
  bottom_panel none d = some (err, d)
  bottom_panel (some p) d =
      if hidden d p
      then some (err, d)
      else let d' = (hide_panel (some p) d).1 in
        with_queue d' (insert_after stdscr_panel p d'.queue)

  pub del_panel : Option ℕ → Deck W → Status × Deck W
  del_panel none d = (err, d)
  del_panel (some p) d =
      let d' = (hide_panel (some p) d).1 in
      let freed = record d' { live = remove p d'.live } in
      (ok, if is_stdscr_last freed.queue then (hide_panel (some stdscr_panel) freed).1 else freed)

  -- _new_panel: `alloc` is what `malloc` returns.
  pub link_new_panel : ℕ → Option ℕ → Deck W → Option ℕ × Deck W
  link_new_panel w none d = (none, d)
  link_new_panel w (some p) d = (
    some p,
    record d {
      queue = d.queue ++ p ∷ [];
      win = update d.win p w;
      user = update d.user p none;
      live = p ∷ d.live;
    },
  )

  -- "Ensure there's phantom panel for stdscr at (below) the bottom."
  abbrev pub with_phantom : Deck W → Deck W
  with_phantom d =
      if is_empty d.queue
      then record d {
        queue = d.queue ++ stdscr_panel ∷ [];
        win = update d.win stdscr_panel c.stdscr;
      }
      else d

  pub new_panel : Option ℕ → Option ℕ → Deck W → Option ℕ × Deck W
  new_panel none alloc d = (none, d)
  new_panel (some w) alloc d =
      if w == c.stdscr then (none, d) else link_new_panel w alloc (with_phantom d)

  abbrev pub moved : Deck W → Status × W → Status × Deck W
  moved d r = (r.0, record d { screen = r.1 })

  pub move_panel : Option ℕ → ℤ → ℤ → Deck W → Status × Deck W
  move_panel none y x d = (err, d)
  move_panel (some p) y x d =
      let at = c.getbegyx d.screen (d.win p) in
      let touched = if hidden d p then d.screen else touch_others d.win p d.queue d.screen in
      if ==_ℤ y at.0 && ==_ℤ x at.1 then (ok, d) else moved d (c.mvwin (d.win p) y x touched)

  pub replace_panel : Option ℕ → Option ℕ → Deck W → Status × Deck W
  replace_panel none w d = (err, d)
  replace_panel (some p) none d = (err, d)
  replace_panel (some p) (some w) d = (
    ok,
    record d {
      win = update d.win p w;
      screen = if hidden d p then d.screen else touch_others d.win p d.queue d.screen;
    },
  )

  -- FOREACH_PANEL (p) { above = p; while ((above = PANEL_ABOVE(above)) != NULL) ... }
  pub touch_pairs : (ℕ → ℕ) → List ℕ → W → W
  touch_pairs win [] s = s
  touch_pairs win (p ∷ above) s = touch_pairs win above (touch_each win (win p) above s)

  -- FOREACH_PANEL (p) wnoutrefresh(p->win)
  pub refresh_each : (ℕ → ℕ) → List ℕ → W → W
  refresh_each win [] s = s
  refresh_each win (p ∷ q) s = refresh_each win q (c.wnoutrefresh (win p) s)

  pub update_panels : Deck W → Deck W
  update_panels d = record d {
    screen = refresh_each d.win d.queue (touch_pairs d.win d.queue d.screen);
  }
