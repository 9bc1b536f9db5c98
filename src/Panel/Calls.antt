-- ===== src/Panel/Calls.antt =====
-- The calls that a client of lib/libpanel makes, as data, and what libpanel asks of the client.
use netbsd_curses.Base.{ℕ, ◌≡◌, ◌≢◌, true, false, Option, none, some}
use netbsd_curses.Base.Int.{ℤ}
use netbsd_curses.Panel.Queue.{mem, is_empty}
use netbsd_curses.Panel.{
  Curses, Deck, stdscr_panel, show_panel, hide_panel, top_panel, bottom_panel, del_panel, new_panel,
  move_panel, replace_panel, set_panel_userptr, update_panels,
}

pub data Call : Type 0 where
  new : Option ℕ → Option ℕ → Call
  del top bottom hide show : Option ℕ → Call
  move : Option ℕ → ℤ → ℤ → Call
  replace set_user : Option ℕ → Option ℕ → Call
  update_all : Call

module _ {W : Type 0} where
  abbrev pub state_of {ℓ} : {A : Type ℓ} → Option (A × Deck W) → Option (Deck W)
  state_of none = none
  state_of (some (a, d)) = some d

  -- A panel argument is NULL or an address that `malloc` gave.
  abbrev pub Alive : Option ℕ → Deck W → Type 0
  Alive none d = Unit {0}
  Alive (some p) d = (mem p d.live ≡ true) × (p ≢ stdscr_panel)

  -- `malloc` returns NULL or an address that is not in use.
  abbrev pub Fresh : Option ℕ → Deck W → Type 0
  Fresh none d = Unit {0}
  Fresh (some p) d = (mem p d.live ≡ false) × (p ≢ stdscr_panel)

  -- The last panel is not shown from an empty deck (see `Orphans`).
  abbrev pub Allowed : Call → Deck W → Type 0
  Allowed (new w alloc) d = Fresh alloc d
  Allowed (del p) d = Alive p d
  Allowed (top p) d = Alive p d
  Allowed (bottom p) d = Alive p d
  Allowed (hide p) d = Alive p d
  Allowed (show p) d = Alive p d × (is_empty d.queue ≡ false)
  Allowed (move p y x) d = Alive p d
  Allowed (replace p w) d = Alive p d
  Allowed (set_user p u) d = Alive p d
  Allowed update_all d = Unit {0}

module _ {W : Type 0} (c : Curses W) where
  -- No value: the call reads a link that is not there.
  unfoldable pub step : Call → Deck W → Option (Deck W)
  step (new w alloc) d = some (new_panel c w alloc d).1
  step (del p) d = some (del_panel c p d).1
  step (top p) d = some (top_panel c p d).1
  step (bottom p) d = state_of (bottom_panel c p d)
  step (hide p) d = some (hide_panel c p d).1
  step (show p) d = some (show_panel p d).1
  step (move p y x) d = some (move_panel c p y x d).1
  step (replace p w) d = some (replace_panel c p w d).1
  step (set_user p u) d = some (set_panel_userptr p u d).1
  step update_all d = some (update_panels c d)
