-- ===== src/Panel/Tests.antt =====
-- A deck of lib/libpanel with two visible panels, and what the theorems say of it.
use netbsd_curses.Base.{◌≡◌, ◌≢◌, refl, ◌↔◌, false, none, some, List, [], ◌∷◌, ◌++◌, arith}
use netbsd_curses.Base.Int.{pos}
use netbsd_curses.Panel.Queue.{mem, insert_after, remove, Distinct}
use netbsd_curses.Panel.Calls.{new, hide, bottom, step, Allowed}
use netbsd_curses.Panel.Invariant.{IsValid}
use netbsd_curses.Panel.Preserve.{Kept, step-IsValid}
use netbsd_curses.Panel.Zorder.{zorder, restack}
use netbsd_curses.Panel.Reach.{Runs, done, calls, restack_all, Runs-refines}
use netbsd_curses.Panel.Refine.{step_refines}
use netbsd_curses.Panel.Neighbours.{below-above}
use netbsd_curses.Panel.Orphans.{reshown, reshown_lost}
use netbsd_curses.Panel.Updates.{Event, touched, logging, overlaps, refreshes, log-update_panels}
use netbsd_curses.Panel.{
  Curses, Deck, stdscr_panel, update_panels, panel_above, panel_below, panel_hidden, hide_panel,
  bottom_panel, touch_each, new_panel, link_new_panel,
}

abbrev windows : Curses (List Event)
windows = logging (λ w. (pos 0, pos 0)) 99

abbrev two_panels : Deck (List Event)
two_panels = record {
  queue = 0 ∷ 1 ∷ 2 ∷ [];
  win = λ p. p;
  user = λ p. none;
  live = 1 ∷ 2 ∷ 3 ∷ [];
  screen = [];
}

abbrev one_panel : Deck (List Event)
one_panel = record two_panels { queue = 0 ∷ 1 ∷ [] }

abbrev lowered : Deck (List Event)
lowered = record two_panels { queue = 0 ∷ 2 ∷ 1 ∷ []; screen = touched 2 0 ∷ touched 2 1 ∷ [] }

two_panels-Distinct : Distinct two_panels.queue
unfolding mem
two_panels-Distinct = (refl, (refl, (refl, tt)))

two_panels-IsValid : IsValid two_panels
unfolding mem
two_panels-IsValid = record {
  anchored = refl;
  distinct = two_panels-Distinct;
  alive = λ q h n. ground arith;
}

lower-Allowed : Allowed (bottom (some 2)) two_panels
unfolding mem
lower-Allowed = (refl, ground arith)

lower : step windows (bottom (some 2)) two_panels ≡ some lowered
unfolding step bottom_panel mem insert_after hide_panel remove touch_each
lower = refl

one_nonzero : 1 ≢ stdscr_panel
one_nonzero = ground arith

two_nonzero : 2 ≢ stdscr_panel
two_nonzero = ground arith

step-IsValid_example : Kept windows (bottom (some 2)) two_panels
step-IsValid_example =
    step-IsValid windows (bottom (some 2)) two_panels lower-Allowed two_panels-IsValid

step_refines_example : zorder lowered ≡ restack windows (bottom (some 2)) (zorder two_panels)
step_refines_example =
    step_refines windows (bottom (some 2)) two_panels lowered lower-Allowed two_panels-IsValid lower

below-above_example :
    (panel_above (some 1) two_panels ≡ some 2) ↔ (panel_below (some 2) two_panels ≡ some 1)
below-above_example = below-above two_panels two_panels-IsValid 1 2 one_nonzero two_nonzero

reshown_lost_example :
    (panel_hidden (some 2) (reshown windows 1 2 one_panel) ≡ some false)
    × (panel_above none (reshown windows 1 2 one_panel) ≡ none)
    × (bottom_panel windows (some 2) (reshown windows 1 2 one_panel) ≡ none)
reshown_lost_example = reshown_lost windows 1 2 one_panel refl one_nonzero two_nonzero

log-update_panels_example :
    (update_panels windows two_panels).screen
    ≡ two_panels.screen
      ++ overlaps two_panels.win two_panels.queue
      ++ refreshes two_panels.win two_panels.queue
log-update_panels_example = log-update_panels (λ w. (pos 0, pos 0)) 99 two_panels

abbrev no_panels : Deck (List Event)
no_panels = record { queue = []; win = λ p. 0; user = λ p. none; live = []; screen = [] }

no_panels-IsValid : IsValid no_panels
unfolding mem
no_panels-IsValid = record { anchored = tt; distinct = tt; alive = λ q h n. cc }

-- A window is given a panel, which is then hidden.
abbrev made : Deck (List Event)
made = (new_panel windows (some 5) (some 1) no_panels).1

abbrev hidden_again : Deck (List Event)
hidden_again = (hide_panel windows (some 1) made).1

new-hide : Runs windows (new (some 5) (some 1) ∷ hide (some 1) ∷ []) no_panels hidden_again
unfolding step new_panel link_new_panel mem
new-hide = calls (refl, ground arith) refl (calls (refl, ground arith) refl done)

Runs-refines_example :
    IsValid hidden_again
    × (zorder hidden_again
        ≡ restack_all windows (new (some 5) (some 1) ∷ hide (some 1) ∷ []) (zorder no_panels))
Runs-refines_example =
    Runs-refines windows (new (some 5) (some 1) ∷ hide (some 1) ∷ []) no_panels hidden_again
      new-hide no_panels-IsValid
