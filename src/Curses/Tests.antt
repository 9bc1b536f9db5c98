-- ===== src/Curses/Tests.antt =====
-- Touched lines of lib/libcurses/touchwin.c at small inputs.
use netbsd_curses.Base.{ℕ, ◌+◌, ◌≤◌, ◌<◌, ◌≡◌, false, some, List, [], ◌∷◌, arith}
use netbsd_curses.Base.Int.{pos}
use netbsd_curses.Curses.Touch.{
  Range, Marks, Window, Held, ok, wtouchln, wsyncup, untouchwin, is_wintouched,
}
use netbsd_curses.Curses.Touch.Marked.{
  Grows, Touched, Widens, AllTouched, wtouchln-Touched, wsyncup-AllTouched,
}
use netbsd_curses.Curses.Touch.Unmarked.{untouchwin-is_wintouched}

clean : Marks
clean = record { dirty = false; forced = false }

-- Three lines of ten columns, and a sub-window of two lines of four columns in it.
abbrev outer : Window
outer = record { maxy = 3; maxx = 10; ch_off = 0; cell = λ y. y; marks = λ y. clean }

abbrev inner : Window
inner = record { maxy = 2; maxx = 4; ch_off = 5; cell = λ y. 1 + y; marks = λ y. clean }

abbrev untouched_lines : ℕ → Range
untouched_lines a = record { first = 10; last = 0 }

abbrev held : Held
held = record { win = inner; ranges = untouched_lines }

wtouchln-Touched_example :
    (h' : Held) × (wtouchln held (pos 1) (pos 5) (pos 1) ≡ some (ok, h'))
    × Grows held h'
    × ((z : ℕ) → 1 ≤ z → z < 1 + 5 → z < 2 → Touched h' z)
wtouchln-Touched_example = wtouchln-Touched held 1 5 (omega arith)

wsyncup-AllTouched_example :
    (ws' : List Window) × (r' : ℕ → Range) × (wsyncup (inner ∷ outer ∷ []) untouched_lines
      ≡ some (ws', r'))
    × Widens untouched_lines r'
    × AllTouched r' (inner ∷ outer ∷ []) ws'
wsyncup-AllTouched_example = wsyncup-AllTouched (inner ∷ outer ∷ []) untouched_lines

untouchwin-is_wintouched_example :
    (h' : Held) × (untouchwin held ≡ some (ok, h')) × (is_wintouched h'.win ≡ some false)
untouchwin-is_wintouched_example = untouchwin-is_wintouched held (omega arith)
