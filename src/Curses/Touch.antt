-- ===== src/Curses/Touch.antt =====
-- lib/libcurses/touchwin.c: which lines and columns of a window are marked as changed. The range of
-- changed columns of a line is shared with the windows that a sub-window is part of: it has an
-- address, and the ranges are a function of it.
pub mod Marked
pub mod Unmarked
use netbsd_curses.Base.{
  ℕ, zero, suc, ◌+◌, ◌-◌, ltb, leb, ◌==◌, ◌&&◌, ◌||◌, if◌then◌else◌, Bool, true, false, Option,
  none, some, List, [], ◌∷◌,
}
use netbsd_curses.Base.Int.{ℤ, pos, negsuc}

-- *firstchp and *lastchp.
pub record Range : Type 0 where
  pub first : ℕ
  pub last : ℕ

-- __ISDIRTY and __ISFORCED of a line.
pub record Marks : Type 0 where
  pub dirty : Bool
  pub forced : Bool

-- `cell y` is where the range of line `y` is.
pub record Window : Type 0 where
  pub maxy : ℕ
  pub maxx : ℕ
  pub ch_off : ℕ
  pub cell : ℕ → ℕ
  pub marks : ℕ → Marks

pub record Held : Type 0 where
  pub win : Window
  pub ranges : ℕ → Range

pub data Code : Type 0 where
  ok err : Code

abbrev pub update {ℓ} : {A : Type ℓ} → (ℕ → A) → ℕ → A → ℕ → A
update f i v j = if j == i then v else f j

abbrev pub widen : Range → ℕ → ℕ → Range
widen r sx ex = record {
  first = if ltb sx r.first then sx else r.first;
  last = if ltb r.last ex then ex else r.last;
}

abbrev pub mark : Marks → Bool → Marks
mark m force = record { dirty = true; forced = force || m.forced }

-- A line that the window does not have is read outside its array.
unfoldable pub touchline_force : Held → ℕ → ℕ → ℕ → Bool → Option Held
touchline_force h y sx ex force =
    let w = h.win in
    if ltb y w.maxy
    then some (record {
      win = record w { marks = update w.marks y (mark (w.marks y) force) };
      ranges =
          update h.ranges (w.cell y) (widen (h.ranges (w.cell y)) (sx + w.ch_off) (ex + w.ch_off));
    })
    else none

-- __touchline of the library's other files.
unfoldable pub touch_columns : Held → ℕ → ℕ → ℕ → Option Held
touch_columns h y sx ex = touchline_force h y sx ex false

-- `n` lines from `y` on.
unfoldable pub touch_lines : Bool → ℕ → ℕ → Held → Option Held
touch_lines force zero y h = some h
touch_lines force (suc n) y h = elim (touchline_force h y 0 (h.win.maxx - 1) force) [
  | none ↦ none
  | some h ↦ touch_lines force n (y + 1) h
]

abbrev pub inside : Window → ℕ → Bool
inside w c = leb w.ch_off c && ltb c (w.maxx + w.ch_off)

-- A line is no longer changed; a part of the range outside the window stays.
abbrev pub untouched : Held → ℕ → Held
untouched h y =
    let w = h.win in
    let r = h.ranges (w.cell y) in
    record {
      win = record w { marks = update w.marks y (record { dirty = false; forced = false }) };
      ranges = update h.ranges (w.cell y) (record {
        first = if inside w r.first then w.maxx + w.ch_off else r.first;
        last = if inside w r.last then w.ch_off else r.last;
      });
    }

unfoldable pub untouch_line : Held → ℕ → Option Held
untouch_line h y = if ltb y h.win.maxy then some (untouched h y) else none

unfoldable pub untouch_lines : ℕ → ℕ → Held → Option Held
untouch_lines zero y h = some h
untouch_lines (suc n) y h = elim (untouch_line h y) [
  | none ↦ none
  | some h ↦ untouch_lines n (y + 1) h
]

-- The lines that a call is about, if it is about any.
unfoldable pub clipped : Window → ℤ → ℤ → Option (ℕ × ℕ)
clipped w (pos line) (pos n) =
    if leb w.maxy line
    then none
    else some (line, if ltb (w.maxy - line) n then w.maxy - line else n)
clipped w line n = none

unfoldable pub wtouchln : Held → ℤ → ℤ → ℤ → Option (Code × Held)
wtouchln h line n changed = elim (clipped h.win line n) [
  | none ↦ some (err, h)
  | some (y, n) ↦
      let result = if is_one changed then touch_lines true n y h else untouch_lines n y h in
      elim result [ none ↦ none | some h ↦ some (ok, h) ]
]
  where
    is_one : ℤ → Bool
    is_one (pos n) = n == 1
    is_one (negsuc n) = false

-- touchline and wredrawln.
unfoldable pub touchline : Held → ℤ → ℤ → Option (Code × Held)
touchline h start count = wtouchln h start count (pos 1)

-- touchwin and redrawwin.
unfoldable pub touchwin : Held → Option (Code × Held)
touchwin h = wtouchln h (pos 0) (pos h.win.maxy) (pos 1)

unfoldable pub untouchwin : Held → Option (Code × Held)
untouchwin h = wtouchln h (pos 0) (pos h.win.maxy) (pos 0)

-- A line behind the last but one passes the test; the array has no such line.
unfoldable pub is_linetouched : Window → ℕ → Option Bool
is_linetouched w line =
    if ltb w.maxy line
    then some false
    else if ltb line w.maxy
    then some (w.marks line).dirty
    else none

unfoldable pub any_touched : Window → ℕ → ℕ → Option Bool
any_touched w zero y = some false
any_touched w (suc n) y = elim (is_linetouched w y) [
  | none ↦ none
  | some true ↦ some true
  | some false ↦ any_touched w n (y + 1)
]

unfoldable pub is_wintouched : Window → Option Bool
is_wintouched w = any_touched w w.maxy 0

-- __touchwin.
unfoldable pub touch_all : Held → Option Held
touch_all h = touch_lines false h.win.maxy 0 h

-- A window and those it is a part of, from the inside out, after __touchwin of each.
unfoldable pub wsyncup : List Window → (ℕ → Range) → Option (List Window × (ℕ → Range))
wsyncup [] ranges = some ([], ranges)
wsyncup (w ∷ ws) ranges = elim (touch_all (record { win = w; ranges = ranges })) [
  | none ↦ none
  | some h ↦ elim (wsyncup ws h.ranges) [
    | none ↦ none
    | some (ws, ranges) ↦ some (h.win ∷ ws, ranges)
  ]
]
