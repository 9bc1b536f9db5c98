-- ===== src/Curses/Touch/Marked.antt =====
-- What is marked once lib/libcurses/touchwin.c has touched lines of a window.
use netbsd_curses.Base.{
  ℕ, zero, suc, ◌+◌, ◌-◌, ◌≤◌, ◌<◌, ◌≡◌, refl, sym, ap, ◌∙◌, subst, ltb, lt→ltb, ltb_ge, leb, ◌==◌,
  if_cases, Bool, true, false, Bool-cases, inl, inr, Option, none, some, List, [], ◌∷◌, arith,
}
use netbsd_curses.Base.Int.{pos}
use netbsd_curses.Curses.Touch.{
  Range, Marks, Window, Held, Code, ok, err, update, widen, mark, touchline_force, touch_lines,
  clipped, wtouchln, touch_all, wsyncup,
}

-- A range takes in the columns of another.
pub record Covers (r : Range) (sx ex : ℕ) : Type 0 where
  pub from_left : r.first ≤ sx
  pub to_right : ex ≤ r.last

-- Line `y` is marked as changed, over the whole width of the window.
pub record Touched (h : Held) (y : ℕ) : Type 0 where
  pub is_dirty : (h.win.marks y).dirty ≡ true
  pub covered : Covers (h.ranges (h.win.cell y)) h.win.ch_off (h.win.maxx - 1 + h.win.ch_off)

-- A state after touches: the window is in its place, what was changed is, and ranges only widen.
pub record Grows (h h' : Held) : Type 0 where
  pub same_maxy : h'.win.maxy ≡ h.win.maxy
  pub same_maxx : h'.win.maxx ≡ h.win.maxx
  pub same_off : h'.win.ch_off ≡ h.win.ch_off
  pub same_cell : h'.win.cell ≡ h.win.cell
  pub still_dirty : (y : ℕ) → (h.win.marks y).dirty ≡ true → (h'.win.marks y).dirty ≡ true
  pub wider : (a : ℕ) → Covers (h'.ranges a) (h.ranges a).first (h.ranges a).last

Grows-refl : (h : Held) → Grows h h
Grows-refl h = record {
  same_maxy = refl;
  same_maxx = refl;
  same_off = refl;
  same_cell = refl;
  still_dirty = λ y e. e;
  wider = λ a. record { from_left = omega arith; to_right = omega arith };
}

Grows-trans : (h h' h'' : Held) → Grows h h' → Grows h' h'' → Grows h h''
Grows-trans h h' h'' a b = record {
  same_maxy = b.same_maxy ∙ a.same_maxy;
  same_maxx = b.same_maxx ∙ a.same_maxx;
  same_off = b.same_off ∙ a.same_off;
  same_cell = b.same_cell ∙ a.same_cell;
  still_dirty = λ y e. b.still_dirty y (a.still_dirty y e);
  wider = λ c. record {
    from_left = omega (arith, (b.wider c).from_left, (a.wider c).from_left);
    to_right = omega (arith, (b.wider c).to_right, (a.wider c).to_right);
  };
}

-- A touched line stays touched.
Touched-Grows : (h h' : Held) (y : ℕ) → Grows h h' → Touched h y → Touched h' y
Touched-Grows h h' y g t =
    let w =
      subst
        (λ c.
          Covers (h'.ranges (c y)) (h.ranges (h.win.cell y)).first (h.ranges (h.win.cell y)).last)
        (sym g.same_cell) (g.wider (h.win.cell y)) in
    record {
      is_dirty = g.still_dirty y t.is_dirty;
      covered = record {
        from_left = omega (arith, w.from_left, t.covered.from_left, g.same_off);
        to_right = omega (arith, w.to_right, t.covered.to_right, g.same_off, g.same_maxx);
      };
    }

widen-Covers :
    (r : Range) (sx ex : ℕ) → Covers (widen r sx ex) r.first r.last × Covers (widen r sx ex) sx ex
widen-Covers r sx ex = (
  record { from_left = ground arith; to_right = ground arith },
  record { from_left = ground arith; to_right = ground arith },
)

pub update-here {ℓ} : {A : Type ℓ} (f : ℕ → A) (i : ℕ) (v : A) → update f i v i ≡ v
update-here f i v = let e : (i == i) ≡ true = ground arith in rw e

-- One line: it is touched then, and nothing else is less so.
touchline-Touched :
    (h : Held) (y : ℕ) (force : Bool)
    → y < h.win.maxy
    → (h' : Held) × (touchline_force h y 0 (h.win.maxx - 1) force ≡ some h')
      × Grows h h'
      × Touched h' y
unfolding touchline_force
touchline-Touched h y force l =
    let w = h.win in
    let r = widen (h.ranges (w.cell y)) (0 + w.ch_off) (w.maxx - 1 + w.ch_off) in
    let c = widen-Covers (h.ranges (w.cell y)) (0 + w.ch_off) (w.maxx - 1 + w.ch_off) in
    let h' : Held = record {
      win = record w { marks = update w.marks y (mark (w.marks y) force) };
      ranges = update h.ranges (w.cell y) r;
    } in
    (
      h',
      rw (lt→ltb y w.maxy l),
      record {
        same_maxy = refl;
        same_maxx = refl;
        same_off = refl;
        same_cell = refl;
        still_dirty = λ z e.
            if_cases (λ (m : Marks). m.dirty ≡ true) (z == y) (mark (w.marks y) force) (w.marks z)
              (λ _. refl) (λ _. e);
        wider = λ a.
            if_cases (λ (q : Range). Covers q (h.ranges a).first (h.ranges a).last) (a == w.cell y)
              r (h.ranges a)
              (λ e.
                let same : w.cell y ≡ a = ground arith in
                subst (λ b. Covers r (h.ranges b).first (h.ranges b).last) same (c.0))
              (λ _. record { from_left = omega arith; to_right = omega arith });
      },
      record {
        is_dirty = ap (λ (m : Marks). m.dirty) (update-here w.marks y (mark (w.marks y) force));
        covered =
            subst (λ (q : Range). Covers q w.ch_off (w.maxx - 1 + w.ch_off))
              (sym (update-here h.ranges (w.cell y) r))
              (record { from_left = omega (arith, (c.1).from_left); to_right = (c.1).to_right });
      },
    )

-- All the lines of a loop.
touch_lines-Touched :
    (force : Bool) (n y : ℕ) (h : Held)
    → y + n ≤ h.win.maxy
    → (h' : Held) × (touch_lines force n y h ≡ some h')
      × Grows h h'
      × ((z : ℕ) → y ≤ z → z < y + n → Touched h' z)
unfolding touch_lines
touch_lines-Touched force zero y h l = (h, refl, Grows-refl h, λ z a b. ground arith)
touch_lines-Touched force (suc n) y h l =
    let (h1, e1, g1, t1) = touchline-Touched h y force (omega (arith, l)) in
    let (h2, e2, g2, t2) =
      touch_lines-Touched force n (y + 1) h1 (omega (arith, l, g1.same_maxy)) in
    (
      h2,
      ap
            (λ (o : Option Held). elim o as (λ _. Option Held) [
              | none ↦ none
              | some h ↦ touch_lines force n (y + 1) h
            ])
            e1
          ∙ e2,
      Grows-trans h h1 h2 g1 g2,
      λ z a b. elim (Bool-cases (z == y)) [
        | inl e ↦
            let same : y ≡ z = ground arith in
            subst (λ z. Touched h2 z) same (Touched-Grows h1 h2 y g2 t1)
        | inr e ↦ t2 z (ground arith) (omega (arith, b))
      ],
    )

pub clipped-lines :
    (w : Window) (line n : ℕ)
    → line < w.maxy
    → (m : ℕ) × (clipped w (pos line) (pos n) ≡ some (line, m))
      × (line + m ≤ w.maxy)
      × ((z : ℕ) → z < line + n → z < w.maxy → z < line + m)
unfolding clipped
clipped-lines w line n l =
    let no : leb w.maxy line ≡ false = ground arith in
    elim (Bool-cases (ltb (w.maxy - line) n)) [
      | inl e ↦ (w.maxy - line, rw (no, e), omega arith, λ z a b. omega arith)
      | inr e ↦ (n, rw (no, e), omega (arith, ltb_ge (w.maxy - line) n e), λ z a b. a)
    ]

-- Touching lines of a window from one that it has succeeds; each of those lines that the window
-- has is then marked over the whole width of the window, what was marked before, in this window or in
-- another that shares a line with it, still is, and no range is narrower.
pub wtouchln-Touched :
    (h : Held) (line n : ℕ)
    → line < h.win.maxy
    → (h' : Held) × (wtouchln h (pos line) (pos n) (pos 1) ≡ some (ok, h'))
      × Grows h h'
      × ((z : ℕ) → line ≤ z → z < line + n → z < h.win.maxy → Touched h' z)
unfolding wtouchln
wtouchln-Touched h line n l =
    let (m, e, fits, all) = clipped-lines h.win line n l in
    let (h', t, g, marked) = touch_lines-Touched true m line h fits in
    (
      h',
      ap
            (λ o. elim o as (λ _. Option (Code × Held)) [
              | none ↦ some (err, h)
              | some (y, n) ↦ elim (touch_lines true n y h) [ none ↦ none | some h ↦ some (ok, h) ]
            ])
            e
          ∙ ap
              (λ (o : Option Held). elim o as (λ _. Option (Code × Held)) [
                | none ↦ none
                | some h ↦ some (ok, h)
              ])
              t,
      g,
      λ z a b c. marked z a (all z b c),
    )

-- The same window, with no fewer lines marked.
pub record SameWindow (w w' : Window) : Type 0 where
  pub height : w'.maxy ≡ w.maxy
  pub width : w'.maxx ≡ w.maxx
  pub offset : w'.ch_off ≡ w.ch_off
  pub cells : w'.cell ≡ w.cell
  pub marked : (y : ℕ) → (w.marks y).dirty ≡ true → (w'.marks y).dirty ≡ true

Grows-SameWindow : (h h' : Held) → Grows h h' → SameWindow h.win h'.win
Grows-SameWindow h h' g = record {
  height = g.same_maxy;
  width = g.same_maxx;
  offset = g.same_off;
  cells = g.same_cell;
  marked = g.still_dirty;
}

-- The windows of two chains are the same, with every line of each marked in the second.
pub data AllTouched (ranges : ℕ → Range) : List Window → List Window → Type 0 where
  no_window : AllTouched ranges [] []
  and_window :
      (w w' : Window) (ws ws' : List Window)
      → SameWindow w w'
      → ((y : ℕ) → y < w.maxy → Touched (record { win = w'; ranges = ranges }) y)
      → AllTouched ranges ws ws'
      → AllTouched ranges (w ∷ ws) (w' ∷ ws')

abbrev pub Widens : (ℕ → Range) → (ℕ → Range) → Type 0
Widens r r' = (a : ℕ) → Covers (r' a) (r a).first (r a).last

-- Ranges that only widen leave lines touched.
still_Touched :
    (w : Window) (r r' : ℕ → Range) (y : ℕ)
    → Widens r r'
    → Touched (record { win = w; ranges = r }) y
    → Touched (record { win = w; ranges = r' }) y
still_Touched w r r' y g t =
    Touched-Grows (record { win = w; ranges = r }) (record { win = w; ranges = r' }) y
      (record {
        same_maxy = refl;
        same_maxx = refl;
        same_off = refl;
        same_cell = refl;
        still_dirty = λ z e. e;
        wider = g;
      })
      t

-- Synchronising a window with those it is a part of ends with the same windows, in the same order,
-- every line of each of them marked over that window's whole width, what was marked before still
-- marked, and no range narrower than before.
pub wsyncup-AllTouched :
    (ws : List Window) (r : ℕ → Range)
    → (ws' : List Window) × (r' : ℕ → Range) × (wsyncup ws r ≡ some (ws', r'))
      × Widens r r'
      × AllTouched r' ws ws'
unfolding wsyncup touch_all
wsyncup-AllTouched [] r =
    ([], r, refl, λ a. record { from_left = omega arith; to_right = omega arith }, no_window)
wsyncup-AllTouched (w ∷ ws) r =
    let (h, e, g, marked) =
      touch_lines-Touched false w.maxy 0 (record { win = w; ranges = r }) (omega arith) in
    let (ws', r', e', g', all) = wsyncup-AllTouched ws h.ranges in
    (
      h.win ∷ ws',
      r',
      ap
            (λ (o : Option Held). elim o as (λ _. Option (List Window × (ℕ → Range))) [
              | none ↦ none
              | some h ↦ elim (wsyncup ws h.ranges) [
                | none ↦ none
                | some (ws, ranges) ↦ some (h.win ∷ ws, ranges)
              ]
            ])
            e
          ∙ ap
              (λ (o : Option (List Window × (ℕ → Range))).
                elim o as (λ _. Option (List Window × (ℕ → Range))) [
                  | none ↦ none
                  | some (ws, ranges) ↦ some (h.win ∷ ws, ranges)
                ])
              e',
      λ a. record {
        from_left = omega (arith, (g.wider a).from_left, (g' a).from_left);
        to_right = omega (arith, (g.wider a).to_right, (g' a).to_right);
      },
      and_window w h.win ws ws' (Grows-SameWindow (record { win = w; ranges = r }) h g)
          (λ y l. still_Touched h.win h.ranges r' y g' (marked y (omega arith) (omega (arith, l))))
          all,
    )
