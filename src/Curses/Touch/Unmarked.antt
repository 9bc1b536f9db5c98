-- ===== src/Curses/Touch/Unmarked.antt =====
-- What lib/libcurses/touchwin.c says of a window after all of it is touched or untouched.
use netbsd_curses.Base.{
  ℕ, zero, suc, ◌+◌, ◌≤◌, ◌<◌, ◌≡◌, refl, ap, ◌∙◌, subst, ltb, lt→ltb, ◌==◌, if_cases, Bool, true,
  false, Bool-cases, inl, inr, Option, none, some, arith,
}
use netbsd_curses.Curses.Touch.{
  Marks, Window, Held, Code, ok, err, untouched, untouch_line, untouch_lines, wtouchln, touchwin,
  untouchwin, is_linetouched, any_touched, is_wintouched,
}
use netbsd_curses.Curses.Touch.Marked.{clipped-lines, update-here, wtouchln-Touched}

-- After a line is unmarked it is not dirty, and no line is that was not.
record Clears (h h' : Held) : Type 0 where
  same_maxy : h'.win.maxy ≡ h.win.maxy
  still_clean : (z : ℕ) → (h.win.marks z).dirty ≡ false → (h'.win.marks z).dirty ≡ false

untouch_line-Clears :
    (h : Held) (y : ℕ)
    → y < h.win.maxy
    → (h' : Held) × (untouch_line h y ≡ some h') × Clears h h' × ((h'.win.marks y).dirty ≡ false)
unfolding untouch_line
untouch_line-Clears h y l =
    let clean : Marks = record { dirty = false; forced = false } in
    (
      untouched h y,
      rw (lt→ltb y h.win.maxy l),
      record {
        same_maxy = refl;
        still_clean = λ z e.
            if_cases (λ (m : Marks). m.dirty ≡ false) (z == y) clean (h.win.marks z) (λ _. refl)
              (λ _. e);
      },
      ap (λ (m : Marks). m.dirty) (update-here h.win.marks y clean),
    )

untouch_lines-Clears :
    (n y : ℕ) (h : Held)
    → y + n ≤ h.win.maxy
    → (h' : Held) × (untouch_lines n y h ≡ some h')
      × Clears h h'
      × ((z : ℕ) → y ≤ z → z < y + n → (h'.win.marks z).dirty ≡ false)
unfolding untouch_lines
untouch_lines-Clears zero y h l =
    (h, refl, record { same_maxy = refl; still_clean = λ z e. e }, λ z a b. ground arith)
untouch_lines-Clears (suc n) y h l =
    let (h1, e1, g1, t1) = untouch_line-Clears h y (omega (arith, l)) in
    let (h2, e2, g2, t2) = untouch_lines-Clears n (y + 1) h1 (omega (arith, l, g1.same_maxy)) in
    (
      h2,
      ap
            (λ (o : Option Held). elim o as (λ _. Option Held) [
              | none ↦ none
              | some h ↦ untouch_lines n (y + 1) h
            ])
            e1
          ∙ e2,
      record {
        same_maxy = g2.same_maxy ∙ g1.same_maxy;
        still_clean = λ z e. g2.still_clean z (g1.still_clean z e);
      },
      λ z a b. elim (Bool-cases (z == y)) [
        | inl e ↦
            let same : y ≡ z = ground arith in
            subst (λ z. (h2.win.marks z).dirty ≡ false) same (g2.still_clean y t1)
        | inr e ↦ t2 z (ground arith) (omega (arith, b))
      ],
    )

is_linetouched-dirty :
    (w : Window) (y : ℕ) → y < w.maxy → is_linetouched w y ≡ some (w.marks y).dirty
unfolding is_linetouched
is_linetouched-dirty w y l =
    let in_window : ltb w.maxy y ≡ false = ground arith in rw (in_window, lt→ltb y w.maxy l)

any_touched_none :
    (w : Window) (n y : ℕ)
    → y + n ≤ w.maxy
    → ((z : ℕ) → y ≤ z → z < y + n → (w.marks z).dirty ≡ false)
    → any_touched w n y ≡ some false
unfolding any_touched
any_touched_none w zero y l clean = refl
any_touched_none w (suc n) y l clean =
    ap
      (λ (o : Option Bool). elim o as (λ _. Option Bool) [
        | none ↦ none
        | some true ↦ some true
        | some false ↦ any_touched w n (y + 1)
      ])
      (is_linetouched-dirty w y (omega (arith, l)) ∙ ap some (clean y (omega arith) (omega arith)))
    ∙ any_touched_none w n (y + 1) (omega (arith, l))
        (λ z a b. clean z (omega (arith, a)) (omega (arith, b)))

-- A window with lines is untouched without an error, and is then not touched.
pub untouchwin-is_wintouched :
    (h : Held)
    → 0 < h.win.maxy
    → (h' : Held) × (untouchwin h ≡ some (ok, h')) × (is_wintouched h'.win ≡ some false)
unfolding untouchwin wtouchln is_wintouched
untouchwin-is_wintouched h l =
    let (m, e, fits, all) = clipped-lines h.win 0 h.win.maxy l in
    let (h', t, g, clean) = untouch_lines-Clears m 0 h fits in
    (
      h',
      ap
            (λ o. elim o as (λ _. Option (Code × Held)) [
              | none ↦ some (err, h)
              | some (y, n) ↦ elim (untouch_lines n y h) [ none ↦ none | some h ↦ some (ok, h) ]
            ])
            e
          ∙ ap
              (λ (o : Option Held). elim o as (λ _. Option (Code × Held)) [
                | none ↦ none
                | some h ↦ some (ok, h)
              ])
              t,
      any_touched_none h'.win h'.win.maxy 0 (omega arith) (λ z a b.
          clean z (omega arith)
            (all z (omega (arith, b, g.same_maxy)) (omega (arith, b, g.same_maxy)))),
    )

first_touched :
    (w : Window) (n : ℕ)
    → 0 < n
    → n ≤ w.maxy
    → (w.marks 0).dirty ≡ true
    → any_touched w n 0 ≡ some true
unfolding any_touched
first_touched w zero a b e = ground arith
first_touched w (suc n) a b e =
    ap
      (λ (o : Option Bool). elim o as (λ _. Option Bool) [
        | none ↦ none
        | some true ↦ some true
        | some false ↦ any_touched w n (0 + 1)
      ])
      (is_linetouched-dirty w 0 (omega (arith, b)) ∙ ap some e)

-- A window with lines is touched without an error, and is then touched.
pub touchwin-is_wintouched :
    (h : Held)
    → 0 < h.win.maxy
    → (h' : Held) × (touchwin h ≡ some (ok, h')) × (is_wintouched h'.win ≡ some true)
unfolding touchwin is_wintouched
touchwin-is_wintouched h l =
    let (h', e, g, marked) = wtouchln-Touched h 0 h.win.maxy l in
    let t = marked 0 (omega arith) (omega (arith, l)) l in
    (
      h',
      e,
      first_touched h'.win h'.win.maxy (omega (arith, l, g.same_maxy)) (omega arith) t.is_dirty,
    )
