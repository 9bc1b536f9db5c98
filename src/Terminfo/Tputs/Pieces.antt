-- ===== src/Terminfo/Tputs/Pieces.antt =====
-- The strings that lib/libterminfo/tputs.c is given, in their pieces, and what it sends of them.
use netbsd_curses.Base.{
  ℕ, zero, suc, ◌≤◌, ◌<◌, ◌≡◌, refl, ap, ◌∙◌, ◌==◌, ◌||◌, if◌then◌else◌, Bool, true, false, Option,
  none, some, List, [], ◌∷◌, ◌++◌, length, length-append, arith,
}
use netbsd_curses.Base.Int.{ℤ}
use netbsd_curses.Terminfo.Tputs.{
  is_digit, calcdelay, outputdelay, contains, delay_at, behind, send, puts, Sender, needs_delay,
  pad_of, ti_puts,
}
use netbsd_curses.Terminfo.Tputs.Delays.{
  Delay, Mark, no_mark, star, slash, and_digit, AllDigits, IsDelay, write_tenths, write_mark, write,
  amount, mandatory, Stops, calcdelay-write,
}
use netbsd_curses.Terminfo.Tputs.Sends.{padding}
use mathlib.Core.Option
use mathlib.Core.List.{append-nil}

pub data Piece : Type 0 where
  plain : ℕ → Piece
  delay : Delay → Piece

abbrev pub emit : List Piece → List ℕ
emit [] = []
emit (plain c ∷ ps) = c ∷ emit ps
emit (delay d ∷ ps) = b'$' ∷ b'<' ∷ write d (b'>' ∷ emit ps)

-- A delay in a string starts with a digit or the point.
abbrev pub Begins : List ℕ → Option (List ℕ) → Type 0
Begins [] none = 1 < 0
Begins [] (some ds) = 0 < 1
Begins (c ∷ ds) o = 0 < 1

pub data AllPieces : List Piece → Type 0 where
  no_piece : AllPieces []
  and_plain :
      (c : ℕ) (ps : List Piece) → (c == b'$') ≡ false → AllPieces ps → AllPieces (plain c ∷ ps)
  and_delay :
      (d : Delay) (ps : List Piece)
      → IsDelay d
      → Begins d.whole d.tenths
      → AllPieces ps
      → AllPieces (delay d ∷ ps)

contains_behind : (g : ℕ) (xs ys : List ℕ) → contains g ys ≡ true → contains g (xs ++ ys) ≡ true
unfolding contains
contains_behind g [] ys h = h
contains_behind g (x ∷ xs) ys h =
    or_true (x == g) (contains g (xs ++ ys)) (contains_behind g xs ys h)
  where
    or_true : (a b : Bool) → b ≡ true → (a || b) ≡ true
    or_true true b h = refl
    or_true false b h = h

contains_mark : (m : Mark) (rest : List ℕ) → contains b'>' (write_mark m (b'>' ∷ rest)) ≡ true
unfolding contains
contains_mark no_mark rest = refl
contains_mark star rest = refl
contains_mark slash rest = refl

contains_tenths :
    (o : Option (List ℕ)) (m : Mark) (rest : List ℕ)
    → contains b'>' (write_tenths o (write_mark m (b'>' ∷ rest))) ≡ true
contains_tenths none m rest = contains_mark m rest
contains_tenths (some ds) m rest =
    contains_behind b'>' (b'.' ∷ ds) (write_mark m (b'>' ∷ rest)) (contains_mark m rest)

-- Written between `$<` and `>`, a delay is found.
delay_at-write :
    (w : List ℕ) (o : Option (List ℕ)) (m : Mark) (rest : List ℕ)
    → AllDigits w
    → Begins w o
    → delay_at (b'$' ∷ b'<' ∷ (w ++ write_tenths o (write_mark m (b'>' ∷ rest))))
      ≡ some (w ++ write_tenths o (write_mark m (b'>' ∷ rest)))
unfolding delay_at is_digit
delay_at-write [] none m rest h b = ground arith
delay_at-write [] (some ds) m rest h b =
    rw (contains_behind b'>' ds (write_mark m (b'>' ∷ rest)) (contains_mark m rest))
delay_at-write (c ∷ w) o m rest (and_digit _ _ e h) b = rw (
  e,
  contains_behind b'>' w (write_tenths o (write_mark m (b'>' ∷ rest))) (contains_tenths o m rest),
)

delay_at-plain : (c : ℕ) (str : List ℕ) → (c == b'$') ≡ false → delay_at (c ∷ str) ≡ none
unfolding delay_at
delay_at-plain c [] h = refl
delay_at-plain c (d ∷ []) h = refl
delay_at-plain c (d ∷ e ∷ str) h = rw h

tenths_longer :
    (o : Option (List ℕ)) (m : Mark) (rest : List ℕ)
    → length rest ≤ length (write_tenths o (write_mark m rest))
tenths_longer none no_mark rest = omega arith
tenths_longer none star rest = omega arith
tenths_longer none slash rest = omega arith
tenths_longer (some ds) no_mark rest = omega (arith, length-append ds rest)
tenths_longer (some ds) star rest = omega (arith, length-append ds (b'*' ∷ rest))
tenths_longer (some ds) slash rest = omega (arith, length-append ds (b'/' ∷ rest))

write_longer : (d : Delay) (rest : List ℕ) → length rest < length (write d (b'>' ∷ rest))
write_longer d rest = omega (
  arith,
  length-append d.whole (write_tenths d.tenths (write_mark d.mark (b'>' ∷ rest))),
  tenths_longer d.tenths d.mark (b'>' ∷ rest),
)

module _ (dodelay : Bool) (os : ℤ) (pc affcnt : ℕ) where
  -- The padding of a delay.
  abbrev pub padded : Delay → List ℕ
  padded d = if dodelay || mandatory d.mark then outputdelay (amount affcnt d) os pc else []

  abbrev pub render : List Piece → List ℕ
  render [] = []
  render (plain c ∷ ps) = c ∷ render ps
  render (delay d ∷ ps) = padded d ++ render ps

  send-render :
      (fuel : ℕ) (ps : List Piece)
      → AllPieces ps
      → length (emit ps) ≤ fuel
      → send dodelay os pc affcnt fuel (emit ps) ≡ some (render ps)
  unfolding send behind is_digit
  send-render fuel [] h l = refl
  send-render zero (plain c ∷ ps) h l = ground arith
  send-render zero (delay d ∷ ps) h l = ground arith
  send-render (suc fuel) (plain c ∷ ps) (and_plain _ _ e h) l =
      ap
        (λ (o : Option (List ℕ)). elim o as (λ _. Option (List ℕ)) [
          | none ↦ Option.map (λ out. c ∷ out) (send dodelay os pc affcnt fuel (emit ps))
          | some spec ↦
              let t = calcdelay affcnt spec in
              Option.map (λ out. padding dodelay os pc affcnt t ++ out)
                (send dodelay os pc affcnt fuel (behind (t.2)))
        ])
        (delay_at-plain c (emit ps) e)
      ∙ ap (Option.map (λ out. c ∷ out)) (send-render fuel ps h (omega (arith, l)))
  send-render (suc fuel) (delay d ∷ ps) (and_delay _ _ w b h) l =
      ap
        (λ (o : Option (List ℕ)). elim o as (λ _. Option (List ℕ)) [
          | none ↦
              Option.map (λ out. b'$' ∷ out)
                (send dodelay os pc affcnt fuel (b'<' ∷ write d (b'>' ∷ emit ps)))
          | some spec ↦
              let t = calcdelay affcnt spec in
              Option.map (λ out. padding dodelay os pc affcnt t ++ out)
                (send dodelay os pc affcnt fuel (behind (t.2)))
        ])
        (delay_at-write d.whole d.tenths d.mark (emit ps) (w.0) b)
      ∙ ap
          (λ (t : ℕ × Bool × List ℕ).
            Option.map (λ out. padding dodelay os pc affcnt t ++ out)
              (send dodelay os pc affcnt fuel (behind (t.2))))
          (calcdelay-write affcnt d (b'>' ∷ emit ps) w (refl, refl, refl, refl))
      ∙ ap (Option.map (λ out. padded d ++ out))
          (send-render fuel ps h (omega (arith, l, write_longer d (emit ps))))

  -- Of a string that is a delay, not run on by what follows, and pieces, each a character but `$`
  -- or a delay between `$<` and `>`, the characters are sent, each embedded delay as padding in
  -- its place if delays are asked for or it is mandatory, and the delay in front as padding at the
  -- end if delays are asked for.
  pub puts-render :
      (d : Delay) (ps : List Piece)
      → IsDelay d
      → Stops (emit ps)
      → AllPieces ps
      → puts dodelay os pc (write d (emit ps)) affcnt
        ≡ some (render ps ++ (if dodelay then outputdelay (amount affcnt d) os pc else []))
  unfolding puts
  puts-render d ps w s h =
      ap
        (λ (t : ℕ × Bool × List ℕ).
          Option.map (λ out. out ++ (if dodelay then outputdelay (t.0) os pc else []))
            (send dodelay os pc affcnt (length (t.2)) (t.2)))
        (calcdelay-write affcnt d (emit ps) w s)
      ∙ ap
          (Option.map (λ out. out ++ (if dodelay then outputdelay (amount affcnt d) os pc else [])))
          (send-render (length (emit ps)) ps h (omega arith))

-- A terminal with flow control is sent no padding but the mandatory: what ti_puts sends of pieces
-- without a mandatory delay is their plain characters.
abbrev pub characters : List Piece → List ℕ
characters [] = []
characters (plain c ∷ ps) = c ∷ characters ps
characters (delay d ∷ ps) = characters ps

pub data NoneMandatory : List Piece → Type 0 where
  end_pieces : NoneMandatory []
  plain_piece : (c : ℕ) (ps : List Piece) → NoneMandatory ps → NoneMandatory (plain c ∷ ps)
  optional_piece :
      (d : Delay) (ps : List Piece)
      → mandatory d.mark ≡ false
      → NoneMandatory ps
      → NoneMandatory (delay d ∷ ps)

render-characters :
    (os : ℤ) (pc affcnt : ℕ) (ps : List Piece)
    → NoneMandatory ps
    → render false os pc affcnt ps ≡ characters ps
render-characters os pc affcnt [] h = refl
render-characters os pc affcnt (plain c ∷ ps) (plain_piece _ _ h) =
    ap (λ out. c ∷ out) (render-characters os pc affcnt ps h)
render-characters os pc affcnt (delay d ∷ ps) (optional_piece _ _ e h) =
    ap
      (λ b. (if b then outputdelay (amount affcnt d) os pc else []) ++ render false os pc affcnt ps)
      e
    ∙ render-characters os pc affcnt ps h

-- To a terminal that needs no delays, of a string of such pieces without a mandatory delay,
-- ti_puts sends just the characters.
pub ti_puts-characters :
    (t : Sender) (affcnt : ℕ) (d : Delay) (ps : List Piece)
    → needs_delay t ≡ false
    → IsDelay d
    → Stops (emit ps)
    → AllPieces ps
    → NoneMandatory ps
    → ti_puts t (some (write d (emit ps))) affcnt ≡ some (characters ps)
unfolding ti_puts
ti_puts-characters t affcnt d ps e w s h n =
    ap (λ b. puts b t.ospeed (pad_of t.pad_char) (write d (emit ps)) affcnt) e
    ∙ puts-render false t.ospeed (pad_of t.pad_char) affcnt d ps w s h
    ∙ ap some (
        append-nil (render false t.ospeed (pad_of t.pad_char) affcnt ps)
        ∙ render-characters t.ospeed (pad_of t.pad_char) affcnt ps n)
