-- ===== src/Terminfo/Tparm/Template/Expands.antt =====
-- The whole loop of _ti_tiparm in lib/libterminfo/tparm.c on a template, with the fuel it is given.
use netbsd_curses.Base.{
  ℕ, zero, suc, ◌+◌, ◌≤◌, ◌<◌, ◌≡◌, sym, ◌==◌, if◌then◌else◌, Bool, true, false, List, [], ◌∷◌,
  ◌++◌, length, arith, if_cases, subst,
}
use netbsd_curses.Terminfo.Tparm.{Value}
use netbsd_curses.Terminfo.Tparm.Machine.{Libc, State, Turn, go, null, fault}
use netbsd_curses.Terminfo.Tparm.Run.{turn, run, Result, expanded, failed, faulted}
use netbsd_curses.Terminfo.Tparm.Expr.{
  Expr, char, param, decimal, operator, negation, complement, code, emit, emit_digits, rounds,
  value,
}
use netbsd_curses.Terminfo.Tparm.Template.{
  Template, end, text, print_d, print_c, choose, emit_all, rounds_all, render, IsTemplate,
}
use netbsd_curses.Terminfo.Tparm.Template.Writes.{IsRoomy}
use netbsd_curses.Terminfo.Tparm.Template.Render.{run-all}

length-emit_digits : (ds rest : List ℕ) → length rest < length (emit_digits ds rest)
length-emit_digits [] rest = omega arith
length-emit_digits (d ∷ ds) rest = omega (arith, length-emit_digits ds rest)

-- An expression takes no more rounds than it has characters.
rounds-length :
    (e : Expr) (f : ℕ) (rest : List ℕ) → rounds e f + length rest ≤ f + length (emit e rest)
rounds-length (char c) f rest = omega arith
rounds-length (param i) f rest = omega arith
rounds-length (decimal ds) f rest = omega (arith, length-emit_digits ds rest)
rounds-length (operator op a b) f rest =
    let last = b'%' ∷ code op ∷ rest in
    omega (arith, rounds-length a (rounds b (suc f)) (emit b last), rounds-length b (suc f) last)
rounds-length (negation a) f rest = omega (arith, rounds-length a (suc f) (b'%' ∷ b'!' ∷ rest))
rounds-length (complement a) f rest = omega (arith, rounds-length a (suc f) (b'%' ∷ b'~' ∷ rest))

length-emit : (e : Expr) (rest : List ℕ) → length rest ≤ length (emit e rest)
length-emit (char c) rest = omega arith
length-emit (param i) rest = omega arith
length-emit (decimal ds) rest = omega (arith, length-emit_digits ds rest)
length-emit (operator op a b) rest =
    let last = b'%' ∷ code op ∷ rest in
    omega (arith, length-emit a (emit b last), length-emit b last)
length-emit (negation a) rest = omega (arith, length-emit a (b'%' ∷ b'!' ∷ rest))
length-emit (complement a) rest = omega (arith, length-emit a (b'%' ∷ b'~' ∷ rest))

length-emit_all : (t : Template) (rest : List ℕ) → length rest ≤ length (emit_all t rest)
length-emit_all end rest = omega arith
length-emit_all (text c t) rest =
    if_cases (λ str. length rest ≤ length str) (c == b'%') (b'%' ∷ b'%' ∷ emit_all t rest)
      (c ∷ emit_all t rest) (λ _. omega (arith, length-emit_all t rest))
      (λ _. omega (arith, length-emit_all t rest))
length-emit_all (print_d e t) rest =
    omega (arith, length-emit e (b'%' ∷ b'd' ∷ emit_all t rest), length-emit_all t rest)
length-emit_all (print_c e t) rest =
    omega (arith, length-emit e (b'%' ∷ b'c' ∷ emit_all t rest), length-emit_all t rest)
length-emit_all (choose e x y t) rest =
    let more = b'%' ∷ b';' ∷ emit_all t rest in
    let other = b'%' ∷ b'e' ∷ emit_all y more in
    omega (
      arith,
      length-emit e (b'%' ∷ b't' ∷ emit_all x other),
      length-emit_all x other,
      length-emit_all y more,
      length-emit_all t rest,
    )

-- And so does a template.
rounds_all-length :
    (ps : List Value) (t : Template) (f : ℕ) (rest : List ℕ)
    → rounds_all ps t f + length rest ≤ f + length (emit_all t rest)
rounds_all-length ps end f rest = omega arith
rounds_all-length ps (text c t) f rest =
    if_cases (λ str. suc (rounds_all ps t f) + length rest ≤ f + length str) (c == b'%')
      (b'%' ∷ b'%' ∷ emit_all t rest) (c ∷ emit_all t rest)
      (λ _. omega (arith, rounds_all-length ps t f rest))
      (λ _. omega (arith, rounds_all-length ps t f rest))
rounds_all-length ps (print_d e t) f rest = omega (
  arith,
  rounds-length e (suc (rounds_all ps t f)) (b'%' ∷ b'd' ∷ emit_all t rest),
  rounds_all-length ps t f rest,
)
rounds_all-length ps (print_c e t) f rest = omega (
  arith,
  rounds-length e (suc (rounds_all ps t f)) (b'%' ∷ b'c' ∷ emit_all t rest),
  rounds_all-length ps t f rest,
)
rounds_all-length ps (choose e x y t) f rest =
    let k = suc (rounds_all ps t f) in
    let more = b'%' ∷ b';' ∷ emit_all t rest in
    let other = b'%' ∷ b'e' ∷ emit_all y more in
    let last = b'%' ∷ b't' ∷ emit_all x other in
    if_cases (λ n. suc (rounds e (suc n)) + length rest ≤ f + suc (suc (length (emit e last))))
      ((value ps e).num == 0) (rounds_all ps y k) (rounds_all ps x k)
      (λ _. omega (
        arith,
        rounds-length e (suc (rounds_all ps y k)) last,
        rounds_all-length ps y k more,
        length-emit_all x other,
        rounds_all-length ps t f rest,
      ))
      (λ _. omega (
        arith,
        rounds-length e (suc (rounds_all ps x k)) last,
        rounds_all-length ps x k other,
        length-emit_all y more,
        rounds_all-length ps t f rest,
      ))

-- More fuel changes no result.
run-more :
    (f g : ℕ) (libc : Libc) (s s' : State)
    → f ≤ g
    → run f libc s ≡ expanded s'
    → run g libc s ≡ expanded s'
unfolding run
run-more zero g libc s s' l h = cc
run-more (suc f) zero libc s s' l h = ground arith
run-more (suc f) (suc g) libc s s' l h = of (λ u. run-more f g libc u s' (omega arith)) s.str h
  where
    after : ℕ → Turn → Result
    after n t = elim t [ go u ↦ run n libc u | null ↦ failed | fault ↦ faulted ]

    round : ℕ → List ℕ → Result
    round n xs = elim xs [
      | [] ↦ faulted
      | c ∷ str ↦ if c == 0 then expanded s else after n (turn libc c str s)
    ]

    of_turn :
        ((u : State) → run f libc u ≡ expanded s' → run g libc u ≡ expanded s')
        → (t : Turn) → after f t ≡ expanded s'
        → after g t ≡ expanded s'
    of_turn rec (go u) e = rec u e
    of_turn rec null e = e
    of_turn rec fault e = e

    of :
        ((u : State) → run f libc u ≡ expanded s' → run g libc u ≡ expanded s')
        → (xs : List ℕ) → round f xs ≡ expanded s'
        → round g xs ≡ expanded s'
    of rec [] e = e
    of rec (c ∷ str) e = of_nul (c == 0) e
      where
        of_nul :
            (z : Bool)
            → (if z then expanded s else after f (turn libc c str s)) ≡ expanded s'
            → (if z then expanded s else after g (turn libc c str s)) ≡ expanded s'
        of_nul true e = e
        of_nul false e = of_turn rec (turn libc c str s) e

module _ (libc : Libc) (ok : IsRoomy libc) where
  -- Where the memory never runs out and a number is printed with 1 to 22 characters: on an empty
  -- stack the loop, with the fuel that tiparm gives it, expands the string of a template, with
  -- conditionals one in the other, to the text that the template stands for, behind what is in the
  -- buffer.
  pub run-render :
      (t : Template) (s : State)
      → IsTemplate t
      → length s.stack ≡ 0
      → s.str ≡ emit_all t (0 ∷ [])
      → (s' : State) × (run (suc (length s.str)) libc s ≡ expanded s')
        × (s'.buffer.text ≡ s.buffer.text ++ render libc s.params t)
  unfolding run
  run-render t s v h k =
      let (b, e, q) = run-all libc ok t 1 (0 ∷ []) s v h in
      let s1 : State = record s { str = emit_all t (0 ∷ []) } in
      let s2 : State = record s { str = 0 ∷ []; buffer = b } in
      (
        s2,
        subst (λ str. run (suc (length str)) libc (record s { str = str }) ≡ expanded s2) (sym k)
            (run-more (rounds_all s.params t 1) (suc (length s1.str)) libc s1 s2
              (omega (arith, rounds_all-length s.params t 1 (0 ∷ []))) e),
        q,
      )
