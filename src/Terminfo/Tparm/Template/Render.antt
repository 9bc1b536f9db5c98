-- ===== src/Terminfo/Tparm/Template/Render.antt =====
-- The expansion of lib/libterminfo/tparm.c prints what a template stands for.
use mathlib.Core.List.{append-nil}
use netbsd_curses.Base.{
  ℕ, suc, ◌+◌, ◌%◌, ◌^◌, ◌≤◌, ◌≡◌, refl, sym, ap, ◌∙◌, ◌==◌, if◌then◌else◌, Bool, true, false, List,
  [], ◌∷◌, length, arith, if_cases, subst, ==_iff,
}
use netbsd_curses.Terminfo.Tparm.{Value, Buffer, pop}
use netbsd_curses.Terminfo.Tparm.Format.{format_char}
use netbsd_curses.Terminfo.Tparm.Machine.{Libc, State, Turn, go, skip, then_part, command, at_str}
use netbsd_curses.Terminfo.Tparm.Run.{turn, run}
use netbsd_curses.Terminfo.Tparm.Expr.{Expr, emit, rounds, depth, value}
use netbsd_curses.Terminfo.Tparm.Expr.Steps.{run-emit, turn-command, run-turn}
use netbsd_curses.Terminfo.Tparm.Template.{
  Template, end, text, print_d, print_c, choose, emit_all, rounds_all, render, IsTemplate,
}
use netbsd_curses.Terminfo.Tparm.Template.Passes.{skip-emit_all}
use netbsd_curses.Terminfo.Tparm.Template.Writes.{
  IsRoomy, Prints, Prints-trans, byte, literal-Prints, percent-Prints, print_char-lem,
  print_number-lem, turn-d, turn-c,
}

module _ (libc : Libc) (ok : IsRoomy libc) where
  print_d-Prints :
      (e : Expr) (f : ℕ) (rest : List ℕ) (s : State)
      → length s.stack + depth e ≤ 20
      → Prints libc ok
          (rounds e (suc f))
          (emit e (b'%' ∷ b'd' ∷ rest))
          f
          rest
          s
          (libc.print_num (b'%' ∷ b'l' ∷ b'd' ∷ []) ((value s.params e).num % 2 ^ 32))
  print_d-Prints e f rest s h =
      let (b, k, t) = print_number-lem libc ok (value s.params e) (record s { str = rest }) in
      (
        b,
        run-emit e (suc f) libc (b'%' ∷ b'd' ∷ rest) s h
            ∙ run-turn f libc (b'd' ∷ rest) (record s { stack = value s.params e ∷ s.stack }) _
                (turn-d libc ok rest
                    (record s { str = b'%' ∷ b'd' ∷ rest; stack = value s.params e ∷ s.stack })
                  ∙ k),
        t,
      )

  print_c-Prints :
      (e : Expr) (f : ℕ) (rest : List ℕ) (s : State)
      → length s.stack + depth e ≤ 20
      → Prints libc ok
          (rounds e (suc f))
          (emit e (b'%' ∷ b'c' ∷ rest))
          f
          rest
          s
          (byte libc ok ((value s.params e).num % 256) ∷ [])
  print_c-Prints e f rest s h =
      let (b, k, t) = print_char-lem libc ok (value s.params e) (record s { str = rest }) in
      (
        b,
        run-emit e (suc f) libc (b'%' ∷ b'c' ∷ rest) s h
            ∙ run-turn f libc (b'c' ∷ rest) (record s { stack = value s.params e ∷ s.stack }) _
                (turn-c libc ok rest
                    (record s { str = b'%' ∷ b'c' ∷ rest; stack = value s.params e ∷ s.stack })
                  ∙ k),
        t,
      )

  turn-if :
      (rest : List ℕ) (s : State) → turn libc b'%' (b'?' ∷ rest) s ≡ go (record s { str = rest })
  unfolding format_char command
  turn-if rest s = turn-command libc b'?' rest s refl refl

  turn-endif :
      (rest : List ℕ) (s : State) → turn libc b'%' (b';' ∷ rest) s ≡ go (record s { str = rest })
  unfolding format_char command
  turn-endif rest s = turn-command libc b';' rest s refl refl

  turn-then :
      (rest : List ℕ) (v : Value) (s : State)
      → turn libc b'%' (b't' ∷ rest) (record s { stack = v ∷ s.stack }) ≡ (
          if v.num == 0
          then at_str (record s { str = rest }) (skip true 0 rest)
          else go (record s { str = rest }))
  unfolding format_char command then_part pop
  turn-then rest v s = turn-command libc b't' rest (record s { stack = v ∷ s.stack }) refl refl

  turn-else :
      (rest : List ℕ) (s : State)
      → turn libc b'%' (b'e' ∷ rest) s ≡ at_str (record s { str = rest }) (skip false 0 rest)
  unfolding format_char command
  turn-else rest s = turn-command libc b'e' rest s refl refl

  -- The conditional in front of `tail`, from what its parts print.
  choose-Prints :
      (e : Expr) (x y : Template) (k : ℕ) (tail : List ℕ) (s : State) (out_x out_y : List ℕ)
      → IsTemplate x
      → IsTemplate y
      → length s.stack + depth e ≤ 20
      → let more = b'%' ∷ b';' ∷ tail in
        let other = b'%' ∷ b'e' ∷ emit_all y more in
        Prints libc ok (rounds_all s.params x (suc k)) (emit_all x other) (suc k) other s out_x
        → Prints libc ok (rounds_all s.params y (suc k)) (emit_all y more) (suc k) more s out_y
        → Prints libc ok
            (suc (
              rounds e (
                suc (
                  if (value s.params e).num == 0
                  then rounds_all s.params y (suc k)
                  else rounds_all s.params x (suc k)))))
            (b'%' ∷ b'?' ∷ emit e (b'%' ∷ b't' ∷ emit_all x other))
            k
            tail
            s
            (if (value s.params e).num == 0 then out_y else out_x)
  unfolding skip
  choose-Prints e x y k tail s out_x out_y vx vy h px py = of ((value s.params e).num == 0) refl
    where
      more : List ℕ
      more = b'%' ∷ b';' ∷ tail

      other : List ℕ
      other = b'%' ∷ b'e' ∷ emit_all y more

      n : Bool → ℕ
      n z = if z then rounds_all s.params y (suc k) else rounds_all s.params x (suc k)

      from_then : (z : Bool) → Turn
      from_then z =
          if z
          then at_str (record s { str = emit_all x other }) (skip true 0 (emit_all x other))
          else go (record s { str = emit_all x other })

      before :
          (z : Bool) (s' : State)
          → ((value s.params e).num == 0) ≡ z
          → from_then z ≡ go s'
          → run
              (suc (rounds e (suc (n z))))
              libc
              (record s { str = b'%' ∷ b'?' ∷ emit e (b'%' ∷ b't' ∷ emit_all x other) })
            ≡ run (n z) libc s'
      before z s' p q =
          run-turn (rounds e (suc (n z))) libc (b'?' ∷ emit e (b'%' ∷ b't' ∷ emit_all x other)) s _
            (turn-if (emit e (b'%' ∷ b't' ∷ emit_all x other))
              (record s { str = b'%' ∷ b'?' ∷ emit e (b'%' ∷ b't' ∷ emit_all x other) }))
          ∙ run-emit e (suc (n z)) libc (b'%' ∷ b't' ∷ emit_all x other) s h
          ∙ run-turn (n z) libc (b't' ∷ emit_all x other)
              (record s { stack = value s.params e ∷ s.stack }) s'
              (turn-then (emit_all x other) (value s.params e)
                  (record s { str = b'%' ∷ b't' ∷ emit_all x other })
                ∙ ap from_then p
                ∙ q)

      of :
          (z : Bool)
          → ((value s.params e).num == 0) ≡ z
          → Prints libc ok
              (suc (rounds e (suc (n z))))
              (b'%' ∷ b'?' ∷ emit e (b'%' ∷ b't' ∷ emit_all x other))
              k
              tail
              s
              (if z then out_y else out_x)
      of true p =
          let (b, q, t) = py in
          (
            b,
            before true (record s { str = emit_all y more }) p
                  (ap (at_str (record s { str = emit_all x other }))
                    (skip-emit_all true 0 x other vx))
                ∙ q
                ∙ run-turn k libc (b';' ∷ tail) (record s { buffer = b }) _
                    (turn-endif tail (record s { str = more; buffer = b })),
            t,
          )
      of false p =
          let (b, q, t) = px in
          (
            b,
            before false (record s { str = emit_all x other }) p refl
                ∙ q
                ∙ run-turn k libc (b'e' ∷ emit_all y more) (record s { buffer = b }) _
                    (turn-else (emit_all y more) (record s { str = other; buffer = b })
                      ∙ ap (at_str (record s { str = emit_all y more; buffer = b }))
                          (skip-emit_all false 0 y more vy)),
            t,
          )

  pub run-all :
      (t : Template) (f : ℕ) (rest : List ℕ) (s : State)
      → IsTemplate t
      → length s.stack ≡ 0
      → Prints libc ok (rounds_all s.params t f) (emit_all t rest) f rest s (render libc s.params t)
  run-all end f rest s v h = (s.buffer, refl, sym (append-nil s.buffer.text))
  run-all (text c t) f rest s v h =
      let k = rounds_all s.params t f in
      let after = λ (b : Buffer). run-all t f rest (record s { buffer = b }) v.2 h in
      if_cases
        (λ str.
          Prints libc ok (rounds_all s.params (text c t) f) str f rest s
            (c ∷ render libc s.params t))
        (c == b'%') (b'%' ∷ b'%' ∷ emit_all t rest) (c ∷ emit_all t rest)
        (λ p.
          Prints-trans libc ok _ _ k (emit_all t rest) f rest s (c ∷ []) _
            (subst
              (λ x.
                Prints libc ok (suc k) (b'%' ∷ b'%' ∷ emit_all t rest) k (emit_all t rest) s
                  (x ∷ []))
              (sym ((==_iff c b'%').0 p)) (percent-Prints libc ok k (emit_all t rest) s))
            after)
        (λ p.
          Prints-trans libc ok _ _ k (emit_all t rest) f rest s (c ∷ []) _
            (literal-Prints libc ok c k (emit_all t rest) s v.0 p v.1) after)
  run-all (print_d e t) f rest s v h =
      Prints-trans libc ok _ _ _ (emit_all t rest) f rest s _ _
        (print_d-Prints e (rounds_all s.params t f) (emit_all t rest) s (omega (arith, v.1)))
        λ b. run-all t f rest (record s { buffer = b }) v.2 h
  run-all (print_c e t) f rest s v h =
      Prints-trans libc ok _ _ _ (emit_all t rest) f rest s _ _
        (print_c-Prints e (rounds_all s.params t f) (emit_all t rest) s (omega (arith, v.1)))
        λ b. run-all t f rest (record s { buffer = b }) v.2 h
  run-all (choose e x y t) f rest s v h =
      let k = rounds_all s.params t f in
      let tail = emit_all t rest in
      let more = b'%' ∷ b';' ∷ tail in
      Prints-trans libc ok _ _ k tail f rest s _ _
        (choose-Prints e x y k tail s _ _ v.2 v.3 (omega (arith, v.1))
          (run-all x (suc k) (b'%' ∷ b'e' ∷ emit_all y more) s v.2 h)
          (run-all y (suc k) more s v.3 h))
        λ b. run-all t f rest (record s { buffer = b }) v.4 h
