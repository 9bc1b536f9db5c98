-- ===== src/Terminfo/Tparm/Expr/Steps.antt =====
-- The rounds of lib/libterminfo/tparm.c that evaluate an expression.
use netbsd_curses.Base.{
  ℕ, suc, ◌+◌, ◌-◌, ◌*◌, ◌%◌, ◌≤◌, ◌<◌, ◌≡◌, refl, ap, ◌∙◌, ◌==◌, if◌then◌else◌, true, false, some,
  List, [], ◌∷◌, length, get_or, arith,
}
use netbsd_curses.Terminfo.Tparm.{
  Op, plus, minus, times, divide, modulo, logical_and, logical_or, and, or, xor, equal, less_than,
  greater, Value, number, Entries, pushed, refused, overrun, push, pop, apply, of_bool, word,
}
use netbsd_curses.Terminfo.Tparm.Machine.{
  Libc, State, go, null, fault, pushing, after_skip, skip_to, digits, binary, quote, command,
  load_param, load_quoted, load_number, unary,
}
use netbsd_curses.Terminfo.Tparm.Analyse.{is_digit}
use netbsd_curses.Terminfo.Tparm.Format.{format_loop, spec, format_char, start, stop, Done, Spec}
use netbsd_curses.Terminfo.Tparm.Run.{turn, escape, run, failed, faulted}
use netbsd_curses.Terminfo.Tparm.Expr.{
  Expr, char, param, decimal, operator, negation, complement, code, emit_digits, emit, rounds,
  depth, decimal_value, value,
}

-- A command without flags: the formatting loop stops at once.
pub format_loop-plain :
    (c : ℕ) (str : List ℕ)
    → format_char c start ≡ (Done.done, start)
    → format_loop c start str ≡ some (stop c str (Done.done, start))
unfolding format_loop
format_loop-plain c [] e = rw e
format_loop-plain c (d ∷ str) e = rw e

abbrev pub plain_spec : Spec
plain_spec = record { fmt = b'%' ∷ []; olen = 0 }

pub turn-command :
    (libc : Libc) (c : ℕ) (str : List ℕ) (s : State)
    → (c == b'%') ≡ false
    → format_char c start ≡ (Done.done, start)
    → turn libc b'%' (c ∷ str) s ≡ command libc c plain_spec (record s { str = str })
unfolding turn escape spec
turn-command libc c str s h e = rw (h, format_loop-plain c str e)

depth_pos : (e : Expr) → 0 < depth e
depth_pos (char c) = omega arith
depth_pos (param i) = omega arith
depth_pos (decimal ds) = omega arith
depth_pos (operator op a b) = omega arith
depth_pos (negation a) = depth_pos a
depth_pos (complement a) = depth_pos a

turn-code :
    (libc : Libc) (op : Op) (str : List ℕ) (s : State)
    → turn libc b'%' (code op ∷ str) s ≡ binary op (record s { str = str })
unfolding format_char command
turn-code libc plus str s = turn-command libc b'+' str s refl refl
turn-code libc minus str s = turn-command libc b'-' str s refl refl
turn-code libc times str s = turn-command libc b'*' str s refl refl
turn-code libc divide str s = turn-command libc b'/' str s refl refl
turn-code libc modulo str s = turn-command libc b'm' str s refl refl
turn-code libc logical_and str s = turn-command libc b'A' str s refl refl
turn-code libc logical_or str s = turn-command libc b'O' str s refl refl
turn-code libc and str s = turn-command libc b'&' str s refl refl
turn-code libc or str s = turn-command libc b'|' str s refl refl
turn-code libc xor str s = turn-command libc b'^' str s refl refl
turn-code libc equal str s = turn-command libc b'=' str s refl refl
turn-code libc less_than str s = turn-command libc b'<' str s refl refl
turn-code libc greater str s = turn-command libc b'>' str s refl refl

-- One round, which pushes `v` and leaves `rest`.
abbrev Pushes : Libc → List ℕ → List ℕ → Value → State → Type 0
Pushes libc str rest v s =
    length s.stack < 20 → turn libc b'%' str s ≡ go (record s { str = rest; stack = v ∷ s.stack })

push-room : (v : Value) (st : Entries) → length st < 20 → push v st ≡ pushed (v ∷ st)
unfolding push
push-room v st h = ground arith

pub pushing-room :
    (v : Value) (s : State)
    → length s.stack < 20
    → pushing v s ≡ go (record s { stack = v ∷ s.stack })
pushing-room v s h =
    ap (λ p. elim p [ pushed st ↦ go (record s { stack = st }) | refused ↦ null | overrun ↦ fault ])
      (push-room v s.stack h)

pub add_sub : (a b : ℕ) → a + b - a ≡ b
add_sub a b = omega arith

pub is_digit-code : (lo n i : ℕ) → i ≤ n → is_digit lo (lo + n) (lo + i) ≡ true
is_digit-code lo n i h = ground arith

turn-quote :
    (libc : Libc) (c : ℕ) (rest : List ℕ) (s : State)
    → Pushes libc (quote ∷ c ∷ quote ∷ rest) rest (number c) s
unfolding format_char command load_quoted skip_to
turn-quote libc c rest s h =
    turn-command libc quote (c ∷ quote ∷ rest) s refl refl
    ∙ ap (λ t. after_skip s t (skip_to quote))
        (pushing-room (number c) (record s { str = quote ∷ rest }) h)

turn-param :
    (libc : Libc) (i : ℕ) (rest : List ℕ) (s : State)
    → Pushes libc (b'p' ∷ (b'1' + i % 9) ∷ rest) rest (get_or s.params (i % 9) (number 0)) s
unfolding format_char command load_param
turn-param libc i rest s h =
    turn-command libc b'p' ((b'1' + i % 9) ∷ rest) s refl refl
    ∙ ap
        (λ b.
          if b
          then pushing (get_or s.params (b'1' + i % 9 - b'1') (number 0)) (record s { str = rest })
          else go (record s { str = (b'1' + i % 9) ∷ rest }))
        (is_digit-code b'1' 8 (i % 9) (omega arith))
    ∙ ap (λ k. pushing (get_or s.params k (number 0)) (record s { str = rest }))
        (add_sub b'1' (i % 9))
    ∙ pushing-room (get_or s.params (i % 9) (number 0)) (record s { str = rest }) h

digits-emit :
    (v : ℕ) (ds rest : List ℕ) → digits v (emit_digits ds rest) ≡ (decimal_value v ds, b'}' ∷ rest)
unfolding digits
digits-emit v [] rest = refl
digits-emit v (d ∷ ds) rest =
    rw (is_digit-code b'0' 9 (d % 10) (omega arith), add_sub b'0' (d % 10))
      (digits-emit ((v * 10 + d % 10) % word) ds rest)

turn-number :
    (libc : Libc) (ds rest : List ℕ) (s : State)
    → Pushes libc (b'{' ∷ emit_digits ds rest) rest (number (decimal_value 0 ds)) s
unfolding format_char command load_number skip_to
turn-number libc ds rest s h =
    turn-command libc b'{' (emit_digits ds rest) s refl refl
    ∙ ap (λ r. after_skip s (pushing (number r.0) (record s { str = r.1 })) (skip_to b'}'))
        (digits-emit 0 ds rest)
    ∙ ap (λ t. after_skip s t (skip_to b'}'))
        (pushing-room (number (decimal_value 0 ds)) (record s { str = b'}' ∷ rest }) h)

turn-operator :
    (libc : Libc) (op : Op) (rest : List ℕ) (s : State) (a b : Value) (st : Entries)
    → length st < 20
    → turn libc b'%' (code op ∷ rest) (record s { stack = b ∷ a ∷ st })
      ≡ go (record s { str = rest; stack = number (apply op b.num a.num) ∷ st })
unfolding binary pop
turn-operator libc op rest s a b st h =
    turn-code libc op rest (record s { stack = b ∷ a ∷ st })
    ∙ pushing-room (number (apply op b.num a.num)) (record s { str = rest; stack = st }) h

turn-unary :
    (libc : Libc) (c : ℕ) (rest : List ℕ) (s : State) (a : Value) (st : Entries)
    → length st < 20
    → unary c (record s { str = rest; stack = a ∷ st })
      ≡ go (record s {
        str = rest;
        stack = number (if c == b'!' then of_bool (a.num == 0) else word - 1 - a.num) ∷ st;
      })
unfolding unary pop
turn-unary libc c rest s a st h = pushing-room _ (record s { str = rest; stack = st }) h

pub run-turn :
    (f : ℕ) (libc : Libc) (str : List ℕ) (s s' : State)
    → turn libc b'%' str (record s { str = b'%' ∷ str }) ≡ go s'
    → run (suc f) libc (record s { str = b'%' ∷ str }) ≡ run f libc s'
unfolding run
run-turn f libc str s s' h =
    ap (λ t. elim t [ go s' ↦ run f libc s' | null ↦ failed | fault ↦ faulted ]) h

-- The rounds over the characters of an expression push its value and go on behind it, where the
-- entries on the stack and the depth of the expression are at most 20 together.
pub run-emit :
    (e : Expr) (f : ℕ) (libc : Libc) (rest : List ℕ) (s : State)
    → length s.stack + depth e ≤ 20
    → run (rounds e f) libc (record s { str = emit e rest })
      ≡ run f libc (record s { str = rest; stack = value s.params e ∷ s.stack })
unfolding format_char command
run-emit (char c) f libc rest s h =
    run-turn f libc (quote ∷ c ∷ quote ∷ rest) s _
      (turn-quote libc c rest (record s { str = emit (char c) rest }) (omega arith))
run-emit (param i) f libc rest s h =
    run-turn f libc (b'p' ∷ (b'1' + i % 9) ∷ rest) s _
      (turn-param libc i rest (record s { str = emit (param i) rest }) (omega arith))
run-emit (decimal ds) f libc rest s h =
    run-turn f libc (b'{' ∷ emit_digits ds rest) s _
      (turn-number libc ds rest (record s { str = emit (decimal ds) rest }) (omega arith))
run-emit (operator op a b) f libc rest s h =
    run-emit a (rounds b (suc f)) libc (emit b (b'%' ∷ code op ∷ rest)) s (omega arith)
    ∙ run-emit b (suc f) libc (b'%' ∷ code op ∷ rest)
        (record s { stack = value s.params a ∷ s.stack }) (omega arith)
    ∙ run-turn f libc (code op ∷ rest)
        (record s { stack = value s.params b ∷ value s.params a ∷ s.stack }) _
        (turn-operator libc op rest (record s { str = b'%' ∷ code op ∷ rest }) (value s.params a)
          (value s.params b) s.stack (omega (arith, depth_pos a)))
run-emit (negation a) f libc rest s h =
    run-emit a (suc f) libc (b'%' ∷ b'!' ∷ rest) s h
    ∙ run-turn f libc (b'!' ∷ rest) (record s { stack = value s.params a ∷ s.stack }) _
        (turn-command libc b'!' rest
            (record s { str = b'%' ∷ b'!' ∷ rest; stack = value s.params a ∷ s.stack }) refl refl
          ∙ turn-unary libc b'!' rest s (value s.params a) s.stack (omega (arith, depth_pos a)))
run-emit (complement a) f libc rest s h =
    run-emit a (suc f) libc (b'%' ∷ b'~' ∷ rest) s h
    ∙ run-turn f libc (b'~' ∷ rest) (record s { stack = value s.params a ∷ s.stack }) _
        (turn-command libc b'~' rest
            (record s { str = b'%' ∷ b'~' ∷ rest; stack = value s.params a ∷ s.stack }) refl refl
          ∙ turn-unary libc b'~' rest s (value s.params a) s.stack (omega (arith, depth_pos a)))
