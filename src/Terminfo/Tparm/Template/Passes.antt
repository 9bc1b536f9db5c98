-- ===== src/Terminfo/Tparm/Template/Passes.antt =====
-- The search of lib/libterminfo/tparm.c for the end of a conditional passes over whole templates.
use netbsd_curses.Base.{
  ℕ, ◌+◌, ◌%◌, ◌≡◌, refl, ◌∙◌, ◌==◌, Bool, true, false, not, ◌&&◌, List, [], ◌∷◌, arith, if_cases,
}
use netbsd_curses.Terminfo.Tparm.{
  Op, plus, minus, times, divide, modulo, logical_and, logical_or, and, or, xor, equal, less_than,
  greater,
}
use netbsd_curses.Terminfo.Tparm.Machine.{skip, quote}
use netbsd_curses.Terminfo.Tparm.Expr.{
  Expr, char, param, decimal, operator, negation, complement, code, emit_digits, emit,
}
use netbsd_curses.Terminfo.Tparm.Template.{
  Template, end, text, print_d, print_c, choose, emit_all, Quotable, IsTemplate,
}

skip-plain :
    (b : Bool) (l c : ℕ) (rest : List ℕ)
    → (c == 0) ≡ false
    → (c == b'%') ≡ false
    → skip b l (c ∷ rest) ≡ skip b l rest
unfolding skip
skip-plain b l c [] h k = rw h
skip-plain b l c (d ∷ rest) h k = rw (h, k)

-- A pair with a `%` that is not part of a conditional.
abbrev is_pair : ℕ → Bool
is_pair d = not (d == b'?') && not (d == b';') && not (d == b'e')

skip-pair :
    (b : Bool) (l d : ℕ) (rest : List ℕ)
    → is_pair d ≡ true
    → skip b l (b'%' ∷ d ∷ rest) ≡ skip b l rest
unfolding skip
skip-pair b l d rest h = ground arith

skip-digits : (b : Bool) (l : ℕ) (ds rest : List ℕ) → skip b l (emit_digits ds rest) ≡ skip b l rest
skip-digits b l [] rest = skip-plain b l b'}' rest refl refl
skip-digits b l (d ∷ ds) rest =
    skip-plain b l (b'0' + d % 10) (emit_digits ds rest) (ground arith) (ground arith)
    ∙ skip-digits b l ds rest

is_pair-code : (op : Op) → is_pair (code op) ≡ true
is_pair-code plus = refl
is_pair-code minus = refl
is_pair-code times = refl
is_pair-code divide = refl
is_pair-code modulo = refl
is_pair-code logical_and = refl
is_pair-code logical_or = refl
is_pair-code and = refl
is_pair-code or = refl
is_pair-code xor = refl
is_pair-code equal = refl
is_pair-code less_than = refl
is_pair-code greater = refl

skip-quoted :
    (b : Bool) (l c : ℕ) (rest : List ℕ)
    → (c == 0) ≡ false
    → skip b l (c ∷ quote ∷ rest) ≡ skip b l rest
unfolding skip
skip-quoted b l c rest h = ground (arith, skip-plain b l quote rest refl refl)

pub skip-emit :
    (b : Bool) (l : ℕ) (e : Expr) (rest : List ℕ)
    → Quotable e
    → skip b l (emit e rest) ≡ skip b l rest
skip-emit b l (char c) rest q =
    skip-pair b l quote (c ∷ quote ∷ rest) refl ∙ skip-quoted b l c rest q
skip-emit b l (param i) rest q =
    skip-pair b l b'p' ((b'1' + i % 9) ∷ rest) refl
    ∙ skip-plain b l (b'1' + i % 9) rest (ground arith) (ground arith)
skip-emit b l (decimal ds) rest q =
    skip-pair b l b'{' (emit_digits ds rest) refl ∙ skip-digits b l ds rest
skip-emit b l (operator op x y) rest q =
    skip-emit b l x (emit y (b'%' ∷ code op ∷ rest)) q.0
    ∙ skip-emit b l y (b'%' ∷ code op ∷ rest) q.1
    ∙ skip-pair b l (code op) rest (is_pair-code op)
skip-emit b l (negation x) rest q =
    skip-emit b l x (b'%' ∷ b'!' ∷ rest) q ∙ skip-pair b l b'!' rest refl
skip-emit b l (complement x) rest q =
    skip-emit b l x (b'%' ∷ b'~' ∷ rest) q ∙ skip-pair b l b'~' rest refl

skip-deeper :
    (b : Bool) (l : ℕ) (rest : List ℕ) → skip b l (b'%' ∷ b'?' ∷ rest) ≡ skip b (l + 1) rest
unfolding skip
skip-deeper b l rest = refl

skip-else :
    (b : Bool) (l : ℕ) (rest : List ℕ) → skip b (l + 1) (b'%' ∷ b'e' ∷ rest) ≡ skip b (l + 1) rest
unfolding skip
skip-else b l rest = ground arith

skip-higher :
    (b : Bool) (l : ℕ) (rest : List ℕ) → skip b (l + 1) (b'%' ∷ b';' ∷ rest) ≡ skip b l rest
unfolding skip
skip-higher b l rest = ground arith

-- The search for the end of a conditional, on any level and for either command, passes over the
-- string of a whole template, with its own conditionals, whose `%;` and `%e` it does not take for
-- those it looks for.
pub skip-emit_all :
    (b : Bool) (l : ℕ) (t : Template) (rest : List ℕ)
    → IsTemplate t
    → skip b l (emit_all t rest) ≡ skip b l rest
skip-emit_all b l end rest v = refl
skip-emit_all b l (text c t) rest v =
    if_cases (λ str. skip b l str ≡ skip b l rest) (c == b'%') (b'%' ∷ b'%' ∷ emit_all t rest)
      (c ∷ emit_all t rest)
      (λ _. skip-pair b l b'%' (emit_all t rest) refl ∙ skip-emit_all b l t rest v.2)
      (λ p. skip-plain b l c (emit_all t rest) v.0 p ∙ skip-emit_all b l t rest v.2)
skip-emit_all b l (print_d e t) rest v =
    skip-emit b l e (b'%' ∷ b'd' ∷ emit_all t rest) v.0
    ∙ skip-pair b l b'd' (emit_all t rest) refl
    ∙ skip-emit_all b l t rest v.2
skip-emit_all b l (print_c e t) rest v =
    skip-emit b l e (b'%' ∷ b'c' ∷ emit_all t rest) v.0
    ∙ skip-pair b l b'c' (emit_all t rest) refl
    ∙ skip-emit_all b l t rest v.2
skip-emit_all b l (choose e x y t) rest v =
    let after = b'%' ∷ b';' ∷ emit_all t rest in
    let other = b'%' ∷ b'e' ∷ emit_all y after in
    let taken = b'%' ∷ b't' ∷ emit_all x other in
    skip-deeper b l (emit e taken)
    ∙ skip-emit b (l + 1) e taken v.0
    ∙ skip-pair b (l + 1) b't' (emit_all x other) refl
    ∙ skip-emit_all b (l + 1) x other v.2
    ∙ skip-else b l (emit_all y after)
    ∙ skip-emit_all b (l + 1) y after v.3
    ∙ skip-higher b l (emit_all t rest)
    ∙ skip-emit_all b l t rest v.4
