-- ===== src/Terminfo/Tparm/Template/Scans.antt =====
-- What the analysis of lib/libterminfo/tparm.c finds in the string of a template.
use netbsd_curses.Base.{
  ℕ, ◌+◌, ◌%◌, ◌≡◌, refl, sym, ◌∙◌, ◌==◌, Bool, true, false, not, ◌&&◌, List, [], ◌∷◌, max, arith,
  if_cases, subst, ==_iff,
}
use netbsd_curses.Terminfo.Tparm.{
  Op, plus, minus, times, divide, modulo, logical_and, logical_or, and, or, xor, equal, less_than,
  greater,
}
use netbsd_curses.Terminfo.Tparm.Analyse.{Scan, analyse, forget, pushed_param, is_string}
use netbsd_curses.Terminfo.Tparm.Machine.{quote}
use netbsd_curses.Terminfo.Tparm.Expr.{
  Expr, char, param, decimal, operator, negation, complement, code, emit, emit_digits,
}
use netbsd_curses.Terminfo.Tparm.Template.{
  Template, end, text, print_d, print_c, choose, emit_all, Quotable, IsTemplate,
}

-- How many parameters an expression needs, counted from the first.
abbrev pub needs : Expr → ℕ
needs (param i) = i % 9 + 1
needs (operator op a b) = max (needs a) (needs b)
needs (negation a) = needs a
needs (complement a) = needs a
needs _ = 0

abbrev pub needs_all : Template → ℕ
needs_all end = 0
needs_all (text c t) = needs_all t
needs_all (print_d e t) = max (needs e) (needs_all t)
needs_all (print_c e t) = max (needs e) (needs_all t)
needs_all (choose e a b t) = max (needs e) (max (needs_all a) (max (needs_all b) (needs_all t)))

-- The analysis passes over `str`, which needs `n` parameters, all numbers, and goes on at `rest`.
abbrev pub Scans : Scan → List ℕ → List ℕ → ℕ → Type 0
Scans s str rest n =
    (s' : Scan) × (analyse s str ≡ analyse s' rest)
    × (s'.piss ≡ s.piss)
    × (s'.nparm ≡ max s.nparm n)

Scans-trans :
    (s : Scan) (str mid rest : List ℕ) (n k : ℕ)
    → Scans s str mid n
    → ((s' : Scan) → Scans s' mid rest k)
    → Scans s str rest (max n k)
Scans-trans s str mid rest n k (s', e, p, q) next =
    let (s'', e', p', q') = next s' in (s'', e ∙ e', p' ∙ p, omega arith)

-- A step that needs no parameter, before or behind others.
Scans-before :
    (s : Scan) (str mid rest : List ℕ) (k : ℕ)
    → Scans s str mid 0
    → ((s' : Scan) → Scans s' mid rest k)
    → Scans s str rest k
Scans-before s str mid rest k (s', e, p, q) next =
    let (s'', e', p', q') = next s' in (s'', e ∙ e', p' ∙ p, omega arith)

Scans-behind :
    (s : Scan) (str mid rest : List ℕ) (n : ℕ)
    → Scans s str mid n
    → ((s' : Scan) → Scans s' mid rest 0)
    → Scans s str rest n
Scans-behind s str mid rest n (s', e, p, q) next =
    let (s'', e', p', q') = next s' in (s'', e ∙ e', p' ∙ p, omega arith)

plain-Scans :
    (s : Scan) (c : ℕ) (rest : List ℕ)
    → (c == 0) ≡ false
    → (c == b'%') ≡ false
    → Scans s (c ∷ rest) rest 0
unfolding analyse
plain-Scans s c rest z p = (s, of rest, refl, omega arith)
  where
    of : (rest : List ℕ) → analyse s (c ∷ rest) ≡ analyse s rest
    of [] = rw z
    of (d ∷ []) = rw (z, p)
    of (d ∷ e ∷ str) = rw (z, p)

-- A pair with a `%` that is neither %l, %s nor %p.
abbrev is_other : ℕ → Bool
is_other d = not (is_string d) && not (d == b'p')

pair-Scans :
    (s : Scan) (d : ℕ) (rest : List ℕ) → is_other d ≡ true → Scans s (b'%' ∷ d ∷ rest) rest 0
unfolding analyse
pair-Scans s d rest h = (forget s, of rest, refl, omega arith)
  where
    of : (rest : List ℕ) → analyse s (b'%' ∷ d ∷ rest) ≡ analyse (forget s) rest
    of [] = refl
    of (e ∷ str) = ground arith

param-Scans :
    (s : Scan) (i : ℕ) (rest : List ℕ)
    → Scans s (b'%' ∷ b'p' ∷ (b'1' + i % 9) ∷ rest) rest (i % 9 + 1)
unfolding analyse
param-Scans s i rest = (pushed_param s (b'1' + i % 9), refl, ground arith, ground arith)

digits-Scans : (s : Scan) (ds rest : List ℕ) → Scans s (emit_digits ds rest) rest 0
digits-Scans s [] rest = plain-Scans s b'}' rest refl refl
digits-Scans s (d ∷ ds) rest =
    Scans-before s _ (emit_digits ds rest) rest 0
      (plain-Scans s (b'0' + d % 10) (emit_digits ds rest) (ground arith) (ground arith))
      λ s'. digits-Scans s' ds rest

is_other-code : (op : Op) → is_other (code op) ≡ true
is_other-code plus = refl
is_other-code minus = refl
is_other-code times = refl
is_other-code divide = refl
is_other-code modulo = refl
is_other-code logical_and = refl
is_other-code logical_or = refl
is_other-code and = refl
is_other-code or = refl
is_other-code xor = refl
is_other-code equal = refl
is_other-code less_than = refl
is_other-code greater = refl

quoted-Scans :
    (s : Scan) (c : ℕ) (rest : List ℕ) → (c == 0) ≡ false → Scans s (c ∷ quote ∷ rest) rest 0
quoted-Scans s c rest z = of (c == b'%') refl
  where
    of : (p : Bool) → (c == b'%') ≡ p → Scans s (c ∷ quote ∷ rest) rest 0
    of true p =
        subst (λ x. Scans s (x ∷ quote ∷ rest) rest 0) (sym ((==_iff c b'%').0 p))
          (pair-Scans s quote rest refl)
    of false p =
        Scans-before s _ (quote ∷ rest) rest 0 (plain-Scans s c (quote ∷ rest) z p)
          λ s'. plain-Scans s' quote rest refl refl

-- The analysis of an expression finds the parameters that it needs.
emit-Scans :
    (s : Scan) (e : Expr) (rest : List ℕ) → Quotable e → Scans s (emit e rest) rest (needs e)
emit-Scans s (char c) rest q =
    Scans-before s _ (c ∷ quote ∷ rest) rest 0 (pair-Scans s quote (c ∷ quote ∷ rest) refl)
      λ s'. quoted-Scans s' c rest q
emit-Scans s (param i) rest q = param-Scans s i rest
emit-Scans s (decimal ds) rest q =
    Scans-before s _ (emit_digits ds rest) rest 0 (pair-Scans s b'{' (emit_digits ds rest) refl)
      λ s'. digits-Scans s' ds rest
emit-Scans s (operator op a b) rest q =
    let last = b'%' ∷ code op ∷ rest in
    Scans-trans s _ (emit b last) rest (needs a) (needs b) (emit-Scans s a (emit b last) q.0) λ s'.
      Scans-behind s' _ last rest (needs b) (emit-Scans s' b last q.1)
        λ s''. pair-Scans s'' (code op) rest (is_other-code op)
emit-Scans s (negation a) rest q =
    Scans-behind s _ (b'%' ∷ b'!' ∷ rest) rest (needs a) (emit-Scans s a (b'%' ∷ b'!' ∷ rest) q)
      λ s'. pair-Scans s' b'!' rest refl
emit-Scans s (complement a) rest q =
    Scans-behind s _ (b'%' ∷ b'~' ∷ rest) rest (needs a) (emit-Scans s a (b'%' ∷ b'~' ∷ rest) q)
      λ s'. pair-Scans s' b'~' rest refl

-- An expression and a pair behind it.
emit_pair-Scans :
    (s : Scan) (e : Expr) (d : ℕ) (rest : List ℕ)
    → Quotable e
    → is_other d ≡ true
    → Scans s (emit e (b'%' ∷ d ∷ rest)) rest (needs e)
emit_pair-Scans s e d rest q h =
    Scans-behind s _ (b'%' ∷ d ∷ rest) rest (needs e) (emit-Scans s e (b'%' ∷ d ∷ rest) q)
      λ s'. pair-Scans s' d rest h

-- The analysis of a template finds the parameters that it needs, all of them numbers.
pub emit_all-Scans :
    (s : Scan) (t : Template) (rest : List ℕ)
    → IsTemplate t
    → Scans s (emit_all t rest) rest (needs_all t)
emit_all-Scans s end rest v = (s, refl, refl, omega arith)
emit_all-Scans s (text c t) rest v =
    if_cases (λ str. Scans s str rest (needs_all t)) (c == b'%') (b'%' ∷ b'%' ∷ emit_all t rest)
      (c ∷ emit_all t rest)
      (λ p.
        Scans-before s _ (emit_all t rest) rest (needs_all t)
          (pair-Scans s b'%' (emit_all t rest) refl) λ s'. emit_all-Scans s' t rest v.2)
      (λ p.
        Scans-before s _ (emit_all t rest) rest (needs_all t)
          (plain-Scans s c (emit_all t rest) v.0 p) λ s'. emit_all-Scans s' t rest v.2)
emit_all-Scans s (print_d e t) rest v =
    Scans-trans s _ (emit_all t rest) rest (needs e) (needs_all t)
      (emit_pair-Scans s e b'd' (emit_all t rest) v.0 refl) λ s'. emit_all-Scans s' t rest v.2
emit_all-Scans s (print_c e t) rest v =
    Scans-trans s _ (emit_all t rest) rest (needs e) (needs_all t)
      (emit_pair-Scans s e b'c' (emit_all t rest) v.0 refl) λ s'. emit_all-Scans s' t rest v.2
emit_all-Scans s (choose e x y t) rest v =
    let after = emit_all t rest in
    let more = b'%' ∷ b';' ∷ after in
    let other = b'%' ∷ b'e' ∷ emit_all y more in
    let last = b'%' ∷ b't' ∷ emit_all x other in
    let behind_y = λ (u : Scan).
      Scans-trans u _ more rest (needs_all y) (needs_all t) (emit_all-Scans u y more v.3) λ w.
        Scans-before w _ after rest (needs_all t) (pair-Scans w b';' after refl)
          λ z. emit_all-Scans z t rest v.4 in
    let behind_x = λ (u : Scan).
      Scans-trans u _ other rest (needs_all x) (max (needs_all y) (needs_all t))
        (emit_all-Scans u x other v.2)
        λ w.
          Scans-before w _ (emit_all y more) rest (max (needs_all y) (needs_all t))
            (pair-Scans w b'e' (emit_all y more) refl) behind_y in
    Scans-before s _ (emit e last) rest
      (max (needs e) (max (needs_all x) (max (needs_all y) (needs_all t))))
      (pair-Scans s b'?' (emit e last) refl)
      λ u.
        Scans-trans u _ (emit_all x other) rest (needs e)
          (max (needs_all x) (max (needs_all y) (needs_all t)))
          (emit_pair-Scans u e b't' (emit_all x other) v.0 refl) behind_x
