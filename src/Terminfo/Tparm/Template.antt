-- ===== src/Terminfo/Tparm/Template.antt =====
-- The strings that lib/libterminfo/tparm.c expands, as the text, the expressions and the conditionals
-- they are written for.
pub mod Passes
pub mod Writes
pub mod Render
pub mod Expands
pub mod Scans
pub mod Whole
use netbsd_curses.Base.{
  ℕ, zero, suc, ◌+◌, ◌%◌, ◌^◌, ◌≤◌, ◌<◌, ◌≡◌, ◌≢◌, refl, ap, ◌∙◌, ◌==◌, if◌then◌else◌, Bool, true,
  false, not, ◌&&◌, leb, ltb, Option, none, some, List, [], ◌∷◌, ◌++◌, max, arith,
}
use netbsd_curses.Terminfo.Tparm.{
  Value, Op, plus, minus, times, divide, modulo, logical_and, logical_or, and, or, xor, equal,
  less_than, greater,
}
use netbsd_curses.Terminfo.Tparm.Machine.{Libc, skip, quote}
use netbsd_curses.Terminfo.Tparm.Expr.{
  Expr, char, param, decimal, operator, negation, complement, code, emit_digits, emit, rounds,
  depth, value,
}

-- `text` is one character, `print_d` and `print_c` print an expression with %d and %c, `choose` is
-- %? condition %t one part %e other part %; .
pub data Template : Type 0 where
  end : Template
  text : ℕ → Template → Template
  print_d print_c : Expr → Template → Template
  choose : Expr → Template → Template → Template → Template

-- The characters of a template, before `rest`.
abbrev pub emit_all : Template → List ℕ → List ℕ
emit_all end rest = rest
emit_all (text c t) rest = if c == b'%' then b'%' ∷ b'%' ∷ emit_all t rest else c ∷ emit_all t rest
emit_all (print_d e t) rest = emit e (b'%' ∷ b'd' ∷ emit_all t rest)
emit_all (print_c e t) rest = emit e (b'%' ∷ b'c' ∷ emit_all t rest)
emit_all (choose e a b t) rest =
    b'%'
    ∷ b'?'
    ∷ emit e (b'%' ∷ b't' ∷ emit_all a (b'%' ∷ b'e' ∷ emit_all b (b'%' ∷ b';' ∷ emit_all t rest)))

-- The rounds of the loop for a template, before `f` others.
abbrev pub rounds_all : List Value → Template → ℕ → ℕ
rounds_all ps end f = f
rounds_all ps (text c t) f = suc (rounds_all ps t f)
rounds_all ps (print_d e t) f = rounds e (suc (rounds_all ps t f))
rounds_all ps (print_c e t) f = rounds e (suc (rounds_all ps t f))
rounds_all ps (choose e a b t) f =
    let rest = suc (rounds_all ps t f) in
    suc (
      rounds e (suc (if (value ps e).num == 0 then rounds_all ps b rest else rounds_all ps a rest)))

-- What a template stands for. A NUL is written as the character 128.
abbrev pub render : Libc → List Value → Template → List ℕ
render libc ps end = []
render libc ps (text c t) = c ∷ render libc ps t
render libc ps (print_d e t) =
    libc.print_num (b'%' ∷ b'l' ∷ b'd' ∷ []) ((value ps e).num % 2 ^ 32) ++ render libc ps t
render libc ps (print_c e t) =
    let c = (value ps e).num % 256 in (if c == 0 then 128 else c % 256) ∷ render libc ps t
render libc ps (choose e a b t) =
    (if (value ps e).num == 0 then render libc ps b else render libc ps a) ++ render libc ps t

-- No NUL is quoted.
abbrev pub Quotable : Expr → Type 0
Quotable (char c) = (c == 0) ≡ false
Quotable (operator op a b) = Quotable a × Quotable b
Quotable (negation a) = Quotable a
Quotable (complement a) = Quotable a
Quotable _ = Unit {0}

-- The characters are those of a C string, and no expression needs more than the 20 entries of the
-- stack.
abbrev pub IsTemplate : Template → Type 0
IsTemplate end = Unit {0}
IsTemplate (text c t) = ((c == 0) ≡ false) × (c < 256) × IsTemplate t
IsTemplate (print_d e t) = Quotable e × (depth e ≤ 20) × IsTemplate t
IsTemplate (print_c e t) = Quotable e × (depth e ≤ 20) × IsTemplate t
IsTemplate (choose e a b t) =
    Quotable e × (depth e ≤ 20) × IsTemplate a × IsTemplate b × IsTemplate t
