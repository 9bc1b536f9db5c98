-- ===== src/Terminfo/Tparm/Expr.antt =====
-- Expressions in the postfix notation that lib/libterminfo/tparm.c evaluates on its stack.
pub mod Steps
use netbsd_curses.Base.{
  ℕ, zero, suc, ◌+◌, ◌-◌, ◌*◌, ◌%◌, ◌^◌, ◌≤◌, ◌<◌, ◌≡◌, refl, ap, sym, ◌∙◌, ltb, leb, ◌==◌,
  if◌then◌else◌, Bool, true, false, not, ◌&&◌, ◌||◌, Option, none, some, List, [], ◌∷◌, ◌++◌,
  length, length-append, max, set, get_or, arith, if_cases, ltb_ge, Option-cases, inl, inr, map,
}
use netbsd_curses.Terminfo.Tparm.{
  Op, plus, minus, times, divide, modulo, logical_and, logical_or, and, or, xor, equal, less_than,
  greater, Value, number, Entries, Push, pushed, refused, overrun, push, pop, Buffer, checkbuf,
  ochar, apply, of_bool, word,
}
use netbsd_curses.Terminfo.Tparm.Machine.{
  Libc, State, Turn, go, null, fault, pushing, popped, after_skip, skip_to, digits, at_str, binary,
  quote, command, load_param, load_quoted, load_number, unary,
}
use netbsd_curses.Terminfo.Tparm.Analyse.{is_digit}
use netbsd_curses.Terminfo.Tparm.Format.{
  format_loop, spec, format_char, start, stop, Done, Spec, Format,
}
use netbsd_curses.Terminfo.Tparm.Run.{turn, escape, run, Result, expanded, failed, faulted, stuck}

-- A character, a decimal number, a parameter (counted from 0), an operator, a negation (`!`) and a
-- complement (`~`). Digits are taken modulo 10 and parameters modulo 9.
pub data Expr : Type 0 where
  char param : ℕ → Expr
  decimal : List ℕ → Expr
  operator : Op → Expr → Expr → Expr
  negation complement : Expr → Expr

abbrev pub code : Op → ℕ
code plus = b'+'
code minus = b'-'
code times = b'*'
code divide = b'/'
code modulo = b'm'
code logical_and = b'A'
code logical_or = b'O'
code and = b'&'
code or = b'|'
code xor = b'^'
code equal = b'='
code less_than = b'<'
code greater = b'>'

abbrev pub emit_digits : List ℕ → List ℕ → List ℕ
emit_digits [] rest = b'}' ∷ rest
emit_digits (d ∷ ds) rest = (b'0' + d % 10) ∷ emit_digits ds rest

-- The characters of an expression, before `rest`.
abbrev pub emit : Expr → List ℕ → List ℕ
emit (char c) rest = b'%' ∷ quote ∷ c ∷ quote ∷ rest
emit (param i) rest = b'%' ∷ b'p' ∷ (b'1' + i % 9) ∷ rest
emit (decimal ds) rest = b'%' ∷ b'{' ∷ emit_digits ds rest
emit (operator op a b) rest = emit a (emit b (b'%' ∷ code op ∷ rest))
emit (negation a) rest = emit a (b'%' ∷ b'!' ∷ rest)
emit (complement a) rest = emit a (b'%' ∷ b'~' ∷ rest)

-- The rounds of the loop for an expression, before `f` others.
abbrev pub rounds : Expr → ℕ → ℕ
rounds (char c) f = suc f
rounds (param i) f = suc f
rounds (decimal ds) f = suc f
rounds (operator op a b) f = rounds a (rounds b (suc f))
rounds (negation a) f = rounds a (suc f)
rounds (complement a) f = rounds a (suc f)

-- How deep the stack gets.
abbrev pub depth : Expr → ℕ
depth (operator op a b) = max (depth a) (1 + depth b)
depth (negation a) = depth a
depth (complement a) = depth a
depth _ = 1

abbrev pub decimal_value : ℕ → List ℕ → ℕ
decimal_value v [] = v
decimal_value v (d ∷ ds) = decimal_value ((v * 10 + d % 10) % word) ds

-- The value, computed over the tree.
abbrev pub value : List Value → Expr → Value
value ps (char c) = number c
value ps (param i) = get_or ps (i % 9) (number 0)
value ps (decimal ds) = number (decimal_value 0 ds)
value ps (operator op a b) = number (apply op (value ps b).num (value ps a).num)
value ps (negation a) = number (of_bool ((value ps a).num == 0))
value ps (complement a) = number (word - 1 - (value ps a).num)
