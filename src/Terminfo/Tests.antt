-- ===== src/Terminfo/Tests.antt =====
-- The C library as the expansion of lib/libterminfo needs it, and what the theorems say of strings.
use netbsd_curses.Base.{
  ℕ, zero, suc, ◌+◌, ◌/◌, ◌%◌, ◌≤◌, ◌<◌, ◌≡◌, refl, ◌==◌, if◌then◌else◌, true, false, List, [], ◌∷◌,
  ◌++◌, length, map, set, replicate, arith, if_cases,
}
use netbsd_curses.Terminfo.Tparm.{Buffer, number, plus, less_than}
use netbsd_curses.Terminfo.Tparm.Analyse.{IsScan}
use netbsd_curses.Terminfo.Tparm.Machine.{Libc, State}
use netbsd_curses.Terminfo.Tparm.Run.{run, expanded, faulted, tiparm, scan_start}
use netbsd_curses.Terminfo.Tparm.Total.{Terminated, tiparm-Terminated}
use netbsd_curses.Terminfo.Tparm.Expr.{Expr, param, decimal, operator, emit, rounds, value}
use netbsd_curses.Terminfo.Tparm.Expr.Steps.{run-emit}
use netbsd_curses.Terminfo.Tparm.Template.{
  Template, end, text, print_d, choose, emit_all, render, IsTemplate,
}
use netbsd_curses.Terminfo.Tparm.Template.Writes.{IsRoomy}
use netbsd_curses.Terminfo.Tparm.Template.Whole.{tiparm-render}
use netbsd_curses.Terminfo.Tparm.Limits.{emit_chars, chars_rounds, run-overrun, store-load_letter}

-- The decimal digits of a number before `acc`, at most one more than `f` of them.
print_decimal : ℕ → ℕ → List ℕ → List ℕ
print_decimal zero v acc = (b'0' + v % 10) ∷ acc
print_decimal (suc f) v acc =
    let rest = print_decimal f (v / 10) ((b'0' + v % 10) ∷ acc) in
    if v / 10 == 0 then (b'0' + v % 10) ∷ acc else rest

print_decimal-length :
    (f v : ℕ) (acc : List ℕ)
    → (length acc < length (print_decimal f v acc))
      × (length (print_decimal f v acc) ≤ suc f + length acc)
unfolding print_decimal
print_decimal-length zero v acc = (omega arith, omega arith)
print_decimal-length (suc f) v acc =
    if_cases (λ cs. (length acc < length cs) × (length cs ≤ suc (suc f) + length acc)) (v / 10 == 0)
      ((b'0' + v % 10) ∷ acc) (print_decimal f (v / 10) ((b'0' + v % 10) ∷ acc))
      (λ _. (omega arith, omega arith))
      λ _.
        let h = print_decimal-length f (v / 10) ((b'0' + v % 10) ∷ acc) in
        (omega (arith, h.0), omega (arith, h.1))

abbrev decimals : Libc
decimals = record {
  print_num = λ fmt v. print_decimal 20 v [];
  print_str = λ fmt cs. cs;
  room = λ n. true;
}

decimals-IsRoomy : IsRoomy decimals
decimals-IsRoomy = record {
  roomy = λ n. refl;
  printed = λ v. let h = print_decimal-length 20 v [] in (h.0, omega (arith, h.1));
}

-- The parameters 4 and 6, one character in the buffer, and an empty stack.
abbrev with_params : State
with_params = record {
  str = [];
  stack = [];
  params = number 4 ∷ number 6 ∷ replicate 7 (number 0);
  piss = replicate 9 false;
  dnums = replicate 26 0;
  snums = replicate 26 0;
  buffer = record { text = b'x' ∷ []; size = 128 };
}

-- The first parameter and one.
abbrev next_line : Expr
next_line = operator plus (param 0) (decimal (1 ∷ []))

run-emit_example :
    run (rounds next_line 1) decimals (record with_params { str = emit next_line (0 ∷ []) })
    ≡ run 1 decimals
        (record with_params { str = 0 ∷ []; stack = value with_params.params next_line ∷ [] })
run-emit_example = run-emit next_line 1 decimals (0 ∷ []) with_params (omega arith)

-- A colour, with a different code from 8 on.
abbrev colour : Template
colour = text 27 (
    choose (operator less_than (param 1) (decimal (8 ∷ []))) (text b'3' end) (text b'9' end)
      (print_d next_line (text b'm' end)))

colour-IsTemplate : IsTemplate colour
colour-IsTemplate = (
  refl,
  omega arith,
  (
    (tt, tt),
    omega arith,
    (refl, omega arith, tt),
    (refl, omega arith, tt),
    ((tt, tt), omega arith, (refl, omega arith, tt)),
  ),
)

tiparm-Terminated_example : Terminated (
    tiparm decimals 0
      (replicate 26 0)
      (replicate 26 0)
      (b'%' ∷ b'p' ∷ b'1' ∷ b'%' ∷ b'd' ∷ 0 ∷ [])
      (number 4 ∷ []))
tiparm-Terminated_example =
    tiparm-Terminated decimals 0 (replicate 26 0) (replicate 26 0)
      (b'%' ∷ b'p' ∷ b'1' ∷ b'%' ∷ b'd' ∷ 0 ∷ []) (number 4 ∷ [])

scan_start-IsScan : IsScan scan_start
scan_start-IsScan = record { few = omega arith; nine = refl }

run-overrun_example :
    run
      (chars_rounds (replicate 21 b'x') 1)
      decimals
      (record with_params { str = emit_chars (replicate 21 b'x') (0 ∷ []) })
    ≡ faulted
run-overrun_example =
    run-overrun (replicate 21 b'x') 1 decimals (0 ∷ []) with_params (omega arith) (omega arith)

store-load_letter_example :
    ((b : Buffer) × (run 3 decimals
          (record with_params { str = b'%' ∷ b'P' ∷ b'c' ∷ 0 ∷ []; stack = number 5 ∷ [] })
        ≡ run 1 decimals
            (record with_params { str = 0 ∷ []; dnums = set with_params.dnums 2 5; buffer = b }))
      × (b.text ≡ with_params.buffer.text ++ b'c' ∷ []))
    × (0 < 20
        → (b : Buffer) × (run 3 decimals (record with_params { str = b'%' ∷ b'g' ∷ b'c' ∷ 0 ∷ [] })
            ≡ run 1 decimals
                (record with_params { str = 0 ∷ []; stack = number 0 ∷ []; buffer = b }))
          × (b.text ≡ with_params.buffer.text ++ b'c' ∷ []))
store-load_letter_example =
    store-load_letter decimals decimals-IsRoomy 2 1 (0 ∷ []) with_params (number 5) (omega arith)

tiparm-render_example :
    (s : State) × (tiparm decimals 0 [] [] (emit_all colour (0 ∷ [])) (map number (4 ∷ 6 ∷ []))
      ≡ expanded s)
    × (s.buffer.text ≡ render decimals (map number (4 ∷ 6 ∷ [])) colour)
tiparm-render_example =
    tiparm-render decimals decimals-IsRoomy colour 0 [] [] (4 ∷ 6 ∷ []) colour-IsTemplate
      (omega arith)
