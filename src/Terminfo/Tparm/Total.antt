-- ===== src/Terminfo/Tparm/Total.antt =====
-- _ti_tiparm of lib/libterminfo/tparm.c ends: each round makes the string shorter.
use netbsd_curses.Base.{
  ℕ, zero, suc, ◌-◌, ◌%◌, ◌≤◌, ◌<◌, leb, ◌==◌, if◌then◌else◌, false, ◌||◌, Option, none, some, List,
  [], ◌∷◌, ◌++◌, length, replicate, arith, if_cases,
}
use netbsd_curses.Terminfo.Tparm.{Op, Value, number, Buffer, ochar}
use netbsd_curses.Terminfo.Tparm.Analyse.{Scan, analyse}
use netbsd_curses.Terminfo.Tparm.Format.{
  format_loop, Format, format_char, start, Stop, Spec, spec, stop, is_more, more,
}
use netbsd_curses.Terminfo.Tparm.Machine.{
  Libc, State, Turn, go, null, fault, command, popped, skip, binary, unary, print_char, quote,
  op_of, bump,
}
use netbsd_curses.Terminfo.Tparm.Run.{
  turn, escape, literal, formatted, perform, run, Result, expanded, failed, faulted, stuck, tiparm,
  first_buffer, take_args, scan_start,
}
use netbsd_curses.Terminfo.Tparm.Ends.{
  Fits, Good, pushing-Good, skip-NoLonger, at_str-Good, OkBuffer, ochar-OkBuffer, with_buffer-Good,
}
use netbsd_curses.Terminfo.Tparm.Commands.{
  print_number-Good, print_string-Good, load_param-Good, store_variable-Good, load_variable-Good,
  load_quoted-Good, load_number-Good, then_part-Good, push_length-Good,
}

operator-Good :
    (n : ℕ) (o : Option Op) (s : State)
    → Good n (go s)
    → Good n (elim o [ some op ↦ binary op s | none ↦ go s ])
unfolding binary
operator-Good n none s h = h
operator-Good n (some op) s h = pushing-Good n _ (popped (popped s).1).1 h

unary-Good : (n : ℕ) (c : ℕ) (s : State) → Good n (go s) → Good n (unary c s)
unfolding unary
unary-Good n c s h = pushing-Good n _ (popped s).1 h

print_char-Good : (n : ℕ) (libc : Libc) (s : State) → Good n (go s) → Good n (print_char libc s)
unfolding print_char
print_char-Good n libc s h =
    with_buffer-Good n (popped s).1 (ochar libc.room ((popped s).0.num % 256) s.buffer) h
      (ochar-OkBuffer libc.room ((popped s).0.num % 256) s.buffer h.1)

command-Good :
    (n : ℕ) (libc : Libc) (c : ℕ) (f : Spec) (s : State)
    → Good n (go s)
    → Good n (command libc c f s)
unfolding command
command-Good n libc c f s h =
    if_cases (Good n) (c == b'c') _ _ (λ _. print_char-Good n libc s h)
      λ _.
        if_cases (Good n) (c == b's') _ _ (λ _. print_string-Good n libc f s h)
          λ _.
            if_cases (Good n) (c == b'l') _ _ (λ _. push_length-Good n s h)
              λ _.
                if_cases (Good n) (c == b'd' || c == b'o' || c == b'x' || c == b'X') _ _
                  (λ _. print_number-Good n libc f s h)
                  λ _.
                    if_cases (Good n) (c == b'p') _ _ (λ _. load_param-Good n s h)
                      λ _.
                        if_cases (Good n) (c == b'P') _ _ (λ _. store_variable-Good n s h)
                          λ _.
                            if_cases (Good n) (c == b'g') _ _ (λ _. load_variable-Good n s h)
                              λ _.
                                if_cases (Good n) (c == b'i')
                                  (go
                                    (record s { params = bump s.piss (bump s.piss s.params 0) 1 }))
                                  _ (λ _. h)
                                  λ _.
                                    if_cases (Good n) (c == quote) _ _ (λ _. load_quoted-Good n s h)
                                      λ _.
                                        if_cases (Good n) (c == b'{') _ _
                                          (λ _. load_number-Good n s h)
                                          λ _.
                                            if_cases (Good n) (c == b'!' || c == b'~') _ _
                                              (λ _. unary-Good n c s h)
                                              λ _.
                                                if_cases (Good n) (c == b't') _ _
                                                  (λ _. then_part-Good n s h)
                                                  λ _.
                                                    if_cases (Good n) (c == b'e') _ _
                                                      (λ _.
                                                        at_str-Good n s (skip false 0 s.str) h
                                                          (skip-NoLonger false 0 s.str))
                                                      λ _. operator-Good n (op_of c) s h

abbrev Stops : ℕ → Option Stop → Type 0
Stops n none = Unit {0}
Stops n (some e) = length e.rest ≤ n

Stops-weaken : (n m : ℕ) (r : Option Stop) → n ≤ m → Stops n r → Stops m r
Stops-weaken n m none h k = tt
Stops-weaken n m (some e) h k = omega arith

format_loop-Stops : (c : ℕ) (f : Format) (str : List ℕ) → Stops (length str) (format_loop c f str)
unfolding format_loop
format_loop-Stops c f [] =
    if_cases (Stops 0) (leb 64 (length f.fmt)) (some (stop c [] (more, f))) _ (λ _. omega arith)
      λ _.
        if_cases (Stops 0) (is_more (format_char c f).0) none (some (stop c [] (format_char c f)))
          (λ _. tt) (λ _. omega arith)
format_loop-Stops c f (d ∷ str) =
    if_cases (Stops (length (d ∷ str))) (leb 64 (length f.fmt)) (some (stop c (d ∷ str) (more, f)))
      _ (λ _. omega arith)
      λ _.
        if_cases (Stops (length (d ∷ str))) (is_more (format_char c f).0)
          (format_loop d (format_char c f).1 str) (some (stop c (d ∷ str) (format_char c f)))
          (λ _.
            Stops-weaken (length str) (length (d ∷ str)) (format_loop d (format_char c f).1 str)
              (omega arith) (format_loop-Stops d (format_char c f).1 str))
          (λ _. omega arith)

formatted-Good :
    (n : ℕ) (libc : Libc) (s : State) (r : Option Stop)
    → Fits s.buffer
    → Stops n r
    → Good n (formatted libc s r)
formatted-Good n libc s none h k = tt
formatted-Good n libc s (some e) h k = of (spec e)
  where
    of : (f : Option Spec) → Good n (perform libc s e.at e.rest f)
    of none = tt
    of (some f) = command-Good n libc e.at f (record s { str = e.rest }) (k, h)

literal-Good : (n : ℕ) (libc : Libc) (c : ℕ) (s : State) → Good n (go s) → Good n (literal libc c s)
literal-Good n libc c s h =
    with_buffer-Good n s (ochar libc.room c s.buffer) h (ochar-OkBuffer libc.room c s.buffer h.1)

escape-Good :
    (libc : Libc) (s : State) (str : List ℕ) → Fits s.buffer → Good (length str) (escape libc s str)
unfolding escape
escape-Good libc s [] h = tt
escape-Good libc s (d ∷ str) h =
    if_cases (Good (length (d ∷ str))) (d == b'%') _ _
      (λ _. literal-Good (length (d ∷ str)) libc d (record s { str = str }) (omega arith, h))
      λ _. formatted-Good (length (d ∷ str)) libc s (format_loop d start str) h (
        Stops-weaken (length str) (length (d ∷ str)) (format_loop d start str) (omega arith)
          (format_loop-Stops d start str))

turn-Good :
    (libc : Libc) (c : ℕ) (str : List ℕ) (s : State)
    → Fits s.buffer
    → Good (length str) (turn libc c str s)
unfolding turn
turn-Good libc c str s h =
    if_cases (Good (length str)) (c == b'%') _ _ (λ _. escape-Good libc s str h)
      λ _. literal-Good (length str) libc c (record s { str = str }) (omega arith, h)

-- The result is one of the program's, and what it returns fits in its buffer with its NUL.
abbrev pub Terminated : Result → Type 0
Terminated (expanded s) = Fits s.buffer
Terminated failed = Unit {0}
Terminated faulted = Unit {0}
Terminated stuck = ⊥

Good-weaken : (n m : ℕ) (t : Turn) → n ≤ m → Good n t → Good m t
Good-weaken n m (go s) h k = (omega arith, k.1)
Good-weaken n m null h k = tt
Good-weaken n m fault h k = tt

abbrev Next : (f : ℕ) → Libc → Turn → Result
Next f libc t = elim t [ go s ↦ run f libc s | null ↦ failed | fault ↦ faulted ]

next-Terminated :
    (n f : ℕ) (libc : Libc) (t : Turn)
    → ((s : State) → length s.str < f → Fits s.buffer → Terminated (run f libc s))
    → n < f
    → Good n t
    → Terminated (Next f libc t)
next-Terminated n f libc (go s) rec p g = rec s (omega arith) g.1
next-Terminated n f libc null rec p g = tt
next-Terminated n f libc fault rec p g = tt

run-Terminated :
    (fuel : ℕ) (libc : Libc) (s : State)
    → length s.str < fuel
    → Fits s.buffer
    → Terminated (run fuel libc s)
unfolding run
run-Terminated zero libc s h k = omega arith
run-Terminated (suc f) libc s h k = of (run-Terminated f libc) s.str h
  where
    of :
        ((s : State) → length s.str < f → Fits s.buffer → Terminated (run f libc s))
        → (xs : List ℕ) → length xs < suc f
        → Terminated (elim xs [
          | [] ↦ faulted
          | c ∷ str ↦ if c == 0 then expanded s else Next f libc (turn libc c str s)
        ])
    of rec [] l = tt
    of rec (c ∷ str) l =
        if_cases Terminated (c == 0) _ _ (λ _. k)
          λ _.
            next-Terminated (length str) f libc (turn libc c str s) rec (omega arith)
              (turn-Good libc c str s k)

first_buffer-OkBuffer : (libc : Libc) (buflen : ℕ) → OkBuffer (first_buffer libc buflen)
unfolding first_buffer
first_buffer-OkBuffer libc buflen = ground arith

abbrev initial : List ℕ → List ℕ → List ℕ → List Value → Buffer → Scan → State
initial snums dnums str args b scan = record {
  str = str;
  stack = [];
  params = take_args scan.nparm scan.piss args ++ replicate (9 - scan.nparm) (number 0);
  piss = scan.piss;
  dnums = dnums;
  snums = snums;
  buffer = b;
}

-- Whatever the string, the arguments and the C library do, the fuel of the expansion is enough: it
-- returns NULL, leaves the string or an array, or returns a text that fits in its buffer with the
-- NUL.
pub tiparm-Terminated :
    (libc : Libc) (buflen : ℕ) (snums dnums str : List ℕ) (args : List Value)
    → Terminated (tiparm libc buflen snums dnums str args)
unfolding tiparm
tiparm-Terminated libc buflen snums dnums str args =
    of (first_buffer libc buflen) (first_buffer-OkBuffer libc buflen)
  where
    scanned :
        (b : Buffer) (r : Option Scan)
        → Fits b
        → Terminated (elim r [
          | none ↦ faulted
          | some scan ↦ run (suc (length str)) libc (initial snums dnums str args b scan)
        ])
    scanned b none h = tt
    scanned b (some scan) h =
        run-Terminated (suc (length str)) libc (initial snums dnums str args b scan) (omega arith) h

    of :
        (r : Option Buffer)
        → OkBuffer r
        → Terminated (elim r [
          | none ↦ failed
          | some b ↦ elim (analyse scan_start str) [
            | none ↦ faulted
            | some scan ↦ run (suc (length str)) libc (initial snums dnums str args b scan)
          ]
        ])
    of none h = tt
    of (some b) h = scanned b (analyse scan_start str) h
