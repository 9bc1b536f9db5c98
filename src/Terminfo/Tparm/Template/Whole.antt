-- ===== src/Terminfo/Tparm/Template/Whole.antt =====
-- tiparm of lib/libterminfo/tparm.c on a template and the numbers it is called with.
use netbsd_curses.Base.{
  ℕ, zero, suc, ◌-◌, ◌%◌, ◌≤◌, ◌<◌, ◌≡◌, refl, ap, sym, ◌∙◌, ◌==◌, if◌then◌else◌, false, Option,
  none, some, List, [], ◌∷◌, ◌++◌, length, get_or, replicate, map, arith, if_cases, subst,
}
use netbsd_curses.Terminfo.Tparm.{Value, number, Buffer}
use netbsd_curses.Terminfo.Tparm.Analyse.{Scan, analyse}
use netbsd_curses.Terminfo.Tparm.Machine.{Libc, State}
use netbsd_curses.Terminfo.Tparm.Run.{
  run, Result, expanded, failed, faulted, take_args, scan_start, first_buffer, tiparm,
}
use netbsd_curses.Terminfo.Tparm.Expr.{
  Expr, char, param, decimal, operator, negation, complement, value,
}
use netbsd_curses.Terminfo.Tparm.Template.{
  Template, end, text, print_d, print_c, choose, emit_all, render, IsTemplate,
}
use netbsd_curses.Terminfo.Tparm.Template.Writes.{IsRoomy}
use netbsd_curses.Terminfo.Tparm.Template.Scans.{needs, needs_all, emit_all-Scans}
use netbsd_curses.Terminfo.Tparm.Template.Expands.{run-render}

-- Two lists of parameters with the same first `n`.
abbrev Agree : List Value → List Value → ℕ → Type 0
Agree ps qs n = (i : ℕ) → i < n → get_or ps i (number 0) ≡ get_or qs i (number 0)

module _ (ps qs : List Value) where
  value-Agree : (e : Expr) → Agree ps qs (needs e) → value ps e ≡ value qs e
  value-Agree (char c) h = refl
  value-Agree (param i) h = h (i % 9) (omega arith)
  value-Agree (decimal ds) h = refl
  value-Agree (operator op a b) h =
      rw (value-Agree a (λ i l. h i (omega arith)), value-Agree b (λ i l. h i (omega arith))) refl
  value-Agree (negation a) h = rw (value-Agree a h) refl
  value-Agree (complement a) h = rw (value-Agree a h) refl

  -- A template does not look at more parameters than it needs.
  render-Agree :
      (libc : Libc) (t : Template) → Agree ps qs (needs_all t) → render libc ps t ≡ render libc qs t
  render-Agree libc end h = refl
  render-Agree libc (text c t) h = rw (render-Agree libc t h) refl
  render-Agree libc (print_d e t) h =
      rw (value-Agree e (λ i l. h i (omega arith)), render-Agree libc t (λ i l. h i (omega arith)))
        refl
  render-Agree libc (print_c e t) h =
      rw (value-Agree e (λ i l. h i (omega arith)), render-Agree libc t (λ i l. h i (omega arith)))
        refl
  render-Agree libc (choose e a b t) h =
      rw
        (
          value-Agree e (λ i l. h i (omega arith)),
          render-Agree libc a (λ i l. h i (omega arith)),
          render-Agree libc b (λ i l. h i (omega arith)),
          render-Agree libc t (λ i l. h i (omega arith)),
        )
        refl

needs-nine : (e : Expr) → needs e ≤ 9
needs-nine (char c) = omega arith
needs-nine (param i) = omega arith
needs-nine (decimal ds) = omega arith
needs-nine (operator op a b) = omega (arith, needs-nine a, needs-nine b)
needs-nine (negation a) = needs-nine a
needs-nine (complement a) = needs-nine a

needs_all-nine : (t : Template) → needs_all t ≤ 9
needs_all-nine end = omega arith
needs_all-nine (text c t) = needs_all-nine t
needs_all-nine (print_d e t) = omega (arith, needs-nine e, needs_all-nine t)
needs_all-nine (print_c e t) = omega (arith, needs-nine e, needs_all-nine t)
needs_all-nine (choose e a b t) =
    omega (arith, needs-nine e, needs_all-nine a, needs_all-nine b, needs_all-nine t)

-- The parameters that are read from the arguments.
take_args-Agree :
    (n m : ℕ) (ns : List ℕ) (rest : List Value)
    → n ≤ m
    → n ≤ length ns
    → Agree (take_args n (replicate m false) (map number ns) ++ rest) (map number ns) n
unfolding take_args
take_args-Agree zero m ns rest l k i h = ground arith
take_args-Agree (suc n) zero ns rest l k i h = ground arith
take_args-Agree (suc n) (suc m) [] rest l k i h = ground arith
take_args-Agree (suc n) (suc m) (x ∷ ns) rest l k zero h = refl
take_args-Agree (suc n) (suc m) (x ∷ ns) rest l k (suc i) h =
    take_args-Agree n m ns rest (omega arith) (omega arith) i (omega arith)

module _ (libc : Libc) (ok : IsRoomy libc) where
  first_buffer-some :
      (buflen : ℕ) → (b : Buffer) × (first_buffer libc buflen ≡ some b) × (b.text ≡ [])
  unfolding first_buffer
  first_buffer-some buflen =
      if_cases (λ o. (b : Buffer) × (o ≡ some b) × (b.text ≡ [])) (buflen == 0)
        (if libc.room 128 then some (record { text = []; size = 128 }) else none)
        (some (record { text = []; size = buflen }))
        (λ _. (record { text = []; size = 128 }, rw (ok.roomy 128) refl, refl))
        (λ _. (record { text = []; size = buflen }, refl, refl))

  -- Where the memory never runs out and a number is printed with 1 to 22 characters: tiparm called with the string of a template and at least as many numbers as the template needs returns the text that the template stands for, with those numbers as its parameters.
  pub tiparm-render :
      (t : Template) (buflen : ℕ) (snums dnums ns : List ℕ)
      → IsTemplate t
      → needs_all t ≤ length ns
      → (s : State) × (tiparm libc buflen snums dnums (emit_all t (0 ∷ [])) (map number ns)
          ≡ expanded s)
        × (s.buffer.text ≡ render libc (map number ns) t)
  unfolding tiparm analyse
  tiparm-render t buflen snums dnums ns v h =
      let str = emit_all t (0 ∷ []) in
      let (b, e, empty) = first_buffer-some buflen in
      let (scan, scanned, kinds, found) = emit_all-Scans scan_start t (0 ∷ []) v in
      let (s, expands, printed) = run-render libc ok t (initial b scan) v refl refl in
      (
        s,
        ap after_buffer e ∙ ap (after_scan b) scanned ∙ expands,
        printed
            ∙ ap (λ cs. cs ++ render libc (initial b scan).params t) empty
            ∙ render-Agree (initial b scan).params (map number ns) libc t
                (agrees scan kinds (omega (arith, found))),
      )
    where
      initial : Buffer → Scan → State
      initial b scan = record {
        str = emit_all t (0 ∷ []);
        stack = [];
        params =
            take_args scan.nparm scan.piss (map number ns) ++ replicate (9 - scan.nparm) (number 0);
        piss = scan.piss;
        dnums = dnums;
        snums = snums;
        buffer = b;
      }

      after_scan : Buffer → Option Scan → Result
      after_scan b o = elim o [
        | none ↦ faulted
        | some scan ↦ run (suc (length (emit_all t (0 ∷ [])))) libc (initial b scan)
      ]

      after_buffer : Option Buffer → Result
      after_buffer o = elim o [
        | none ↦ failed
        | some b ↦ after_scan b (analyse scan_start (emit_all t (0 ∷ [])))
      ]

      agrees :
          (scan : Scan)
          → scan.piss ≡ replicate 9 false
          → scan.nparm ≡ needs_all t
          → Agree
              (take_args scan.nparm scan.piss (map number ns)
                ++ replicate (9 - scan.nparm) (number 0))
              (map number ns)
              (needs_all t)
      agrees scan kinds found =
          subst
            (λ k.
              Agree (take_args k scan.piss (map number ns) ++ replicate (9 - k) (number 0))
                (map number ns) (needs_all t))
            (sym found)
            (subst
              (λ z.
                Agree
                  (take_args (needs_all t) z (map number ns)
                    ++ replicate (9 - needs_all t) (number 0))
                  (map number ns) (needs_all t))
              (sym kinds)
              (take_args-Agree (needs_all t) 9 ns (replicate (9 - needs_all t) (number 0))
                (needs_all-nine t) h))
