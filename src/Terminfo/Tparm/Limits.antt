-- ===== src/Terminfo/Tparm/Limits.antt =====
-- Where lib/libterminfo/tparm.c leaves its arrays, and what it makes of the letter of a variable.
use netbsd_curses.Base.{
  ℕ, suc, ◌+◌, ◌-◌, ◌≤◌, ◌<◌, ◌≡◌, refl, ap, ◌∙◌, if◌then◌else◌, Bool, true, false, ◌==◌, List, [],
  ◌∷◌, ◌++◌, length, set, get_or, arith, inl, inr, ◌⊎◌,
}
use netbsd_curses.Terminfo.Tparm.{
  Value, number, Buffer, Entries, push, pushed, refused, overrun, pop,
}
use netbsd_curses.Terminfo.Tparm.Format.{format_char}
use netbsd_curses.Terminfo.Tparm.Machine.{
  Libc, State, Turn, go, null, fault, command, load_quoted, store_variable, load_variable, skip_to,
  quote, pushing, after_skip,
}
use netbsd_curses.Terminfo.Tparm.Run.{turn, run, failed, faulted}
use netbsd_curses.Terminfo.Tparm.Expr.{char, emit}
use netbsd_curses.Terminfo.Tparm.Expr.Steps.{
  turn-command, run-emit, pushing-room, add_sub, is_digit-code,
}
use netbsd_curses.Terminfo.Tparm.Analyse.{is_digit}
use netbsd_curses.Terminfo.Tparm.Template.Writes.{IsRoomy, literal-Prints}

-- A string that pushes the characters `cs` one by one, before `rest`, and its rounds before `f`.
abbrev pub emit_chars : List ℕ → List ℕ → List ℕ
emit_chars [] rest = rest
emit_chars (c ∷ cs) rest = emit (char c) (emit_chars cs rest)

abbrev pub chars_rounds : List ℕ → ℕ → ℕ
chars_rounds [] f = f
chars_rounds (c ∷ cs) f = suc (chars_rounds cs f)

push-full : (v : Value) (st : Entries) → length st ≡ 20 → push v st ≡ overrun
unfolding push
push-full v st h = ground arith

turn-quote_full :
    (libc : Libc) (c : ℕ) (rest : List ℕ) (s : State)
    → length s.stack ≡ 20
    → turn libc b'%' (quote ∷ c ∷ quote ∷ rest) s ≡ fault
unfolding format_char command load_quoted
turn-quote_full libc c rest s h =
    turn-command libc quote (c ∷ quote ∷ rest) s refl refl
    ∙ ap
        (λ p.
          after_skip s
            (elim p [
              | pushed st ↦ go (record s { str = quote ∷ rest; stack = st })
              | refused ↦ null
              | overrun ↦ fault
            ])
            (skip_to quote))
        (push-full (number c) s.stack h)

run-turn_fault :
    (f : ℕ) (libc : Libc) (str : List ℕ) (s : State)
    → turn libc b'%' str (record s { str = b'%' ∷ str }) ≡ fault
    → run (suc f) libc (record s { str = b'%' ∷ str }) ≡ faulted
unfolding run
run-turn_fault f libc str s h =
    ap (λ t. elim t [ go s' ↦ run f libc s' | null ↦ failed | fault ↦ faulted ]) h

-- Pushing the characters `cs` one by one on a stack of at most 20 entries, where there are more
-- than 20 together, writes past the arrays of the stack.
pub run-overrun :
    (cs : List ℕ) (f : ℕ) (libc : Libc) (rest : List ℕ) (s : State)
    → length s.stack ≤ 20
    → 20 < length s.stack + length cs
    → run (chars_rounds cs f) libc (record s { str = emit_chars cs rest }) ≡ faulted
run-overrun [] f libc rest s h k = ground arith
run-overrun (c ∷ cs) f libc rest s h k = elim (full (length s.stack) h) [
  | inl e ↦
      run-turn_fault (chars_rounds cs f) libc (quote ∷ c ∷ quote ∷ emit_chars cs rest) s (
        turn-quote_full libc c (emit_chars cs rest) (record s { str = emit_chars (c ∷ cs) rest }) e)
  | inr l ↦
      run-emit (char c) (chars_rounds cs f) libc (emit_chars cs rest) s (omega arith)
      ∙ run-overrun cs f libc rest (record s { stack = number c ∷ s.stack }) (omega arith)
          (omega arith)
]
  where
    full : (n : ℕ) → n ≤ 20 → (n ≡ 20) ⊎ (n < 20)
    full n l = ground arith

-- The rounds of `%P` and of `%g` with a letter from a to z.
turns_letter :
    (libc : Libc) (i : ℕ) (rest : List ℕ) (s : State) (v : Value)
    → i < 26
    → (turn libc b'%' (b'P' ∷ (b'a' + i) ∷ rest) (record s { stack = v ∷ s.stack })
        ≡ go (record s { str = (b'a' + i) ∷ rest; dnums = set s.dnums i v.num }))
      × (length s.stack < 20
          → turn libc b'%' (b'g' ∷ (b'a' + i) ∷ rest) s
            ≡ go (record s {
              str = (b'a' + i) ∷ rest;
              stack = number (get_or s.dnums i 0) ∷ s.stack;
            }))
unfolding format_char command store_variable load_variable pop
turns_letter libc i rest s v h = (stored, loaded)
  where
    str : List ℕ
    str = (b'a' + i) ∷ rest

    at : State
    at = record s { str = str }

    store_if : Bool → ℕ → Turn
    store_if z k =
        if z
        then go (record at { dnums = set s.dnums k v.num })
        else if is_digit b'A' b'Z' (b'a' + i)
        then go (record at { snums = set s.snums (b'a' + i - b'A') v.num })
        else go at

    load_if : Bool → ℕ → Turn
    load_if z k =
        if z
        then pushing (number (get_or s.dnums k 0)) at
        else if is_digit b'A' b'Z' (b'a' + i)
        then pushing (number (get_or s.snums (b'a' + i - b'A') 0)) at
        else go at

    letter : is_digit b'a' b'z' (b'a' + i) ≡ true
    letter = is_digit-code b'a' 25 i (omega arith)

    stored :
        turn libc b'%' (b'P' ∷ str) (record s { stack = v ∷ s.stack })
        ≡ go (record at { dnums = set s.dnums i v.num })
    stored =
        turn-command libc b'P' str (record s { stack = v ∷ s.stack }) refl refl
        ∙ ap (λ z. store_if z (b'a' + i - b'a')) letter
        ∙ ap (store_if true) (add_sub b'a' i)

    loaded :
        length s.stack < 20
        → turn libc b'%' (b'g' ∷ str) s
          ≡ go (record at { stack = number (get_or s.dnums i 0) ∷ s.stack })
    loaded l =
        turn-command libc b'g' str s refl refl
        ∙ ap (λ z. load_if z (b'a' + i - b'a')) letter
        ∙ ap (load_if true) (add_sub b'a' i)
        ∙ pushing-room (number (get_or s.dnums i 0)) at l

not_nul : (i : ℕ) → (b'a' + i == 0) ≡ false
not_nul i = ground arith

not_percent : (i : ℕ) → (b'a' + i == b'%') ≡ false
not_percent i = ground arith

-- A round that goes on, and then one that writes the character it has left.
letter_written :
    (libc : Libc)
    → IsRoomy libc
    → (i f : ℕ) (str rest : List ℕ) (s s' : State) → i < 26
    → turn libc b'%' str (record s { str = b'%' ∷ str })
      ≡ go (record s' { str = (b'a' + i) ∷ rest })
    → (b : Buffer) × (run (suc (suc f)) libc (record s { str = b'%' ∷ str })
        ≡ run f libc (record s' { str = rest; buffer = b }))
      × (b.text ≡ s'.buffer.text ++ (b'a' + i) ∷ [])
unfolding run
letter_written libc ok i f str rest s s' l e =
    let (b, next, t) =
      literal-Prints libc ok (b'a' + i) f rest s' (not_nul i) (not_percent i) (omega (arith, l)) in
    (
      b,
      ap (λ t. elim t [ go s' ↦ run (suc f) libc s' | null ↦ failed | fault ↦ faulted ]) e ∙ next,
      t,
    )

-- With memory for the text, `%P` with a letter from a to z stores the entry at the top, and `%g` with
-- it pushes the variable where the stack has room, but both leave the letter in the string, and the
-- next round writes it to the buffer as text.
pub store-load_letter :
    (libc : Libc)
    → IsRoomy libc
    → (i f : ℕ) (rest : List ℕ) (s : State) (v : Value) → i < 26
    → ((b : Buffer) × (run
            (suc (suc f))
            libc
            (record s { str = b'%' ∷ b'P' ∷ (b'a' + i) ∷ rest; stack = v ∷ s.stack })
          ≡ run f libc (record s { str = rest; dnums = set s.dnums i v.num; buffer = b }))
        × (b.text ≡ s.buffer.text ++ (b'a' + i) ∷ []))
      × (length s.stack < 20
          → (b : Buffer) × (run
                (suc (suc f))
                libc
                (record s { str = b'%' ∷ b'g' ∷ (b'a' + i) ∷ rest })
              ≡ run f libc (record s {
                str = rest;
                stack = number (get_or s.dnums i 0) ∷ s.stack;
                buffer = b;
              }))
            × (b.text ≡ s.buffer.text ++ (b'a' + i) ∷ []))
store-load_letter libc ok i f rest s v l = (
  letter_written libc ok i f (b'P' ∷ (b'a' + i) ∷ rest) rest (record s { stack = v ∷ s.stack })
      (record s { dnums = set s.dnums i v.num }) l
      (turns_letter libc i rest (record s { str = b'%' ∷ b'P' ∷ (b'a' + i) ∷ rest }) v l).0,
  λ room.
      letter_written libc ok i f (b'g' ∷ (b'a' + i) ∷ rest) rest s
        (record s { stack = number (get_or s.dnums i 0) ∷ s.stack }) l
        ((turns_letter libc i rest (record s { str = b'%' ∷ b'g' ∷ (b'a' + i) ∷ rest }) v l).1
          room),
)
