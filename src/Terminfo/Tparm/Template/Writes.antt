-- ===== src/Terminfo/Tparm/Template/Writes.antt =====
-- What one round of lib/libterminfo/tparm.c writes to the buffer, where the memory never runs out.
use mathlib.Core.List.{append_assoc}
use netbsd_curses.Base.{
  ℕ, suc, ◌+◌, ◌%◌, ◌^◌, ◌≤◌, ◌<◌, ◌≡◌, refl, ap, ◌∙◌, ◌==◌, if◌then◌else◌, Bool, true, false, leb,
  ltb, none, some, List, [], ◌∷◌, ◌++◌, max, length, arith,
}
use netbsd_curses.Terminfo.Tparm.{Value, Buffer, checkbuf, ochar, pop}
use netbsd_curses.Terminfo.Tparm.Format.{format_loop, format_char, Spec, spec}
use netbsd_curses.Terminfo.Tparm.Machine.{
  Libc, State, Turn, go, null, fault, with_buffer, print_number, print_char, command,
}
use netbsd_curses.Terminfo.Tparm.Run.{turn, escape, literal, run, Result, expanded, failed, faulted}

-- The memory never runs out, and a number is printed with 1 to 22 characters.
pub record IsRoomy (libc : Libc) : Type 0 where
  pub roomy : (n : ℕ) → libc.room n ≡ true
  pub printed :
      (v : ℕ)
      → let cs = libc.print_num (b'%' ∷ b'l' ∷ b'd' ∷ []) v in (0 < length cs) × (length cs ≤ 22)

module _ (libc : Libc) (ok : IsRoomy libc) where
  pub checkbuf-some :
      (len : ℕ) (b : Buffer)
      → (b' : Buffer) × (checkbuf libc.room len b ≡ some b') × (b'.text ≡ b.text)
  unfolding checkbuf
  checkbuf-some len b =
      grown (leb b.size (length b.text + len)) (libc.room (b.size + max len 128))
        (ok.roomy (b.size + max len 128))
    where
      grown :
          (u r : Bool)
          → r ≡ true
          → (b' : Buffer) × ((if u
                then (if r then some (record b { size = b.size + max len 128 }) else none)
                else some b)
              ≡ some b')
            × (b'.text ≡ b.text)
      grown true true e = (record b { size = b.size + max len 128 }, refl, refl)
      grown true false e = cc
      grown false r e = (b, refl, refl)

  pub ochar-some :
      (c : ℕ) (b : Buffer)
      → (b' : Buffer) × (ochar libc.room c b ≡ some b')
        × (b'.text ≡ b.text ++ (if c == 0 then 128 else c % 256) ∷ [])
  unfolding ochar
  ochar-some c b =
      let (b', e, t) = checkbuf-some 2 b in
      (
        record b' { text = b'.text ++ (if c == 0 then 128 else c % 256) ∷ [] },
        ap
            (λ o. elim o [
              | none ↦ none
              | some b' ↦
                  some (record b' { text = b'.text ++ (if c == 0 then 128 else c % 256) ∷ [] })
            ])
            e,
        ap (λ u. u ++ (if c == 0 then 128 else c % 256) ∷ []) t,
      )

  -- The run goes on behind `str` with the text of the buffer followed by `out`.
  abbrev pub Prints :
      (n : ℕ) (str : List ℕ) (f : ℕ) (rest : List ℕ) (s : State) (out : List ℕ) → Type 0
  Prints n str f rest s out =
      (b : Buffer) × (run n libc (record s { str = str })
        ≡ run f libc (record s { str = rest; buffer = b }))
      × (b.text ≡ s.buffer.text ++ out)

  pub Prints-trans :
      (n : ℕ) (str : List ℕ) (k : ℕ) (mid : List ℕ) (f : ℕ) (rest : List ℕ) (s : State)
      (x y : List ℕ)
      → Prints n str k mid s x
      → ((b : Buffer) → Prints k mid f rest (record s { buffer = b }) y)
      → Prints n str f rest s (x ++ y)
  Prints-trans n str k mid f rest s x y (b, e, t) next =
      let (b', e', t') = next b in
      (b', e ∙ e', t' ∙ ap (λ u. u ++ y) t ∙ append_assoc s.buffer.text x y)

  -- A round that only writes to the buffer.
  pub writes-Prints :
      (c : ℕ) (str : List ℕ) (f : ℕ) (rest : List ℕ) (s : State) (b : Buffer) (out : List ℕ)
      → (c == 0) ≡ false
      → turn libc c str (record s { str = c ∷ str }) ≡ go (record s { str = rest; buffer = b })
      → b.text ≡ s.buffer.text ++ out
      → Prints (suc f) (c ∷ str) f rest s out
  unfolding run
  writes-Prints c str f rest s b out z e t = (
    b,
    ap
          (λ r.
            if r
            then expanded (record s { str = c ∷ str })
            else next (turn libc c str (record s { str = c ∷ str })))
          z
        ∙ ap next e,
    t,
  )
    where
      next : Turn → Result
      next t = elim t [ go s' ↦ run f libc s' | null ↦ failed | fault ↦ faulted ]

  abbrev pub byte : ℕ → ℕ
  byte c = if c == 0 then 128 else c % 256

  pub literal-lem :
      (c : ℕ) (s : State)
      → (b : Buffer) × (literal libc c s ≡ go (record s { buffer = b }))
        × (b.text ≡ s.buffer.text ++ byte c ∷ [])
  literal-lem c s = let (b, e, t) = ochar-some c s.buffer in (b, ap (with_buffer s) e, t)

  byte-lem : (c : ℕ) → (c == 0) ≡ false → c < 256 → byte c ≡ c
  byte-lem c z l = ground arith

  pub literal-Prints :
      (c : ℕ) (f : ℕ) (rest : List ℕ) (s : State)
      → (c == 0) ≡ false
      → (c == b'%') ≡ false
      → c < 256
      → Prints (suc f) (c ∷ rest) f rest s (c ∷ [])
  unfolding turn
  literal-Prints c f rest s z p l =
      let (b, e, t) = literal-lem c (record s { str = rest }) in
      writes-Prints c rest f rest s b (c ∷ []) z
        (ap
            (λ r.
              if r
              then escape libc (record s { str = c ∷ rest }) rest
              else literal libc c (record s { str = rest }))
            p
          ∙ e)
        (t ∙ ap (λ x. s.buffer.text ++ x ∷ []) (byte-lem c z l))

  pub percent-Prints :
      (f : ℕ) (rest : List ℕ) (s : State) → Prints (suc f) (b'%' ∷ b'%' ∷ rest) f rest s (b'%' ∷ [])
  unfolding turn escape
  percent-Prints f rest s =
      let (b, e, t) = literal-lem b'%' (record s { str = rest }) in
      writes-Prints b'%' (b'%' ∷ rest) f rest s b (b'%' ∷ []) refl e
        (t ∙ ap (λ x. s.buffer.text ++ x ∷ []) (byte-lem b'%' refl (omega arith)))

  pub print_char-lem :
      (v : Value) (s : State)
      → (b : Buffer) × (print_char libc (record s { stack = v ∷ s.stack })
          ≡ go (record s { buffer = b }))
        × (b.text ≡ s.buffer.text ++ byte (v.num % 256) ∷ [])
  unfolding print_char pop
  print_char-lem v s = literal-lem (v.num % 256) s

  stored : (cs : List ℕ) (s : State) (b : Buffer) → Turn
  stored cs s b =
      if length cs == 0
      then null
      else if ltb 22 (length cs)
      then fault
      else go (record s { buffer = record b { text = b.text ++ cs } })

  stored-lem :
      (cs : List ℕ) (s : State) (b : Buffer)
      → 0 < length cs
      → length cs ≤ 22
      → stored cs s b ≡ go (record s { buffer = record b { text = b.text ++ cs } })
  unfolding stored
  stored-lem cs s b p q = ground arith

  pub number_spec : Spec
  number_spec = record { fmt = b'%' ∷ b'l' ∷ b'd' ∷ []; olen = 0 }

  pub print_number-lem :
      (v : Value) (s : State)
      → (b : Buffer) × (print_number libc number_spec (record s { stack = v ∷ s.stack })
          ≡ go (record s { buffer = b }))
        × (b.text ≡ s.buffer.text ++ libc.print_num (b'%' ∷ b'l' ∷ b'd' ∷ []) (v.num % 2 ^ 32))
  unfolding print_number pop stored number_spec
  print_number-lem v s =
      let (b, e, t) = checkbuf-some 23 s.buffer in
      let out = libc.print_num (b'%' ∷ b'l' ∷ b'd' ∷ []) (v.num % 2 ^ 32) in
      let p = ok.printed (v.num % 2 ^ 32) in
      (
        record b { text = b.text ++ out },
        ap (λ o. elim o [ none ↦ null | some b' ↦ stored out s b' ]) e ∙ stored-lem out s b p.0 p.1,
        ap (λ u. u ++ out) t,
      )

  pub turn-d :
      (rest : List ℕ) (s : State)
      → turn libc b'%' (b'd' ∷ rest) s ≡ print_number libc number_spec (record s { str = rest })
  unfolding turn escape format_loop format_char spec command number_spec
  turn-d [] s = refl
  turn-d (d ∷ rest) s = refl

  pub turn-c :
      (rest : List ℕ) (s : State)
      → turn libc b'%' (b'c' ∷ rest) s ≡ print_char libc (record s { str = rest })
  unfolding turn escape format_loop format_char spec command number_spec
  turn-c [] s = refl
  turn-c (d ∷ rest) s = refl
