-- ===== src/Terminfo/Tparm/Commands.antt =====
-- The commands of lib/libterminfo/tparm.c: none makes the string longer, and the buffer stays in order.
use netbsd_curses.Base.{
  ℕ, ◌+◌, ◌-◌, ◌%◌, ◌^◌, ◌≤◌, ltb, ◌==◌, if◌then◌else◌, true, Option, none, some, List, [], ◌∷◌,
  ◌++◌, length, length-append, max, get_or, arith, if_cases, ltb_ge,
}
use netbsd_curses.Terminfo.Tparm.{number, Push, pushed, refused, overrun, push, Buffer, checkbuf}
use netbsd_curses.Terminfo.Tparm.Analyse.{is_digit}
use netbsd_curses.Terminfo.Tparm.Format.{Spec}
use netbsd_curses.Terminfo.Tparm.Machine.{
  Libc, State, Turn, go, null, fault, pushing, popped, skip, skip_to, digits, print_number,
  print_string, load_param, store_variable, load_variable, load_quoted, load_number, then_part,
  push_length, peek, after_skip, quote, string_length,
}
use netbsd_curses.Terminfo.Tparm.Ends.{
  Grown, checkbuf-Grown, Good, pushing-Good, NoLonger, skip-NoLonger, skip_to-NoLonger,
  length-digits, at_str-Good,
}

pub print_number-Good :
    (n : ℕ) (libc : Libc) (f : Spec) (s : State) → Good n (go s) → Good n (print_number libc f s)
unfolding print_number
print_number-Good n libc f s h =
    of (checkbuf libc.room (len + 2) s.buffer) (checkbuf-Grown libc.room (len + 2) s.buffer h.1)
  where
    s1 : State
    s1 = (popped s).1

    text : List ℕ
    text = libc.print_num f.fmt ((popped s).0.num % 2 ^ 32)

    len : ℕ
    len = max f.olen 21

    of :
        (r : Option Buffer)
        → Grown s.buffer (len + 2) r
        → Good n (elim r [
          | none ↦ null
          | some b ↦
              if length text == 0
              then null
              else if ltb (len + 1) (length text)
              then fault
              else go (record s1 { buffer = record b { text = b.text ++ text } })
        ])
    of none k = tt
    of (some b) k =
        if_cases (Good n) (length text == 0) null _ (λ _. tt)
          λ _.
            if_cases (Good n) (ltb (len + 1) (length text)) fault _ (λ _. tt)
              λ e. (
                h.0,
                omega (arith, length-append b.text text, ltb_ge (len + 1) (length text) e, k.1),
              )

pub print_string-Good :
    (n : ℕ) (libc : Libc) (f : Spec) (s : State) → Good n (go s) → Good n (print_string libc f s)
unfolding print_string
print_string-Good n libc f s h = shown (popped s).0.string
  where
    s1 : State
    s1 = (popped s).1

    stored : (l : ℕ) (text : List ℕ) → Option Buffer → Turn
    stored l text r = elim r [
      | none ↦ null
      | some b ↦
          if ltb l (length text)
          then fault
          else go (record s1 { buffer = record b { text = b.text ++ text } })
    ]

    of :
        (l : ℕ) (text : List ℕ) (r : Option Buffer)
        → Grown s.buffer (l + 1) r
        → Good n (stored l text r)
    of l text none k = tt
    of l text (some b) k =
        if_cases (Good n) (ltb l (length text)) fault _ (λ _. tt)
          λ e. (h.0, omega (arith, length-append b.text text, ltb_ge l (length text) e, k.1))

    shown :
        (v : Option (List ℕ))
        → Good n (elim v [
          | none ↦ go s1
          | some cs ↦
              let l = max (length cs) f.olen in
              stored l (libc.print_str f.fmt cs) (checkbuf libc.room (l + 1) s1.buffer)
        ])
    shown none = h
    shown (some cs) =
        let l = max (length cs) f.olen in
        of l (libc.print_str f.fmt cs) (checkbuf libc.room (l + 1) s.buffer)
          (checkbuf-Grown libc.room (l + 1) s.buffer h.1)

peek-Good :
    (n : ℕ) (s : State) (k : ℕ → List ℕ → Turn)
    → Good n (go s)
    → ((c : ℕ) (str : List ℕ) → length str ≤ n → Good n (k c str))
    → Good n (peek s k)
peek-Good n s k h step = of s.str h.0
  where
    of : (xs : List ℕ) → length xs ≤ n → Good n (elim xs [ [] ↦ fault | c ∷ str ↦ k c str ])
    of [] l = tt
    of (c ∷ xs) l = step c xs (omega arith)

after_skip-Good :
    (n : ℕ) (s : State) (t : Turn) (k : List ℕ → Option (List ℕ))
    → ((xs : List ℕ) → NoLonger xs (k xs))
    → Good n t
    → Good n (after_skip s t k)
after_skip-Good n s (go s') k short h = at_str-Good n s' (k s'.str) h (short s'.str)
after_skip-Good n s null k short h = tt
after_skip-Good n s fault k short h = tt

pub load_param-Good : (n : ℕ) (s : State) → Good n (go s) → Good n (load_param s)
unfolding load_param
load_param-Good n s h = peek-Good n s _ h λ c str l.
    if_cases (Good n) (is_digit b'1' b'9' c)
      (pushing (get_or s.params (c - b'1') (number 0)) (record s { str = str })) (go s)
      (λ _. pushing-Good n _ (record s { str = str }) (l, h.1)) (λ _. h)

pub store_variable-Good : (n : ℕ) (s : State) → Good n (go s) → Good n (store_variable s)
unfolding store_variable
store_variable-Good n s h = peek-Good n (popped s).1 _ h λ c str l.
    if_cases (Good n) (is_digit b'a' b'z' c) _ _ (λ _. h)
      λ _. if_cases (Good n) (is_digit b'A' b'Z' c) _ _ (λ _. h) (λ _. h)

pub load_variable-Good : (n : ℕ) (s : State) → Good n (go s) → Good n (load_variable s)
unfolding load_variable
load_variable-Good n s h = peek-Good n s _ h λ c str l.
    if_cases (Good n) (is_digit b'a' b'z' c) _ _ (λ _. pushing-Good n _ s h)
      λ _. if_cases (Good n) (is_digit b'A' b'Z' c) _ _ (λ _. pushing-Good n _ s h) (λ _. h)

pub load_quoted-Good : (n : ℕ) (s : State) → Good n (go s) → Good n (load_quoted s)
unfolding load_quoted
load_quoted-Good n s h = peek-Good n s _ h λ c str l.
    after_skip-Good n s (pushing (number c) (record s { str = str })) (skip_to quote)
      (skip_to-NoLonger quote) (pushing-Good n (number c) (record s { str = str }) (l, h.1))

pub load_number-Good : (n : ℕ) (s : State) → Good n (go s) → Good n (load_number s)
unfolding load_number
load_number-Good n s h =
    let r = digits 0 s.str in
    let s' : State = record s { str = r.1 } in
    after_skip-Good n s (pushing (number r.0) s') (skip_to b'}') (skip_to-NoLonger b'}')
      (pushing-Good n (number r.0) s' (omega (arith, length-digits 0 s.str, h.0), h.1))

pub then_part-Good : (n : ℕ) (s : State) → Good n (go s) → Good n (then_part s)
unfolding then_part
then_part-Good n s h =
    if_cases (Good n) ((popped s).0.num == 0) _ _
      (λ _. at_str-Good n (popped s).1 (skip true 0 s.str) h (skip-NoLonger true 0 s.str)) (λ _. h)

pub push_length-Good : (n : ℕ) (s : State) → Good n (go s) → Good n (push_length s)
unfolding push_length
push_length-Good n s h = of (push (number (string_length (popped s).0)) (popped s).1.stack)
  where
    of :
        (p : Push)
        → Good n (elim p [
          | pushed st ↦ go (record (popped s).1 { stack = st })
          | refused ↦ go (popped s).1
          | overrun ↦ fault
        ])
    of (pushed st) = h
    of refused = h
    of overrun = tt
