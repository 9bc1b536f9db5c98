-- ===== src/Terminfo/Tparm/Ends.antt =====
-- The helpers of lib/libterminfo/tparm.c: what they leave of the string, and the room in the buffer.
use netbsd_curses.Base.{
  ℕ, ◌+◌, ◌-◌, ◌*◌, ◌%◌, ◌≤◌, ◌<◌, ◌≡◌, ltb, ◌==◌, if◌then◌else◌, Bool, not, ◌&&◌, Option, none,
  some, List, [], ◌∷◌, ◌++◌, length, length-append, arith, if_cases,
}
use netbsd_curses.Terminfo.Tparm.{
  Value, Push, pushed, refused, overrun, push, Buffer, checkbuf, ochar, word,
}
use netbsd_curses.Terminfo.Tparm.Analyse.{is_digit}
use netbsd_curses.Terminfo.Tparm.Machine.{
  State, Turn, go, null, fault, with_buffer, pushing, skip, skip_to, digits, at_str,
}

-- The text and its final NUL have room.
abbrev pub Fits : Buffer → Type 0
Fits b = length b.text < b.size

abbrev pub Grown : Buffer → ℕ → Option Buffer → Type 0
Grown b len none = Unit {0}
Grown b len (some b') = (b'.text ≡ b.text) × (length b'.text + len < b'.size)

-- If the text and its NUL fit in the buffer, and the memory does not run out, checkbuf keeps the
-- text and makes room for `len` characters and a NUL behind it.
pub checkbuf-Grown :
    (room : ℕ → Bool) (len : ℕ) (b : Buffer) → Fits b → Grown b len (checkbuf room len b)
unfolding checkbuf
checkbuf-Grown room len b h = ground arith

-- After a round: the string is no longer than `n`, and the buffer is in order.
abbrev pub Good : ℕ → Turn → Type 0
Good n null = Unit {0}
Good n fault = Unit {0}
Good n (go s) = (length s.str ≤ n) × Fits s.buffer

pub pushing-Good : (n : ℕ) (v : Value) (s : State) → Good n (go s) → Good n (pushing v s)
pushing-Good n v s h = of (push v s.stack)
  where
    of :
        (p : Push)
        → Good n
            (elim p [ pushed st ↦ go (record s { stack = st }) | refused ↦ null | overrun ↦ fault ])
    of (pushed st) = h
    of refused = tt
    of overrun = tt

abbrev pub NoLonger : List ℕ → Option (List ℕ) → Type 0
NoLonger xs none = Unit {0}
NoLonger xs (some ys) = length ys ≤ length xs

NoLonger-weaken :
    (xs ys : List ℕ) (r : Option (List ℕ)) → length xs ≤ length ys → NoLonger xs r → NoLonger ys r
NoLonger-weaken xs ys none h k = tt
NoLonger-weaken xs ys (some zs) h k = omega arith

pub skip-NoLonger : (e : Bool) (l : ℕ) (xs : List ℕ) → NoLonger xs (skip e l xs)
unfolding skip
skip-NoLonger e l [] = tt
skip-NoLonger e l (c ∷ []) = ground arith
skip-NoLonger e l (c ∷ d ∷ xs) =
    if_cases P (c == 0) _ _ (λ _. omega arith)
      λ _.
        if_cases P (not (c == b'%')) _ _
          (λ _. shorter (d ∷ xs) _ (omega arith) (skip-NoLonger e l (d ∷ xs)))
          λ _.
            if_cases P (d == b'?') _ _
              (λ _. shorter xs _ (omega arith) (skip-NoLonger e (l + 1) xs))
              λ _.
                if_cases P (d == b';') _ _
                  (λ _.
                    if_cases P (ltb 0 l) _ _
                      (λ _. shorter xs _ (omega arith) (skip-NoLonger e (l - 1) xs))
                      (λ _. omega arith))
                  λ _.
                    if_cases P (d == b'e' && (l == 0 && e)) _ _ (λ _. omega arith)
                      λ _. shorter xs _ (omega arith) (skip-NoLonger e l xs)
  where
    P : Option (List ℕ) → Type 0
    P r = NoLonger (c ∷ d ∷ xs) r

    shorter :
        (ys : List ℕ) (r : Option (List ℕ)) → length ys ≤ length (c ∷ d ∷ xs) → NoLonger ys r → P r
    shorter ys r h k = NoLonger-weaken ys (c ∷ d ∷ xs) r h k

pub skip_to-NoLonger : (q : ℕ) (xs : List ℕ) → NoLonger xs (skip_to q xs)
unfolding skip_to
skip_to-NoLonger q [] = tt
skip_to-NoLonger q (c ∷ xs) =
    if_cases (NoLonger (c ∷ xs)) (c == q) (some xs) _ (λ _. omega arith)
      λ _.
        if_cases (NoLonger (c ∷ xs)) (c == 0) (some (c ∷ xs)) (skip_to q xs) (λ _. omega arith)
          λ _. NoLonger-weaken xs (c ∷ xs) (skip_to q xs) (omega arith) (skip_to-NoLonger q xs)

pub length-digits : (v : ℕ) (xs : List ℕ) → length (digits v xs).1 ≤ length xs
unfolding digits
length-digits v [] = omega arith
length-digits v (c ∷ xs) =
    if_cases (λ (r : ℕ × List ℕ). length r.1 ≤ length (c ∷ xs)) (is_digit b'0' b'9' c) _ _
      (λ _. omega (arith, length-digits ((v * 10 + (c - b'0')) % word) xs)) (λ _. omega arith)

pub at_str-Good :
    (n : ℕ) (s : State) (r : Option (List ℕ))
    → Good n (go s)
    → NoLonger s.str r
    → Good n (at_str s r)
at_str-Good n s none h k = tt
at_str-Good n s (some str) h k = (omega arith, h.1)

abbrev pub OkBuffer : Option Buffer → Type 0
OkBuffer none = Unit {0}
OkBuffer (some b) = Fits b

pub ochar-OkBuffer : (room : ℕ → Bool) (c : ℕ) (b : Buffer) → Fits b → OkBuffer (ochar room c b)
unfolding ochar
ochar-OkBuffer room c b h = of (checkbuf room 2 b) (checkbuf-Grown room 2 b h)
  where
    of :
        (r : Option Buffer)
        → Grown b 2 r
        → OkBuffer (elim r [
          | none ↦ none
          | some b' ↦ some (record b' { text = b'.text ++ (if c == 0 then 128 else c % 256) ∷ [] })
        ])
    of none k = tt
    of (some b') k = omega (arith, length-append b'.text ((if c == 0 then 128 else c % 256) ∷ []))

pub with_buffer-Good :
    (n : ℕ) (s : State) (r : Option Buffer) → Good n (go s) → OkBuffer r → Good n (with_buffer s r)
with_buffer-Good n s none h k = tt
with_buffer-Good n s (some b) h k = (h.0, k)
