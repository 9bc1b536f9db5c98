-- ===== src/Terminfo/Read/Values.antt =====
-- How _ti_readterm of lib/libterminfo/term.c reads the capabilities that a buffer holds.
use netbsd_curses.Base.{
  ℕ, ◌^◌, ◌<◌, ◌≡◌, refl, sym, ap, ◌∙◌, subst, lt→ltb, Bool, List, [], ◌∷◌, ◌++◌, length, set,
  length-set,
}
use netbsd_curses.Base.Int.{ℤ, pos}
use netbsd_curses.Terminfo.Bytes.{Answer, gives, ◌>>=◌, unsigned, decode_num, Rtype, o1, v3, split}
use netbsd_curses.Terminfo.Bytes.RoundTrip.{
  u16, decode_16-u16, decode_32-u32, unsigned_16, unsigned_small, signed-unsigned,
  signed_8-unsigned, IsChar, decode_16-then, split-append,
}
use netbsd_curses.Terminfo.Tbuf.{first}
use netbsd_curses.Terminfo.Tbuf.Writes.{num_bytes}
use netbsd_curses.Terminfo.Tbuf.Entries.{
  Value, num, kind, value_bytes, Cap, caps_bytes, IsFit, AllOf, one_more,
}
use netbsd_curses.Terminfo.Read.{
  boolean, numeric, string, store, read_str, read_caps, read_flag, read_num, read_string,
}
use mathlib.Core.List.{append_assoc}

-- A number written with 16 bits is read without a sign.
abbrev pub num_read : Rtype → ℤ → ℤ
num_read o1 z = pos (unsigned 16 z)
num_read v3 z = z

pub decode_num-bytes :
    (rtype : Rtype) (z : ℤ) (cap : List ℕ)
    → IsFit (num z)
    → decode_num (num_bytes rtype z ++ cap) rtype ≡ gives (num_read rtype z, cap)
unfolding decode_num
decode_num-bytes o1 z cap h =
    ap (λ (r : Answer (ℕ × List ℕ)). r >>= λ q. gives (pos (q.0), q.1))
      (decode_16-u16 (unsigned 16 z) cap (unsigned_16 z))
decode_num-bytes v3 z cap h =
    decode_32-u32 (unsigned 32 z) cap (unsigned_small z)
    ∙ ap (λ k. gives (k, cap)) (signed-unsigned z h)

pub decode_num-next {ℓ} :
    {B : Type ℓ} (rtype : Rtype) (z : ℤ) (cap : List ℕ) (k : ℤ × List ℕ → Answer B)
    → IsFit (num z)
    → (decode_num (num_bytes rtype z ++ cap) rtype >>= k) ≡ k (num_read rtype z, cap)
decode_num-next rtype z cap k h =
    ap (λ (r : Answer (ℤ × List ℕ)). r >>= k) (decode_num-bytes rtype z cap h)

pub read_flag-bytes :
    (raw : Bool) (z : ℤ) (cap : List ℕ)
    → IsChar z
    → read_flag raw (unsigned 8 z ∷ cap) ≡ gives (boolean raw z, cap)
unfolding read_flag split first
read_flag-bytes raw z cap h = ap (λ k. gives (boolean raw k, cap)) (signed_8-unsigned z h)

pub read_num-bytes :
    (raw : Bool) (rtype : Rtype) (z : ℤ) (cap : List ℕ)
    → IsFit (num z)
    → read_num raw rtype (num_bytes rtype z ++ cap) ≡ gives (numeric raw (num_read rtype z), cap)
unfolding read_num
read_num-bytes raw rtype z cap h =
    ap (λ (r : Answer (ℤ × List ℕ)). r >>= λ q. gives (numeric raw (q.0), q.1))
      (decode_num-bytes rtype z cap h)

pub read_str-bytes :
    (s cap : List ℕ) → length s < 2 ^ 16 → read_str ((u16 (length s) ++ s) ++ cap) ≡ gives (s, cap)
unfolding read_str
read_str-bytes s cap h =
    decode_16-then (length s) s cap (λ r. split (r.0) (r.1)) h ∙ split-append s cap

pub read_str-then {ℓ} :
    {B : Type ℓ} (s cap : List ℕ) (k : List ℕ × List ℕ → Answer B)
    → length s < 2 ^ 16
    → (read_str ((u16 (length s) ++ s) ++ cap) >>= k) ≡ k (s, cap)
read_str-then s cap k h = ap (λ (r : Answer (List ℕ × List ℕ)). r >>= k) (read_str-bytes s cap h)

pub read_string-bytes :
    (raw : Bool) (s cap : List ℕ)
    → length s < 2 ^ 16
    → read_string raw ((u16 (length s) ++ s) ++ cap) ≡ gives (string raw s, cap)
unfolding read_string
read_string-bytes raw s cap h =
    ap (λ (r : Answer (List ℕ × List ℕ)). r >>= λ q. gives (string raw (q.0), q.1))
      (read_str-bytes s cap h)

-- Every index is below `n`.
pub data Below (n : ℕ) : List Cap → Type 0 where
  end_below : Below n []
  and_below : (c : Cap) (cs : List Cap) → c.ind < n → Below n cs → Below n (c ∷ cs)

module _ {ℓ} {A : Type ℓ} where
  -- An array after the assignments of a list of capabilities, in their order.
  abbrev pub assign : (Value → A) → List Cap → List A → List A
  assign f [] xs = xs
  assign f (c ∷ cs) xs = assign f cs (set xs c.ind (f c.value))

  store-set : (xs : List A) (i : ℕ) (v : A) → i < length xs → store xs i v ≡ gives (set xs i v)
  unfolding store
  store-set xs i v h = rw (lt→ltb i (length xs) h)

  -- A loop over values that `read` reads back assigns them all.
  pub read_caps-assign :
      (rtype : Rtype) (k : ℕ) (read : List ℕ → Answer (A × List ℕ)) (f : Value → A)
      → ((v : Value) (cap : List ℕ)
          → kind v ≡ k
          → IsFit v
          → read (value_bytes rtype v ++ cap) ≡ gives (f v, cap))
      → (cs : List Cap) (xs : List A) (cap : List ℕ) → AllOf k cs
      → Below (length xs) cs
      → read_caps read (length cs) (caps_bytes rtype cs ++ cap) xs ≡ gives (assign f cs xs, cap)
  unfolding read_caps
  read_caps-assign rtype k read f back [] xs cap h b = refl
  read_caps-assign rtype k read f back (c ∷ cs) xs cap (one_more _ _ e i fit h)
        (and_below _ _ l b) =
      decode_16-then c.ind (value_bytes rtype c.value ++ caps_bytes rtype cs) cap _ i
      ∙ ap
          (λ bs.
            read bs >>= λ r. store xs c.ind (r.0) >>= λ xs'. read_caps read (length cs) (r.1) xs')
          (append_assoc (value_bytes rtype c.value) (caps_bytes rtype cs) cap)
      ∙ ap
          (λ (q : Answer (A × List ℕ)).
            q >>= λ r. store xs c.ind (r.0) >>= λ xs'. read_caps read (length cs) (r.1) xs')
          (back c.value (caps_bytes rtype cs ++ cap) e fit)
      ∙ ap
          (λ (q : Answer (List A)).
            q >>= λ xs'. read_caps read (length cs) (caps_bytes rtype cs ++ cap) xs')
          (store-set xs c.ind (f c.value) l)
      ∙ read_caps-assign rtype k read f back cs (set xs c.ind (f c.value)) cap h
          (subst (λ n. Below n cs) (sym (length-set xs c.ind (f c.value))) b)
