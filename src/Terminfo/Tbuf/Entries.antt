-- ===== src/Terminfo/Tbuf/Entries.antt =====
-- The capabilities that a buffer of lib/libterminfo/compile.c stands for, and how they are found in it.
use netbsd_curses.Base.{
  ℕ, ◌^◌, ◌<◌, ◌≡◌, refl, sym, ap, ◌∙◌, ◌==◌, if◌then◌else◌, subst, length-append, ◌||◌, Bool, true,
  false, Option, none, some, List, [], ◌∷◌, ◌++◌, length, arith,
}
use netbsd_curses.Base.Int.{ℤ}
use netbsd_curses.Terminfo.Bytes.{Answer, gives, ◌>>=◌, unsigned, Rtype, split}
use netbsd_curses.Terminfo.Bytes.RoundTrip.{u16, IsInt, IsChar, decode_16-then, split-then}
use netbsd_curses.Terminfo.Tbuf.{Tbuf, skip_value, find_from, find_cap, is_some}
use netbsd_curses.Terminfo.Tbuf.Writes.{appended, num_bytes, length-num_bytes}
use mathlib.Core.List.{append_assoc, append-nil}

pub data Value : Type 0 where
  flag num : ℤ → Value
  str : List ℕ → Value

abbrev pub kind : Value → ℕ
kind (flag z) = b'f'
kind (num z) = b'n'
kind (str s) = b's'

abbrev pub value_bytes : Rtype → Value → List ℕ
value_bytes rtype (flag z) = unsigned 8 z ∷ []
value_bytes rtype (num z) = num_bytes rtype z
value_bytes rtype (str s) = u16 (length s) ++ s

pub record Cap : Type 0 where
  pub ind : ℕ
  pub value : Value

abbrev pub caps_bytes : Rtype → List Cap → List ℕ
caps_bytes rtype [] = []
caps_bytes rtype (c ∷ cs) = u16 c.ind ++ (value_bytes rtype c.value ++ caps_bytes rtype cs)

-- What a capability has room for; lengths take 16 bits.
abbrev pub IsFit : Value → Type 0
IsFit (flag z) = IsChar z
IsFit (num z) = IsInt z
IsFit (str s) = length s < 2 ^ 16

pub data AllOf (k : ℕ) : List Cap → Type 0 where
  none_left : AllOf k []
  one_more :
      (c : Cap) (cs : List Cap)
      → kind c.value ≡ k
      → c.ind < 2 ^ 16
      → IsFit c.value
      → AllOf k cs
      → AllOf k (c ∷ cs)

-- A buffer of capabilities of one type.
pub record Holds (rtype : Rtype) (k : ℕ) (t : Tbuf) (cs : List Cap) : Type 0 where
  pub bytes : t.text ≡ caps_bytes rtype cs
  pub count : t.entries ≡ length cs
  pub fits : AllOf k cs

pub skip_value-bytes :
    (rtype : Rtype) (v : Value) (cap : List ℕ)
    → IsFit v
    → skip_value rtype (kind v) (value_bytes rtype v ++ cap) ≡ gives cap
unfolding skip_value split
skip_value-bytes rtype (flag z) cap h = refl
skip_value-bytes rtype (num z) cap h =
    ap (λ n. split n (num_bytes rtype z ++ cap) >>= λ r. gives (r.1))
      (sym (length-num_bytes rtype z))
    ∙ split-then (num_bytes rtype z) cap (λ r. gives (r.1))
skip_value-bytes rtype (str s) cap h =
    decode_16-then (length s) s cap (λ r. split (r.0) (r.1) >>= λ q. gives (q.1)) h
    ∙ split-then s cap (λ q. gives (q.1))

skip_value-kind :
    (rtype : Rtype) (v : Value) (k : ℕ) (cap : List ℕ)
    → kind v ≡ k
    → IsFit v
    → skip_value rtype k (value_bytes rtype v ++ cap) ≡ gives cap
skip_value-kind rtype v k cap e h =
    subst (λ k. skip_value rtype k (value_bytes rtype v ++ cap) ≡ gives cap) e
      (skip_value-bytes rtype v cap h)

gives_if {ℓ} :
    {A : Type ℓ} (b : Bool) (x y : A)
    → (if b then gives x else gives y) ≡ gives (if b then x else y)
gives_if true x y = refl
gives_if false x y = refl

-- The bytes at the first capability with an index: its value and all that follows.
abbrev pub found : Rtype → ℕ → List Cap → List ℕ → Option (List ℕ)
found rtype i [] cap = none
found rtype i (c ∷ cs) cap =
    if c.ind == i
    then some (value_bytes rtype c.value ++ (caps_bytes rtype cs ++ cap))
    else found rtype i cs cap

pub find_from-found :
    (rtype : Rtype) (k i : ℕ) (cs : List Cap) (cap : List ℕ)
    → AllOf k cs
    → find_from rtype k i (length cs) (caps_bytes rtype cs ++ cap) ≡ gives (found rtype i cs cap)
unfolding find_from
find_from-found rtype k i [] cap h = refl
find_from-found rtype k i (c ∷ cs) cap (one_more _ _ e b f h) =
    decode_16-then c.ind (value_bytes rtype c.value ++ caps_bytes rtype cs) cap
      (λ r.
        if r.0 == i
        then gives (some (r.1))
        else (skip_value rtype k (r.1) >>= λ cap. find_from rtype k i (length cs) cap))
      b
    ∙ ap
        (λ bs.
          if c.ind == i
          then gives (some bs)
          else (skip_value rtype k bs >>= λ cap. find_from rtype k i (length cs) cap))
        (append_assoc (value_bytes rtype c.value) (caps_bytes rtype cs) cap)
    ∙ ap
        (λ (r : Answer (Option (List ℕ))).
          if c.ind == i
          then gives (some (value_bytes rtype c.value ++ (caps_bytes rtype cs ++ cap)))
          else r)
        (ap (λ (r : Answer (List ℕ)). r >>= λ cap. find_from rtype k i (length cs) cap)
            (skip_value-kind rtype c.value k (caps_bytes rtype cs ++ cap) e f)
          ∙ find_from-found rtype k i cs cap h)
    ∙ gives_if (c.ind == i) _ _

-- Whether a capability with an index is there.
abbrev pub has : ℕ → List Cap → Bool
has i [] = false
has i (c ∷ cs) = (c.ind == i) || has i cs

if_some {ℓ} :
    {A : Type ℓ} (b : Bool) (x : A) (o : Option A)
    → is_some (if b then some x else o) ≡ (b || is_some o)
if_some true x o = refl
if_some false x o = refl

-- In a buffer that holds capabilities of one type, the search for an index ends inside the
-- buffer, and finds something just if one of the capabilities has the index.
pub find_cap-has :
    (rtype : Rtype) (k i : ℕ) (t : Tbuf) (cs : List Cap)
    → Holds rtype k t cs
    → (find_cap rtype t k i >>= λ o. gives (is_some o)) ≡ gives (has i cs)
unfolding find_cap
find_cap-has rtype k i t cs h =
    ap (λ n. find_from rtype k i n t.text >>= λ o. gives (is_some o)) h.count
    ∙ ap (λ bs. find_from rtype k i (length cs) bs >>= λ o. gives (is_some o))
        (h.bytes ∙ sym (append-nil (caps_bytes rtype cs)))
    ∙ ap (λ (r : Answer (Option (List ℕ))). r >>= λ o. gives (is_some o))
        (find_from-found rtype k i cs [] h.fits)
    ∙ ap gives (has-found i cs)
  where
    has-found : (i : ℕ) (cs : List Cap) → is_some (found rtype i cs []) ≡ has i cs
    has-found i [] = refl
    has-found i (c ∷ cs) =
        if_some (c.ind == i) (value_bytes rtype c.value ++ (caps_bytes rtype cs ++ []))
          (found rtype i cs [])
        ∙ ap (λ r. (c.ind == i) || r) (has-found i cs)

snoc_AllOf :
    (k : ℕ) (cs : List Cap) (c : Cap)
    → AllOf k cs
    → kind c.value ≡ k
    → c.ind < 2 ^ 16
    → IsFit c.value
    → AllOf k (cs ++ c ∷ [])
snoc_AllOf k [] c none_left e b f = one_more c [] e b f none_left
snoc_AllOf k (d ∷ cs) c (one_more _ _ e' b' f' h) e b f =
    one_more d (cs ++ c ∷ []) e' b' f' (snoc_AllOf k cs c h e b f)

caps_bytes-snoc :
    (rtype : Rtype) (cs : List Cap) (c : Cap)
    → caps_bytes rtype (cs ++ c ∷ [])
      ≡ caps_bytes rtype cs ++ (u16 c.ind ++ value_bytes rtype c.value)
caps_bytes-snoc rtype [] c = ap (λ bs. u16 c.ind ++ bs) (append-nil (value_bytes rtype c.value))
caps_bytes-snoc rtype (d ∷ cs) c =
    ap (λ bs. u16 d.ind ++ (value_bytes rtype d.value ++ bs)) (caps_bytes-snoc rtype cs c)
    ∙ ap (λ bs. u16 d.ind ++ bs)
        (sym (
          append_assoc (value_bytes rtype d.value) (caps_bytes rtype cs)
            (u16 c.ind ++ value_bytes rtype c.value)))
    ∙ sym (
        append_assoc (u16 d.ind) (value_bytes rtype d.value ++ caps_bytes rtype cs)
          (u16 c.ind ++ value_bytes rtype c.value))

pub Holds-appended :
    (rtype : Rtype) (k : ℕ) (t : Tbuf) (cs : List Cap) (c : Cap)
    → Holds rtype k t cs
    → kind c.value ≡ k
    → c.ind < 2 ^ 16
    → IsFit c.value
    → Holds rtype k (appended t (u16 c.ind ++ value_bytes rtype c.value)) (cs ++ c ∷ [])
unfolding appended
Holds-appended rtype k t cs c h e b f = record {
  bytes =
      ap (λ bs. bs ++ (u16 c.ind ++ value_bytes rtype c.value)) h.bytes
      ∙ sym (caps_bytes-snoc rtype cs c);
  count = omega (arith, h.count, length-append cs (c ∷ []));
  fits = snoc_AllOf k cs c h.fits e b f;
}
