-- ===== src/Terminfo/Read/Elements.antt =====
-- The arrays that _ti_readterm of lib/libterminfo/term.c fills, element by element.
use netbsd_curses.Base.{
  ℕ, zero, suc, ◌<◌, ◌≡◌, ◌≢◌, refl, sym, ap, ◌∙◌, subst, ◌==◌, if◌then◌else◌, Bool-cases, inl, inr,
  Bool, true, false, Option, none, some, List, [], ◌∷◌, length, length-set, set, get_or, replicate,
  arith,
}
use netbsd_curses.Base.Int.{ℤ, pos, negsuc}
use netbsd_curses.Terminfo.Bytes.{gives, fails, ◌>>=◌, unsigned, Rtype, o1, v3}
use netbsd_curses.Terminfo.Tbuf.Entries.{Value, flag, num, str, Cap, has}
use netbsd_curses.Terminfo.Compile.{Host, Tic}
use netbsd_curses.Terminfo.Compile.Flatten.{flat_size, flatten}
use netbsd_curses.Terminfo.Compile.Keeps.{Distinct, none_twice, once, IsTic, or_false}
use netbsd_curses.Terminfo.Read.{
  Sizes, Terminal, Str, at, cancelled, absent, boolean, is_boolean, numeric, string, readterm,
}
use netbsd_curses.Terminfo.Compile.Promote.{is_number}
use netbsd_curses.Terminfo.Read.Flat.{IsFlatTic}
use netbsd_curses.Terminfo.Read.Values.{Below, and_below, assign}
use netbsd_curses.Terminfo.Read.Records.{
  IsNamed, terminal, readterm-flatten, flag_value, num_value, str_value, length-replicate,
}

-- The value of the capability with an index.
abbrev pub value_of : ℕ → List Cap → Option Value
value_of i [] = none
value_of i (c ∷ cs) = if c.ind == i then some c.value else value_of i cs

module _ {ℓ} {A : Type ℓ} where
  get-set_same : (xs : List A) (i : ℕ) (v d : A) → i < length xs → get_or (set xs i v) i d ≡ v
  get-set_same [] i v d h = ground arith
  get-set_same (x ∷ xs) zero v d h = refl
  get-set_same (x ∷ xs) (suc i) v d h = get-set_same xs i v d (omega (arith, h))

  get-set_other :
      (xs : List A) (i j : ℕ) (v d : A) → i ≢ j → get_or (set xs i v) j d ≡ get_or xs j d
  get-set_other [] i j v d h = refl
  get-set_other (x ∷ xs) zero zero v d h = elim (h refl) [ ]
  get-set_other (x ∷ xs) zero (suc j) v d h = refl
  get-set_other (x ∷ xs) (suc i) zero v d h = refl
  get-set_other (x ∷ xs) (suc i) (suc j) v d h = get-set_other xs i j v d (λ e. h (ap suc e))

  -- Assignments at other indices leave an element.
  assign_elsewhere :
      (f : Value → A) (cs : List Cap) (xs : List A) (i : ℕ) (d : A)
      → has i cs ≡ false
      → get_or (assign f cs xs) i d ≡ get_or xs i d
  assign_elsewhere f [] xs i d h = refl
  assign_elsewhere f (c ∷ cs) xs i d h =
      let (e, rest) = or_false (c.ind == i) (has i cs) h in
      assign_elsewhere f cs (set xs c.ind (f c.value)) i d rest
      ∙ get-set_other xs c.ind i (f c.value) d (λ same. ground (arith, e, same))

  abbrev pub value_or : (Value → A) → A → Option Value → A
  value_or f a none = a
  value_or f a (some v) = f v

  pub assign-get :
      (f : Value → A) (cs : List Cap) (xs : List A) (i : ℕ) (d : A)
      → Distinct cs
      → Below (length xs) cs
      → get_or (assign f cs xs) i d ≡ value_or f (get_or xs i d) (value_of i cs)
  assign-get f [] xs i d none_twice b = refl
  assign-get f (c ∷ cs) xs i d (once _ _ new h) (and_below _ _ l b) =
      elim (Bool-cases (c.ind == i)) [
        | inl e ↦
            let same : c.ind ≡ i = ground arith in
            assign_elsewhere f cs (set xs c.ind (f c.value)) i d
              (subst (λ j. has j cs ≡ false) same new)
            ∙ subst (λ j. get_or (set xs c.ind (f c.value)) j d ≡ f c.value) same
                (get-set_same xs c.ind (f c.value) d l)
            ∙ sym
                (ap (λ b. value_or f (get_or xs i d) (if b then some c.value else value_of i cs)) e)
        | inr e ↦
            assign-get f cs (set xs c.ind (f c.value)) i d h
              (subst (λ n. Below n cs) (sym (length-set xs c.ind (f c.value))) b)
            ∙ ap (λ a. value_or f a (value_of i cs))
                (get-set_other xs c.ind i (f c.value) d (λ same. ground (arith, e, same)))
            ∙ sym
                (ap (λ b. value_or f (get_or xs i d) (if b then some c.value else value_of i cs)) e)
      ]

  get-replicate : (n i : ℕ) (a : A) → get_or (replicate n a) i a ≡ a
  get-replicate zero i a = refl
  get-replicate (suc n) zero a = refl
  get-replicate (suc n) (suc i) a = get-replicate n i a

-- The terminal of a description that _ti_compile keeps well-formed.
abbrev pub terminal_of :
    (host : Host) (sizes : Sizes) → Bool → (tic : Tic) → IsTic host sizes tic → Terminal
terminal_of host sizes raw tic w = terminal sizes raw tic w.flags.0 w.nums.0 w.strs.0 w.extras.0

-- For a description with the compiler's invariant, whose buffers and names have lengths of 16
-- bits, reading the bytes that it is laid out as gives the terminal of its capabilities, if
-- there is memory for them.
pub flatten-readterm :
    (host : Host) (sizes : Sizes) (raw : Bool) (tic : Tic) (w : IsTic host sizes tic)
    → IsFlatTic tic
    → IsNamed tic
    → (flatten host tic >>= λ bytes. readterm sizes raw bytes)
      ≡ (if host.grants (flat_size tic) then gives (terminal_of host sizes raw tic w) else fails)
flatten-readterm host sizes raw tic w fit named =
    readterm-flatten host sizes raw tic w.flags.0 w.nums.0 w.strs.0 w.extras.0 fit named
      (record { flags = w.flags.1; nums = w.nums.1; strs = w.strs.1; extras = w.extras.1 })
      w.flags.2 w.nums.2 w.strs.2

-- The arrays, in terms of how the values are read.
terminal_of-elements :
    (host : Host) (sizes : Sizes) (raw : Bool) (tic : Tic) (w : IsTic host sizes tic) (i : ℕ)
    → (get_or (terminal_of host sizes raw tic w).flags i (pos 0)
        ≡ value_or (flag_value raw) (pos 0) (value_of i w.flags.0))
      × (get_or (terminal_of host sizes raw tic w).nums i (negsuc 0)
          ≡ value_or (num_value raw tic.rtype) (negsuc 0) (value_of i w.nums.0))
      × (get_or (terminal_of host sizes raw tic w).strs i absent
          ≡ value_or (str_value raw) absent (value_of i w.strs.0))
terminal_of-elements host sizes raw tic w i = (
  element (flag_value raw) sizes.flags (pos 0) w.flags.0 w.flags.3 w.flags.2,
  element (num_value raw tic.rtype) sizes.nums (negsuc 0) w.nums.0 w.nums.3 w.nums.2,
  element (str_value raw) sizes.strs absent w.strs.0 w.strs.3 w.strs.2,
)
  where
    element :
        {A : Type 0} (f : Value → A) (n : ℕ) (a : A) (cs : List Cap)
        → Distinct cs
        → Below n cs
        → get_or (assign f cs (replicate n a)) i a ≡ value_or f a (value_of i cs)
    element f n a cs h b =
        assign-get f cs (replicate n a) i a h
          (subst (λ m. Below m cs) (sym (length-replicate n a)) b)
        ∙ ap (λ x. value_or f x (value_of i cs)) (get-replicate n i a)

-- The values that a terminal has for those of a description, where `raw` says that values which are
-- not valid are read as they are.
abbrev pub seen_flag : Bool → Option Value → ℤ
seen_flag true (some (flag z)) = z
seen_flag false (some (flag (pos zero))) = pos 0
seen_flag false (some (flag (pos (suc zero)))) = pos 1
seen_flag _ _ = pos 0

-- A number of 16 bits is not signed.
abbrev pub seen_num : Bool → Rtype → Option Value → ℤ
seen_num raw o1 (some (num z)) = pos (unsigned 16 z)
seen_num true v3 (some (num z)) = z
seen_num false v3 (some (num (pos n))) = pos n
seen_num _ _ _ = negsuc 0

abbrev pub seen_str : Bool → Option Value → Str
seen_str raw (some (str (c ∷ s))) = at (c ∷ s)
seen_str true (some (str [])) = cancelled
seen_str _ _ = absent

flag_value-seen :
    (raw : Bool) (o : Option Value) → value_or (flag_value raw) (pos 0) o ≡ seen_flag raw o
unfolding boolean is_boolean
flag_value-seen true none = refl
flag_value-seen false none = refl
flag_value-seen true (some (flag z)) = refl
flag_value-seen false (some (flag (pos zero))) = refl
flag_value-seen false (some (flag (pos (suc zero)))) = refl
flag_value-seen false (some (flag (pos (suc (suc n))))) = ground arith
flag_value-seen false (some (flag (negsuc n))) = refl
flag_value-seen true (some (num z)) = refl
flag_value-seen false (some (num z)) = refl
flag_value-seen true (some (str s)) = refl
flag_value-seen false (some (str s)) = refl

num_value-seen :
    (raw : Bool) (rtype : Rtype) (o : Option Value)
    → value_or (num_value raw rtype) (negsuc 0) o ≡ seen_num raw rtype o
unfolding numeric is_number
num_value-seen true o1 none = refl
num_value-seen true v3 none = refl
num_value-seen false o1 none = refl
num_value-seen false v3 none = refl
num_value-seen true o1 (some (num z)) = refl
num_value-seen false o1 (some (num z)) = refl
num_value-seen true v3 (some (num z)) = refl
num_value-seen false v3 (some (num (pos n))) = refl
num_value-seen false v3 (some (num (negsuc n))) = refl
num_value-seen true o1 (some (flag z)) = refl
num_value-seen true v3 (some (flag z)) = refl
num_value-seen false o1 (some (flag z)) = refl
num_value-seen false v3 (some (flag z)) = refl
num_value-seen true o1 (some (str s)) = refl
num_value-seen true v3 (some (str s)) = refl
num_value-seen false o1 (some (str s)) = refl
num_value-seen false v3 (some (str s)) = refl

str_value-seen :
    (raw : Bool) (o : Option Value) → value_or (str_value raw) absent o ≡ seen_str raw o
unfolding string
str_value-seen true none = refl
str_value-seen false none = refl
str_value-seen true (some (str [])) = refl
str_value-seen false (some (str [])) = refl
str_value-seen true (some (str (c ∷ s))) = refl
str_value-seen false (some (str (c ∷ s))) = refl
str_value-seen true (some (flag z)) = refl
str_value-seen false (some (flag z)) = refl
str_value-seen true (some (num z)) = refl
str_value-seen false (some (num z)) = refl

-- Where there is memory for the bytes of a description with the compiler's invariant, whose buffers
-- and names have lengths of 16 bits, they are read as a terminal in whose arrays an element is the
-- value of the capability with its index, a number of 16 bits without its sign, or 0, -1 and NULL if
-- there is none. Unless values that are not valid are wanted, a flag but 0 and 1, a negative number
-- and a cancelled string are read as absent too.
pub readterm-elements :
    (host : Host) (sizes : Sizes) (raw : Bool) (tic : Tic) (w : IsTic host sizes tic) (i : ℕ)
    → IsFlatTic tic
    → IsNamed tic
    → host.grants (flat_size tic) ≡ true
    → (t : Terminal) × ((flatten host tic >>= λ bytes. readterm sizes raw bytes) ≡ gives t)
      × (get_or t.flags i (pos 0) ≡ seen_flag raw (value_of i w.flags.0))
      × (get_or t.nums i (negsuc 0) ≡ seen_num raw tic.rtype (value_of i w.nums.0))
      × (get_or t.strs i absent ≡ seen_str raw (value_of i w.strs.0))
readterm-elements host sizes raw tic w i fit named room =
    let t = terminal_of host sizes raw tic w in
    let (flags, nums, strs) = terminal_of-elements host sizes raw tic w i in
    (
      t,
      flatten-readterm host sizes raw tic w fit named ∙ ap (λ b. if b then gives t else fails) room,
      flags ∙ flag_value-seen raw (value_of i w.flags.0),
      nums ∙ num_value-seen raw tic.rtype (value_of i w.nums.0),
      strs ∙ str_value-seen raw (value_of i w.strs.0),
    )
