-- ===== src/Terminfo/Read/Records.antt =====
-- What _ti_readterm of lib/libterminfo/term.c reads of the bytes that _ti_flatten makes.
use netbsd_curses.Base.{
  ℕ, zero, suc, ◌+◌, ◌%◌, ◌^◌, ◌<◌, ◌≡◌, refl, sym, ap, ◌∙◌, subst, ◌==◌, if◌then◌else◌, Bool-cases,
  inl, inr, Bool, false, Option, none, some, List, [], ◌∷◌, ◌++◌, length, map, replicate, arith,
}
use netbsd_curses.Base.Int.{ℤ, pos, negsuc}
use netbsd_curses.Terminfo.Bytes.{Answer, gives, fails, ◌>>=◌, Rtype, o1, v3, split, decode_16}
use netbsd_curses.Terminfo.Bytes.RoundTrip.{u16, decode_16-then, decode_16-u16}
use netbsd_curses.Terminfo.Tbuf.{Tbuf, first}
use netbsd_curses.Terminfo.Tbuf.Entries.{
  Value, flag, num, str, kind, value_bytes, Cap, caps_bytes, IsFit, Holds,
}
use netbsd_curses.Terminfo.Compile.Describes.{
  Extra, extra_bytes, extras_bytes, AllExtra, and_extra, Describes,
}
use netbsd_curses.Terminfo.Compile.{Host, Tic}
use netbsd_curses.Terminfo.Compile.Flatten.{terminated, rtype_byte, flat_size, flatten}
use netbsd_curses.Terminfo.Read.{
  Str, absent, Userdef, flag_def, num_def, str_def, Terminal, Sizes, boolean, numeric, string,
  read_str, read_caps, read_flag, read_num, read_string, read_userdef, read_userdefs, read_count,
  nullable, rtype_of, readterm,
}
use netbsd_curses.Terminfo.Read.Flat.{flat_str, flat_buf, flat, IsFlat, IsFlatTic, flatten-flat}
use netbsd_curses.Terminfo.Read.Values.{
  num_read, read_flag-bytes, read_num-bytes, read_str-then, read_string-bytes, Below, assign,
  read_caps-assign,
}
use mathlib.Core.List.{append_assoc, append-nil}

abbrev pub flag_value : Bool → Value → ℤ
flag_value raw (flag z) = boolean raw z
flag_value raw _ = pos 0

abbrev pub num_value : Bool → Rtype → Value → ℤ
num_value raw rtype (num z) = numeric raw (num_read rtype z)
num_value raw rtype _ = negsuc 0

abbrev pub str_value : Bool → Value → Str
str_value raw (str s) = string raw s
str_value raw _ = absent

abbrev pub userdef : Bool → Rtype → Extra → Userdef
userdef raw rtype e = elim e.value [
  | flag z ↦ flag_def e.id (boolean raw z)
  | num z ↦ num_def e.id (numeric raw (num_read rtype z))
  | str s ↦ str_def e.id (string raw s)
]

back_flag :
    (raw : Bool) (rtype : Rtype) (v : Value) (cap : List ℕ)
    → kind v ≡ b'f'
    → IsFit v
    → read_flag raw (value_bytes rtype v ++ cap) ≡ gives (flag_value raw v, cap)
back_flag raw rtype (flag z) cap e h = read_flag-bytes raw z cap h
back_flag raw rtype (num z) cap e h = ground arith
back_flag raw rtype (str s) cap e h = ground arith

back_num :
    (raw : Bool) (rtype : Rtype) (v : Value) (cap : List ℕ)
    → kind v ≡ b'n'
    → IsFit v
    → read_num raw rtype (value_bytes rtype v ++ cap) ≡ gives (num_value raw rtype v, cap)
back_num raw rtype (flag z) cap e h = ground arith
back_num raw rtype (num z) cap e h = read_num-bytes raw rtype z cap h
back_num raw rtype (str s) cap e h = ground arith

back_str :
    (raw : Bool) (rtype : Rtype) (v : Value) (cap : List ℕ)
    → kind v ≡ b's'
    → IsFit v
    → read_string raw (value_bytes rtype v ++ cap) ≡ gives (str_value raw v, cap)
back_str raw rtype (flag z) cap e h = ground arith
back_str raw rtype (num z) cap e h = ground arith
back_str raw rtype (str s) cap e h = read_string-bytes raw s cap h

-- The value of a capability, once its name has been read.
read_userdef-value :
    (raw : Bool) (rtype : Rtype) (id : List ℕ) (v : Value) (cap : List ℕ)
    → length id < 2 ^ 16
    → IsFit v
    → read_userdef raw rtype ((u16 (length id) ++ id) ++ (kind v ∷ (value_bytes rtype v ++ cap)))
      ≡ gives (userdef raw rtype (record { id = id; value = v }), cap)
unfolding read_userdef split first
read_userdef-value raw rtype id (flag z) cap l h =
    read_str-then id (b'f' ∷ (value_bytes rtype (flag z) ++ cap)) _ l
    ∙ ap (λ (p : Answer (ℤ × List ℕ)). p >>= λ r. gives (flag_def id (r.0), r.1))
        (read_flag-bytes raw z cap h)
read_userdef-value raw rtype id (num z) cap l h =
    read_str-then id (b'n' ∷ (value_bytes rtype (num z) ++ cap)) _ l
    ∙ ap (λ (p : Answer (ℤ × List ℕ)). p >>= λ r. gives (num_def id (r.0), r.1))
        (read_num-bytes raw rtype z cap h)
read_userdef-value raw rtype id (str s) cap l h =
    read_str-then id (b's' ∷ (value_bytes rtype (str s) ++ cap)) _ l
    ∙ ap (λ (p : Answer (Str × List ℕ)). p >>= λ r. gives (str_def id (r.0), r.1))
        (read_string-bytes raw s cap h)

read_userdef-bytes :
    (raw : Bool) (rtype : Rtype) (e : Extra) (cap : List ℕ)
    → length e.id < 2 ^ 16
    → IsFit e.value
    → read_userdef raw rtype (extra_bytes rtype e ++ cap) ≡ gives (userdef raw rtype e, cap)
read_userdef-bytes raw rtype e cap l h =
    ap (λ bs. read_userdef raw rtype bs)
      (append_assoc (u16 (length e.id) ++ e.id) (kind e.value ∷ value_bytes rtype e.value) cap)
    ∙ read_userdef-value raw rtype e.id e.value cap l h

read_userdefs-bytes :
    (raw : Bool) (rtype : Rtype) (es : List Extra) (cap : List ℕ)
    → AllExtra es
    → read_userdefs raw rtype (length es) (extras_bytes rtype es ++ cap)
      ≡ gives (map (userdef raw rtype) es, cap)
unfolding read_userdefs
read_userdefs-bytes raw rtype [] cap h = refl
read_userdefs-bytes raw rtype (e ∷ es) cap (and_extra _ _ _ _ l f h) =
    ap
      (λ bs. read_userdef raw rtype bs >>= λ r.
        read_userdefs raw rtype (length es) (r.1) >>= λ q. gives (r.0 ∷ q.0, q.1))
      (append_assoc (extra_bytes rtype e) (extras_bytes rtype es) cap)
    ∙ ap
        (λ (p : Answer (Userdef × List ℕ)).
          p >>= λ r. read_userdefs raw rtype (length es) (r.1) >>= λ q. gives (r.0 ∷ q.0, q.1))
        (read_userdef-bytes raw rtype e (extras_bytes rtype es ++ cap) l f)
    ∙ ap (λ (p : Answer (List Userdef × List ℕ)). p >>= λ q. gives (userdef raw rtype e ∷ q.0, q.1))
        (read_userdefs-bytes raw rtype es cap h)

-- The names, with their NUL, take 16 bits to count.
pub record IsNamed (tic : Tic) : Type 0 where
  pub name_fits : length (terminated (some tic.name)) < 2 ^ 16
  pub alias_fits : length (terminated tic.alias) < 2 ^ 16
  pub desc_fits : length (terminated tic.desc) < 2 ^ 16

abbrev pub c_str : Option (List ℕ) → Option (List ℕ)
c_str none = none
c_str (some s) = some (s ++ 0 ∷ [])

nullable-terminated : (o : Option (List ℕ)) → nullable (terminated o) ≡ c_str o
unfolding nullable terminated
nullable-terminated none = refl
nullable-terminated (some []) = refl
nullable-terminated (some (c ∷ s)) = refl

-- The terminal that a description stands for: its names, and arrays with its capabilities in them.
abbrev pub terminal : Sizes → Bool → Tic → List Cap → List Cap → List Cap → List Extra → Terminal
terminal sizes raw tic fs ns ss es = record {
  name = terminated (some tic.name);
  alias = c_str tic.alias;
  desc = c_str tic.desc;
  flags = assign (flag_value raw) fs (replicate sizes.flags (pos 0));
  nums = assign (num_value raw tic.rtype) ns (replicate sizes.nums (negsuc 0));
  strs = assign (str_value raw) ss (replicate sizes.strs absent);
  userdefs = map (userdef raw tic.rtype) es;
}

length-zero {ℓ} : {A : Type ℓ} (xs : List A) → length xs ≡ 0 → xs ≡ []
length-zero [] h = refl
length-zero (x ∷ xs) h = ground arith

module _ {ℓ} {B : Type ℓ} where
  flat_str-then :
      (s cap : List ℕ) (k : List ℕ × List ℕ → Answer B)
      → length s < 2 ^ 16
      → (read_str (flat_str s ++ cap) >>= k) ≡ k (s, cap)
  flat_str-then s cap k h =
      let e : length s % 2 ^ 16 ≡ length s = omega arith in
      ap (λ n. read_str ((u16 n ++ s) ++ cap) >>= k) e ∙ read_str-then s cap k h

  -- The two numbers in front of a buffer; an empty one has only the first.
  flat_buf-then :
      (t : Tbuf) (cap : List ℕ) (k : ℕ × List ℕ → Answer B)
      → IsFlat t
      → (t.entries ≡ 0 → t.text ≡ [])
      → (read_count (flat_buf t ++ cap) >>= k) ≡ k (t.entries, t.text ++ cap)
  unfolding read_count flat_buf
  flat_buf-then t cap k fit h = elim (Bool-cases (t.entries == 0)) [
    | inl e ↦
        let z : t.entries ≡ 0 = ground arith in
        let flat : flat_buf t ≡ u16 0 = rw e in
        ap (λ bs. read_count (bs ++ cap) >>= k) flat
        ∙ ap
            (λ (r : Answer (ℕ × List ℕ)).
              (r >>= λ x. if x.0 == 0 then gives (0, x.1) else decode_16 (x.1)) >>= k)
            (decode_16-u16 0 cap (omega arith))
        ∙ ap k (sym (ap (λ n. (n, t.text ++ cap)) z ∙ ap (λ bs. (0, bs ++ cap)) (h z)))
    | inr e ↦
        let flat : flat_buf t ≡ u16 (length t.text + 2) ++ (u16 t.entries ++ t.text) = rw e in
        let more : (length t.text + 2 == 0) ≡ false = ground arith in
        ap (λ bs. read_count (bs ++ cap) >>= k) flat
        ∙ ap (λ (r : Answer (ℕ × List ℕ)). r >>= k)
            (decode_16-then (length t.text + 2) (u16 t.entries ++ t.text) cap
              (λ x. if x.0 == 0 then gives (0, x.1) else decode_16 (x.1)) fit.text_fits)
        ∙ ap
            (λ b.
              (if b
                then gives (0, (u16 t.entries ++ t.text) ++ cap)
                else decode_16 ((u16 t.entries ++ t.text) ++ cap))
              >>= k)
            more
        ∙ decode_16-then t.entries t.text cap k fit.entries_fit
  ]

  -- A loop over the capabilities of a buffer, numbers in front and all.
  caps-then :
      {A : Type 0} (rtype : Rtype) (c : ℕ) (t : Tbuf) (cs : List Cap) (xs : List A) (cap : List ℕ)
      (read : List ℕ → Answer (A × List ℕ)) (f : Value → A) (k : List A × List ℕ → Answer B)
      → IsFlat t
      → Holds rtype c t cs
      → Below (length xs) cs
      → ((v : Value) (cap : List ℕ)
          → kind v ≡ c
          → IsFit v
          → read (value_bytes rtype v ++ cap) ≡ gives (f v, cap))
      → (read_count (flat_buf t ++ cap) >>= λ r. read_caps read (r.0) (r.1) xs >>= k)
        ≡ k (assign f cs xs, cap)
  caps-then {A = A} rtype c t cs xs cap read f k fit h b back =
      flat_buf-then t cap (λ r. read_caps read (r.0) (r.1) xs >>= k) fit
        (λ z. h.bytes ∙ ap (caps_bytes rtype) (length-zero cs (sym h.count ∙ z)))
      ∙ ap (λ n. read_caps read n (t.text ++ cap) xs >>= k) h.count
      ∙ ap (λ bs. read_caps read (length cs) (bs ++ cap) xs >>= k) h.bytes
      ∙ ap (λ (r : Answer (List A × List ℕ)). r >>= k)
          (read_caps-assign rtype c read f back cs xs cap h.fits b)

  extras-then :
      (raw : Bool) (rtype : Rtype) (t : Tbuf) (es : List Extra)
      (k : List Userdef × List ℕ → Answer B)
      → IsFlat t
      → t.text ≡ extras_bytes rtype es
      → t.entries ≡ length es
      → AllExtra es
      → (read_count (flat_buf t) >>= λ r. read_userdefs raw rtype (r.0) (r.1) >>= k)
        ≡ k (map (userdef raw rtype) es, [])
  extras-then raw rtype t es k fit text count h =
      ap (λ bs. read_count bs >>= λ r. read_userdefs raw rtype (r.0) (r.1) >>= k)
        (sym (append-nil (flat_buf t)))
      ∙ flat_buf-then t [] (λ r. read_userdefs raw rtype (r.0) (r.1) >>= k) fit
          (λ z. text ∙ ap (extras_bytes rtype) (length-zero es (sym count ∙ z)))
      ∙ ap (λ n. read_userdefs raw rtype n (t.text ++ []) >>= k) count
      ∙ ap (λ bs. read_userdefs raw rtype (length es) (bs ++ []) >>= k) text
      ∙ ap (λ (r : Answer (List Userdef × List ℕ)). r >>= k) (read_userdefs-bytes raw rtype es [] h)

  rtype-then :
      (rtype : Rtype) (k : Rtype → Answer B) → (rtype_of (rtype_byte rtype) >>= k) ≡ k rtype
  unfolding rtype_of rtype_byte
  rtype-then o1 k = refl
  rtype-then v3 k = refl

pub length-replicate {ℓ} : {A : Type ℓ} (n : ℕ) (a : A) → length (replicate n a) ≡ n
length-replicate zero a = refl
length-replicate (suc n) a = ap suc (length-replicate n a)

Below-replicate {ℓ} :
    {A : Type ℓ} (n : ℕ) (a : A) (cs : List Cap) → Below n cs → Below (length (replicate n a)) cs
Below-replicate n a cs b = subst (λ m. Below m cs) (sym (length-replicate n a)) b

pub readterm-flat :
    (sizes : Sizes) (raw : Bool) (tic : Tic) (fs ns ss : List Cap) (es : List Extra)
    → IsFlatTic tic
    → IsNamed tic
    → Describes tic fs ns ss es
    → Below sizes.flags fs
    → Below sizes.nums ns
    → Below sizes.strs ss
    → readterm sizes raw (flat tic) ≡ gives (terminal sizes raw tic fs ns ss es)
unfolding readterm flat
readterm-flat sizes raw tic fs ns ss es fit named d bf bn bs =
    rtype-then tic.rtype _
    ∙ flat_str-then (terminated (some tic.name)) _ _ named.name_fits
    ∙ flat_str-then (terminated tic.alias) _ _ named.alias_fits
    ∙ flat_str-then (terminated tic.desc) _ _ named.desc_fits
    ∙ caps-then tic.rtype b'f' tic.flags fs (replicate sizes.flags (pos 0)) _ (read_flag raw)
        (flag_value raw) _ fit.flags_fit d.flags (Below-replicate sizes.flags (pos 0) fs bf)
        (back_flag raw tic.rtype)
    ∙ caps-then tic.rtype b'n' tic.nums ns (replicate sizes.nums (negsuc 0)) _
        (read_num raw tic.rtype) (num_value raw tic.rtype) _ fit.nums_fit d.nums
        (Below-replicate sizes.nums (negsuc 0) ns bn) (back_num raw tic.rtype)
    ∙ caps-then tic.rtype b's' tic.strs ss (replicate sizes.strs absent) _ (read_string raw)
        (str_value raw) _ fit.strs_fit d.strs (Below-replicate sizes.strs absent ss bs)
        (back_str raw tic.rtype)
    ∙ extras-then raw tic.rtype tic.extras es _ fit.extras_fit d.extras.bytes d.extras.count
        d.extras.fits
    ∙ ap gives (rw (nullable-terminated tic.alias, nullable-terminated tic.desc))

-- What _ti_flatten lays out and _ti_readterm reads is the description's terminal, if there is memory.
pub readterm-flatten :
    (host : Host) (sizes : Sizes) (raw : Bool) (tic : Tic) (fs ns ss : List Cap) (es : List Extra)
    → IsFlatTic tic
    → IsNamed tic
    → Describes tic fs ns ss es
    → Below sizes.flags fs
    → Below sizes.nums ns
    → Below sizes.strs ss
    → (flatten host tic >>= λ bytes. readterm sizes raw bytes)
      ≡ (if host.grants (flat_size tic) then gives (terminal sizes raw tic fs ns ss es) else fails)
readterm-flatten host sizes raw tic fs ns ss es fit named d bf bn bs =
    ap (λ (r : Answer (List ℕ)). r >>= λ bytes. readterm sizes raw bytes)
      (flatten-flat host tic fit)
    ∙ elim (Bool-cases (host.grants (flat_size tic))) [
      | inl g ↦ rw (g, readterm-flat sizes raw tic fs ns ss es fit named d bf bn bs)
      | inr g ↦ rw g
    ]
