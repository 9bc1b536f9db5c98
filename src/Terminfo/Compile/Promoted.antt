-- ===== src/Terminfo/Compile/Promoted.antt =====
-- lib/libterminfo/compile.c: what _ti_promote makes of a description with 16-bit numbers.
use netbsd_curses.Base.{
  ℕ, suc, ◌^◌, ◌<◌, ◌≡◌, refl, ◌≢◌, sym, ap, ◌∙◌, subst, ◌==◌, ◌||◌, List, [], ◌∷◌, ◌++◌, length,
  map, arith,
}
use netbsd_curses.Base.Int.{ℤ, pos}
use netbsd_curses.Terminfo.Bytes.{◌>>=◌, unsigned, o1, v3, numsize}
use netbsd_curses.Terminfo.Bytes.RoundTrip.{u16, IsInt, unsigned_16, decode_16-next}
use netbsd_curses.Terminfo.Bytes.Safe.{Safe, fine, Safe-bind, Safe-granted}
use netbsd_curses.Terminfo.Tbuf.{Tbuf, encode_buf_id_num}
use netbsd_curses.Terminfo.Tbuf.Writes.{num_bytes, encode_buf_id_num-appended}
use netbsd_curses.Terminfo.Tbuf.Entries.{
  Value, flag, num, str, kind, value_bytes, IsFit, Cap, caps_bytes, has, AllOf, one_more, Holds,
  Holds-appended,
}
use netbsd_curses.Terminfo.Compile.{Host}
use netbsd_curses.Terminfo.Compile.Promote.{is_number, promote_nums}
use netbsd_curses.Terminfo.Compile.Keeps.{Distinct, none_twice, once, IsCaps}
use netbsd_curses.Terminfo.Read.Values.{decode_num-next, Below, end_below, and_below}
use mathlib.Core.List.{append_assoc, append-nil}

-- A number is kept as 16 bits read without a sign.
abbrev pub widened : Cap → Cap
widened c = record {
  ind = c.ind;
  value = elim c.value [ flag z ↦ flag z | num z ↦ num (pos (unsigned 16 z)) | str s ↦ str s ];
}

pub promote_num-step :
    (host : Host) (n i : ℕ) (z : ℤ) (rest : List ℕ) (nums : Tbuf)
    → i < 2 ^ 16
    → IsInt z
    → promote_nums host o1 (suc n) (u16 i ++ (num_bytes o1 z ++ rest)) nums ≡ (
        encode_buf_id_num host.grants nums i (pos (unsigned 16 z)) (numsize v3) >>= λ nums.
        promote_nums host o1 n rest nums)
unfolding promote_nums is_number
promote_num-step host n i z rest nums l h =
    decode_16-next i (num_bytes o1 z ++ rest) _ l ∙ decode_num-next o1 z rest _ h

-- One number of the loop, and what the loop does then.
promote_num-Safe :
    (host : Host) (n i : ℕ) (v : Value) (rest : List ℕ) (acc : List Cap) (nums : Tbuf)
    (P : Tbuf → Type 0)
    → kind v ≡ b'n'
    → i < 2 ^ 16
    → IsFit v
    → Holds v3 b'n' nums acc
    → ((t : Tbuf)
        → Holds v3 b'n' t (acc ++ widened (record { ind = i; value = v }) ∷ [])
        → Safe P (promote_nums host o1 n rest t))
    → Safe P (promote_nums host o1 (suc n) (u16 i ++ (value_bytes o1 v ++ rest)) nums)
promote_num-Safe host n i (flag z) rest acc nums P e l fit w go = ground arith
promote_num-Safe host n i (str s) rest acc nums P e l fit w go = ground arith
promote_num-Safe host n i (num z) rest acc nums P e l fit w go =
    let small : IsInt (pos (unsigned 16 z)) = omega (arith, unsigned_16 z) in
    subst (Safe P) (sym (promote_num-step host n i z rest nums l fit)) (
      Safe-bind _
        (Safe-granted _ _ _
          (encode_buf_id_num-appended host.grants nums i (pos (unsigned 16 z)) v3 l)
          (Holds-appended v3 b'n' nums acc (record { ind = i; value = num (pos (unsigned 16 z)) }) w
            refl l small))
        go)

pub promote_nums-Safe :
    (host : Host) (cs acc : List Cap) (nums : Tbuf)
    → AllOf b'n' cs
    → Holds v3 b'n' nums acc
    → Safe
        (λ t. Holds v3 b'n' t (acc ++ map widened cs))
        (promote_nums host o1 (length cs) (caps_bytes o1 cs) nums)
unfolding promote_nums
promote_nums-Safe host [] acc nums h w =
    fine nums (subst (Holds v3 b'n' nums) (sym (append-nil acc)) w)
promote_nums-Safe host (c ∷ cs) acc nums (one_more _ _ e l f h) w =
    promote_num-Safe host (length cs) c.ind c.value (caps_bytes o1 cs) acc nums
      (λ t. Holds v3 b'n' t (acc ++ widened c ∷ map widened cs)) e l f w
      (λ t w'.
        subst
          (λ xs.
            Safe (λ t. Holds v3 b'n' t xs) (promote_nums host o1 (length cs) (caps_bytes o1 cs) t))
          (append_assoc acc (widened c ∷ []) (map widened cs))
          (promote_nums-Safe host cs (acc ++ widened c ∷ []) t h w'))

pub has-widened : (i : ℕ) (cs : List Cap) → has i (map widened cs) ≡ has i cs
has-widened i [] = refl
has-widened i (c ∷ cs) = ap (λ b. (c.ind == i) || b) (has-widened i cs)

pub widened-Distinct : (cs : List Cap) → Distinct cs → Distinct (map widened cs)
widened-Distinct [] none_twice = none_twice
widened-Distinct (c ∷ cs) (once _ _ e d) =
    once (widened c) (map widened cs) (has-widened c.ind cs ∙ e) (widened-Distinct cs d)

pub widened-Below : (n : ℕ) (cs : List Cap) → Below n cs → Below n (map widened cs)
widened-Below n [] end_below = end_below
widened-Below n (c ∷ cs) (and_below _ _ l b) =
    and_below (widened c) (map widened cs) l (widened-Below n cs b)

-- Flags and strings take the same bytes in both types of record.
caps_bytes-narrow :
    (cs : List Cap) (k : ℕ) → AllOf k cs → k ≢ b'n' → caps_bytes o1 cs ≡ caps_bytes v3 cs
caps_bytes-narrow [] k h ne = refl
caps_bytes-narrow (c ∷ cs) k (one_more _ _ e l f h) ne =
    ap (λ bs. u16 c.ind ++ (value_bytes o1 c.value ++ bs)) (caps_bytes-narrow cs k h ne)
    ∙ ap (λ bs. u16 c.ind ++ (bs ++ caps_bytes v3 cs))
        (value_bytes-narrow c.value (λ n. ne (sym e ∙ n)))
  where
    value_bytes-narrow : (v : Value) → kind v ≢ b'n' → value_bytes o1 v ≡ value_bytes v3 v
    value_bytes-narrow (flag z) ne = refl
    value_bytes-narrow (num z) ne = elim (ne refl) [ ]
    value_bytes-narrow (str s) ne = refl

pub narrow-IsCaps : (k n : ℕ) (t : Tbuf) → k ≢ b'n' → IsCaps o1 k n t → IsCaps v3 k n t
narrow-IsCaps k n t ne (cs, w, b, d) = (
  cs,
  record { bytes = w.bytes ∙ caps_bytes-narrow cs k w.fits ne; count = w.count; fits = w.fits },
  b,
  d,
)
