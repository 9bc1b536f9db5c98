-- ===== src/Terminfo/Bytes/RoundTrip.antt =====
-- What lib/libterminfo/term_private.h encodes is decoded again.
use netbsd_curses.Base.{
  ℕ, ◌+◌, ◌-◌, ◌*◌, ◌/◌, ◌%◌, ◌^◌, ◌<◌, ◌≡◌, refl, ap, ◌∙◌, ltb, false, le→leb, lt→ltb, List, [],
  ◌∷◌, ◌++◌, length, arith,
}
use netbsd_curses.Base.Int.{ℤ, pos, negsuc}
use netbsd_curses.Terminfo.Bytes.{
  Answer, gives, ◌>>=◌, unsigned, signed, signed_8, byte, encode_16, encode_32, decode_16,
  decode_32, split,
}
use mathlib.Core.List.{append_assoc}

unfoldable pub u16 : ℕ → List ℕ
u16 n = byte 0 n ∷ byte 1 n ∷ []

pub length-u16 : (n : ℕ) → length (u16 n) ≡ 2
unfolding u16
length-u16 n = refl

unfoldable pub u32 : ℕ → List ℕ
u32 n = byte 0 n ∷ byte 1 n ∷ byte 2 n ∷ byte 3 n ∷ []

pub encode_16-u16 : (n : ℕ) → n < 2 ^ 16 → encode_16 n ≡ gives (u16 n)
unfolding encode_16 u16
encode_16-u16 n h = rw (le→leb n (2 ^ 16 - 1) (omega arith))

pub encode_32-u32 : (n : ℕ) → n < 2 ^ 32 → encode_32 n ≡ gives (u32 n)
unfolding encode_32 u32
encode_32-u32 n h = rw (le→leb n (2 ^ 32 - 1) (omega arith))

pub decode_16-u16 : (n : ℕ) (cap : List ℕ) → n < 2 ^ 16 → decode_16 (u16 n ++ cap) ≡ gives (n, cap)
unfolding decode_16 u16 byte
decode_16-u16 n cap h =
    let e : n / 2 ^ 0 % 256 + n / 2 ^ 8 % 256 * 2 ^ 8 ≡ n = omega arith in
    ap (λ k. gives (k, cap)) e

pub decode_32-u32 :
    (n : ℕ) (cap : List ℕ) → n < 2 ^ 32 → decode_32 (u32 n ++ cap) ≡ gives (signed n, cap)
unfolding decode_32 u32 byte
decode_32-u32 n cap h =
    let e : n / 2 ^ 0 % 256
          + n / 2 ^ 8 % 256 * 2 ^ 8
          + n / 2 ^ 16 % 256 * 2 ^ 16
          + n / 2 ^ 24 % 256 * 2 ^ 24
        ≡ n =
      omega arith in
    ap (λ k. gives (signed k, cap)) e

-- The integers an int holds.
abbrev pub IsInt : ℤ → Type 0
IsInt (pos n) = n < 2 ^ 31
IsInt (negsuc n) = n < 2 ^ 31

pub unsigned_small : (z : ℤ) → unsigned 32 z < 2 ^ 32
unfolding unsigned
unsigned_small (pos n) = omega arith
unsigned_small (negsuc n) = omega arith

pub unsigned_16 : (z : ℤ) → unsigned 16 z < 2 ^ 16
unfolding unsigned
unsigned_16 (pos n) = omega arith
unsigned_16 (negsuc n) = omega arith

pub signed-unsigned : (z : ℤ) → IsInt z → signed (unsigned 32 z) ≡ z
unfolding signed unsigned
signed-unsigned (pos n) h = let e : n % 2 ^ 32 ≡ n = omega arith in rw (e, lt→ltb n (2 ^ 31) h)
signed-unsigned (negsuc n) h =
    let big : ltb (2 ^ 32 - 1 - n % 2 ^ 32) (2 ^ 31) ≡ false = ground arith in
    let e : 2 ^ 32 - 1 - (2 ^ 32 - 1 - n % 2 ^ 32) ≡ n = omega arith in rw (big, e)

-- The integers a signed char holds.
abbrev pub IsChar : ℤ → Type 0
IsChar (pos n) = n < 128
IsChar (negsuc n) = n < 128

pub signed_8-unsigned : (z : ℤ) → IsChar z → signed_8 (unsigned 8 z) ≡ z
unfolding signed_8 unsigned
signed_8-unsigned (pos n) h = let e : n % 2 ^ 8 ≡ n = omega arith in rw (e, lt→ltb n 128 h)
signed_8-unsigned (negsuc n) h =
    let big : ltb (2 ^ 8 - 1 - n % 2 ^ 8) 128 ≡ false = ground arith in
    let e : 255 - (2 ^ 8 - 1 - n % 2 ^ 8) ≡ n = omega arith in rw (big, e)

pub split-append : (s cap : List ℕ) → split (length s) (s ++ cap) ≡ gives (s, cap)
unfolding split
split-append [] cap = refl
split-append (c ∷ s) cap =
    ap (λ (r : Answer (List ℕ × List ℕ)). r >>= λ t. gives (c ∷ t.0, t.1)) (split-append s cap)

-- The same in front of what reads on.
module _ {ℓ} {B : Type ℓ} where
  pub decode_16-then :
      (n : ℕ) (xs ys : List ℕ) (k : ℕ × List ℕ → Answer B)
      → n < 2 ^ 16
      → (decode_16 ((u16 n ++ xs) ++ ys) >>= k) ≡ k (n, xs ++ ys)
  decode_16-then n xs ys k h =
      ap (λ cap. decode_16 cap >>= k) (append_assoc (u16 n) xs ys)
      ∙ ap (λ (r : Answer (ℕ × List ℕ)). r >>= k) (decode_16-u16 n (xs ++ ys) h)

  pub decode_16-next :
      (n : ℕ) (cap : List ℕ) (k : ℕ × List ℕ → Answer B)
      → n < 2 ^ 16
      → (decode_16 (u16 n ++ cap) >>= k) ≡ k (n, cap)
  decode_16-next n cap k h = ap (λ (r : Answer (ℕ × List ℕ)). r >>= k) (decode_16-u16 n cap h)

  pub split-then :
      (s cap : List ℕ) (k : List ℕ × List ℕ → Answer B)
      → (split (length s) (s ++ cap) >>= k) ≡ k (s, cap)
  split-then s cap k = ap (λ (r : Answer (List ℕ × List ℕ)). r >>= k) (split-append s cap)
