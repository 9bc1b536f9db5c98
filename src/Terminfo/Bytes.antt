-- ===== src/Terminfo/Bytes.antt =====
-- lib/libterminfo/term_private.h: numbers and strings in the bytes of a compiled description.
-- A pointer that moves over bytes is the list of the bytes that are left.
pub mod RoundTrip
pub mod Safe
use netbsd_curses.Base.{
  ℕ, suc, ◌+◌, ◌-◌, ◌*◌, ◌/◌, ◌%◌, ◌^◌, ltb, leb, ◌==◌, if◌then◌else◌, List, [], ◌∷◌, ◌++◌, length,
  zero,
}
use netbsd_curses.Base.Int.{ℤ, pos, negsuc}

-- What a call ends with: its result, one of the values that say it failed (0, -1 or NULL), an access
-- outside a buffer, or a failed assertion.
pub data Answer {ℓ} (A : Type ℓ) : Type ℓ where
  gives : A → Answer A
  fails outside aborts : Answer A

infixl 5 ◌>>=◌
abbrev pub ◌>>=◌ {ℓ κ} : {A : Type ℓ} {B : Type κ} → Answer A → (A → Answer B) → Answer B
gives a >>= f = f a
fails >>= f = fails
outside >>= f = outside
aborts >>= f = aborts

-- A cast to an unsigned type of `w` bits.
unfoldable pub unsigned : ℕ → ℤ → ℕ
unsigned w (pos n) = n % 2 ^ w
unsigned w (negsuc n) = 2 ^ w - 1 - n % 2 ^ w

-- An int of its 32 bits.
unfoldable pub signed : ℕ → ℤ
signed n = if ltb n (2 ^ 31) then pos n else negsuc (2 ^ 32 - 1 - n)

-- A signed char of its byte.
unfoldable pub signed_8 : ℕ → ℤ
signed_8 n = if ltb n 128 then pos n else negsuc (255 - n)

unfoldable pub byte : ℕ → ℕ → ℕ
byte k n = n / 2 ^ (8 * k) % 256

unfoldable pub encode_16 : ℕ → Answer (List ℕ)
encode_16 num = if leb num (2 ^ 16 - 1) then gives (byte 0 num ∷ byte 1 num ∷ []) else aborts

unfoldable pub encode_32 : ℕ → Answer (List ℕ)
encode_32 num =
    if leb num (2 ^ 32 - 1)
    then gives (byte 0 num ∷ byte 1 num ∷ byte 2 num ∷ byte 3 num ∷ [])
    else aborts

-- The length is cast before it is written, so `len` may be any. A NULL has the length 0.
unfoldable pub encode_count_str : List ℕ → Answer (List ℕ)
encode_count_str name = do len ← encode_16 (length name % 2 ^ 16); gives (len ++ name)

-- The bytes do not overlap, so `|` adds them.
unfoldable pub decode_16 : List ℕ → Answer (ℕ × List ℕ)
decode_16 (a ∷ b ∷ cap) = gives (a + b * 2 ^ 8, cap)
decode_16 _ = outside

unfoldable pub decode_32 : List ℕ → Answer (ℤ × List ℕ)
decode_32 (a ∷ b ∷ c ∷ d ∷ cap) = gives (signed (a + b * 2 ^ 8 + c * 2 ^ 16 + d * 2 ^ 24), cap)
decode_32 _ = outside

-- TERMINFO_RTYPE_O1 and TERMINFO_RTYPE.
pub data Rtype : Type 0 where
  o1 v3 : Rtype

unfoldable pub decode_num : List ℕ → Rtype → Answer (ℤ × List ℕ)
decode_num cap o1 = do (n, cap) ← decode_16 cap; gives (pos n, cap)
decode_num cap v3 = decode_32 cap

unfoldable pub numsize : Rtype → ℕ
numsize o1 = 2
numsize v3 = 4

-- A pointer advanced by `n` bytes, and the bytes passed.
unfoldable pub split : ℕ → List ℕ → Answer (List ℕ × List ℕ)
split zero cap = gives ([], cap)
split (suc n) [] = outside
split (suc n) (c ∷ cap) = do (s, cap) ← split n cap; gives (c ∷ s, cap)
