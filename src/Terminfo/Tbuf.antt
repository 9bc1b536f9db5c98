-- ===== src/Terminfo/Tbuf.antt =====
-- The growing buffers of lib/libterminfo/compile.c, and term_private.h where it writes to them.
pub mod Entries
pub mod Writes
use netbsd_curses.Base.{
  ℕ, zero, suc, ◌+◌, ◌-◌, ◌^◌, ltb, leb, ◌==◌, if◌then◌else◌, Bool, true, false, Option, none, some,
  List, [], ◌∷◌, ◌++◌, length,
}
use netbsd_curses.Base.Int.{ℤ, pos, negsuc}
use netbsd_curses.Terminfo.Bytes.{
  Answer, gives, fails, outside, ◌>>=◌, unsigned, encode_16, encode_32, decode_16, Rtype, o1, v3,
  numsize, split,
}

-- `text` is `buf` up to `bufpos`, which is its length; `size` is `buflen`.
pub record Tbuf : Type 0 where
  pub text : List ℕ
  pub size : ℕ
  pub entries : ℕ

abbrev pub empty : Tbuf
empty = record { text = []; size = 0; entries = 0 }

-- memcpy to `buf + bufpos`.
unfoldable pub put : Tbuf → List ℕ → Answer Tbuf
put t bs =
    if leb (length t.text + length bs) t.size
    then gives (record t { text = t.text ++ bs })
    else outside

unfoldable pub encode_buf_16 : Tbuf → ℕ → Answer Tbuf
encode_buf_16 t num = do bs ← encode_16 num; put t bs

unfoldable pub encode_buf_32 : Tbuf → ℕ → Answer Tbuf
encode_buf_32 t num = do bs ← encode_32 num; put t bs

unfoldable pub encode_buf_count_str : Tbuf → List ℕ → Answer Tbuf
encode_buf_count_str t str = do t' ← encode_buf_16 t (length str); put t' str

-- `num > max` where `max` is not negative.
unfoldable pub at_most : ℕ → ℤ → ℤ
at_most max (pos n) = if ltb max n then pos max else pos n
at_most max (negsuc n) = negsuc n

unfoldable pub encode_buf_num : Tbuf → ℤ → Rtype → Answer Tbuf
encode_buf_num t num o1 = encode_buf_16 t (unsigned 16 (at_most (2 ^ 15 - 1) num))
encode_buf_num t num v3 = encode_buf_32 t (unsigned 32 (at_most (2 ^ 31 - 1) num))

abbrev pub counted : Tbuf → Tbuf
counted t = record t { entries = suc t.entries }

-- `grants l` says whether malloc and realloc give `l` bytes.
module _ (grants : ℕ → Bool) where
  unfoldable pub grow_tbuf : Tbuf → ℕ → Answer Tbuf
  grow_tbuf t len =
      let l = length t.text + len in
      if ltb t.size l then if grants l then gives (record t { size = l }) else fails else gives t

  unfoldable pub encode_buf_id_num : Tbuf → ℕ → ℤ → ℕ → Answer Tbuf
  encode_buf_id_num t ind num len = do
    t' ← grow_tbuf t (2 + len)
    t'' ← encode_buf_16 t' ind
    t''' ←
        if len == 4
        then encode_buf_32 t'' (unsigned 32 num)
        else encode_buf_16 t'' (unsigned 16 num)
    gives (counted t''')

  unfoldable pub encode_buf_id_count_str : Tbuf → ℕ → List ℕ → Answer Tbuf
  encode_buf_id_count_str t ind str = do
    t' ← grow_tbuf t (4 + length str)
    t'' ← encode_buf_16 t' ind
    t''' ← encode_buf_count_str t'' str
    gives (counted t''')

  unfoldable pub encode_buf_id_flags : Tbuf → ℕ → ℤ → Answer Tbuf
  encode_buf_id_flags t ind flag = do
    t' ← grow_tbuf t 3
    t'' ← encode_buf_16 t' ind
    t''' ← put t'' (unsigned 8 flag ∷ [])
    gives (counted t''')

-- Past the value of an entry of type `type`, which is f, n or s.
unfoldable pub skip_value : Rtype → ℕ → List ℕ → Answer (List ℕ)
skip_value rtype type cap =
    if type == b'f'
    then (split 1 cap >>= λ r. gives (r.1))
    else if type == b'n'
    then (split (numsize rtype) cap >>= λ r. gives (r.1))
    else if type == b's'
    then (do (num, cap) ← decode_16 cap; (s, cap) ← split num cap; gives cap)
    else gives cap

-- `ind` is the 16 bits of the short. The result is the pointer to the value.
unfoldable pub find_from : Rtype → ℕ → ℕ → ℕ → List ℕ → Answer (Option (List ℕ))
find_from rtype type ind zero cap = gives none
find_from rtype type ind (suc n) cap = do
  (num, cap) ← decode_16 cap
  if num == ind
      then gives (some cap)
      else (skip_value rtype type cap >>= λ cap. find_from rtype type ind n cap)

unfoldable pub find_cap : Rtype → Tbuf → ℕ → ℕ → Answer (Option (List ℕ))
find_cap rtype t type ind = find_from rtype type ind t.entries t.text

-- A pointer that is not NULL.
abbrev pub is_some {ℓ} : {A : Type ℓ} → Option A → Bool
is_some none = false
is_some (some a) = true

-- strcmp(cap, code) == 0, where `code` stands without its NUL.
unfoldable pub is_string : List ℕ → List ℕ → Answer Bool
is_string [] [] = outside
is_string [] (c ∷ code) = outside
is_string (d ∷ cap) [] = gives (d == 0)
is_string (d ∷ cap) (c ∷ code) =
    let rest = is_string cap code in
    if d == 0 then gives false else if d == c then rest else gives false

unfoldable pub first : List ℕ → ℕ
first [] = 0
first (c ∷ s) = c

unfoldable pub extra_from : Rtype → List ℕ → ℕ → List ℕ → Answer (Option (List ℕ))
extra_from rtype code zero cap = gives none
extra_from rtype code (suc n) cap = do
  (num, cap) ← decode_16 cap
  same ← is_string cap code
  (id, cap) ← split num cap
  if same then gives (some cap) else (do
    (type, cap) ← split 1 cap
    cap ← skip_value rtype (first type) cap
    extra_from rtype code n cap)

unfoldable pub find_extra : Rtype → Tbuf → List ℕ → Answer (Option (List ℕ))
find_extra rtype t code = extra_from rtype code t.entries t.text
