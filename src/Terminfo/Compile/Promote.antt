-- ===== src/Terminfo/Compile/Promote.antt =====
-- lib/libterminfo/compile.c: _ti_promote, which rewrites a description so that its numbers take 32 bits.
use netbsd_curses.Base.{
  ℕ, zero, suc, ◌+◌, ◌==◌, if◌then◌else◌, Bool, true, false, Option, none, some, List, [], ◌∷◌,
  ◌++◌, length,
}
use netbsd_curses.Base.Int.{ℤ, pos, negsuc}
use netbsd_curses.Terminfo.Bytes.{
  Answer, gives, fails, outside, ◌>>=◌, signed_8, decode_16, decode_num, Rtype, v3, numsize, split,
}
use netbsd_curses.Terminfo.Tbuf.{Tbuf, empty, encode_buf_id_num, first}
use netbsd_curses.Terminfo.Compile.{Host, Tic, up_to, getname, store_extra}
use netbsd_curses.Terminfo.Compile.Tokens.{split_first}

-- VALID_NUMERIC.
unfoldable pub is_number : ℤ → Bool
is_number (pos n) = true
is_number (negsuc n) = false

-- An alias is copied with its NUL behind those before it. The name is measured without a test for
-- NULL.
unfoldable pub copy_alias : Host → List ℕ → List ℕ → Answer (List ℕ)
copy_alias host bytes part = elim (getname host v3 part) [
  | gives name ↦
      let copied = bytes ++ (name ++ 0 ∷ []) in
      if host.grants (length copied) then gives copied else fails
  | _ ↦ outside
]

-- The loop is on fuel, of which there is more than the string has bars.
unfoldable pub promote_aliases : Host → ℕ → List ℕ → List ℕ → Answer (List ℕ)
promote_aliases host zero bytes buf = outside
promote_aliases host (suc fuel) bytes buf = elim (split_first b'|' buf) [
  | none ↦ copy_alias host bytes buf
  | some (part, delim) ↦
      copy_alias host bytes part >>= λ bytes. promote_aliases host fuel bytes delim
]

-- As a string, what was copied ends at its first NUL.
unfoldable pub promoted_alias : Host → Option (List ℕ) → Answer (Option (List ℕ))
promoted_alias host none = gives none
promoted_alias host (some alias) = do
  bytes ← promote_aliases host (length alias + 1) [] alias
  gives (some (up_to 0 bytes))

unfoldable pub promote_nums : Host → Rtype → ℕ → List ℕ → Tbuf → Answer Tbuf
promote_nums host ortype zero cap nums = gives nums
promote_nums host ortype (suc n) cap nums = do
  (ind, cap) ← decode_16 cap
  (num, cap) ← decode_num cap ortype
  nums ←
      if is_number num then encode_buf_id_num host.grants nums ind num (numsize v3) else gives nums
  promote_nums host ortype n cap nums

-- The value of a capability by its type: its flag, its number, its string and what follows.
unfoldable pub extra_value : Rtype → ℕ → ℕ → List ℕ → Answer (ℤ × ℤ × List ℕ × List ℕ)
extra_value ortype type num cap =
    if type == b'f'
    then (do (f, cap) ← split 1 cap; gives (signed_8 (first f), pos num, [], cap))
    else if type == b'n'
    then (do (num, cap) ← decode_num cap ortype; gives (pos 0, num, [], cap))
    else if type == b's'
    then (do
      (strl, cap) ← decode_16 cap
      (str, cap) ← split strl cap
      gives (pos 0, pos num, str, cap))
    else gives (pos 0, pos num, [], cap)

unfoldable pub promote_extras : Host → Rtype → ℕ → List ℕ → Tic → Answer Tic
promote_extras host ortype zero cap tic = gives tic
promote_extras host ortype (suc n) cap tic = do
  (num, cap) ← decode_16 cap
  (code, cap) ← split num cap
  (type, cap) ← split 1 cap
  (flag, value, str, cap) ← extra_value ortype (first type) num cap
  tic ← store_extra host tic (up_to 0 code) (first type) flag value str true
  promote_extras host ortype n cap tic

-- What a call that fails leaves in the description is not modelled: its callers free it.
unfoldable pub promote : Host → Tic → Answer Tic
promote host tic = do
  name ← getname host v3 tic.name
  alias ← promoted_alias host tic.alias
  nums ← promote_nums host tic.rtype tic.nums.entries tic.nums.text empty
  promote_extras host tic.rtype tic.extras.entries tic.extras.text
      (record tic { name = name; alias = alias; rtype = v3; nums = nums; extras = empty })
