-- ===== src/Terminfo/Compile/Caps.antt =====
-- lib/libterminfo/compile.c: what _ti_compile does with a token, by the kind of its capability.
use netbsd_curses.Base.{
  ℕ, ◌-◌, ◌^◌, ltb, leb, ◌==◌, ◌&&◌, not, if◌then◌else◌, Bool, true, false, Option, none, some,
  List, [], ◌∷◌, length,
}
use netbsd_curses.Base.Int.{ℤ, pos, negsuc}
use netbsd_curses.Terminfo.Bytes.{Answer, gives, ◌>>=◌, Rtype, o1, v3, numsize}
use netbsd_curses.Terminfo.Tbuf.{
  Tbuf, encode_buf_id_num, encode_buf_id_count_str, encode_buf_id_flags, find_cap, first, is_some,
}
use netbsd_curses.Terminfo.Compile.{Host, Flags, Tic, store_extra}
use netbsd_curses.Terminfo.Compile.Escapes.{encode_string}
use netbsd_curses.Terminfo.Compile.Tokens.{split_first}
use netbsd_curses.Terminfo.Compile.Promote.{promote}

-- The description so far, and the scratch buffer `buf`.
pub record Compiling : Type 0 where
  pub tic : Tic
  pub buf : Tbuf

-- Whether a capability that terminfo names is there already.
unfoldable pub have : Rtype → Tbuf → ℕ → Option ℕ → Answer Bool
have rtype t type none = gives false
have rtype t type (some ind) = do found ← find_cap rtype t type ind; gives (is_some found)

-- VALID_NUMERIC(cnum) and not above INT32_MAX.
unfoldable pub in_range : ℤ → Bool
in_range (pos n) = leb n (2 ^ 31 - 1)
in_range (negsuc n) = false

-- CANCELLED_BOOLEAN and CANCELLED_NUMERIC.
abbrev pub cancelled : ℤ
cancelled = negsuc 1

-- `@` at the end of a token, which it loses. For an empty token the code looks in front of it,
-- where the T of OT stands.
unfoldable pub without_at : List ℕ → Bool × List ℕ
without_at [] = (false, [])
without_at (c ∷ []) = if c == b'@' then (true, []) else (false, c ∷ [])
without_at (c ∷ d ∷ s) = let r = without_at (d ∷ s) in (r.0, c ∷ r.1)

module _ (host : Host) (flags : Flags) where
  -- VALID_STRING holds of the scratch buffer, which is not NULL.
  unfoldable pub store_str : Compiling → List ℕ → Option ℕ → List ℕ → Answer Compiling
  store_str s id ind p = do
    buf ← encode_string host.grants (record s.buf { text = [] }) p
    let tic = s.tic
    if ltb (2 ^ 16 - 2) (length buf.text) then gives (record s { buf = buf }) else elim ind [
      | none ↦ store_extra host tic id b's' (negsuc 0) (negsuc 1) buf.text flags.extra >>= λ tic.
          gives (record { tic = tic; buf = buf })
      | some i ↦ encode_buf_id_count_str host.grants tic.strs i buf.text >>= λ strs.
          gives (record { tic = record tic { strs = strs }; buf = buf })
    ]

  unfoldable pub str_cap : Compiling → List ℕ → List ℕ → Answer Compiling
  str_cap s id p = do
    let ind = host.str_index id
    there ← have s.tic.rtype s.tic.strs b's' ind
    if there then gives s else store_str s id ind p

  -- A number that takes more than 16 bits is cut, or the description is promoted.
  unfoldable pub widen : Tic → ℤ → Answer (Tic × ℤ)
  widen tic (negsuc n) = gives (tic, negsuc n)
  widen tic (pos n) =
      if ltb (2 ^ 15 - 1) n
      then if flags.compat_v1 then gives (tic, pos (2 ^ 15 - 1)) else elim tic.rtype [
        | o1 ↦ promote host tic >>= λ tic. gives (tic, pos n)
        | v3 ↦ gives (tic, pos n)
      ]
      else gives (tic, pos n)

  unfoldable pub store_num : Tic → List ℕ → Option ℕ → ℤ → Answer Tic
  store_num tic id none num = store_extra host tic id b'n' (negsuc 0) num [] flags.extra
  store_num tic id (some i) num = do
    nums ← encode_buf_id_num host.grants tic.nums i num (numsize tic.rtype)
    gives (record tic { nums = nums })

  unfoldable pub num_cap : Tic → List ℕ → List ℕ → Answer Tic
  num_cap tic id p = do
    let ind = host.num_index id
    there ← have tic.rtype tic.nums b'n' ind
    if there then gives tic else elim (host.strtol p).1 [
      | c ∷ e ↦ gives tic
      | [] ↦
          if in_range (host.strtol p).0
          then (do (tic, num) ← widen tic (host.strtol p).0; store_num tic id ind num)
          else gives tic
    ]

  unfoldable pub store_flag : Tic → List ℕ → Option ℕ → ℤ → Answer Tic
  store_flag tic id none flag = store_extra host tic id b'f' flag (pos 0) [] flags.extra
  store_flag tic id (some i) flag = do
    there ← have tic.rtype tic.flags b'f' (some i)
    if there then gives tic else (do
      fs ← encode_buf_id_flags host.grants tic.flags i flag
      gives (record tic { flags = fs }))

  unfoldable pub cancel_num : Tic → ℕ → Answer Tic
  cancel_num tic i = do
    there ← have tic.rtype tic.nums b'n' (some i)
    if there then gives tic else (do
      nums ← encode_buf_id_num host.grants tic.nums i cancelled (numsize tic.rtype)
      gives (record tic { nums = nums }))

  unfoldable pub cancel_str : Tic → ℕ → Answer Tic
  cancel_str tic i = do
    there ← have tic.rtype tic.strs b's' (some i)
    if there then gives tic else (do
      strs ← encode_buf_id_num host.grants tic.strs i (pos 0) 2
      gives (record tic { strs = strs }))

  unfoldable pub cancel : Tic → List ℕ → Answer Tic
  cancel tic id = elim (host.flag_index id) [
    | some i ↦ store_flag tic id (some i) cancelled
    | none ↦ elim (host.num_index id) [
      | some i ↦ cancel_num tic i
      | none ↦ elim (host.str_index id) [
        | some i ↦ cancel_str tic i
        | none ↦ store_flag tic id none cancelled
      ]
    ]
  ]

  unfoldable pub flag_cap : Tic → List ℕ → Answer Tic
  flag_cap tic token =
      let r = without_at token in
      if r.0 then cancel tic r.1 else store_flag tic r.1 (host.flag_index r.1) (pos 1)

  unfoldable pub cap : Compiling → List ℕ → Answer Compiling
  cap s token = elim (split_first b'=' token) [
    | some (id, p) ↦ str_cap s id p
    | none ↦ elim (split_first b'#' token) [
      | some (id, p) ↦ num_cap s.tic id p >>= λ tic. gives (record s { tic = tic })
      | none ↦ flag_cap s.tic token >>= λ tic. gives (record s { tic = tic })
    ]
  ]

  unfoldable pub compile_token : Compiling → List ℕ → Answer Compiling
  compile_token s (c ∷ d ∷ token) =
      if not flags.comment && (c == b'.')
      then gives s
      else if (c == b'O') && (d == b'T')
      then if flags.extra then cap s token else gives s
      else cap s (c ∷ d ∷ token)
  compile_token s token =
      if not flags.comment && (first token == b'.') then gives s else cap s token
