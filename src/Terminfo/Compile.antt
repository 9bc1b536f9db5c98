-- ===== src/Terminfo/Compile.antt =====
-- lib/libterminfo/compile.c: the data of a description, its name and the capabilities that terminfo
-- does not name.
pub mod Escapes
pub mod Tokens
pub mod Promote
pub mod Keeps
pub mod Promoted
pub mod Widens
pub mod Steps
pub mod Kept
pub mod Whole
pub mod Losses
pub mod Names
pub mod NewNames
pub mod Promotes
pub mod Flatten
pub mod Bounds
pub mod Caps
pub mod Describes
pub mod Extras
pub mod Stores
pub mod Description
use netbsd_curses.Base.{
  ℕ, zero, suc, ◌+◌, ◌-◌, ◌^◌, ltb, ◌==◌, ◌&&◌, if◌then◌else◌, Bool, true, false, Option, none,
  some, List, [], ◌∷◌, ◌++◌, length,
}
use netbsd_curses.Base.Int.{ℤ}
use netbsd_curses.Terminfo.Bytes.{
  Answer, gives, fails, outside, ◌>>=◌, unsigned, Rtype, o1, v3, numsize,
}
use netbsd_curses.Terminfo.Tbuf.{
  Tbuf, put, encode_buf_num, encode_buf_count_str, counted, grow_tbuf, find_extra,
}

-- What is called: malloc and realloc, which give `l` bytes or not; strtol with base 0, which gives
-- the number and what it has not read; the indices of the names, which a script generates.
pub record Host : Type 0 where
  pub grants : ℕ → Bool
  pub strtol : List ℕ → ℤ × List ℕ
  pub flag_index : List ℕ → Option ℕ
  pub num_index : List ℕ → Option ℕ
  pub str_index : List ℕ → Option ℕ

-- The bits TIC_DESCRIPTION, TIC_ALIAS, TIC_COMMENT, TIC_EXTRA and TIC_COMPAT_V1.
pub record Flags : Type 0 where
  pub description : Bool
  pub alias : Bool
  pub comment : Bool
  pub extra : Bool
  pub compat_v1 : Bool

-- The strings stand without their NUL.
pub record Tic : Type 0 where
  pub name : List ℕ
  pub alias : Option (List ℕ)
  pub desc : Option (List ℕ)
  pub rtype : Rtype
  pub flags : Tbuf
  pub nums : Tbuf
  pub strs : Tbuf
  pub extras : Tbuf

unfoldable pub same : List ℕ → List ℕ → Bool
same [] [] = true
same [] (d ∷ t) = false
same (c ∷ s) [] = false
same (c ∷ s) (d ∷ t) = (c == d) && same s t

-- The characters before the first `c`.
unfoldable pub up_to : ℕ → List ℕ → List ℕ
up_to c [] = []
up_to c (d ∷ s) = let rest = up_to c s in if d == c then [] else d ∷ rest

unfoldable pub version : Rtype → List ℕ
version o1 = []
version v3 = b',' ∷ b'v' ∷ b'3' ∷ []

unfoldable pub getname : Host → Rtype → List ℕ → Answer (List ℕ)
getname host rtype orig =
    let name = up_to b',' orig ++ version rtype in
    if host.grants (length name + 1) then gives name else fails

unfoldable pub value_size : Rtype → ℕ → List ℕ → ℕ
value_size rtype type str =
    if type == b'f'
    then 1
    else if type == b'n'
    then numsize rtype
    else if type == b's'
    then 2 + length str
    else 0

unfoldable pub put_value : Tbuf → Rtype → ℕ → ℤ → ℤ → List ℕ → Answer Tbuf
put_value t rtype type flag num str =
    if type == b'f'
    then put t (unsigned 8 flag ∷ [])
    else if type == b'n'
    then encode_buf_num t num rtype
    else if type == b's'
    then encode_buf_count_str t str
    else gives t

unfoldable pub append_extra : Host → Rtype → Tbuf → List ℕ → ℕ → ℤ → ℤ → List ℕ → Answer Tbuf
append_extra host rtype t id type flag num str =
    let l = length id + 1 in
    if ltb (2 ^ 16 - 1) l then fails else (do
      t ← grow_tbuf host.grants t (2 + l + 1 + value_size rtype type str)
      t ← encode_buf_count_str t (id ++ 0 ∷ [])
      t ← put t (type ∷ [])
      t ← put_value t rtype type flag num str
      gives (counted t))

abbrev pub use_cap : List ℕ
use_cap = b'u' ∷ b's' ∷ b'e' ∷ []

-- A capability that is there already is refused like one that is unknown; use= may be repeated.
unfoldable pub store_extra : Host → Tic → List ℕ → ℕ → ℤ → ℤ → List ℕ → Bool → Answer Tic
store_extra host tic id type flag num str extra =
    let store : Answer Tic =
      (append_extra host tic.rtype tic.extras id type flag num str >>= λ t.
      gives (record tic { extras = t })) in
    if same id use_cap
    then store
    else (find_extra tic.rtype tic.extras id >>= λ found. elim found [
      | some cap ↦ fails
      | none ↦ if extra then store else fails
    ])
