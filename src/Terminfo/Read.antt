-- ===== src/Terminfo/Read.antt =====
-- lib/libterminfo/term.c: _ti_readterm, which reads a record into a terminal, and _ti_checkname.
pub mod Flat
pub mod Values
pub mod Records
pub mod Elements
use netbsd_curses.Base.{
  ℕ, zero, suc, ◌+◌, ◌-◌, ◌^◌, ltb, leb, ◌==◌, ◌&&◌, ◌||◌, if◌then◌else◌, Bool, true, false, Option,
  none, some, List, [], ◌∷◌, ◌++◌, length, set, replicate,
}
use netbsd_curses.Base.Int.{ℤ, pos, negsuc}
use netbsd_curses.Terminfo.Bytes.{
  Answer, gives, fails, outside, ◌>>=◌, decode_16, decode_num, signed_8, Rtype, o1, v3, split,
}
use netbsd_curses.Terminfo.Tbuf.{first}
use netbsd_curses.Terminfo.Compile.{same}
use netbsd_curses.Terminfo.Compile.Promote.{is_number}
use netbsd_curses.Terminfo.Compile.Tokens.{split_first}

-- A string capability: NULL, (char *)-1, or the bytes at the pointer, which end at a NUL.
pub data Str : Type 0 where
  absent cancelled : Str
  at : List ℕ → Str

-- What a user-defined capability holds; the fields of the other types are absent.
pub data Userdef : Type 0 where
  flag_def : List ℕ → ℤ → Userdef
  num_def : List ℕ → ℤ → Userdef
  str_def : List ℕ → Str → Userdef

pub record Terminal : Type 0 where
  pub name : List ℕ
  pub alias : Option (List ℕ)
  pub desc : Option (List ℕ)
  pub flags : List ℤ
  pub nums : List ℤ
  pub strs : List Str
  pub userdefs : List Userdef

-- VALID_BOOLEAN.
unfoldable pub is_boolean : ℤ → Bool
is_boolean (pos n) = leb n 1
is_boolean (negsuc n) = false

-- Called with flags 0, values that are not valid become absent.
unfoldable pub boolean : Bool → ℤ → ℤ
boolean raw v = if raw || is_boolean v then v else pos 0

unfoldable pub numeric : Bool → ℤ → ℤ
numeric raw v = if raw || is_number v then v else negsuc 0

unfoldable pub string : Bool → List ℕ → Str
string raw (c ∷ s) = at (c ∷ s)
string raw [] = if raw then cancelled else absent

-- An assignment to an element of an array.
unfoldable pub store {ℓ} : {A : Type ℓ} → List A → ℕ → A → Answer (List A)
store xs i v = if ltb i (length xs) then gives (set xs i v) else outside

unfoldable pub read_str : List ℕ → Answer (List ℕ × List ℕ)
read_str cap = do (len, cap) ← decode_16 cap; split len cap

-- Each of the arrays is filled by a loop of this shape, which differs in how it reads a value.
unfoldable pub read_caps {ℓ} :
    {A : Type ℓ} → (List ℕ → Answer (A × List ℕ)) → ℕ → List ℕ → List A → Answer (List A × List ℕ)
read_caps read zero cap xs = gives (xs, cap)
read_caps read (suc n) cap xs = do
  (ind, cap) ← decode_16 cap
  (v, cap) ← read cap
  xs ← store xs ind v
  read_caps read n cap xs

unfoldable pub read_flag : Bool → List ℕ → Answer (ℤ × List ℕ)
read_flag raw cap = do (flag, cap) ← split 1 cap; gives (boolean raw (signed_8 (first flag)), cap)

unfoldable pub read_num : Bool → Rtype → List ℕ → Answer (ℤ × List ℕ)
read_num raw rtype cap = do (num, cap) ← decode_num cap rtype; gives (numeric raw num, cap)

unfoldable pub read_string : Bool → List ℕ → Answer (Str × List ℕ)
read_string raw cap = do (s, cap) ← read_str cap; gives (string raw s, cap)

unfoldable pub read_userdef : Bool → Rtype → List ℕ → Answer (Userdef × List ℕ)
read_userdef raw rtype cap = do
  (id, cap) ← read_str cap
  (type, cap) ← split 1 cap
  let t = first type
  if t == b'f'
      then (read_flag raw cap >>= λ r. gives (flag_def id r.0, r.1))
      else if t == b'n'
      then (read_num raw rtype cap >>= λ r. gives (num_def id r.0, r.1))
      else if t == b's'
      then (read_string raw cap >>= λ r. gives (str_def id r.0, r.1))
      else fails

unfoldable pub read_userdefs : Bool → Rtype → ℕ → List ℕ → Answer (List Userdef × List ℕ)
read_userdefs raw rtype zero cap = gives ([], cap)
read_userdefs raw rtype (suc n) cap = do
  (ud, cap) ← read_userdef raw rtype cap
  (uds, cap) ← read_userdefs raw rtype n cap
  gives (ud ∷ uds, cap)

-- A length of 0 says that a buffer is empty; the length is not used otherwise.
unfoldable pub read_count : List ℕ → Answer (ℕ × List ℕ)
read_count cap = do (len, cap) ← decode_16 cap; if len == 0 then gives (0, cap) else decode_16 cap

unfoldable pub nullable : List ℕ → Option (List ℕ)
nullable [] = none
nullable (c ∷ s) = some (c ∷ s)

unfoldable pub rtype_of : ℕ → Answer Rtype
rtype_of c = if c == 3 then gives v3 else if c == 1 then gives o1 else fails

-- The sizes of the arrays, TIFLAGMAX + 1, TINUMMAX + 1 and TISTRMAX + 1.
pub record Sizes : Type 0 where
  pub flags : ℕ
  pub nums : ℕ
  pub strs : ℕ

-- `raw` is `flags != 0`. The arrays start as 0, -1 and NULL; that memory is there is taken as given.
unfoldable pub readterm : Sizes → Bool → List ℕ → Answer Terminal
readterm sizes raw [] = fails
readterm sizes raw (c ∷ cap) = do
  rtype ← rtype_of c
  (name, cap) ← read_str cap
  (alias, cap) ← read_str cap
  (desc, cap) ← read_str cap
  (n, cap) ← read_count cap
  (flags, cap) ← read_caps (read_flag raw) n cap (replicate sizes.flags (pos 0))
  (n, cap) ← read_count cap
  (nums, cap) ← read_caps (read_num raw rtype) n cap (replicate sizes.nums (negsuc 0))
  (n, cap) ← read_count cap
  (strs, cap) ← read_caps (read_string raw) n cap (replicate sizes.strs absent)
  (n, cap) ← read_count cap
  (uds, cap) ← read_userdefs raw rtype n cap
  gives (record {
    name = name;
    alias = nullable alias;
    desc = nullable desc;
    flags = flags;
    nums = nums;
    strs = strs;
    userdefs = uds;
  })

-- Whether one of the aliases, which bars separate, is `name`; on fuel, one unit for each.
unfoldable pub has_alias : ℕ → List ℕ → List ℕ → Bool
has_alias zero name alias = false
has_alias (suc fuel) name [] = false
has_alias (suc fuel) name (c ∷ alias) = elim (split_first b'|' (c ∷ alias)) [
  | none ↦ same (c ∷ alias) name
  | some (s, rest) ↦ same s name || has_alias fuel name rest
]

unfoldable pub checkname : List ℕ → List ℕ → Option (List ℕ) → Bool
checkname name termname none = same termname name
checkname name termname (some alias) = same termname name || has_alias (length alias) name alias
