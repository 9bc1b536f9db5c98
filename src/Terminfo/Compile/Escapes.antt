-- ===== src/Terminfo/Compile/Escapes.antt =====
-- lib/libterminfo/compile.c: encode_string, which resolves the escapes of a string.
use netbsd_curses.Base.{
  ℕ, zero, suc, ◌+◌, ◌-◌, ◌*◌, ◌%◌, leb, ◌==◌, ◌&&◌, ◌||◌, not, if◌then◌else◌, Bool, true, false,
  Option, none, some, List, [], ◌∷◌, ◌++◌, length,
}
use mathlib.Core.Option
use netbsd_curses.Terminfo.Bytes.{Answer, outside, ◌>>=◌}
use netbsd_curses.Terminfo.Tbuf.{Tbuf, put, grow_tbuf}

-- isspace in the C locale.
unfoldable pub is_space : ℕ → Bool
is_space c = (leb 9 c && leb c 13) || (c == b' ')

unfoldable pub drop_spaces : List ℕ → List ℕ
drop_spaces [] = []
drop_spaces (c ∷ str) = let rest = drop_spaces str in if is_space c then rest else c ∷ str

-- At most `i` digits more; 8 and 9 are taken with a warning.
unfoldable pub octal_digits : ℕ → ℕ → List ℕ → ℕ × List ℕ
octal_digits zero num str = (num, str)
octal_digits (suc i) num [] = (num, [])
octal_digits (suc i) num (c ∷ str) =
    let rest = octal_digits i (num * 8 + (c - b'0')) str in
    if leb b'0' c && leb c b'9' then rest else (num, c ∷ str)

-- The character that `\c` stands for.
unfoldable pub escaped : ℕ → ℕ
escaped c =
    if c == b'a'
    then 7
    else if c == b'b'
    then 8
    else if (c == b'e') || (c == b'E')
    then 0o33
    else if c == b'f'
    then 0o14
    else if (c == b'l') || (c == b'n')
    then 10
    else if c == b'r'
    then 13
    else if c == b's'
    then b' '
    else if c == b't'
    then 9
    else c

-- What a round leaves: the characters written, `slash`, `last` and the rest of the string; or it
-- ends the loop.
pub data Round : Type 0 where
  on : List ℕ → Bool → ℕ → List ℕ → Round
  stop : Round

unfoldable pub control : ℕ → ℕ
control c = if c == b'?' then 0o177 else if c % 32 == 0 then 128 else c % 32

unfoldable pub caret : List ℕ → Round
caret [] = stop
caret (c ∷ str) = on (control c ∷ []) false (control c) str

unfoldable pub octal : ℕ → ℕ → List ℕ → Round
octal ch last str =
    let r = octal_digits 2 (ch - b'0') str in
    let num = if r.0 == 0 then 0o200 else r.0 in on (num % 256 ∷ []) false last r.1

unfoldable pub round : ℕ → Bool → ℕ → List ℕ → Round
round ch slash last str =
    if ch == 10
    then on [] slash last (drop_spaces str)
    else if not slash && (ch == b'\\')
    then on [] true last str
    else if not slash
    then if not (last == b'%') && (ch == b'^') then caret str else on (ch ∷ []) false ch str
    else if leb b'0' ch && leb ch b'7'
    then octal ch last str
    else on (escaped ch ∷ []) false ch str

-- The loop, on fuel.
unfoldable pub encode_chars : ℕ → Bool → ℕ → List ℕ → Option (List ℕ)
encode_chars fuel slash last [] = some []
encode_chars zero slash last (ch ∷ str) = none
encode_chars (suc fuel) slash last (ch ∷ str) = elim (round ch slash last str) [
  | stop ↦ some []
  | on out slash last str ↦ Option.map (λ rest. out ++ rest) (encode_chars fuel slash last str)
]

-- Every round takes a character.
unfoldable pub escapes : List ℕ → Option (List ℕ)
escapes str = encode_chars (length str) false 0 str

-- A loop that did not end is an `outside`, which does not happen.
unfoldable pub encode_string : (ℕ → Bool) → Tbuf → List ℕ → Answer Tbuf
encode_string grants t str = do
  t ← grow_tbuf grants t (length str + 1)
  elim (escapes str) [ none ↦ outside | some out ↦ put t (out ++ 0 ∷ []) ]
