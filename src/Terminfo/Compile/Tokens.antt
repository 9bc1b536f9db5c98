-- ===== src/Terminfo/Compile/Tokens.antt =====
-- lib/libterminfo/compile.c: _ti_get_token, and the splitting of a token by strchr and strrchr.
use netbsd_curses.Base.{ℕ, ◌==◌, ◌&&◌, ◌||◌, if◌then◌else◌, Option, none, some, List, [], ◌∷◌}
use mathlib.Core.Option
use netbsd_curses.Terminfo.Compile.Escapes.{drop_spaces}

-- 0 while no escape is open.
unfoldable pub escape_after : ℕ → ℕ → ℕ → ℕ
escape_after sep esc c =
    if esc == 0
    then if (c == b'\\') || (c == b'^') then c else 0
    else if (sep == b':') && ((esc == b'\\') && (c == b'E'))
    then b'x'
    else 0

-- The token and what follows the separator.
unfoldable pub scan_token : ℕ → ℕ → List ℕ → List ℕ × List ℕ
scan_token sep esc [] = ([], [])
scan_token sep esc (c ∷ cap) =
    let rest = scan_token sep (escape_after sep esc c) cap in
    if (esc == 0) && (c == sep) then ([], cap) else (c ∷ rest.0, rest.1)

unfoldable pub get_token : List ℕ → ℕ → Option (List ℕ × List ℕ)
get_token cap sep = elim (drop_spaces cap) [
  | [] ↦ none
  | c ∷ rest ↦ some (scan_token sep 0 (c ∷ rest))
]

-- What stands before the first `c` and behind it.
unfoldable pub split_first : ℕ → List ℕ → Option (List ℕ × List ℕ)
split_first c [] = none
split_first c (d ∷ s) =
    let rest = split_first c s in
    if d == c then some ([], s) else Option.map (λ r. (d ∷ r.0, r.1)) rest

-- What stands before the last `c` and behind it.
unfoldable pub split_last : ℕ → List ℕ → Option (List ℕ × List ℕ)
split_last c [] = none
split_last c (d ∷ s) = elim (split_last c s) [
  | some r ↦ some (d ∷ r.0, r.1)
  | none ↦ if d == c then some ([], s) else none
]
