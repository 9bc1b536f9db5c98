-- ===== src/Terminfo/Compile/Description.antt =====
-- lib/libterminfo/compile.c: _ti_compile, which compiles the text of a description.
use netbsd_curses.Base.{
  ℕ, zero, suc, ◌+◌, ◌-◌, ◌^◌, ltb, ◌||◌, if◌then◌else◌, Bool, false, Option, none, some, List, [],
  ◌∷◌, length,
}
use netbsd_curses.Terminfo.Bytes.{Answer, gives, fails, outside, ◌>>=◌, o1}
use netbsd_curses.Terminfo.Tbuf.{empty}
use netbsd_curses.Terminfo.Compile.{Host, Flags, Tic, getname}
use netbsd_curses.Terminfo.Compile.Tokens.{get_token, split_first, split_last}
use netbsd_curses.Terminfo.Compile.Caps.{Compiling, compile_token}

-- The name, the aliases and the description of the first token.
unfoldable pub parts : List ℕ → List ℕ × Option (List ℕ) × Option (List ℕ)
parts token =
    let d : List ℕ × Option (List ℕ) = elim (split_last b'|' token) [
      | none ↦ (token, none)
      | some (s, desc) ↦ (s, some desc)
    ] in
    elim (split_first b'|' d.0) [
      | none ↦ (d.0, none, d.1)
      | some (name, alias) ↦ (name, some alias, d.1)
    ]

unfoldable pub too_long : Option (List ℕ) → Bool
too_long none = false
too_long (some s) = ltb (2 ^ 16 - 2) (length s)

module _ (host : Host) (flags : Flags) where
  -- The loop, on fuel; it ends at an empty token too.
  unfoldable pub compile_tokens : ℕ → Compiling → List ℕ → Answer Compiling
  compile_tokens zero s text = outside
  compile_tokens (suc fuel) s text = elim (get_token text b',') [
    | none ↦ gives s
    | some ([], rest) ↦ gives s
    | some (c ∷ token, rest) ↦
        compile_token host flags s (c ∷ token) >>= λ s. compile_tokens fuel s rest
  ]

  unfoldable pub kept_alias : Option (List ℕ) → Answer (Option (List ℕ))
  kept_alias none = gives none
  kept_alias (some alias) =
      if flags.alias then (getname host o1 alias >>= λ s. gives (some s)) else gives none

  unfoldable pub kept_desc : Option (List ℕ) → Answer (Option (List ℕ))
  kept_desc none = gives none
  kept_desc (some desc) =
      if flags.description
      then if host.grants (length desc + 1) then gives (some desc) else fails
      else gives none

  unfoldable pub start : List ℕ → Answer Tic
  start token = do
    let (name, alias, desc) = parts token
    if too_long (some name) || (too_long desc || too_long alias) then fails else (do
      n ← getname host o1 name
      a ← kept_alias alias
      d ← kept_desc desc
      gives (record {
        name = n;
        alias = a;
        desc = d;
        rtype = o1;
        flags = empty;
        nums = empty;
        strs = empty;
        extras = empty;
      }))

  -- The memory of the description itself is taken as given.
  unfoldable pub compile : List ℕ → Answer Tic
  compile text = elim (get_token text b',') [
    | none ↦ fails
    | some (token, rest) ↦ (do
      tic ← start token
      s ← compile_tokens (length rest + 1) (record { tic = tic; buf = empty }) rest
      gives s.tic)
  ]
