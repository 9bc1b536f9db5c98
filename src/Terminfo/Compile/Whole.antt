-- ===== src/Terminfo/Compile/Whole.antt =====
-- lib/libterminfo/compile.c: _ti_compile ends, in its buffers and without a failed assertion.
use netbsd_curses.Base.{
  ℕ, zero, suc, ◌+◌, ◌⊎◌, inl, inr, ◌≤◌, ◌<◌, ◌≡◌, refl, ◌==◌, ◌&&◌, ◌||◌, if_cases, true, false,
  Option, none, some, List, [], ◌∷◌, length, arith,
}
use netbsd_curses.Terminfo.Bytes.{gives, fails, ◌>>=◌, o1}
use netbsd_curses.Terminfo.Bytes.Safe.{Safe, fine, failed, Safe-bind, Safe-if}
use netbsd_curses.Terminfo.Tbuf.{empty}
use netbsd_curses.Terminfo.Tbuf.Entries.{none_left}
use netbsd_curses.Terminfo.Compile.{Host, Flags}
use netbsd_curses.Terminfo.Compile.Escapes.{drop_spaces}
use netbsd_curses.Terminfo.Compile.Bounds.{drop_spaces_shorter}
use netbsd_curses.Terminfo.Compile.Tokens.{scan_token, get_token, escape_after}
use netbsd_curses.Terminfo.Compile.Caps.{Compiling, compile_token}
use netbsd_curses.Terminfo.Compile.Description.{
  compile_tokens, parts, too_long, kept_alias, kept_desc, start, compile,
}
use netbsd_curses.Terminfo.Compile.Describes.{no_extra}
use netbsd_curses.Terminfo.Compile.Stores.{Any}
use netbsd_curses.Terminfo.Compile.Keeps.{IsHost, IsCaps, IsTic, none_twice}
use netbsd_curses.Terminfo.Compile.Widens.{AliasRoom, getname-Safe}
use netbsd_curses.Terminfo.Compile.Kept.{compile_token-Safe}
use netbsd_curses.Terminfo.Read.{Sizes}
use netbsd_curses.Terminfo.Read.Values.{end_below}

scan_token_shorter : (sep esc : ℕ) (cap : List ℕ) → length (scan_token sep esc cap).1 ≤ length cap
unfolding scan_token
scan_token_shorter sep esc [] = omega arith
scan_token_shorter sep esc (c ∷ cap) =
    if_cases (λ (r : List ℕ × List ℕ). length r.1 ≤ suc (length cap)) ((esc == 0) && (c == sep)) _ _
      (λ _. omega arith) (λ _. omega (arith, scan_token_shorter sep (escape_after sep esc c) cap))

-- A token that is not empty is taken off the text.
abbrev Rests : ℕ → Option (List ℕ × List ℕ) → Type 0
Rests n none = 0 < 1
Rests n (some ([], rest)) = 0 < 1
Rests n (some (c ∷ token, rest)) = length rest < n

get_token-Rests : (text : List ℕ) (sep : ℕ) → Rests (length text) (get_token text sep)
unfolding get_token scan_token
get_token-Rests text sep = go (drop_spaces text) (drop_spaces_shorter text)
  where
    scanned : (c : ℕ) (cap : List ℕ) → Rests (suc (length cap)) (some (scan_token sep 0 (c ∷ cap)))
    scanned c cap =
        if_cases (λ (r : List ℕ × List ℕ). Rests (suc (length cap)) (some r))
          ((0 == 0) && (c == sep)) ([], cap)
          (
            c ∷ (scan_token sep (escape_after sep 0 c) cap).0,
            (scan_token sep (escape_after sep 0 c) cap).1,
          )
          (λ _. omega arith) (λ _. omega (arith, scan_token_shorter sep (escape_after sep 0 c) cap))

    grow : (m n : ℕ) (o : Option (List ℕ × List ℕ)) → m ≤ n → Rests m o → Rests n o
    grow m n none l h = omega arith
    grow m n (some ([], rest)) l h = omega arith
    grow m n (some (c ∷ token, rest)) l h = omega (arith, l, h)

    go :
        (t : List ℕ)
        → length t ≤ length text
        → Rests (length text) (elim t as (λ _. Option (List ℕ × List ℕ)) [
          | [] ↦ none
          | c ∷ rest ↦ some (scan_token sep 0 (c ∷ rest))
        ])
    go [] l = omega arith
    go (c ∷ rest) l =
        grow (suc (length rest)) (length text) (some (scan_token sep 0 (c ∷ rest))) l
          (scanned c rest)

module _ (host : Host) (sizes : Sizes) (is_host : IsHost host sizes) (flags : Flags) where
  abbrev IsGood : Compiling → Type 0
  IsGood s = IsTic host sizes s.tic

  -- On a unit of fuel more than there are characters, the loop over the tokens ends.
  compile_tokens-Safe :
      (fuel : ℕ) (s : Compiling) (text : List ℕ)
      → IsGood s
      → length text < fuel
      → Safe IsGood (compile_tokens host flags fuel s text)
  unfolding compile_tokens
  compile_tokens-Safe zero s text w l = ground arith
  compile_tokens-Safe (suc fuel) s text w l =
      go (get_token text b',') (get_token-Rests text b',')
        (λ s' rest w' l'. compile_tokens-Safe fuel s' rest w' (omega (arith, l, l')))
    where
      go :
          (o : Option (List ℕ × List ℕ))
          → Rests (length text) o
          → ((s' : Compiling) (rest : List ℕ)
              → IsGood s'
              → length rest < length text
              → Safe IsGood (compile_tokens host flags fuel s' rest))
          → Safe IsGood (elim o [
            | none ↦ gives s
            | some ([], rest) ↦ gives s
            | some (c ∷ token, rest) ↦ compile_token host flags s (c ∷ token) >>= λ s.
                compile_tokens host flags fuel s rest
          ])
      go none h rec = fine s w
      go (some ([], rest)) h rec = fine s w
      go (some (c ∷ token, rest)) h rec =
          Safe-bind _ (compile_token-Safe host sizes is_host flags s (c ∷ token) w)
            (λ s' w'. rec s' rest w' h)

  -- Aliases are kept only where asked for, and there is memory for all of them, or they are not kept.
  abbrev pub IsRoomy : Type 0
  IsRoomy = (flags.alias ≡ false) ⊎ ((l : ℕ) → host.grants l ≡ true)

  kept_alias-Safe :
      (o : Option (List ℕ)) → IsRoomy → Safe (AliasRoom host) (kept_alias host flags o)
  unfolding kept_alias
  kept_alias-Safe none room = fine none (inl refl)
  kept_alias-Safe (some a) (inr g) =
      Safe-if flags.alias _ _ (λ _. Safe-bind _ (getname-Safe host o1 a) (λ s _. fine _ (inr g)))
        (λ _. fine none (inl refl))
  kept_alias-Safe (some a) (inl e) = Safe-if flags.alias _ _ (λ e'. cc) (λ _. fine none (inl refl))

  kept_desc-Safe : (o : Option (List ℕ)) → Safe Any (kept_desc host flags o)
  unfolding kept_desc
  kept_desc-Safe none = fine none (omega arith)
  kept_desc-Safe (some d) =
      Safe-if flags.description _ _
        (λ _.
          Safe-if (host.grants (length d + 1)) _ _ (λ _. fine (some d) (omega arith)) (λ _. failed))
        (λ _. fine none (omega arith))

  empty-IsCaps : (k n : ℕ) → IsCaps o1 k n empty
  empty-IsCaps k n =
      ([], record { bytes = refl; count = refl; fits = none_left }, end_below, none_twice)

  start-Safe : (token : List ℕ) → IsRoomy → Safe (λ t. IsTic host sizes t) (start host flags token)
  unfolding start
  start-Safe token room =
      let p = parts token in
      Safe-if (too_long (some (p.0)) || (too_long (p.2) || too_long (p.1))) _ _ (λ _. failed)
        (λ _. Safe-bind _ (getname-Safe host o1 (p.0)) (λ n _.
          Safe-bind _ (kept_alias-Safe (p.1) room) (λ a ok.
            Safe-bind _ (kept_desc-Safe (p.2)) (λ d _. fine _ (record {
              alias_room = ok;
              flags = empty-IsCaps b'f' sizes.flags;
              nums = empty-IsCaps b'n' sizes.nums;
              strs = empty-IsCaps b's' sizes.strs;
              extras = ([], record { bytes = refl; count = refl; fits = no_extra });
            })))))

  -- For any text and flags, with names whose indices fit in the arrays and memory for all aliases
  -- that are kept, the compiler ends without an access outside a buffer and without a failed
  -- assertion: it fails, or gives a description whose buffers are lists of capabilities of their
  -- type, with no index twice and none outside the arrays.
  pub compile-Safe :
      (text : List ℕ) → IsRoomy → Safe (λ t. IsTic host sizes t) (compile host flags text)
  unfolding compile
  compile-Safe text room = go (get_token text b',')
    where
      go :
          (o : Option (List ℕ × List ℕ))
          → Safe
              (λ t. IsTic host sizes t)
              (elim o [
                | none ↦ fails
                | some (token, rest) ↦ start host flags token >>= λ tic.
                    compile_tokens host flags
                      (length rest + 1)
                      (record { tic = tic; buf = empty })
                      rest
                    >>= λ s. gives s.tic
              ])
      go none = failed
      go (some r) = Safe-bind _ (start-Safe (r.0) room) (λ t w.
          Safe-bind _
            (compile_tokens-Safe (length (r.1) + 1) (record { tic = t; buf = empty }) (r.1) w
              (omega arith))
            (λ s w'. fine s.tic w'))
