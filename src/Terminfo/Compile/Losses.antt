-- ===== src/Terminfo/Compile/Losses.antt =====
-- What is lost in the records of lib/libterminfo with 16-bit numbers, and when _ti_promote rewrites them.
use netbsd_curses.Base.{
  ℕ, zero, suc, ◌+◌, ◌<◌, ◌≡◌, refl, ap, ◌∙◌, ◌==◌, if◌then◌else◌, Bool, true, false, Option, none,
  some, List, [], ◌∷◌, ◌++◌, length, length-append, get_or, arith,
}
use netbsd_curses.Base.Int.{pos, negsuc}
use netbsd_curses.Terminfo.Bytes.{Answer, gives, fails, outside, ◌>>=◌, unsigned, o1, v3}
use netbsd_curses.Terminfo.Tbuf.Entries.{num}
use netbsd_curses.Terminfo.Compile.{Host, Tic, up_to, version}
use netbsd_curses.Terminfo.Compile.Tokens.{split_first}
use netbsd_curses.Terminfo.Compile.Caps.{cancelled}
use netbsd_curses.Terminfo.Compile.Promote.{copy_alias, promote_aliases, promoted_alias}
use netbsd_curses.Terminfo.Compile.Keeps.{IsTic}
use netbsd_curses.Terminfo.Compile.Widens.{Shorter, split_first-Shorter, getname-gives}
use netbsd_curses.Terminfo.Read.{Sizes, Terminal, readterm}
use netbsd_curses.Terminfo.Read.Elements.{value_of, seen_num, readterm-elements}
use netbsd_curses.Terminfo.Read.Flat.{IsFlatTic}
use netbsd_curses.Terminfo.Compile.Flatten.{flat_size, flatten}
use netbsd_curses.Terminfo.Read.Records.{IsNamed}
use mathlib.Core.List.{append_assoc}

-- A number that is cancelled in a description with 16-bit numbers is read back as the number 65534,
-- even where numbers that are not valid are to be read as absent: the bytes of a description with the
-- compiler's invariant, where there is memory for them and its buffers and names have lengths of 16
-- bits.
pub cancelled-read :
    (host : Host) (sizes : Sizes) (raw : Bool) (tic : Tic) (w : IsTic host sizes tic) (i : ℕ)
    → IsFlatTic tic
    → IsNamed tic
    → host.grants (flat_size tic) ≡ true
    → tic.rtype ≡ o1
    → value_of i w.nums.0 ≡ some (num cancelled)
    → (t : Terminal) × ((flatten host tic >>= λ bytes. readterm sizes raw bytes) ≡ gives t)
      × (get_or t.nums i (negsuc 0) ≡ pos 65534)
unfolding unsigned
cancelled-read host sizes raw tic w i fit named room old e =
    let (t, read, flags, nums, strs) = readterm-elements host sizes raw tic w i fit named room in
    (
      t,
      read,
      nums
          ∙ ap (λ r. seen_num raw r (value_of i w.nums.0)) old
          ∙ ap (seen_num raw o1) e
          ∙ as_read raw,
    )
  where
    as_read : (raw : Bool) → seen_num raw o1 (some (num cancelled)) ≡ pos 65534
    as_read true = refl
    as_read false = refl

-- No `c` among the characters.
pub data Without (c : ℕ) : List ℕ → Type 0 where
  none_here : Without c []
  not_here : (d : ℕ) (s : List ℕ) → (d == c) ≡ false → Without c s → Without c (d ∷ s)

split_first-here : (c : ℕ) (a b : List ℕ) → Without c a → split_first c (a ++ c ∷ b) ≡ some (a, b)
unfolding split_first
split_first-here c [] b none_here = rw (==_same c)
  where
    ==_same : (c : ℕ) → (c == c) ≡ true
    ==_same c = ground arith
split_first-here c (d ∷ a) b (not_here _ _ e h) = rw (e, split_first-here c a b h)

up_to_all : (c : ℕ) (a : List ℕ) → Without c a → up_to c a ≡ a
unfolding up_to
up_to_all c [] none_here = refl
up_to_all c (d ∷ a) (not_here _ _ e h) = rw (e, up_to_all c a h)

up_to_end : (a rest : List ℕ) → Without 0 a → up_to 0 (a ++ 0 ∷ rest) ≡ a
unfolding up_to
up_to_end [] rest none_here = refl
up_to_end (d ∷ a) rest (not_here _ _ e h) = rw (e, up_to_end a rest h)

Without-after : (c : ℕ) (a b : List ℕ) → Without c a → Without c b → Without c (a ++ b)
Without-after c [] b none_here h = h
Without-after c (d ∷ a) b (not_here _ _ e k) h = not_here d (a ++ b) e (Without-after c a b k h)

copied :
    (host : Host) (bytes part : List ℕ)
    → ((l : ℕ) → host.grants l ≡ true)
    → copy_alias host bytes part ≡ gives (bytes ++ ((up_to b',' part ++ version v3) ++ 0 ∷ []))
unfolding copy_alias
copied host bytes part g =
    let name = up_to b',' part ++ version v3 in
    ap
      (λ r. elim r as (λ _. Answer (List ℕ)) [
        | gives name ↦
            let copied = bytes ++ (name ++ 0 ∷ []) in
            if host.grants (length copied) then gives copied else fails
        | _ ↦ outside
      ])
      (getname-gives host v3 part g)
    ∙ ap (λ b. if b then gives (bytes ++ (name ++ 0 ∷ [])) else fails)
        (g (length (bytes ++ (name ++ 0 ∷ []))))

-- Further aliases go behind those copied.
pub promote_aliases-behind :
    (host : Host) (fuel : ℕ) (bytes buf : List ℕ)
    → ((l : ℕ) → host.grants l ≡ true)
    → length buf < fuel
    → (more : List ℕ) × (promote_aliases host fuel bytes buf ≡ gives (bytes ++ more))
unfolding promote_aliases
promote_aliases-behind host zero bytes buf g h = ground arith
promote_aliases-behind host (suc fuel) bytes buf g h =
    go (split_first b'|' buf) (split_first-Shorter b'|' buf)
      (λ bytes' delim l. promote_aliases-behind host fuel bytes' delim g (omega (arith, l, h)))
  where
    go :
        (o : Option (List ℕ × List ℕ))
        → Shorter (length buf) o
        → ((bytes' delim : List ℕ)
            → length delim < length buf
            → (more : List ℕ) × (promote_aliases host fuel bytes' delim ≡ gives (bytes' ++ more)))
        → (more : List ℕ) × (elim o as (λ _. Answer (List ℕ)) [
          | none ↦ copy_alias host bytes buf
          | some (part, delim) ↦
              copy_alias host bytes part >>= λ bytes. promote_aliases host fuel bytes delim
        ]
            ≡ gives (bytes ++ more))
    go none l rec = ((up_to b',' buf ++ version v3) ++ 0 ∷ [], copied host bytes buf g)
    go (some r) l rec =
        let this = (up_to b',' (r.0) ++ version v3) ++ 0 ∷ [] in
        let rest = rec (bytes ++ this) (r.1) l in
        (
          this ++ rest.0,
          ap (λ (a : Answer (List ℕ)). a >>= λ bytes. promote_aliases host fuel bytes (r.1))
                (copied host bytes (r.0) g)
              ∙ rest.1
              ∙ ap gives (append_assoc bytes this (rest.0)),
        )

promote_aliases-two :
    (host : Host) (fuel : ℕ) (bytes a b : List ℕ)
    → Without b'|' a
    → promote_aliases host (suc fuel) bytes (a ++ b'|' ∷ b)
      ≡ (copy_alias host bytes a >>= λ bytes. promote_aliases host fuel bytes b)
unfolding promote_aliases
promote_aliases-two host fuel bytes a b h =
    ap
      (λ o. elim o as (λ _. Answer (List ℕ)) [
        | none ↦ copy_alias host bytes (a ++ b'|' ∷ b)
        | some (part, delim) ↦
            copy_alias host bytes part >>= λ bytes. promote_aliases host fuel bytes delim
      ])
      (split_first-here b'|' a b h)

version_plain : Without 0 (version v3)
unfolding version
version_plain = not_here _ _ refl (not_here _ _ refl (not_here _ _ refl none_here))

-- With memory for all of them, of aliases the first of which has no bar, comma or NUL, a
-- promoted description has only the first.
pub promoted_alias-first :
    (host : Host) (a b : List ℕ)
    → ((l : ℕ) → host.grants l ≡ true)
    → Without b'|' a
    → Without b',' a
    → Without 0 a
    → promoted_alias host (some (a ++ b'|' ∷ b)) ≡ gives (some (a ++ version v3))
unfolding promoted_alias
promoted_alias-first host a b g bar comma nul =
    let text = a ++ b'|' ∷ b in
    let more : length text + 1 ≡ suc (length text) = omega arith in
    let here : length b < length text = omega (arith, length-append a (b'|' ∷ b)) in
    let rest = promote_aliases-behind host (length text) ((a ++ version v3) ++ 0 ∷ []) b g here in
    ap (λ n. promote_aliases host n [] text >>= λ bytes. gives (some (up_to 0 bytes))) more
    ∙ ap (λ (r : Answer (List ℕ)). r >>= λ bytes. gives (some (up_to 0 bytes)))
        (promote_aliases-two host (length text) [] a b bar
          ∙ ap (λ (r : Answer (List ℕ)). r >>= λ bytes. promote_aliases host (length text) bytes b)
              (copied host [] a g
                ∙ ap (λ name. gives ((name ++ version v3) ++ 0 ∷ [])) (up_to_all b',' a comma))
          ∙ rest.1)
    ∙ ap (λ bytes. gives (some (up_to 0 bytes))) (append_assoc (a ++ version v3) (0 ∷ []) (rest.0))
    ∙ ap (λ name. gives (some name))
        (up_to_end (a ++ version v3) (rest.0) (Without-after 0 a (version v3) nul version_plain))
