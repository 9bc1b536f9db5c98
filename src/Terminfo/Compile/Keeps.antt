-- ===== src/Terminfo/Compile/Keeps.antt =====
-- The invariant of a description that lib/libterminfo/compile.c builds: its buffers hold
-- capabilities, none of them twice, with indices inside the arrays of term.c.
use netbsd_curses.Base.{
  ℕ, ◌⊎◌, ◌^◌, ◌≤◌, ◌<◌, ◌≡◌, refl, sym, ap, ◌∙◌, subst, ◌==◌, ◌||◌, if◌then◌else◌, Bool, true,
  false, Bool-cases, inl, inr, none, some, List, [], ◌∷◌, ◌++◌, arith,
}
use netbsd_curses.Terminfo.Bytes.{Answer, gives, fails, ◌>>=◌, Rtype}
use netbsd_curses.Terminfo.Bytes.RoundTrip.{u16}
use netbsd_curses.Terminfo.Bytes.Safe.{Safe, Safe-granted}
use netbsd_curses.Terminfo.Tbuf.{Tbuf}
use netbsd_curses.Terminfo.Tbuf.Writes.{appended}
use netbsd_curses.Terminfo.Tbuf.Entries.{
  kind, value_bytes, IsFit, Cap, has, Holds, Holds-appended, find_cap-has,
}
use netbsd_curses.Terminfo.Compile.{Host, Tic}
use netbsd_curses.Terminfo.Compile.Caps.{have}
use netbsd_curses.Terminfo.Compile.Stores.{IsExtras}
use netbsd_curses.Terminfo.Read.{Sizes}
use netbsd_curses.Terminfo.Read.Values.{Below, end_below, and_below}

-- No index is there twice.
pub data Distinct : List Cap → Type 0 where
  none_twice : Distinct []
  once : (c : Cap) (cs : List Cap) → has c.ind cs ≡ false → Distinct cs → Distinct (c ∷ cs)

-- The indices of the names fit in the arrays, and those in a short.
pub record IsHost (host : Host) (sizes : Sizes) : Type 0 where
  pub flag_below : (s : List ℕ) (i : ℕ) → host.flag_index s ≡ some i → i < sizes.flags
  pub num_below : (s : List ℕ) (i : ℕ) → host.num_index s ≡ some i → i < sizes.nums
  pub str_below : (s : List ℕ) (i : ℕ) → host.str_index s ≡ some i → i < sizes.strs
  pub flags_short : sizes.flags ≤ 2 ^ 15
  pub nums_short : sizes.nums ≤ 2 ^ 15
  pub strs_short : sizes.strs ≤ 2 ^ 15

abbrev pub IsCaps : Rtype → ℕ → ℕ → Tbuf → Type 0
IsCaps rtype k n t = (cs : List Cap) × Holds rtype k t cs × Below n cs × Distinct cs

-- _ti_promote does not test whether it has memory for the name of an alias.
pub record IsTic (host : Host) (sizes : Sizes) (tic : Tic) : Type 0 where
  pub alias_room : (tic.alias ≡ none) ⊎ ((l : ℕ) → host.grants l ≡ true)
  pub flags : IsCaps tic.rtype b'f' sizes.flags tic.flags
  pub nums : IsCaps tic.rtype b'n' sizes.nums tic.nums
  pub strs : IsCaps tic.rtype b's' sizes.strs tic.strs
  pub extras : IsExtras tic.rtype tic.extras

snoc_Below : (n : ℕ) (cs : List Cap) (c : Cap) → Below n cs → c.ind < n → Below n (cs ++ c ∷ [])
snoc_Below n [] c end_below l = and_below c [] l end_below
snoc_Below n (d ∷ cs) c (and_below _ _ l' h) l =
    and_below d (cs ++ c ∷ []) l' (snoc_Below n cs c h l)

or_assoc : (a b c : Bool) → (a || (b || c)) ≡ ((a || b) || c)
or_assoc true b c = refl
or_assoc false b c = refl

pub or_false : (a b : Bool) → (a || b) ≡ false → (a ≡ false) × (b ≡ false)
or_false true b h = cc
or_false false b h = (refl, h)

pub has-snoc : (i : ℕ) (cs : List Cap) (c : Cap) → has i (cs ++ c ∷ []) ≡ (has i cs || (c.ind == i))
has-snoc i [] c = ground arith
has-snoc i (d ∷ cs) c =
    ap (λ b. (d.ind == i) || b) (has-snoc i cs c) ∙ or_assoc (d.ind == i) (has i cs) (c.ind == i)

snoc_Distinct :
    (cs : List Cap) (c : Cap) → Distinct cs → has c.ind cs ≡ false → Distinct (cs ++ c ∷ [])
snoc_Distinct [] c none_twice h = once c [] refl none_twice
snoc_Distinct (d ∷ cs) c (once _ _ a h') h =
    let other = or_false (d.ind == c.ind) (has c.ind cs) h in
    let e : (c.ind == d.ind) ≡ false = ground (arith, other.0) in
    once d (cs ++ c ∷ []) (has-snoc d.ind cs c ∙ (rw (a, e))) (snoc_Distinct cs c h' (other.1))

-- One more capability, whose index is new.
pub IsCaps-added :
    (rtype : Rtype) (k n : ℕ) (t : Tbuf) (w : IsCaps rtype k n t) (c : Cap) (r : Answer Tbuf)
    (b : Bool)
    → r ≡ (if b then gives (appended t (u16 c.ind ++ value_bytes rtype c.value)) else fails)
    → has c.ind (w.0) ≡ false
    → kind c.value ≡ k
    → c.ind < n
    → n ≤ 2 ^ 15
    → IsFit c.value
    → Safe (IsCaps rtype k n) r
IsCaps-added rtype k n t (cs, holds, below, distinct) c r b e new ke l short fit =
    Safe-granted r b _ e (
      cs ++ c ∷ [],
      Holds-appended rtype k t cs c holds ke (omega arith) fit,
      snoc_Below n cs c below l,
      snoc_Distinct cs c distinct new,
    )

-- A test for an index goes by the capabilities that are there.
pub have-then {ℓ κ} :
    {A : Type ℓ} {P : A → Type κ} (rtype : Rtype) (k n i : ℕ) (t : Tbuf) (w : IsCaps rtype k n t)
    (f : Bool → Answer A)
    → Safe P (f true)
    → (has i (w.0) ≡ false → Safe P (f false))
    → Safe P (have rtype t k (some i) >>= f)
unfolding have
have-then {P = P} rtype k n i t (cs, holds, _, _) f there absent =
    subst (λ (r : Answer Bool). Safe P (r >>= f)) (sym (find_cap-has rtype k i t cs holds))
      (elim (Bool-cases (has i cs)) [
        | inl e ↦ subst (λ b. Safe P (f b)) (sym e) there
        | inr e ↦ subst (λ b. Safe P (f b)) (sym e) (absent e)
      ])
