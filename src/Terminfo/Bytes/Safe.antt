-- ===== src/Terminfo/Bytes/Safe.antt =====
-- Calls that neither leave their buffers nor fail an assertion, in lib/libterminfo.
use netbsd_curses.Base.{◌≡◌, sym, subst, if_cases, if◌then◌else◌, Bool, true, false}
use netbsd_curses.Terminfo.Bytes.{Answer, gives, fails, ◌>>=◌}

-- The call gives a result with a property, or says that it failed.
pub data Safe {ℓ κ} {A : Type ℓ} (P : A → Type κ) : Answer A → Type (ℓ ⊔ κ) where
  fine : (a : A) → P a → Safe P (gives a)
  failed : Safe P fails

module _ {ℓ κ} {A : Type ℓ} {P : A → Type κ} where
  pub Safe-bind {ℓ' κ'} :
      {B : Type ℓ'} {Q : B → Type κ'} {r : Answer A} (f : A → Answer B)
      → Safe P r
      → ((a : A) → P a → Safe Q (f a))
      → Safe Q (r >>= f)
  Safe-bind f (fine a h) g = g a h
  Safe-bind f failed g = failed

  pub Safe-map {κ'} : {Q : A → Type κ'} {r : Answer A} → Safe P r → ((a : A) → P a → Q a) → Safe Q r
  Safe-map (fine a h) g = fine a (g a h)
  Safe-map failed g = failed

  -- A result that depends on memory only.
  pub Safe-granted :
      (r : Answer A) (b : Bool) (a : A) → r ≡ (if b then gives a else fails) → P a → Safe P r
  Safe-granted r b a e h = subst (λ r. Safe P r) (sym e) (by_memory b)
    where
      by_memory : (b : Bool) → Safe P (if b then gives a else fails)
      by_memory true = fine a h
      by_memory false = failed

  pub Safe-if :
      (b : Bool) (x y : Answer A)
      → (b ≡ true → Safe P x)
      → (b ≡ false → Safe P y)
      → Safe P (if b then x else y)
  Safe-if b x y t f = if_cases (Safe P) b x y t f
