-- ===== src/Panel/Reach.antt =====
-- Sequences of calls of lib/libpanel, from the deck that a program starts with.
use netbsd_curses.Base.{ℕ, ◌≡◌, refl, sym, ap, subst, ◌∙◌, some, List, [], ◌∷◌}
use mathlib.Core.Option.{some-injective}
use netbsd_curses.Panel.{Curses, Deck}
use netbsd_curses.Panel.Calls.{Call, step, Allowed}
use netbsd_curses.Panel.Invariant.{IsValid}
use netbsd_curses.Panel.Preserve.{step-IsValid}
use netbsd_curses.Panel.Zorder.{zorder, restack}
use netbsd_curses.Panel.Refine.{step_refines}

module _ {W : Type 0} (c : Curses W) where
  -- The calls in turn take the first deck to the second, and each is one that a client may make.
  pub data Runs : List Call → Deck W → Deck W → Type 0 where
    done : {d : Deck W} → Runs [] d d
    calls :
        {a : Call} {later : List Call} {d d' d'' : Deck W}
        → Allowed a d
        → step c a d ≡ some d'
        → Runs later d' d''
        → Runs (a ∷ later) d d''

  -- The stack of visible panels after the calls.
  abbrev pub restack_all : List Call → List ℕ → List ℕ
  restack_all [] z = z
  restack_all (a ∷ later) z = restack_all later (restack c a z)

  IsValid-after :
      (a : Call) (d d' : Deck W) → Allowed a d → IsValid d → step c a d ≡ some d' → IsValid d'
  IsValid-after a d d' h v e =
      let (n, e', v') = step-IsValid c a d h v in
      subst IsValid (some-injective n d' (sym e' ∙ e)) v'

  -- Calls that a client may make, one after the other, lead from a valid deck to a valid deck,
  -- whose visible panels are those of the stack of panels after the same calls.
  pub Runs-refines :
      (made : List Call) (d d' : Deck W)
      → Runs made d d'
      → IsValid d
      → IsValid d' × (zorder d' ≡ restack_all made (zorder d))
  Runs-refines [] d d' done v = (v, refl)
  Runs-refines (a ∷ later) d d' (calls {d' = n} h e r) v =
      let (v', z) = Runs-refines later n d' r (IsValid-after a d n h v e) in
      (v', z ∙ ap (restack_all later) (step_refines c a d n h v e))
