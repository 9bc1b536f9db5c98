-- ===== src/Panel/Refine.antt =====
-- Every call of lib/libpanel does to the visible panels what `Zorder.restack` says.
use netbsd_curses.Base.{◌≡◌, refl, none, some, arith}
use netbsd_curses.Panel.Calls.{
  Call, new, del, top, bottom, hide, show, move, replace, set_user, update_all, step, Allowed,
}
use netbsd_curses.Panel.{Curses, Deck, replace_panel, set_panel_userptr, update_panels}
use netbsd_curses.Panel.Invariant.{IsValid}
use netbsd_curses.Panel.Effects.{queue-move_panel}
use netbsd_curses.Panel.Preserve.{step-null, IsNull}
use netbsd_curses.Panel.Zorder.{
  zorder, restack, zorder-hide, zorder-del, zorder-top, zorder-show, zorder-bottom, zorder-new,
  zorder-new_failed,
}

module _ {W : Type 0} (c : Curses W) where
  null_call : (a : Call) (d d' : Deck W) → IsNull c a → step c a d ≡ some d' → zorder d' ≡ zorder d
  null_call a d d' n e = ground (arith, step-null c a d n)

  -- On a valid deck each call that a client may make moves the visible panels as the stack of
  -- panels does: a new or shown panel goes on top, a raised one to the top, a lowered one to the
  -- bottom, a hidden or deleted one away, and the others stay in their order.
  pub step_refines :
      (a : Call) (d d' : Deck W)
      → Allowed a d
      → IsValid d
      → step c a d ≡ some d'
      → zorder d' ≡ restack c a (zorder d)
  unfolding step restack replace_panel set_panel_userptr update_panels
  step_refines (new none alloc) d d' h v e = null_call (new none alloc) d d' refl e
  step_refines (new (some w) none) d d' h v e = ground (arith, zorder-new_failed c w d)
  step_refines (new (some w) (some p)) d d' h v e = ground (arith, zorder-new c w p d)
  step_refines (del none) d d' h v e = null_call (del none) d d' refl e
  step_refines (del (some p)) d d' h v e = ground (arith, zorder-del c p d h.1 v)
  step_refines (hide none) d d' h v e = null_call (hide none) d d' refl e
  step_refines (hide (some p)) d d' h v e = ground (arith, zorder-hide c p d h.1 v)
  step_refines (top none) d d' h v e = null_call (top none) d d' refl e
  step_refines (top (some p)) d d' h v e = ground (arith, zorder-top c p d h.1 v)
  step_refines (bottom none) d d' h v e = null_call (bottom none) d d' refl e
  step_refines (bottom (some p)) d d' h v e = zorder-bottom c p d h.1 v e
  step_refines (show none) d d' h v e = null_call (show none) d d' refl e
  step_refines (show (some p)) d d' h v e = ground (arith, zorder-show c p d h.0.1 v h.1)
  step_refines (move none y x) d d' h v e = null_call (move none y x) d d' refl e
  step_refines (move (some p) y x) d d' h v e = ground (arith, queue-move_panel c p y x d)
  step_refines (replace none w) d d' h v e = ground arith
  step_refines (replace (some p) none) d d' h v e = ground arith
  step_refines (replace (some p) (some w)) d d' h v e = ground arith
  step_refines (set_user none u) d d' h v e = ground arith
  step_refines (set_user (some p) u) d d' h v e = ground arith
  step_refines update_all d d' h v e = ground arith
