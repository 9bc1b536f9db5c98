-- ===== src/Panel/Zorder.antt =====
-- lib/libpanel against its contract: a stack of visible panels, bottom to top.
use netbsd_curses.Base.{
  ℕ, ◌≡◌, refl, sym, ◌≢◌, false, none, some, List, [], ◌∷◌, ◌++◌, ◌==◌, if◌then◌else◌, arith,
  Bool-cases, inl, inr, ap, ◌∙◌,
}
use netbsd_curses.Panel.Queue.{mem, remove, is_empty}
use netbsd_curses.Panel.Calls.{Call, new, del, top, bottom, hide, show, state_of}
use netbsd_curses.Panel.Effects.{
  queue-hide_panel, queue-show_panel, queue-top_panel, queue-del_panel, bottom_panel_hidden,
  bottom_panel_linked, queue-new_panel,
}
use netbsd_curses.Panel.{
  Curses, Deck, stdscr_panel, show_panel, hide_panel, top_panel, bottom_panel, del_panel, new_panel,
  link_new_panel, is_stdscr_last,
}
use netbsd_curses.Panel.Invariant.{
  Anchored, IsValid, remove-phantom, remove-ValidQueue, linked_not_last,
}

abbrev pub tail : List ℕ → List ℕ
tail [] = []
tail (x ∷ xs) = xs

-- The visible panels, bottom to top.
abbrev pub zorder : {W : Type 0} → Deck W → List ℕ
zorder d = tail d.queue

module _ {W : Type 0} (c : Curses W) where
  -- What each call does to the stack of visible panels.
  unfoldable pub restack : Call → List ℕ → List ℕ
  restack (new (some w) (some p)) z = if w == c.stdscr then z else z ++ p ∷ []
  restack (del (some p)) z = remove p z
  restack (hide (some p)) z = remove p z
  restack (top (some p)) z = if mem p z then remove p z ++ p ∷ [] else z
  restack (bottom (some p)) z = if mem p z then p ∷ remove p z else z
  restack (show (some p)) z = if mem p z then z else z ++ p ∷ []
  restack _ z = z

tail-remove :
    (p : ℕ) (q : List ℕ) → p ≢ stdscr_panel → Anchored q → tail (remove p q) ≡ remove p (tail q)
unfolding remove
tail-remove p [] n a = refl
tail-remove p (x ∷ q) n a = ground arith

mem-tail : (p : ℕ) (q : List ℕ) → p ≢ stdscr_panel → Anchored q → mem p q ≡ mem p (tail q)
unfolding mem
mem-tail p [] n a = refl
mem-tail p (x ∷ q) n a = ground arith

tail-append : (p : ℕ) (q : List ℕ) → is_empty q ≡ false → tail (q ++ p ∷ []) ≡ tail q ++ p ∷ []
tail-append p [] e = cc
tail-append p (x ∷ q) e = refl

tail-new :
    (p : ℕ) (q : List ℕ)
    → tail (if is_empty q then stdscr_panel ∷ p ∷ [] else q ++ p ∷ []) ≡ tail q ++ p ∷ []
tail-new p [] = refl
tail-new p (x ∷ q) = refl

tail-phantom : (q : List ℕ) → Anchored q → tail q ≡ remove stdscr_panel q
unfolding remove
tail-phantom [] a = refl
tail-phantom (x ∷ q) a = ground arith

module _ {W : Type 0} (c : Curses W) (p : ℕ) (d : Deck W) (n : p ≢ stdscr_panel)
    (v : IsValid d) where
  pub zorder-hide : zorder (hide_panel c (some p) d).1 ≡ remove p (zorder d)
  zorder-hide = rw (queue-hide_panel c p d) (tail-remove p d.queue n v.anchored)

  pub zorder-del : zorder (del_panel c (some p) d).1 ≡ remove p (zorder d)
  zorder-del =
      let w = remove-ValidQueue p d.queue d.live n v in
      elim (Bool-cases (is_stdscr_last (remove p d.queue))) [
        | inl e ↦
            rw (queue-del_panel c p d, e)
              (ap tail (remove-phantom (remove p d.queue) w.anchored w.distinct e)
                ∙ sym (remove-phantom (remove p d.queue) w.anchored w.distinct e)
                ∙ sym (tail-phantom (remove p d.queue) w.anchored)
                ∙ tail-remove p d.queue n v.anchored)
        | inr e ↦ rw (queue-del_panel c p d, e) (tail-remove p d.queue n v.anchored)
      ]

  pub zorder-top :
      zorder (top_panel c (some p) d).1
      ≡ (if mem p (zorder d) then remove p (zorder d) ++ p ∷ [] else zorder d)
  zorder-top = elim (Bool-cases (mem p d.queue)) [
    | inl m ↦
        rw (queue-top_panel c p d v.distinct, m, ← mem-tail p d.queue n v.anchored, m)
          (tail-append p (remove p d.queue) (linked_not_last p d.queue n v.anchored m)
            ∙ ap (λ z. z ++ p ∷ []) (tail-remove p d.queue n v.anchored))
    | inr m ↦ rw (queue-top_panel c p d v.distinct, m, ← mem-tail p d.queue n v.anchored, m)
  ]

  pub zorder-show :
      is_empty d.queue ≡ false
      → zorder (show_panel (some p) d).1
        ≡ (if mem p (zorder d) then zorder d else zorder d ++ p ∷ [])
  zorder-show e = elim (Bool-cases (mem p d.queue)) [
    | inl m ↦ rw (queue-show_panel c p d, m, ← mem-tail p d.queue n v.anchored, m)
    | inr m ↦
        rw (queue-show_panel c p d, m, ← mem-tail p d.queue n v.anchored, m)
          (tail-append p d.queue e)
  ]

  pub zorder-bottom :
      {d' : Deck W}
      → state_of (bottom_panel c (some p) d) ≡ some d'
      → zorder d' ≡ (if mem p (zorder d) then p ∷ remove p (zorder d) else zorder d)
  unfolding mem
  zorder-bottom {d' = d'} h = linked d.queue refl
    where
      goal : Type 0
      goal = zorder d' ≡ (if mem p (zorder d) then p ∷ remove p (zorder d) else zorder d)

      linked : (q : List ℕ) → d.queue ≡ q → goal
      linked [] e = ground (arith, bottom_panel_hidden c p d (rw e))
      linked (x ∷ xs) e = elim (Bool-cases (mem p d.queue)) [
        | inr m ↦ ground (arith, bottom_panel_hidden c p d m)
        | inl m ↦ ground (arith, bottom_panel_linked c p d xs m n)
      ]

module _ {W : Type 0} (c : Curses W) where
  pub zorder-new :
      (w p : ℕ) (d : Deck W)
      → zorder (new_panel c (some w) (some p) d).1
        ≡ (if w == c.stdscr then zorder d else zorder d ++ p ∷ [])
  zorder-new w p d = elim (Bool-cases (w == c.stdscr)) [
    | inl e ↦ rw e (unfold new_panel in rw e)
    | inr e ↦ rw (queue-new_panel c w p d (ground arith), e) (tail-new p d.queue)
  ]

  pub zorder-new_failed : (w : ℕ) (d : Deck W) → zorder (new_panel c (some w) none d).1 ≡ zorder d
  unfolding new_panel link_new_panel
  zorder-new_failed w d = failed d.queue refl
    where
      failed : (q : List ℕ) → d.queue ≡ q → zorder (new_panel c (some w) none d).1 ≡ zorder d
      failed [] e = ground arith
      failed (x ∷ q) e = ground arith
