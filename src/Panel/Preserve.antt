-- ===== src/Panel/Preserve.antt =====
-- Every call of lib/libpanel keeps the deck valid, and none of them reads a missing link.
use netbsd_curses.Base.{
  ℕ, ◌≡◌, refl, ◌≢◌, ◌⊎◌, true, false, Option, none, some, List, [], ◌∷◌, ◌==◌, arith, Bool-cases,
  inl, inr,
}
use netbsd_curses.Panel.Queue.{mem, remove, is_empty, mem-remove_self}
use netbsd_curses.Panel.Calls.{
  Call, new, del, top, bottom, hide, show, move, replace, set_user, update_all, step, Allowed,
}
use netbsd_curses.Panel.Effects.{
  queue-hide_panel, live-hide_panel, queue-show_panel, live-show_panel, queue-top_panel,
  live-top_panel, queue-del_panel, live-del_panel, bottom_panel_hidden, bottom_panel_linked,
  queue-new_panel, live-new_panel, queue-move_panel, live-move_panel,
}
use netbsd_curses.Panel.{
  Curses, Deck, stdscr_panel, show_panel, hide_panel, top_panel, bottom_panel, del_panel, new_panel,
  link_new_panel, move_panel, replace_panel, set_panel_userptr, update_panels,
}
use netbsd_curses.Panel.Invariant.{
  IsValid, remove-ValidQueue, append-ValidQueue, without-ValidQueue, new-ValidQueue,
  bottom-ValidQueue, linked_not_last,
}

module _ {W : Type 0} (c : Curses W) where
  hide_panel-IsValid :
      (p : ℕ) (d : Deck W) → p ≢ stdscr_panel → IsValid d → IsValid (hide_panel c (some p) d).1
  hide_panel-IsValid p d n v =
      rw (queue-hide_panel c p d, live-hide_panel c p d) (remove-ValidQueue p d.queue d.live n v)

  show_panel-IsValid :
      (p : ℕ) (d : Deck W)
      → mem p d.live ≡ true
      → is_empty d.queue ≡ false
      → IsValid d
      → IsValid (show_panel (some p) d).1
  show_panel-IsValid p d a e v = elim (Bool-cases (mem p d.queue)) [
    | inl m ↦ rw (queue-show_panel c p d, live-show_panel c p d, m) v
    | inr m ↦
        rw (queue-show_panel c p d, live-show_panel c p d, m)
          (append-ValidQueue p d.queue d.live e m a v)
  ]

  top_panel-IsValid :
      (p : ℕ) (d : Deck W)
      → mem p d.live ≡ true
      → p ≢ stdscr_panel
      → IsValid d
      → IsValid (top_panel c (some p) d).1
  top_panel-IsValid p d a n v = elim (Bool-cases (mem p d.queue)) [
    | inr m ↦ rw (queue-top_panel c p d v.distinct, live-top_panel c p d, m) v
    | inl m ↦
        rw (queue-top_panel c p d v.distinct, live-top_panel c p d, m)
          (append-ValidQueue p (remove p d.queue) d.live (linked_not_last p d.queue n v.anchored m)
            (mem-remove_self p d.queue v.distinct) a (remove-ValidQueue p d.queue d.live n v))
  ]

  del_panel-IsValid :
      (p : ℕ) (d : Deck W) → p ≢ stdscr_panel → IsValid d → IsValid (del_panel c (some p) d).1
  del_panel-IsValid p d n v =
      rw (queue-del_panel c p d, live-del_panel c p d) (without-ValidQueue p d.queue d.live n v)

  new_panel-IsValid :
      (w p : ℕ) (d : Deck W)
      → mem p d.live ≡ false
      → p ≢ stdscr_panel
      → IsValid d
      → IsValid (new_panel c (some w) (some p) d).1
  unfolding new_panel
  new_panel-IsValid w p d f n v = elim (Bool-cases (w == c.stdscr)) [
    | inl e ↦ rw e v
    | inr e ↦
        let ne : w ≢ c.stdscr = ground arith in
        rw (queue-new_panel c w p d ne, live-new_panel c w p d ne)
          (new-ValidQueue p d.queue d.live f n v)
  ]

  new_panel_failed-IsValid :
      (w : ℕ) (d : Deck W) → IsValid d → IsValid (new_panel c (some w) none d).1
  unfolding new_panel link_new_panel mem
  new_panel_failed-IsValid w d v = failed d.queue refl
    where
      failed : (q : List ℕ) → d.queue ≡ q → IsValid (new_panel c (some w) none d).1
      failed [] e = elim (Bool-cases (w == c.stdscr)) [
        | inl same ↦ rw same v
        | inr other ↦
            rw (other, e)
              (record { anchored = refl; distinct = (refl, tt); alive = λ r m nr. ground arith })
      ]
      failed (x ∷ q) e = ground arith

  abbrev pub Kept : Call → Deck W → Type 0
  Kept a d = (d' : Deck W) × (step c a d ≡ some d') × IsValid d'

  bottom_panel-IsValid :
      (p : ℕ) (d : Deck W)
      → mem p d.live ≡ true
      → p ≢ stdscr_panel
      → IsValid d
      → Kept (bottom (some p)) d
  unfolding step mem
  bottom_panel-IsValid p d a n v = linked d.queue refl
    where
      linked : (q : List ℕ) → d.queue ≡ q → Kept (bottom (some p)) d
      linked [] e = (d, rw (bottom_panel_hidden c p d (rw e)), v)
      linked (x ∷ xs) e = elim (Bool-cases (mem p d.queue)) [
        | inr m ↦ (d, rw (bottom_panel_hidden c p d m), v)
        | inl m ↦
            let q : d.queue ≡ stdscr_panel ∷ xs = ground arith in
            (
              record (hide_panel c (some p) d).1 { queue = stdscr_panel ∷ p ∷ remove p xs },
              rw (bottom_panel_linked c p d xs m n q),
              rw (live-hide_panel c p d) (bottom-ValidQueue p xs d.live a n (rw q at v)),
            )
      ]

  -- A call with NULL is an error and does nothing.
  abbrev pub IsNull : Call → Type 0
  IsNull (new w alloc) = w ≡ none
  IsNull (del p) = p ≡ none
  IsNull (top p) = p ≡ none
  IsNull (bottom p) = p ≡ none
  IsNull (hide p) = p ≡ none
  IsNull (show p) = p ≡ none
  IsNull (move p y x) = p ≡ none
  IsNull (replace p w) = (p ≡ none) ⊎ (w ≡ none)
  IsNull (set_user p u) = p ≡ none
  IsNull update_all = ⊥

  pub step-null : (a : Call) (d : Deck W) → IsNull a → step c a d ≡ some d
  unfolding step new_panel del_panel top_panel bottom_panel hide_panel show_panel move_panel
      replace_panel set_panel_userptr
  step-null (replace none w) d h = refl
  step-null (replace (some p) none) d h = refl
  step-null (replace (some p) (some w)) d h = ground arith
  step-null update_all d h = elim h [ ]
  step-null (new w alloc) d h = rw h
  step-null (del p) d h = rw h
  step-null (top p) d h = rw h
  step-null (bottom p) d h = rw h
  step-null (hide p) d h = rw h
  step-null (show p) d h = rw h
  step-null (move p y x) d h = rw h
  step-null (set_user p u) d h = rw h

  step-replace-IsValid : (p w : ℕ) (d : Deck W) → IsValid d → Kept (replace (some p) (some w)) d
  unfolding step replace_panel
  step-replace-IsValid p w d v = (_, refl, v)

  set_user-IsValid : (p : ℕ) (u : Option ℕ) (d : Deck W) → IsValid d → Kept (set_user (some p) u) d
  unfolding step set_panel_userptr
  set_user-IsValid p u d v = (_, refl, v)

  update_panels-IsValid : (d : Deck W) → IsValid d → Kept update_all d
  unfolding step update_panels
  update_panels-IsValid d v = (_, refl, v)

  -- Every call that a client may make on a valid deck has a result, which is valid: the phantom
  -- panel of stdscr is at the bottom, no panel is linked twice, and only panels that are not freed
  -- are linked. A client may pass NULL or a panel that is not freed, `malloc` gives an address
  -- that is not in use, and show_panel is not called on an empty deck.
  pub step-IsValid : (a : Call) (d : Deck W) → Allowed a d → IsValid d → Kept a d
  unfolding step
  step-IsValid (new none alloc) d h v = (d, step-null (new none alloc) d refl, v)
  step-IsValid (new (some w) none) d h v = (_, refl, new_panel_failed-IsValid w d v)
  step-IsValid (new (some w) (some p)) d h v = (_, refl, new_panel-IsValid w p d h.0 h.1 v)
  step-IsValid (del none) d h v = (d, step-null (del none) d refl, v)
  step-IsValid (del (some p)) d h v = (_, refl, del_panel-IsValid p d h.1 v)
  step-IsValid (top none) d h v = (d, step-null (top none) d refl, v)
  step-IsValid (top (some p)) d h v = (_, refl, top_panel-IsValid p d h.0 h.1 v)
  step-IsValid (bottom none) d h v = (d, step-null (bottom none) d refl, v)
  step-IsValid (bottom (some p)) d h v = bottom_panel-IsValid p d h.0 h.1 v
  step-IsValid (hide none) d h v = (d, step-null (hide none) d refl, v)
  step-IsValid (hide (some p)) d h v = (_, refl, hide_panel-IsValid p d h.1 v)
  step-IsValid (show none) d h v = (d, step-null (show none) d refl, v)
  step-IsValid (show (some p)) d h v = (_, refl, show_panel-IsValid p d h.0.0 h.1 v)
  step-IsValid (move none y x) d h v = (d, step-null (move none y x) d refl, v)
  step-IsValid (move (some p) y x) d h v =
      (_, refl, rw (queue-move_panel c p y x d, live-move_panel c p y x d) v)
  step-IsValid (replace none w) d h v = (d, step-null (replace none w) d (inl refl), v)
  step-IsValid (replace (some p) none) d h v =
      (d, step-null (replace (some p) none) d (inr refl), v)
  step-IsValid (replace (some p) (some w)) d h v = step-replace-IsValid p w d v
  step-IsValid (set_user none u) d h v = (d, step-null (set_user none u) d refl, v)
  step-IsValid (set_user (some p) u) d h v = set_user-IsValid p u d v
  step-IsValid update_all d h v = update_panels-IsValid d v
