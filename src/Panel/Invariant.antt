-- ===== src/Panel/Invariant.antt =====
-- The representation invariant of lib/libpanel's deck, and that every call keeps it.
use netbsd_curses.Base.{
  ℕ, ◌≡◌, refl, ◌≢◌, true, false, List, [], ◌∷◌, ◌++◌, if◌then◌else◌, arith, Bool-cases, inl, inr,
}
use netbsd_curses.Panel.Queue.{
  mem, remove, is_empty, Distinct, mem-append, mem-remove_ne, mem-remove_self, mem-remove_le,
  remove-Distinct, append-Distinct,
}
use netbsd_curses.Panel.Effects.{without}
use netbsd_curses.Panel.Queue
use netbsd_curses.Panel.{Deck, stdscr_panel, is_stdscr_last}

-- The phantom panel of stdscr is at the bottom of every deck that is not empty.
abbrev pub Anchored : List ℕ → Type 0
Anchored [] = Unit {0}
Anchored (x ∷ xs) = x ≡ stdscr_panel

pub record ValidQueue (queue live : List ℕ) : Type 0 where
  pub anchored : Anchored queue
  pub distinct : Distinct queue
  pub alive : (q : ℕ) → mem q queue ≡ true → q ≢ stdscr_panel → mem q live ≡ true

abbrev pub IsValid : {W : Type 0} → Deck W → Type 0
IsValid d = ValidQueue d.queue d.live

append-Anchored :
    (p : ℕ) (xs : List ℕ) → is_empty xs ≡ false → Anchored xs → Anchored (xs ++ p ∷ [])
append-Anchored p [] n h = cc
append-Anchored p (x ∷ xs) n h = h

remove-Anchored : (p : ℕ) (xs : List ℕ) → p ≢ stdscr_panel → Anchored xs → Anchored (remove p xs)
unfolding remove
remove-Anchored p [] n h = tt
remove-Anchored p (x ∷ xs) n h = ground arith

-- Only the phantom panel is last in an anchored deck that has it last.
pub remove-phantom :
    (xs : List ℕ)
    → Anchored xs
    → Distinct xs
    → is_stdscr_last xs ≡ true
    → remove stdscr_panel xs ≡ []
unfolding remove Queue.last? mem
remove-phantom [] a h e = refl
remove-phantom (x ∷ []) a h e = ground arith
remove-phantom (x ∷ y ∷ xs) a h e = ground (arith, Queue.last?-mem stdscr_panel (y ∷ xs))

pub remove-ValidQueue :
    (p : ℕ) (q l : List ℕ) → p ≢ stdscr_panel → ValidQueue q l → ValidQueue (remove p q) l
remove-ValidQueue p q l n v = record {
  anchored = remove-Anchored p q n v.anchored;
  distinct = remove-Distinct p q v.distinct;
  alive = λ r m nr. v.alive r (Queue.mem-of_mem-remove p r q m) nr;
}

pub append-ValidQueue :
    (p : ℕ) (q l : List ℕ)
    → is_empty q ≡ false
    → mem p q ≡ false
    → mem p l ≡ true
    → ValidQueue q l
    → ValidQueue (q ++ p ∷ []) l
unfolding mem
append-ValidQueue p q l e m a v = record {
  anchored = append-Anchored p q e v.anchored;
  distinct = append-Distinct p q m v.distinct;
  alive = λ r mr nr. ground (arith, mem-append r q (p ∷ []), v.alive r);
}

pub without-ValidQueue :
    (p : ℕ) (q l : List ℕ)
    → p ≢ stdscr_panel
    → ValidQueue q l
    → ValidQueue (without p q) (remove p l)
unfolding mem
without-ValidQueue p q l n v = elim (Bool-cases (is_stdscr_last (remove p q))) [
  | inl e ↦
      rw (e, remove-phantom (remove p q) w.anchored w.distinct e)
        (record { anchored = tt; distinct = tt; alive = λ r m nr. cc })
  | inr e ↦ rw e (record { anchored = w.anchored; distinct = w.distinct; alive = kept })
]
  where
    w : ValidQueue (remove p q) l
    w = remove-ValidQueue p q l n v

    kept : (r : ℕ) → mem r (remove p q) ≡ true → r ≢ stdscr_panel → mem r (remove p l) ≡ true
    kept r m nr = ground (
      arith,
      mem-remove_self p q v.distinct,
      mem-remove_ne p r l,
      v.alive r (Queue.mem-of_mem-remove p r q m) nr,
    )

pub new-ValidQueue :
    (p : ℕ) (q l : List ℕ)
    → mem p l ≡ false
    → p ≢ stdscr_panel
    → ValidQueue q l
    → ValidQueue (if is_empty q then stdscr_panel ∷ p ∷ [] else q ++ p ∷ []) (p ∷ l)
unfolding mem
new-ValidQueue p [] l f n v = record {
  anchored = refl;
  distinct = ground arith;
  alive = λ r m nr. ground arith;
}
new-ValidQueue p (x ∷ q) l f n v =
    append-ValidQueue p (x ∷ q) (p ∷ l) refl absent (ground arith) (record {
      anchored = v.anchored;
      distinct = v.distinct;
      alive = λ r m nr. ground (arith, v.alive r m nr);
    })
  where
    absent : mem p (x ∷ q) ≡ false
    absent = ground (arith, v.alive p)

pub bottom-ValidQueue :
    (p : ℕ) (xs l : List ℕ)
    → mem p l ≡ true
    → p ≢ stdscr_panel
    → ValidQueue (stdscr_panel ∷ xs) l
    → ValidQueue (stdscr_panel ∷ p ∷ remove p xs) l
unfolding mem
bottom-ValidQueue p xs l a n v = record {
  anchored = refl;
  distinct = ground (
    arith,
    mem-remove_self p xs v.distinct.1,
    mem-remove_le p stdscr_panel xs v.distinct.0,
    remove-Distinct p xs v.distinct.1,
  );
  alive = λ r m nr. ground (arith, v.alive r, Queue.mem-of_mem-remove p r xs);
}

pub linked_not_last :
    (p : ℕ) (q : List ℕ)
    → p ≢ stdscr_panel
    → Anchored q
    → mem p q ≡ true
    → is_empty (remove p q) ≡ false
unfolding mem remove
linked_not_last p [] n a m = cc
linked_not_last p (x ∷ q) n a m = ground arith
