-- ===== src/Menu/Setup/TopRow.antt =====
-- Where set_top_row of lib/libmenu/menu.c leaves a menu.
use mathlib.Core.Option.{some-injective}
use netbsd_curses.Base.{
  ℕ, suc, ◌+◌, ◌≡◌, refl, ap, sym, ◌∙◌, subst, ◌<◌, zero, get_elem?, ltb→lt, ltb, ◌==◌, ==_iff,
  if◌then◌else◌, true, false, Option, none, some, List, [], ◌∷◌, if_cases, arith,
}
use netbsd_curses.Menu.{
  Code, e_ok, e_bad_argument, e_not_connected, e_bad_state, e_system_error, Item, Menu,
}
use netbsd_curses.Menu.Match.{items_of}
use netbsd_curses.Menu.Draw.Keeps.{no_hooks}
use netbsd_curses.Menu.Setup.{first_on_row, set_top_row, call_both, move_top}

-- The item at a position is on the row.
abbrev pub OnRow : ℕ → List Item → ℕ → Type 0
OnRow row xs d = (x : Item) × (get_elem? xs d ≡ some x) × (x.row ≡ row)

-- The item that is found is the first on the row, and none is on it where none is found.
abbrev FirstOnRow : ℕ → ℕ → List Item → Option ℕ → Type 0
FirstOnRow row i xs none = (d : ℕ) → ¬ (OnRow row xs d)
FirstOnRow row i xs (some k) =
    (d : ℕ) × (k ≡ i + d) × OnRow row xs d × ((e : ℕ) → e < d → ¬ (OnRow row xs e))

not_here : (row : ℕ) (x : Item) (xs : List Item) → (row == x.row) ≡ false → ¬ (OnRow row (x ∷ xs) 0)
not_here row x xs h (y, e, on) =
    let same : x.row ≡ y.row = ap (λ (z : Item). z.row) (some-injective x y e) in
    ground (arith, h, on, same)

first_on_row-FirstOnRow : (row i : ℕ) (xs : List Item) → FirstOnRow row i xs (first_on_row row i xs)
unfolding first_on_row
first_on_row-FirstOnRow row i [] = λ d (y, e, on). cc
first_on_row-FirstOnRow row i (x ∷ xs) =
    if_cases (FirstOnRow row i (x ∷ xs)) (row == x.row) (some i) _
      (λ h. (0, omega arith, (x, refl, sym ((==_iff row x.row).0 h)), λ e l. ground arith))
      (λ h. behind h (first_on_row row (suc i) xs) (first_on_row-FirstOnRow row (suc i) xs))
  where
    behind :
        (row == x.row) ≡ false
        → (o : Option ℕ) → FirstOnRow row (suc i) xs o
        → FirstOnRow row i (x ∷ xs) o
    behind h none f =
        λ d. elim d as (λ d. ¬ (OnRow row (x ∷ xs) d)) [ zero ↦ not_here row x xs h | suc d ↦ f d ]
    behind h (some k) (d, e, on, before) = (
      suc d,
      omega (arith, e),
      on,
      λ n. elim n as (λ n. n < suc d → ¬ (OnRow row (x ∷ xs) n)) [
        | zero ↦ λ l. not_here row x xs h
        | suc n ↦ λ l. before n (omega arith)
      ],
    )

call_both-none : (m : Menu) → call_both none none m ≡ m
call_both-none m = if_cases (λ u. u ≡ m) m.posted m m (λ _. refl) (λ _. refl)

move_top-no_hooks :
    (row i : ℕ) (m : Menu)
    → move_top no_hooks row i m ≡ record m { cur_item = i; top_row = row; in_init = false }
move_top-no_hooks row i m =
    ap
      (λ (u : Menu). record (call_both none none (record u { cur_item = i; top_row = row })) {
        in_init = false;
      })
      (call_both-none (record m { in_init = true }))
    ∙ ap (λ (u : Menu). record u { in_init = false })
        (call_both-none (record m { in_init = true; cur_item = i; top_row = row }))

-- The results of set_top_row, and when they are returned.
abbrev pub Topped : Menu → ℕ → Code × Menu → Type 0
Topped m row (e_ok, m') =
    (m'.top_row ≡ row)
    × OnRow row (items_of m) m'.cur_item
    × ((e : ℕ) → e < m'.cur_item → ¬ (OnRow row (items_of m) e))
Topped m row (e_system_error, m') = (m'.top_row ≡ row) × ((d : ℕ) → ¬ (OnRow row (items_of m) d))
Topped m row (e_bad_argument, m') = (m' ≡ m) × (m.item_rows < row)
Topped m row (e_not_connected, m') = (m' ≡ m) × (m.items ≡ none)
Topped m row (e_bad_state, m') = (m' ≡ m) × (m.in_init ≡ true)
Topped m row (code, m') = ⊥

-- With no hooks, set_top_row reports success where the row is then the top row and the current item is the first that is on it, and a system error where the row is the top row all the same, though no item is on it; the only other results leave the menu as it was: a bad argument for a row past the last, not connected without items, and a bad state in a hook.
pub set_top_row-Topped : (row : ℕ) (m : Menu) → Topped m row (set_top_row no_hooks row m)
unfolding set_top_row
set_top_row-Topped row m =
    if_cases (Topped m row) (ltb m.item_rows row) (e_bad_argument, m) _
      (λ h. (refl, ltb→lt m.item_rows row h)) (λ _. of m.items refl)
  where
    found : List Item → Option ℕ → Code × Menu
    found xs o = elim o [
      | none ↦ (e_system_error, move_top no_hooks row 0 m)
      | some i ↦ (e_ok, move_top no_hooks row i m)
    ]

    items : Option (List Item) → List Item
    items o = elim o [ none ↦ [] | some zs ↦ zs ]

    on :
        (xs : List Item)
        → m.items ≡ some xs
        → (o : Option ℕ) → FirstOnRow row 0 xs o
        → Topped m row (found xs o)
    on xs e none f = (
      ap (λ (u : Menu). u.top_row) (move_top-no_hooks row 0 m),
      subst (λ o. (d : ℕ) → ¬ (OnRow row (items o) d)) (sym e) f,
    )
    on xs e (some i) (d, same, here, before) =
        let z : d ≡ i = omega (arith, same) in
        subst
          (λ (u : Menu).
            (u.top_row ≡ row)
            × OnRow row (items_of m) u.cur_item
            × ((e : ℕ) → e < u.cur_item → ¬ (OnRow row (items_of m) e)))
          (sym (move_top-no_hooks row i m))
          (
            refl,
            subst (λ o. OnRow row (items o) i) (sym e) (subst (λ k. OnRow row xs k) z here),
            λ n l. subst (λ o. ¬ (OnRow row (items o) n)) (sym e) (before n (omega arith)),
          )

    of :
        (o : Option (List Item))
        → m.items ≡ o
        → Topped m row (elim o [
          | none ↦ (e_not_connected, m)
          | some xs ↦ if m.in_init then (e_bad_state, m) else found xs (first_on_row row 0 xs)
        ])
    of none e = (refl, e)
    of (some xs) e =
        if_cases (Topped m row) m.in_init (e_bad_state, m) _ (λ b. (refl, b))
          (λ _. on xs e (first_on_row row 0 xs) (first_on_row-FirstOnRow row 0 xs))
