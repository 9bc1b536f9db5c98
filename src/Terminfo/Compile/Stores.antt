-- ===== src/Terminfo/Compile/Stores.antt =====
-- lib/libterminfo/compile.c: _ti_find_extra and _ti_store_extra stay in their buffers.
use netbsd_curses.Base.{
  ℕ, suc, ◌+◌, ◌-◌, ◌^◌, ◌<◌, ◌≡◌, refl, sym, ap, ◌∙◌, subst, ltb, ltb_ge, ◌==◌, if◌then◌else◌,
  if_cases, Bool, true, false, Bool-cases, inl, inr, Option, none, some, List, [], ◌∷◌, ◌++◌,
  length, length-append, arith,
}
use netbsd_curses.Base.Int.{ℤ, pos, negsuc}
use netbsd_curses.Terminfo.Bytes.{Answer, gives, fails, ◌>>=◌, Rtype, o1, v3, split}
use netbsd_curses.Terminfo.Bytes.RoundTrip.{u16, IsInt, decode_16-then, split-then}
use netbsd_curses.Terminfo.Bytes.Safe.{Safe, fine, failed, Safe-bind, Safe-granted, Safe-if}
use netbsd_curses.Terminfo.Tbuf.{
  Tbuf, find_extra, extra_from, is_string, skip_value, first, at_most,
}
use netbsd_curses.Terminfo.Tbuf.Writes.{appended}
use netbsd_curses.Terminfo.Tbuf.Entries.{
  Value, flag, num, str, kind, value_bytes, IsFit, skip_value-bytes,
}
use netbsd_curses.Terminfo.Compile.{Host, Tic, append_extra, store_extra, use_cap, same}
use netbsd_curses.Terminfo.Compile.Describes.{
  Extra, extra_bytes, extras_bytes, AllExtra, no_extra, and_extra, HoldsExtra,
}
use netbsd_curses.Terminfo.Compile.Extras.{Args, given, extra_of, append_extra-appended}
use mathlib.Core.List.{append_assoc, append-nil}

-- A comparison ends at the NUL.
is_string-ends :
    (s tail code : List ℕ) → (b : Bool) × (is_string ((s ++ 0 ∷ []) ++ tail) code ≡ gives b)
unfolding is_string
is_string-ends [] tail [] = (true, refl)
is_string-ends [] tail (c ∷ code) = (false, refl)
is_string-ends (d ∷ s) tail [] = (d == 0, refl)
is_string-ends (d ∷ s) tail (c ∷ code) =
    let r = is_string-ends s tail code in
    elim (Bool-cases (d == 0)) [
      | inl z ↦ (false, rw z)
      | inr z ↦ elim (Bool-cases (d == c)) [
        | inl e ↦ (r.0, rw (z, e) (r.1))
        | inr e ↦ (false, rw (z, e))
      ]
    ]

extra_from-step :
    (rtype : Rtype) (code : List ℕ) (n : ℕ) (e : Extra) (s rest : List ℕ)
    → e.id ≡ s ++ 0 ∷ []
    → length e.id < 2 ^ 16
    → IsFit e.value
    → (b : Bool) × (extra_from rtype code (suc n) (extra_bytes rtype e ++ rest) ≡ (
        if b
        then gives (some (kind e.value ∷ (value_bytes rtype e.value ++ rest)))
        else extra_from rtype code n rest))
unfolding extra_from split first
extra_from-step rtype code n e s rest named l fit =
    let tail = kind e.value ∷ (value_bytes rtype e.value ++ rest) in
    let same = is_string-ends s tail code in
    let found : is_string (e.id ++ tail) code ≡ gives (same.0) =
      ap (λ id. is_string (id ++ tail) code) named ∙ same.1 in
    (
      same.0,
      ap (λ cap. extra_from rtype code (suc n) cap)
            (append_assoc (u16 (length e.id) ++ e.id) (kind e.value ∷ value_bytes rtype e.value)
              rest)
          ∙ decode_16-then (length e.id) e.id tail _ l
          ∙ ap
              (λ (r : Answer Bool). r >>= λ b. split (length e.id) (e.id ++ tail) >>= λ p.
                if b
                then gives (some (p.1))
                else (split 1 (p.1) >>= λ q.
                    skip_value rtype (first (q.0)) (q.1) >>= λ cap. extra_from rtype code n cap))
              found
          ∙ split-then e.id tail _
          ∙ ap
              (λ (r : Answer (List ℕ)).
                if same.0 then gives (some tail) else (r >>= λ cap. extra_from rtype code n cap))
              (skip_value-bytes rtype e.value rest fit),
    )

abbrev pub Any {ℓ} : {A : Type ℓ} → A → Type 0
Any a = 0 < 1

extra_from-Safe :
    (rtype : Rtype) (code : List ℕ) (es : List Extra) (cap : List ℕ)
    → AllExtra es
    → Safe Any (extra_from rtype code (length es) (extras_bytes rtype es ++ cap))
unfolding extra_from
extra_from-Safe rtype code [] cap h = fine none (omega arith)
extra_from-Safe rtype code (e ∷ es) cap (and_extra _ _ s named l fit h) =
    let step =
      extra_from-step rtype code (length es) e s (extras_bytes rtype es ++ cap) named l fit in
    subst (Safe Any)
      (sym (
        ap (λ bs. extra_from rtype code (suc (length es)) bs)
          (append_assoc (extra_bytes rtype e) (extras_bytes rtype es) cap)
        ∙ step.1))
      (Safe-if (step.0) _ _ (λ _. fine _ (omega arith)) (λ _. extra_from-Safe rtype code es cap h))

pub find_extra-Safe :
    (rtype : Rtype) (t : Tbuf) (es : List Extra) (code : List ℕ)
    → HoldsExtra rtype t es
    → Safe Any (find_extra rtype t code)
unfolding find_extra
find_extra-Safe rtype t es code h =
    subst (Safe Any)
      (sym (
        ap (λ n. extra_from rtype code n t.text) h.count
        ∙ ap (λ bs. extra_from rtype code (length es) bs)
            (h.bytes ∙ sym (append-nil (extras_bytes rtype es)))))
      (extra_from-Safe rtype code es [] h.fits)

snoc_AllExtra :
    (es : List Extra) (e : Extra) (s : List ℕ)
    → AllExtra es
    → e.id ≡ s ++ 0 ∷ []
    → length e.id < 2 ^ 16
    → IsFit e.value
    → AllExtra (es ++ e ∷ [])
snoc_AllExtra [] e s no_extra n l f = and_extra e [] s n l f no_extra
snoc_AllExtra (d ∷ es) e s (and_extra _ _ s' n' l' f' h) n l f =
    and_extra d (es ++ e ∷ []) s' n' l' f' (snoc_AllExtra es e s h n l f)

extras_bytes-snoc :
    (rtype : Rtype) (es : List Extra) (e : Extra)
    → extras_bytes rtype (es ++ e ∷ []) ≡ extras_bytes rtype es ++ extra_bytes rtype e
extras_bytes-snoc rtype [] e = append-nil (extra_bytes rtype e)
extras_bytes-snoc rtype (d ∷ es) e =
    ap (λ bs. extra_bytes rtype d ++ bs) (extras_bytes-snoc rtype es e)
    ∙ sym (append_assoc (extra_bytes rtype d) (extras_bytes rtype es) (extra_bytes rtype e))

pub HoldsExtra-appended :
    (rtype : Rtype) (t : Tbuf) (es : List Extra) (e : Extra) (s : List ℕ)
    → HoldsExtra rtype t es
    → e.id ≡ s ++ 0 ∷ []
    → length e.id < 2 ^ 16
    → IsFit e.value
    → HoldsExtra rtype (appended t (extra_bytes rtype e)) (es ++ e ∷ [])
unfolding appended
HoldsExtra-appended rtype t es e s h n l f = record {
  bytes = ap (λ bs. bs ++ extra_bytes rtype e) h.bytes ∙ sym (extras_bytes-snoc rtype es e);
  count = omega (arith, h.count, length-append es (e ∷ []));
  fits = snoc_AllExtra es e s h.fits n l f;
}

-- A buffer whose capabilities are some list.
abbrev pub IsExtras : Rtype → Tbuf → Type 0
IsExtras rtype t = (es : List Extra) × HoldsExtra rtype t es

append_extra-long :
    (host : Host) (rtype : Rtype) (t : Tbuf) (id : List ℕ) (type : ℕ) (f n : ℤ) (s : List ℕ)
    → ltb (2 ^ 16 - 1) (length id + 1) ≡ true
    → append_extra host rtype t id type f n s ≡ fails
unfolding append_extra
append_extra-long host rtype t id type f n s h = rw h

at_most-IsInt : (m : ℕ) (z : ℤ) → m < 2 ^ 31 → IsInt z → IsInt (at_most m z)
unfolding at_most
at_most-IsInt m (pos n) l h = if_cases IsInt (ltb m n) (pos m) (pos n) (λ _. l) (λ _. h)
at_most-IsInt m (negsuc n) l h = h

pub given-IsFit : (rtype : Rtype) (v : Value) → IsFit v → IsFit (given rtype v)
given-IsFit rtype (flag z) h = h
given-IsFit o1 (num z) h = at_most-IsInt (2 ^ 15 - 1) z (omega arith) h
given-IsFit v3 (num z) h = at_most-IsInt (2 ^ 31 - 1) z (omega arith) h
given-IsFit rtype (str s) h = h

pub append_extra-Safe :
    (host : Host) (rtype : Rtype) (t : Tbuf) (id : List ℕ) (v : Value) (f n : ℤ) (s : List ℕ)
    → Args v f n s
    → IsFit v
    → IsExtras rtype t
    → Safe (IsExtras rtype) (append_extra host rtype t id (kind v) f n s)
append_extra-Safe host rtype t id v f n s a h (es, hold) =
    elim (Bool-cases (ltb (2 ^ 16 - 1) (length id + 1))) [
      | inl long ↦
          subst (Safe (IsExtras rtype))
            (sym (append_extra-long host rtype t id (kind v) f n s long)) failed
      | inr short ↦
          let l = ltb_ge (2 ^ 16 - 1) (length id + 1) short in
          Safe-granted _ _ _ (append_extra-appended host rtype t id v f n s a h (omega arith)) (
            es ++ extra_of rtype id v ∷ [],
            HoldsExtra-appended rtype t es (extra_of rtype id v) id hold refl
                (omega (arith, length-append id (0 ∷ []))) (given-IsFit rtype v h),
          )
    ]

pub store_extra-Safe :
    (host : Host) (tic : Tic) (id : List ℕ) (v : Value) (f n : ℤ) (s : List ℕ) (extra : Bool)
    → Args v f n s
    → IsFit v
    → IsExtras tic.rtype tic.extras
    → Safe
        (λ tic'. (t : Tbuf) × (tic' ≡ record tic { extras = t }) × IsExtras tic.rtype t)
        (store_extra host tic id (kind v) f n s extra)
unfolding store_extra
store_extra-Safe host tic id v f n s extra a h hold =
    let store =
      Safe-bind (λ t. gives (record tic { extras = t }))
        (append_extra-Safe host tic.rtype tic.extras id v f n s a h hold)
        (λ t w. fine (record tic { extras = t }) (t, refl, w)) in
    Safe-if (same id use_cap) _ _ (λ _. store)
      (λ _.
        Safe-bind _ (find_extra-Safe tic.rtype tic.extras (hold.0) id (hold.1))
          (λ o _. by_found o store))
  where
    by_found :
        (o : Option (List ℕ))
        → Safe
            (λ tic'. (t : Tbuf) × (tic' ≡ record tic { extras = t }) × IsExtras tic.rtype t)
            (append_extra host tic.rtype tic.extras id (kind v) f n s >>= λ t.
              gives (record tic { extras = t }))
        → Safe
            (λ tic'. (t : Tbuf) × (tic' ≡ record tic { extras = t }) × IsExtras tic.rtype t)
            (elim o [
              | some cap ↦ fails
              | none ↦
                  if extra
                  then (append_extra host tic.rtype tic.extras id (kind v) f n s >>= λ t.
                      gives (record tic { extras = t }))
                  else fails
            ])
    by_found none st = Safe-if extra _ _ (λ _. st) (λ _. failed)
    by_found (some cap) st = failed
