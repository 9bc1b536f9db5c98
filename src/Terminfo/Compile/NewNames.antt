-- ===== src/Terminfo/Compile/NewNames.antt =====
-- lib/libterminfo/compile.c: _ti_store_extra stores a capability with a new name, where there is
-- memory for it.
use netbsd_curses.Base.{
  ℕ, suc, ◌+◌, ◌^◌, ◌<◌, ◌≡◌, refl, ap, ◌∙◌, ◌⊎◌, inl, inr, ◌==◌, if◌then◌else◌, true, false,
  Option, none, some, List, [], ◌∷◌, ◌++◌, length, if_cases, arith,
}
use netbsd_curses.Base.Int.{ℤ, pos}
use netbsd_curses.Terminfo.Bytes.{Answer, gives, fails, ◌>>=◌, unsigned, Rtype, o1, split}
use netbsd_curses.Terminfo.Bytes.RoundTrip.{
  unsigned_16, signed_8-unsigned, decode_16-then, split-then,
}
use netbsd_curses.Terminfo.Tbuf.{Tbuf, first, find_extra}
use netbsd_curses.Terminfo.Tbuf.Writes.{appended}
use netbsd_curses.Terminfo.Tbuf.Entries.{Value, flag, num, str, kind, value_bytes, IsFit}
use netbsd_curses.Terminfo.Compile.{
  Host, Tic, up_to, same, use_cap, append_extra, store_extra, value_size,
}
use netbsd_curses.Terminfo.Compile.Promote.{extra_value}
use netbsd_curses.Terminfo.Compile.Describes.{Extra, extra_bytes, HoldsExtra}
use netbsd_curses.Terminfo.Compile.Extras.{
  Args, flag_args, num_args, str_args, extra_of, append_extra-appended,
}
use netbsd_curses.Terminfo.Read.Values.{decode_num-next}
use netbsd_curses.Terminfo.Compile.Names.{Grants, granted_all, names, among, find_extra-none}

-- Storing a capability with a new name.

append_extra-gives :
    (host : Host) (rtype : Rtype) (t : Tbuf) (id : List ℕ) (v : Value) (f n : ℤ) (s : List ℕ)
    → Grants host
    → Args v f n s
    → IsFit v
    → length id + 1 < 2 ^ 16
    → append_extra host rtype t id (kind v) f n s
      ≡ gives (appended t (extra_bytes rtype (extra_of rtype id v)))
append_extra-gives host rtype t id v f n s g a h l =
    append_extra-appended host rtype t id v f n s a h l
    ∙ ap (λ b. if b then gives (appended t (extra_bytes rtype (extra_of rtype id v))) else fails)
        (granted_all host t (2 + (length id + 1) + 1 + value_size rtype (kind v) s) g)

pub store_extra-gives :
    (host : Host) (tic : Tic) (acc : List Extra) (id : List ℕ) (v : Value) (f n : ℤ) (s : List ℕ)
    → Grants host
    → Args v f n s
    → IsFit v
    → length id + 1 < 2 ^ 16
    → HoldsExtra tic.rtype tic.extras acc
    → (same id use_cap ≡ true) ⊎ (among id (names acc) ≡ false)
    → store_extra host tic id (kind v) f n s true
      ≡ gives (record tic {
        extras = appended tic.extras (extra_bytes tic.rtype (extra_of tic.rtype id v));
      })
unfolding store_extra
store_extra-gives host tic acc id v f n s g a h l w new =
    if_cases (λ r. r ≡ gives (record tic { extras = stored })) (same id use_cap) _ _ (λ _. store)
      (λ other. unused other new)
  where
    stored : Tbuf
    stored = appended tic.extras (extra_bytes tic.rtype (extra_of tic.rtype id v))

    store :
        (append_extra host tic.rtype tic.extras id (kind v) f n s >>= λ t.
        gives (record tic { extras = t }))
        ≡ gives (record tic { extras = stored })
    store =
        ap (λ (r : Answer Tbuf). r >>= λ t. gives (record tic { extras = t }))
          (append_extra-gives host tic.rtype tic.extras id v f n s g a h l)

    unused :
        same id use_cap ≡ false
        → (same id use_cap ≡ true) ⊎ (among id (names acc) ≡ false)
        → (find_extra tic.rtype tic.extras id >>= λ found. elim found [
          | some value ↦ fails
          | none ↦
              if true
              then (append_extra host tic.rtype tic.extras id (kind v) f n s >>= λ t.
                  gives (record tic { extras = t }))
              else fails
        ])
          ≡ gives (record tic { extras = stored })
    unused other (inl is_use) = cc
    unused other (inr new) =
        ap
          (λ (r : Answer (Option (List ℕ))). r >>= λ found. elim found as (λ _. Answer Tic) [
            | some value ↦ fails
            | none ↦ append_extra host tic.rtype tic.extras id (kind v) f n s >>= λ t.
                gives (record tic { extras = t })
          ])
          (find_extra-none tic.rtype tic.extras acc id w new)
        ∙ store

-- A value as it is read from a record with 16-bit numbers, and what is stored for it.
abbrev pub reread : Value → Value
reread (flag z) = flag z
reread (num z) = num (pos (unsigned 16 z))
reread (str s) = str s

pub reread-IsFit : (v : Value) → IsFit v → IsFit (reread v)
reread-IsFit (flag z) h = h
reread-IsFit (num z) h = omega (arith, unsigned_16 z)
reread-IsFit (str s) h = h

pub kind-reread : (v : Value) → kind (reread v) ≡ kind v
kind-reread (flag z) = refl
kind-reread (num z) = refl
kind-reread (str s) = refl

pub extra_value-reread :
    (v : Value) (m : ℕ) (rest : List ℕ)
    → IsFit v
    → (f n : ℤ) × (s : List ℕ) × Args (reread v) f n s
      × (extra_value o1 (kind v) m (value_bytes o1 v ++ rest) ≡ gives (f, n, s, rest))
unfolding extra_value split first
extra_value-reread (flag z) m rest fit = (
  z,
  pos m,
  [],
  flag_args z (pos m) [],
  ap (λ f. gives (f, pos m, [], rest)) (signed_8-unsigned z fit),
)
extra_value-reread (num z) m rest fit = (
  pos 0,
  pos (unsigned 16 z),
  [],
  num_args (pos 0) (pos (unsigned 16 z)) [],
  decode_num-next o1 z rest (λ x. gives (pos 0, x.0, [], x.1)) fit,
)
extra_value-reread (str s) m rest fit = (
  pos 0,
  pos m,
  s,
  str_args (pos 0) (pos m) s,
  decode_16-then (length s) s rest (λ x. split (x.0) (x.1) >>= λ y. gives (pos 0, pos m, y.0, y.1))
        fit
      ∙ split-then s rest (λ y. gives (pos 0, pos m, y.0, y.1)),
)

pub up_to_twice : (x : List ℕ) → up_to 0 (up_to 0 x ++ 0 ∷ []) ≡ up_to 0 x
unfolding up_to
up_to_twice [] = refl
up_to_twice (c ∷ x) =
    if_cases (λ t. up_to 0 (t ++ 0 ∷ []) ≡ t) (c == 0) [] (c ∷ up_to 0 x) (λ _. refl)
      λ z.
        ap (λ b. if b then [] else c ∷ up_to 0 (up_to 0 x ++ 0 ∷ [])) z
        ∙ ap (λ t. c ∷ t) (up_to_twice x)

pub length-up_to : (s : List ℕ) → length (up_to 0 (s ++ 0 ∷ [])) < suc (length s)
unfolding up_to
length-up_to [] = omega arith
length-up_to (c ∷ s) =
    if_cases (λ t. length t < suc (suc (length s))) (c == 0) [] (c ∷ up_to 0 (s ++ 0 ∷ []))
      (λ _. omega arith) (λ _. omega (arith, length-up_to s))

pub names-snoc :
    (es : List Extra) (e : Extra) → names (es ++ e ∷ []) ≡ names es ++ up_to 0 e.id ∷ []
names-snoc [] e = refl
names-snoc (d ∷ es) e = ap (λ ns. up_to 0 d.id ∷ ns) (names-snoc es e)
