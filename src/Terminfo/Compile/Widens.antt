-- ===== src/Terminfo/Compile/Widens.antt =====
-- lib/libterminfo/compile.c: _ti_promote keeps the invariant of a description.
use netbsd_curses.Base.{
  ℕ, zero, suc, ◌+◌, ◌⊎◌, ◌<◌, ◌≡◌, refl, sym, ap, ◌∙◌, subst, ◌==◌, if◌then◌else◌, true, Option,
  inl, inr, none, some, List, [], ◌∷◌, ◌++◌, length, map, arith, if_cases,
}
use netbsd_curses.Base.Int.{ℤ, pos}
use netbsd_curses.Terminfo.Bytes.{
  Answer, gives, fails, outside, ◌>>=◌, unsigned, Rtype, o1, v3, split,
}
use netbsd_curses.Terminfo.Bytes.RoundTrip.{
  u16, IsInt, unsigned_16, signed_8-unsigned, decode_16-then, split-then,
}
use netbsd_curses.Terminfo.Bytes.Safe.{Safe, fine, failed, Safe-bind, Safe-map, Safe-if}
use netbsd_curses.Terminfo.Tbuf.{Tbuf, empty, first}
use netbsd_curses.Terminfo.Tbuf.Entries.{
  Value, flag, num, str, kind, value_bytes, IsFit, Cap, has, none_left, Holds,
}
use netbsd_curses.Terminfo.Compile.{Host, Tic, up_to, version, getname, store_extra}
use netbsd_curses.Terminfo.Compile.Tokens.{split_first}
use netbsd_curses.Terminfo.Compile.Promote.{
  copy_alias, promote_aliases, promoted_alias, promote_nums, extra_value, promote_extras, promote,
}
use netbsd_curses.Terminfo.Compile.Describes.{
  Extra, extra_bytes, extras_bytes, AllExtra, no_extra, and_extra, HoldsExtra,
}
use netbsd_curses.Terminfo.Compile.Extras.{flag_args, num_args, str_args}
use netbsd_curses.Terminfo.Compile.Stores.{Any, IsExtras, store_extra-Safe}
use netbsd_curses.Terminfo.Compile.Keeps.{IsCaps, IsTic}
use netbsd_curses.Terminfo.Compile.Promoted.{
  widened, has-widened, promote_nums-Safe, widened-Distinct, widened-Below, narrow-IsCaps,
}
use netbsd_curses.Terminfo.Read.{Sizes}
use netbsd_curses.Terminfo.Read.Values.{decode_num-next}
use mathlib.Core.Option
use mathlib.Core.List.{append_assoc, append-nil}

-- What is left of a description when its buffer of other capabilities is written anew.
abbrev Rewritten : Tic → Tic → Type 0
Rewritten tic tic' = (t : Tbuf) × (tic' ≡ record tic { extras = t }) × IsExtras tic.rtype t

-- The value of a capability and its store, once the name has been passed.
store_value-Safe :
    (host : Host) (v : Value) (m : ℕ) (id rest : List ℕ) (tic : Tic) (P : Tic → Type 0)
    (k : Tic → List ℕ → Answer Tic)
    → IsFit v
    → IsExtras tic.rtype tic.extras
    → ((tic' : Tic) → Rewritten tic tic' → Safe P (k tic' rest))
    → Safe P (
        extra_value o1 (kind v) m (value_bytes o1 v ++ rest) >>= λ r.
        store_extra host tic id (kind v) (r.0) (r.1) (r.2) true >>= λ tic'. k tic' (r.3))
unfolding extra_value split first
store_value-Safe host (flag z) m id rest tic P k fit w go =
    subst (λ f. Safe P (store_extra host tic id b'f' f (pos m) [] true >>= λ tic'. k tic' rest))
      (sym (signed_8-unsigned z fit))
      (Safe-bind _
        (store_extra-Safe host tic id (flag z) z (pos m) [] true (flag_args z (pos m) []) fit w) go)
store_value-Safe host (num z) m id rest tic P k fit w go =
    let small : IsInt (pos (unsigned 16 z)) = omega (arith, unsigned_16 z) in
    subst (Safe P)
      (sym (
        ap
          (λ (a : Answer (ℤ × ℤ × List ℕ × List ℕ)).
            a >>= λ r. store_extra host tic id b'n' (r.0) (r.1) (r.2) true >>= λ tic'. k tic' (r.3))
          (decode_num-next o1 z rest (λ x. gives (pos 0, x.0, [], x.1)) fit)))
      (Safe-bind (λ tic'. k tic' rest)
        (store_extra-Safe host tic id (num (pos (unsigned 16 z))) (pos 0) (pos (unsigned 16 z)) []
          true (num_args (pos 0) (pos (unsigned 16 z)) []) small w)
        go)
store_value-Safe host (str s) m id rest tic P k fit w go =
    subst (Safe P)
      (sym (
        ap
          (λ (a : Answer (ℤ × ℤ × List ℕ × List ℕ)).
            a >>= λ r. store_extra host tic id b's' (r.0) (r.1) (r.2) true >>= λ tic'. k tic' (r.3))
          (decode_16-then (length s) s rest
              (λ x. split (x.0) (x.1) >>= λ y. gives (pos 0, pos m, y.0, y.1)) fit
            ∙ split-then s rest (λ y. gives (pos 0, pos m, y.0, y.1)))))
      (Safe-bind (λ tic'. k tic' rest)
        (store_extra-Safe host tic id (str s) (pos 0) (pos m) s true (str_args (pos 0) (pos m) s)
          fit w)
        go)

promote_extras-Safe :
    (host : Host) (es : List Extra) (rest : List ℕ) (tic : Tic)
    → AllExtra es
    → IsExtras tic.rtype tic.extras
    → Safe (Rewritten tic) (promote_extras host o1 (length es) (extras_bytes o1 es ++ rest) tic)
unfolding promote_extras split first
promote_extras-Safe host [] rest tic h w = fine tic (tic.extras, refl, w)
promote_extras-Safe host (e ∷ es) rest tic (and_extra _ _ s named l fit h) w =
    let tail = extras_bytes o1 es ++ rest in
    subst (Safe (Rewritten tic))
      (sym (
        ap (λ bs. promote_extras host o1 (suc (length es)) bs tic)
          (append_assoc (extra_bytes o1 e) (extras_bytes o1 es) rest
            ∙ append_assoc (u16 (length e.id) ++ e.id) (kind e.value ∷ value_bytes o1 e.value) tail)
        ∙ decode_16-then (length e.id) e.id (kind e.value ∷ (value_bytes o1 e.value ++ tail)) _ l
        ∙ split-then e.id (kind e.value ∷ (value_bytes o1 e.value ++ tail)) _))
      (store_value-Safe host e.value (length e.id) (up_to 0 e.id) tail tic (Rewritten tic)
        (λ tic' cap. promote_extras host o1 (length es) cap tic') fit w
        (λ tic' re.
          go tic' re (promote_extras-Safe host es rest (record tic { extras = re.0 }) h (re.2))))
  where
    go :
        (tic' : Tic) (re : Rewritten tic tic')
        → Safe (Rewritten tic) (
            promote_extras host o1
              (length es)
              (extras_bytes o1 es ++ rest)
              (record tic { extras = re.0 }))
        → Safe
            (Rewritten tic)
            (promote_extras host o1 (length es) (extras_bytes o1 es ++ rest) tic')
    go tic' re done =
        subst
          (λ t.
            Safe (Rewritten tic)
              (promote_extras host o1 (length es) (extras_bytes o1 es ++ rest) t))
          (sym (re.1)) done

-- What follows a separator is shorter than `n`.
abbrev pub Shorter : ℕ → Option (List ℕ × List ℕ) → Type 0
Shorter n none = 0 < 1
Shorter n (some r) = length (r.1) < n

pub split_first-Shorter : (c : ℕ) (s : List ℕ) → Shorter (length s) (split_first c s)
unfolding split_first
split_first-Shorter c [] = omega arith
split_first-Shorter c (d ∷ s) =
    if_cases (Shorter (suc (length s))) (d == c) _ _ (λ _. omega arith)
      (λ _. map-Shorter (split_first c s) (split_first-Shorter c s))
  where
    map-Shorter :
        (o : Option (List ℕ × List ℕ))
        → Shorter (length s) o
        → Shorter (suc (length s)) (Option.map (λ r. (d ∷ r.0, r.1)) o)
    map-Shorter none h = omega arith
    map-Shorter (some r) h = omega (arith, h)

pub getname-Safe :
    (host : Host) (rtype : Rtype) (orig : List ℕ) → Safe Any (getname host rtype orig)
unfolding getname
getname-Safe host rtype orig =
    let name = up_to b',' orig ++ version rtype in
    Safe-if (host.grants (length name + 1)) (gives name) fails (λ _. fine name (omega arith))
      (λ _. failed)

pub getname-gives :
    (host : Host) (rtype : Rtype) (orig : List ℕ)
    → ((l : ℕ) → host.grants l ≡ true)
    → getname host rtype orig ≡ gives (up_to b',' orig ++ version rtype)
unfolding getname
getname-gives host rtype orig g = rw (g (length (up_to b',' orig ++ version rtype) + 1))

copy_alias-Safe :
    (host : Host) (bytes part : List ℕ)
    → ((l : ℕ) → host.grants l ≡ true)
    → Safe Any (copy_alias host bytes part)
unfolding copy_alias
copy_alias-Safe host bytes part g =
    let copied = bytes ++ ((up_to b',' part ++ version v3) ++ 0 ∷ []) in
    subst
      (λ r. Safe Any (elim r as (λ _. Answer (List ℕ)) [
        | gives name ↦
            let copied = bytes ++ (name ++ 0 ∷ []) in
            if host.grants (length copied) then gives copied else fails
        | _ ↦ outside
      ]))
      (sym (getname-gives host v3 part g))
      (Safe-if (host.grants (length copied)) (gives copied) fails (λ _. fine copied (omega arith))
        (λ _. failed))

-- With memory for them all, every alias is copied.
promote_aliases-Safe :
    (host : Host) (fuel : ℕ) (bytes buf : List ℕ)
    → ((l : ℕ) → host.grants l ≡ true)
    → length buf < fuel
    → Safe Any (promote_aliases host fuel bytes buf)
unfolding promote_aliases
promote_aliases-Safe host zero bytes buf g h = ground arith
promote_aliases-Safe host (suc fuel) bytes buf g h =
    go (split_first b'|' buf) (split_first-Shorter b'|' buf)
      (λ bytes' delim l. promote_aliases-Safe host fuel bytes' delim g (omega (arith, l, h)))
  where
    go :
        (o : Option (List ℕ × List ℕ))
        → Shorter (length buf) o
        → ((bytes' delim : List ℕ)
            → length delim < length buf
            → Safe Any (promote_aliases host fuel bytes' delim))
        → Safe Any (elim o [
          | none ↦ copy_alias host bytes buf
          | some (part, delim) ↦
              copy_alias host bytes part >>= λ bytes. promote_aliases host fuel bytes delim
        ])
    go none l rec = copy_alias-Safe host bytes buf g
    go (some r) l rec =
        Safe-bind _ (copy_alias-Safe host bytes (r.0) g) (λ bytes' _. rec bytes' (r.1) l)

abbrev pub AliasRoom : Host → Option (List ℕ) → Type 0
AliasRoom host o = (o ≡ none) ⊎ ((l : ℕ) → host.grants l ≡ true)

promoted_alias-Safe :
    (host : Host) (o : Option (List ℕ))
    → AliasRoom host o
    → Safe (AliasRoom host) (promoted_alias host o)
unfolding promoted_alias
promoted_alias-Safe host none h = fine none (inl refl)
promoted_alias-Safe host (some a) (inr g) =
    Safe-bind _ (promote_aliases-Safe host (length a + 1) [] a g (omega arith))
      (λ b _. fine _ (inr g))
promoted_alias-Safe host (some a) (inl e) = cc

promoted_nums :
    (host : Host) (tic : Tic) (cs : List Cap)
    → tic.rtype ≡ o1
    → Holds o1 b'n' tic.nums cs
    → Safe
        (λ t. Holds v3 b'n' t (map widened cs))
        (promote_nums host tic.rtype tic.nums.entries tic.nums.text empty)
promoted_nums host tic cs old h =
    subst (Safe (λ t. Holds v3 b'n' t (map widened cs)))
      (sym (
        ap (λ r. promote_nums host r tic.nums.entries tic.nums.text empty) old
        ∙ ap (λ n. promote_nums host o1 n tic.nums.text empty) h.count
        ∙ ap (λ bs. promote_nums host o1 (length cs) bs empty) h.bytes))
      (promote_nums-Safe host cs [] empty h.fits
        (record { bytes = refl; count = refl; fits = none_left }))

promoted_extras :
    (host : Host) (tic tic' : Tic) (es : List Extra)
    → tic.rtype ≡ o1
    → HoldsExtra o1 tic.extras es
    → IsExtras tic'.rtype tic'.extras
    → Safe (Rewritten tic') (promote_extras host tic.rtype tic.extras.entries tic.extras.text tic')
promoted_extras host tic tic' es old h w =
    subst (Safe (Rewritten tic'))
      (sym (
        ap (λ r. promote_extras host r tic.extras.entries tic.extras.text tic') old
        ∙ ap (λ n. promote_extras host o1 n tic.extras.text tic') h.count
        ∙ ap (λ bs. promote_extras host o1 (length es) bs tic')
            (h.bytes ∙ sym (append-nil (extras_bytes o1 es)))))
      (promote_extras-Safe host es [] tic' h.fits w)

-- The invariant of a description, and the same numbers there as in `cs`.
abbrev pub SameNums : Host → Sizes → List Cap → Tic → Type 0
SameNums host sizes cs t = (w : IsTic host sizes t) × ((i : ℕ) → has i w.nums.0 ≡ has i cs)

-- A description of 16-bit numbers with the compiler's invariant is promoted, or there is no
-- memory; the promoted description has the invariant again, and numbers at the same indices.
pub promote-Safe :
    (host : Host) (sizes : Sizes) (tic : Tic)
    → tic.rtype ≡ o1
    → (w : IsTic host sizes tic) → Safe (SameNums host sizes w.nums.0) (promote host tic)
unfolding promote
promote-Safe host sizes tic old w =
    let (cs, here, below, distinct) = w.nums in
    let held = subst (λ r. Holds r b'n' tic.nums cs) old here in
    let (es, extras) = subst (λ r. IsExtras r tic.extras) old w.extras in
    let flags =
      narrow-IsCaps b'f' sizes.flags tic.flags (λ e. ground arith)
        (subst (λ r. IsCaps r b'f' sizes.flags tic.flags) old w.flags) in
    let strs =
      narrow-IsCaps b's' sizes.strs tic.strs (λ e. ground arith)
        (subst (λ r. IsCaps r b's' sizes.strs tic.strs) old w.strs) in
    Safe-bind _ (getname-Safe host v3 tic.name) (λ name _.
      Safe-bind _ (promoted_alias-Safe host tic.alias w.alias_room) (λ alias room.
        Safe-bind _ (promoted_nums host tic cs old held) (λ nums new.
          let tic' = record tic {
            name = name;
            alias = alias;
            rtype = v3;
            nums = nums;
            extras = empty;
          } in
          Safe-map
            (promoted_extras host tic tic' es old extras
              ([], record { bytes = refl; count = refl; fits = no_extra }))
            (λ t (x, e, ok). subst (SameNums host sizes cs) (sym e) (
              record {
                alias_room = room;
                flags = flags;
                nums = (
                  map widened cs,
                  new,
                  widened-Below sizes.nums cs below,
                  widened-Distinct cs distinct,
                );
                strs = strs;
                extras = ok;
              },
              λ i. has-widened i cs,
            )))))
