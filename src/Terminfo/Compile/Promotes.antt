-- ===== src/Terminfo/Compile/Promotes.antt =====
-- lib/libterminfo/compile.c: with memory for it, _ti_promote comes to a promoted description.
use netbsd_curses.Base.{
  ℕ, suc, ◌+◌, ◌^◌, ◌<◌, ◌≡◌, refl, sym, ap, ◌∙◌, subst, ◌⊎◌, if◌then◌else◌, true, false, Option,
  none, some, List, [], ◌∷◌, ◌++◌, length, length-append, arith,
}
use netbsd_curses.Base.Int.{ℤ, pos}
use netbsd_curses.Terminfo.Bytes.{Answer, gives, fails, ◌>>=◌, unsigned, o1, v3, numsize, split}
use netbsd_curses.Terminfo.Bytes.RoundTrip.{u16, decode_16-then, split-then}
use netbsd_curses.Terminfo.Bytes.Safe.{Safe, fine, failed}
use netbsd_curses.Terminfo.Tbuf.{Tbuf, empty, first}
use netbsd_curses.Terminfo.Tbuf.Writes.{appended, num_bytes, encode_buf_id_num-appended}
use netbsd_curses.Terminfo.Tbuf.Entries.{
  Value, flag, num, str, kind, value_bytes, IsFit, Cap, caps_bytes, AllOf, one_more, Holds,
}
use netbsd_curses.Terminfo.Compile.{Host, Tic, up_to, same, use_cap, version, store_extra}
use netbsd_curses.Terminfo.Compile.Promote.{
  promoted_alias, promote_nums, extra_value, promote_extras, promote,
}
use netbsd_curses.Terminfo.Compile.Describes.{
  Extra, extra_bytes, extras_bytes, AllExtra, no_extra, and_extra, HoldsExtra,
}
use netbsd_curses.Terminfo.Compile.Extras.{extra_of}
use netbsd_curses.Terminfo.Compile.Stores.{HoldsExtra-appended, given-IsFit}
use netbsd_curses.Terminfo.Compile.Keeps.{IsTic}
use netbsd_curses.Terminfo.Compile.Promoted.{promote_num-step}
use netbsd_curses.Terminfo.Compile.Widens.{SameNums, getname-gives, promote-Safe}
use netbsd_curses.Terminfo.Compile.Losses.{promote_aliases-behind}
use netbsd_curses.Terminfo.Read.{Sizes}
use mathlib.Core.List.{append_assoc, append-nil}
use netbsd_curses.Terminfo.Compile.Names.{Grants, granted_all, names, among, NoneTwice, new_name}
use netbsd_curses.Terminfo.Compile.NewNames.{
  store_extra-gives, extra_value-reread, up_to_twice, length-up_to, names-snoc, reread,
  reread-IsFit, kind-reread,
}

-- The property of a result that there is.
Safe-gives : {A : Type 0} {P : A → Type 0} (r : Answer A) (a : A) → Safe P r → r ≡ gives a → P a
Safe-gives {P = P} r a (fine b h) e = subst P (gives-injective b a e) h
  where
    gives-injective : {A : Type 0} (b a : A) → gives b ≡ gives a → b ≡ a
    gives-injective b a e = cc
Safe-gives r a failed e = cc

-- One capability that is read again.
promote_extras-step :
    (host : Host) (n : ℕ) (e : Extra) (rest : List ℕ) (tic : Tic) (f z : ℤ) (s : List ℕ)
    → length e.id < 2 ^ 16
    → extra_value o1 (kind e.value) (length e.id) (value_bytes o1 e.value ++ rest)
      ≡ gives (f, z, s, rest)
    → promote_extras host o1 (suc n) (extra_bytes o1 e ++ rest) tic ≡ (
        store_extra host tic (up_to 0 e.id) (kind e.value) f z s true >>= λ tic'.
        promote_extras host o1 n rest tic')
unfolding promote_extras split first
promote_extras-step host n e rest tic f z s l value =
    let tail = kind e.value ∷ (value_bytes o1 e.value ++ rest) in
    ap (λ bs. promote_extras host o1 (suc n) bs tic)
      (append_assoc (u16 (length e.id) ++ e.id) (kind e.value ∷ value_bytes o1 e.value) rest)
    ∙ decode_16-then (length e.id) e.id tail _ l
    ∙ split-then e.id tail _
    ∙ ap
        (λ (r : Answer (ℤ × ℤ × List ℕ × List ℕ)). r >>= λ q.
          store_extra host tic (up_to 0 e.id) (kind e.value) (q.0) (q.1) (q.2) true >>= λ tic'.
          promote_extras host o1 n (q.3) tic')
        value

-- All of them, where no name but use comes twice: the buffer holds capabilities of the same names.
promote_extras-gives :
    (host : Host) (es acc : List Extra) (seen : List (List ℕ)) (tic : Tic)
    → Grants host
    → AllExtra es
    → HoldsExtra tic.rtype tic.extras acc
    → names acc ≡ seen
    → NoneTwice seen (names es)
    → (t : Tbuf) × (promote_extras host o1 (length es) (extras_bytes o1 es) tic
        ≡ gives (record tic { extras = t }))
      × ((out : List Extra) × HoldsExtra tic.rtype t out × (names out ≡ seen ++ names es))
unfolding promote_extras
promote_extras-gives host [] acc seen tic g h w same_names d =
    (tic.extras, refl, (acc, w, same_names ∙ sym (append-nil seen)))
promote_extras-gives host (e ∷ es) acc seen tic g (and_extra _ _ id named l fit h) w same_names
      (new_name _ _ _ new d) =
    let name = up_to 0 e.id in
    let v = reread e.value in
    let stored = appended tic.extras (extra_bytes tic.rtype (extra_of tic.rtype name v)) in
    let (f, z, s, args, value) =
      extra_value-reread e.value (length e.id) (extras_bytes o1 es) fit in
    let short : length name + 1 < 2 ^ 16 =
      subst (λ t. length (up_to 0 t) + 1 < 2 ^ 16) (sym named)
        (omega (arith, l, length-up_to id, length-append id (0 ∷ []), ap length named)) in
    let unused =
      subst (λ ns. (same name use_cap ≡ true) ⊎ (among name ns ≡ false)) (sym same_names) new in
    let (t, e', (out, w', n)) =
      promote_extras-gives host es (acc ++ extra_of tic.rtype name v ∷ []) (seen ++ name ∷ [])
        (record tic { extras = stored }) g h
        (HoldsExtra-appended tic.rtype tic.extras acc (extra_of tic.rtype name v) name w refl
          (omega (arith, short, length-append name (0 ∷ [])))
          (given-IsFit tic.rtype v (reread-IsFit e.value fit)))
        (names-snoc acc (extra_of tic.rtype name v)
          ∙ ap (λ x. names acc ++ x ∷ []) (up_to_twice e.id)
          ∙ ap (λ ns. ns ++ name ∷ []) same_names)
        d in
    (
      t,
      promote_extras-step host (length es) e (extras_bytes o1 es) tic f z s l value
          ∙ ap
              (λ (r : Answer Tic).
                r >>= λ tic'. promote_extras host o1 (length es) (extras_bytes o1 es) tic')
              (ap (λ k. store_extra host tic name k f z s true) (sym (kind-reread e.value))
                ∙ store_extra-gives host tic acc name v f z s g args (reread-IsFit e.value fit)
                    short w unused)
          ∙ e',
      (out, w', n ∙ append_assoc seen (name ∷ []) (names es)),
    )

promote_nums-gives :
    (host : Host) (cs : List Cap) (nums : Tbuf)
    → Grants host
    → AllOf b'n' cs
    → (t : Tbuf) × (promote_nums host o1 (length cs) (caps_bytes o1 cs) nums ≡ gives t)
unfolding promote_nums
promote_nums-gives host [] nums g h = (nums, refl)
promote_nums-gives host (c ∷ cs) nums g (one_more _ _ e l f h) =
    of c.value e f (λ t. promote_nums-gives host cs t g h)
  where
    of :
        (v : Value)
        → kind v ≡ b'n'
        → IsFit v
        → ((nums : Tbuf)
            → (t : Tbuf) × (promote_nums host o1 (length cs) (caps_bytes o1 cs) nums ≡ gives t))
        → (t : Tbuf) × (promote_nums host o1
              (suc (length cs))
              (u16 c.ind ++ (value_bytes o1 v ++ caps_bytes o1 cs))
              nums
            ≡ gives t)
    of (flag z) e f rest = ground arith
    of (str s) e f rest = ground arith
    of (num z) e f rest =
        let written = appended nums (u16 c.ind ++ num_bytes v3 (pos (unsigned 16 z))) in
        let (t, done) = rest written in
        (
          t,
          promote_num-step host (length cs) c.ind z (caps_bytes o1 cs) nums l f
              ∙ ap
                  (λ (r : Answer Tbuf).
                    r >>= λ nums. promote_nums host o1 (length cs) (caps_bytes o1 cs) nums)
                  (encode_buf_id_num-appended host.grants nums c.ind (pos (unsigned 16 z)) v3 l
                    ∙ ap (λ b. if b then gives written else fails)
                        (granted_all host nums (2 + numsize v3) g))
              ∙ done,
        )

promoted_alias-gives :
    (host : Host) (o : Option (List ℕ))
    → Grants host
    → (o' : Option (List ℕ)) × (promoted_alias host o ≡ gives o')
unfolding promoted_alias
promoted_alias-gives host none g = (none, refl)
promoted_alias-gives host (some a) g =
    let (bytes, e) = promote_aliases-behind host (length a + 1) [] a g (omega arith) in
    (
      some (up_to 0 bytes),
      ap (λ (r : Answer (List ℕ)). r >>= λ bytes. gives (some (up_to 0 bytes))) e,
    )

-- The rest of _ti_promote behind each of its parts.

abbrev with_nums : Host → Tic → List ℕ → Option (List ℕ) → Tbuf → Answer Tic
with_nums host tic name alias nums =
    promote_extras host tic.rtype tic.extras.entries tic.extras.text
      (record tic { name = name; alias = alias; rtype = v3; nums = nums; extras = empty })

abbrev with_alias : Host → Tic → List ℕ → Option (List ℕ) → Answer Tic
with_alias host tic name alias =
    promote_nums host tic.rtype tic.nums.entries tic.nums.text empty >>= λ nums.
    with_nums host tic name alias nums

abbrev with_name : Host → Tic → List ℕ → Answer Tic
with_name host tic name = promoted_alias host tic.alias >>= λ alias. with_alias host tic name alias

-- With memory for it, a description of 16-bit numbers with the compiler's invariant, in which no other
-- capability but use comes twice, is promoted: the result has the invariant, numbers at the same
-- indices, and other capabilities of the same names in the same order.
pub promote-gives :
    (host : Host) (sizes : Sizes) (tic : Tic) (w : IsTic host sizes tic)
    → Grants host
    → tic.rtype ≡ o1
    → NoneTwice [] (names w.extras.0)
    → (t : Tic) × (promote host tic ≡ gives t)
      × (t.rtype ≡ v3)
      × SameNums host sizes w.nums.0 t
      × ((es : List Extra) × HoldsExtra v3 t.extras es × (names es ≡ names w.extras.0))
unfolding promote
promote-gives host sizes tic w g old distinct =
    let name = up_to b',' tic.name ++ version v3 in
    let (alias, aliased) = promoted_alias-gives host tic.alias g in
    let cs = w.nums.0 in
    let held = subst (λ r. Holds r b'n' tic.nums cs) old w.nums.1 in
    let (nums, counted) = promote_nums-gives host cs empty g held.fits in
    let es = w.extras.0 in
    let extras = subst (λ r. HoldsExtra r tic.extras es) old w.extras.1 in
    let new : Tic = record tic {
      name = name;
      alias = alias;
      rtype = v3;
      nums = nums;
      extras = empty;
    } in
    let (t, stored, (out, holds, same_names)) =
      promote_extras-gives host es [] [] new g extras.fits
        (record { bytes = refl; count = refl; fits = no_extra }) refl distinct in
    let done : Tic = record new { extras = t } in
    let result : promote host tic ≡ gives done =
      ap (λ (r : Answer (List ℕ)). r >>= λ name. with_name host tic name)
        (getname-gives host v3 tic.name g)
      ∙ ap (λ (r : Answer (Option (List ℕ))). r >>= λ alias. with_alias host tic name alias) aliased
      ∙ ap (λ (r : Answer Tbuf). r >>= λ nums. with_nums host tic name alias nums)
          (ap (λ r. promote_nums host r tic.nums.entries tic.nums.text empty) old
            ∙ ap (λ n. promote_nums host o1 n tic.nums.text empty) held.count
            ∙ ap (λ bs. promote_nums host o1 (length cs) bs empty) held.bytes
            ∙ counted)
      ∙ ap (λ r. promote_extras host r tic.extras.entries tic.extras.text new) old
      ∙ ap (λ n. promote_extras host o1 n tic.extras.text new) extras.count
      ∙ ap (λ bs. promote_extras host o1 (length es) bs new) extras.bytes
      ∙ stored in
    (
      done,
      result,
      refl,
      Safe-gives (promote host tic) done (promote-Safe host sizes tic old w) result,
      (out, holds, same_names),
    )
