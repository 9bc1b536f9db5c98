-- ===== src/Terminfo/Compile/Kept.antt =====
-- lib/libterminfo/compile.c: every token keeps the invariant of the description.
use netbsd_curses.Base.{
  ℕ, ◌-◌, ◌^◌, ◌<◌, ◌≡◌, refl, ◌∙◌, ltb, leb→le, ltb_ge, ◌==◌, ◌&&◌, not, if◌then◌else◌, true,
  Option, none, some, List, [], ◌∷◌, length, arith,
}
use netbsd_curses.Base.Int.{ℤ, pos, negsuc}
use netbsd_curses.Terminfo.Bytes.{gives, ◌>>=◌, Rtype, o1, v3}
use netbsd_curses.Terminfo.Bytes.RoundTrip.{IsInt}
use netbsd_curses.Terminfo.Bytes.Safe.{Safe, fine, Safe-bind, Safe-if}
use netbsd_curses.Terminfo.Tbuf.{Tbuf, encode_buf_id_count_str, first}
use netbsd_curses.Terminfo.Tbuf.Entries.{num, str, Cap, has}
use netbsd_curses.Terminfo.Compile.{Host, Flags, Tic, store_extra}
use netbsd_curses.Terminfo.Compile.Bounds.{encode_string-Safe}
use netbsd_curses.Terminfo.Compile.Tokens.{split_first}
use netbsd_curses.Terminfo.Compile.Promote.{promote}
use netbsd_curses.Terminfo.Compile.Caps.{
  Compiling, have, store_str, str_cap, widen, store_num, in_range, num_cap, flag_cap, cap,
  compile_token,
}
use netbsd_curses.Terminfo.Compile.Extras.{num_args, str_args}
use netbsd_curses.Terminfo.Compile.Keeps.{IsHost, IsTic, have-then}
use netbsd_curses.Terminfo.Compile.Widens.{SameNums, promote-Safe}
use netbsd_curses.Terminfo.Compile.Steps.{extra-Safe, add_num, add_str, flag_cap-Safe, IsFresh}
use netbsd_curses.Terminfo.Read.{Sizes}

module _ (host : Host) (sizes : Sizes) (is_host : IsHost host sizes) (flags : Flags) where
  abbrev pub IsWell : Tic → Type 0
  IsWell tic = IsTic host sizes tic

  -- A number, once it is known to be none that is there.
  store_num-Safe :
      (tic : Tic) (id : List ℕ) (o : Option ℕ) (z : ℤ) (w : IsWell tic)
      → host.num_index id ≡ o
      → IsFresh (w.nums.0) o
      → IsInt z
      → Safe IsWell (store_num host flags tic id o z)
  unfolding store_num
  store_num-Safe tic id none z w e new fit =
      extra-Safe host sizes is_host flags tic id (num z) (negsuc 0) z [] (num_args (negsuc 0) z [])
        fit w
  store_num-Safe tic id (some i) z w e new fit =
      Safe-bind _ (add_num host sizes is_host flags tic i z w new (is_host.num_below id i e) fit)
        (λ t ok. fine _ ok)

  widen-Safe :
      (tic : Tic) (z : ℤ) (w : IsWell tic)
      → IsInt z
      → Safe
          (λ (r : Tic × ℤ). SameNums host sizes w.nums.0 (r.0) × IsInt (r.1))
          (widen host flags tic z)
  unfolding widen
  widen-Safe tic (negsuc n) w fit = fine (tic, negsuc n) ((w, λ i. refl), fit)
  widen-Safe tic (pos n) w fit =
      let same : SameNums host sizes w.nums.0 tic = (w, λ i. refl) in
      Safe-if (ltb (2 ^ 15 - 1) n) _ _
        (λ _.
          Safe-if flags.compat_v1 _ _ (λ _. fine _ (same, omega arith))
            (λ _. by_rtype tic.rtype refl same))
        (λ _. fine _ (same, fit))
    where
      by_rtype :
          (r : Rtype)
          → tic.rtype ≡ r
          → SameNums host sizes w.nums.0 tic
          → Safe
              (λ (r : Tic × ℤ). SameNums host sizes w.nums.0 (r.0) × IsInt (r.1))
              (elim r [
                | o1 ↦ promote host tic >>= λ tic. gives (tic, pos n)
                | v3 ↦ gives (tic, pos n)
              ])
      by_rtype o1 e same = Safe-bind _ (promote-Safe host sizes tic e w) (λ t ok. fine _ (ok, fit))
      by_rtype v3 e same = fine _ (same, fit)

  in_range-IsInt : (z : ℤ) → in_range z ≡ true → IsInt z
  unfolding in_range
  in_range-IsInt (pos n) h = omega (arith, leb→le n (2 ^ 31 - 1) h)
  in_range-IsInt (negsuc n) h = cc

  IsFresh-after :
      (cs ds : List Cap) (o : Option ℕ)
      → ((i : ℕ) → has i ds ≡ has i cs)
      → IsFresh cs o
      → IsFresh ds o
  IsFresh-after cs ds none e h = h
  IsFresh-after cs ds (some i) e h = e i ∙ h

  store_number-Safe :
      (tic : Tic) (id : List ℕ) (o : Option ℕ) (z : ℤ) (rest : List ℕ) (w : IsWell tic)
      → host.num_index id ≡ o
      → IsFresh w.nums.0 o
      → Safe IsWell (elim rest [
        | c ∷ e ↦ gives tic
        | [] ↦
            if in_range z
            then (widen host flags tic z >>= λ r. store_num host flags (r.0) id o (r.1))
            else gives tic
      ])
  store_number-Safe tic id o z (c ∷ e) w i new = fine tic w
  store_number-Safe tic id o z [] w i new =
      Safe-if (in_range z) _ _
        (λ h. Safe-bind _ (widen-Safe tic z w (in_range-IsInt z h)) (λ r ok.
          store_num-Safe (r.0) id o (r.1) (ok.0.0) i
            (IsFresh-after w.nums.0 (ok.0.0).nums.0 o (ok.0.1) new) (ok.1)))
        (λ _. fine tic w)

  num_cap-Safe :
      (tic : Tic) (id p : List ℕ) → IsWell tic → Safe IsWell (num_cap host flags tic id p)
  unfolding num_cap have
  num_cap-Safe tic id p w = by_index (host.num_index id) refl
    where
      by_index :
          (o : Option ℕ)
          → host.num_index id ≡ o
          → Safe IsWell (
              have tic.rtype tic.nums b'n' o >>= λ there.
              if there then gives tic else elim (host.strtol p).1 [
                | c ∷ e ↦ gives tic
                | [] ↦
                    if in_range (host.strtol p).0
                    then (widen host flags tic (host.strtol p).0 >>= λ r.
                        store_num host flags (r.0) id o (r.1))
                    else gives tic
              ])
      by_index none e =
          store_number-Safe tic id none (host.strtol p).0 (host.strtol p).1 w e (omega arith)
      by_index (some i) e =
          have-then tic.rtype b'n' sizes.nums i tic.nums w.nums _ (fine tic w)
            (λ new. store_number-Safe tic id (some i) (host.strtol p).0 (host.strtol p).1 w e new)

  store_str-Safe :
      (s : Compiling) (id : List ℕ) (o : Option ℕ) (p : List ℕ) (w : IsWell s.tic)
      → host.str_index id ≡ o
      → IsFresh w.strs.0 o
      → Safe (λ (s' : Compiling). IsWell s'.tic) (store_str host flags s id o p)
  unfolding store_str
  store_str-Safe s id o p w e new =
      Safe-bind _ (encode_string-Safe host.grants (record s.buf { text = [] }) p) (λ buf _.
        Safe-if (ltb (2 ^ 16 - 2) (length buf.text)) _ _ (λ _. fine _ w)
          (λ h. by_index o e new buf (omega (arith, ltb_ge (2 ^ 16 - 2) (length buf.text) h))))
    where
      by_index :
          (o : Option ℕ)
          → host.str_index id ≡ o
          → IsFresh w.strs.0 o
          → (buf : Tbuf) → length buf.text < 2 ^ 16
          → Safe
              (λ (s' : Compiling). IsWell s'.tic)
              (elim o [
                | none ↦
                    store_extra host s.tic id b's' (negsuc 0) (negsuc 1) buf.text flags.extra
                    >>= λ tic. gives (record { tic = tic; buf = buf })
                | some i ↦ encode_buf_id_count_str host.grants s.tic.strs i buf.text >>= λ strs.
                    gives (record { tic = record s.tic { strs = strs }; buf = buf })
              ])
      by_index none e new buf l =
          Safe-bind _
            (extra-Safe host sizes is_host flags s.tic id (str buf.text) (negsuc 0) (negsuc 1)
              buf.text (str_args (negsuc 0) (negsuc 1) buf.text) l w)
            (λ t ok. fine _ ok)
      by_index (some i) e new buf l =
          Safe-bind _
            (add_str host sizes is_host flags s.tic i buf.text w new (is_host.str_below id i e) l)
            (λ t ok. fine _ ok)

  str_cap-Safe :
      (s : Compiling) (id p : List ℕ) (w : IsWell s.tic)
      → Safe (λ (s' : Compiling). IsWell s'.tic) (str_cap host flags s id p)
  unfolding str_cap have
  str_cap-Safe s id p w = by_index (host.str_index id) refl
    where
      by_index :
          (o : Option ℕ)
          → host.str_index id ≡ o
          → Safe
              (λ (s' : Compiling). IsWell s'.tic)
              (have s.tic.rtype s.tic.strs b's' o >>= λ there.
                if there then gives s else store_str host flags s id o p)
      by_index none e = store_str-Safe s id none p w e (omega arith)
      by_index (some i) e =
          have-then s.tic.rtype b's' sizes.strs i s.tic.strs w.strs _ (fine s w)
            (λ new. store_str-Safe s id (some i) p w e new)

  cap-Safe :
      (s : Compiling) (token : List ℕ) (w : IsWell s.tic)
      → Safe (λ (s' : Compiling). IsWell s'.tic) (cap host flags s token)
  unfolding cap
  cap-Safe s token w = go (split_first b'=' token) (split_first b'#' token)
    where
      go :
          (a b : Option (List ℕ × List ℕ))
          → Safe
              (λ (s' : Compiling). IsWell s'.tic)
              (elim a [
                | some (id, p) ↦ str_cap host flags s id p
                | none ↦ elim b [
                  | some (id, p) ↦
                      num_cap host flags s.tic id p >>= λ tic. gives (record s { tic = tic })
                  | none ↦ flag_cap host flags s.tic token >>= λ tic. gives (record s { tic = tic })
                ]
              ])
      go (some r) b = str_cap-Safe s (r.0) (r.1) w
      go none (some r) = Safe-bind _ (num_cap-Safe s.tic (r.0) (r.1) w) (λ t ok. fine _ ok)
      go none none =
          Safe-bind _ (flag_cap-Safe host sizes is_host flags s.tic token w) (λ t ok. fine _ ok)

  pub compile_token-Safe :
      (s : Compiling) (token : List ℕ) (w : IsWell s.tic)
      → Safe (λ (s' : Compiling). IsWell s'.tic) (compile_token host flags s token)
  unfolding compile_token
  compile_token-Safe s [] w =
      Safe-if (not flags.comment && (first [] == b'.')) _ _ (λ _. fine s w) (λ _. cap-Safe s [] w)
  compile_token-Safe s (c ∷ []) w =
      Safe-if (not flags.comment && (first (c ∷ []) == b'.')) _ _ (λ _. fine s w)
        (λ _. cap-Safe s (c ∷ []) w)
  compile_token-Safe s (c ∷ d ∷ token) w =
      Safe-if (not flags.comment && (c == b'.')) _ _ (λ _. fine s w)
        (λ _.
          Safe-if ((c == b'O') && (d == b'T')) _ _
            (λ _. Safe-if flags.extra _ _ (λ _. cap-Safe s token w) (λ _. fine s w))
            (λ _. cap-Safe s (c ∷ d ∷ token) w))
