-- ===== src/Terminfo/Compile/Steps.antt =====
-- lib/libterminfo/compile.c: a new capability keeps the invariant of the description.
use netbsd_curses.Base.{
  ℕ, ◌^◌, ◌<◌, ◌≡◌, refl, sym, subst, false, Option, none, some, List, [], length, arith,
}
use netbsd_curses.Base.Int.{ℤ, pos}
use netbsd_curses.Terminfo.Bytes.{unsigned, o1, numsize}
use netbsd_curses.Terminfo.Bytes.RoundTrip.{u16, IsInt}
use netbsd_curses.Terminfo.Bytes.Safe.{Safe, fine, Safe-bind, Safe-map, Safe-if}
use netbsd_curses.Terminfo.Tbuf.{Tbuf, encode_buf_id_num, encode_buf_id_count_str}
use netbsd_curses.Terminfo.Tbuf.Writes.{
  encode_buf_id_num-appended, encode_buf_id_count_str-appended, encode_buf_id_flags-appended,
}
use netbsd_curses.Terminfo.Tbuf.Entries.{Value, flag, num, str, kind, IsFit, Cap, has}
use netbsd_curses.Terminfo.Compile.{Host, Flags, Tic, store_extra}
use netbsd_curses.Terminfo.Compile.Caps.{
  cancelled, without_at, store_flag, cancel_num, cancel_str, cancel, flag_cap,
}
use netbsd_curses.Terminfo.Compile.Extras.{Args, flag_args}
use netbsd_curses.Terminfo.Compile.Stores.{store_extra-Safe}
use netbsd_curses.Terminfo.Compile.Keeps.{IsHost, IsCaps, IsTic, IsCaps-added, have-then}
use netbsd_curses.Terminfo.Read.{Sizes}

abbrev pub IsFresh : List Cap → Option ℕ → Type 0
IsFresh cs none = 0 < 1
IsFresh cs (some i) = has i cs ≡ false

module _ (host : Host) (sizes : Sizes) (is_host : IsHost host sizes) (flags : Flags) where
  abbrev pub Well : Tic → Type 0
  Well tic = IsTic host sizes tic

  -- A capability that terminfo does not name.
  pub extra-Safe :
      (tic : Tic) (id : List ℕ) (v : Value) (f n : ℤ) (s : List ℕ)
      → Args v f n s
      → IsFit v
      → Well tic
      → Safe Well (store_extra host tic id (kind v) f n s flags.extra)
  extra-Safe tic id v f n s a fit w =
      Safe-map (store_extra-Safe host tic id v f n s flags.extra a fit w.extras) (λ t (x, e, ok).
        subst Well (sym e) (record {
          alias_room = w.alias_room;
          flags = w.flags;
          nums = w.nums;
          strs = w.strs;
          extras = ok;
        }))

  abbrev with_flags :
      (tic : Tic) (t : Tbuf)
      → Well tic
      → IsCaps tic.rtype b'f' sizes.flags t
      → Well (record tic { flags = t })
  with_flags tic t w c = record {
    alias_room = w.alias_room;
    flags = c;
    nums = w.nums;
    strs = w.strs;
    extras = w.extras;
  }

  abbrev pub with_nums :
      (tic : Tic) (t : Tbuf)
      → Well tic
      → IsCaps tic.rtype b'n' sizes.nums t
      → Well (record tic { nums = t })
  with_nums tic t w c = record {
    alias_room = w.alias_room;
    flags = w.flags;
    nums = c;
    strs = w.strs;
    extras = w.extras;
  }

  abbrev pub with_strs :
      (tic : Tic) (t : Tbuf)
      → Well tic
      → IsCaps tic.rtype b's' sizes.strs t
      → Well (record tic { strs = t })
  with_strs tic t w c = record {
    alias_room = w.alias_room;
    flags = w.flags;
    nums = w.nums;
    strs = c;
    extras = w.extras;
  }

  pub add_num :
      (tic : Tic) (i : ℕ) (z : ℤ) (w : Well tic)
      → has i w.nums.0 ≡ false
      → i < sizes.nums
      → IsInt z
      → Safe
          (λ t. Well (record tic { nums = t }))
          (encode_buf_id_num host.grants tic.nums i z (numsize tic.rtype))
  add_num tic i z w new l fit =
      Safe-map
        (IsCaps-added tic.rtype b'n' sizes.nums tic.nums w.nums (record { ind = i; value = num z })
          _ _
          (encode_buf_id_num-appended host.grants tic.nums i z tic.rtype
            (omega (arith, is_host.nums_short)))
          new refl l is_host.nums_short fit)
        (λ t c. with_nums tic t w c)

  pub add_str :
      (tic : Tic) (i : ℕ) (s : List ℕ) (w : Well tic)
      → has i w.strs.0 ≡ false
      → i < sizes.strs
      → length s < 2 ^ 16
      → Safe
          (λ t. Well (record tic { strs = t }))
          (encode_buf_id_count_str host.grants tic.strs i s)
  add_str tic i s w new l fit =
      Safe-map
        (IsCaps-added tic.rtype b's' sizes.strs tic.strs w.strs (record { ind = i; value = str s })
          _ _
          (encode_buf_id_count_str-appended host.grants tic.strs i s
            (omega (arith, is_host.strs_short)) fit)
          new refl l is_host.strs_short fit)
        (λ t c. with_strs tic t w c)

  pub store_flag-Safe :
      (tic : Tic) (id : List ℕ) (o : Option ℕ) (z : ℤ)
      → host.flag_index id ≡ o
      → IsFit (flag z)
      → Well tic
      → Safe Well (store_flag host flags tic id o z)
  unfolding store_flag
  store_flag-Safe tic id none z e fit w =
      extra-Safe tic id (flag z) z (pos 0) [] (flag_args z (pos 0) []) fit w
  store_flag-Safe tic id (some i) z e fit w =
      have-then tic.rtype b'f' sizes.flags i tic.flags w.flags _ (fine tic w) (λ new.
        Safe-bind _
          (IsCaps-added tic.rtype b'f' sizes.flags tic.flags w.flags
            (record { ind = i; value = flag z }) _ _
            (encode_buf_id_flags-appended host.grants tic.flags i z
              (omega (arith, is_host.flags_short, is_host.flag_below id i e)))
            new refl (is_host.flag_below id i e) is_host.flags_short fit)
          (λ t c. fine _ (with_flags tic t w c)))

  cancel_num-Safe :
      (tic : Tic) (id : List ℕ) (i : ℕ)
      → host.num_index id ≡ some i
      → Well tic
      → Safe Well (cancel_num host flags tic i)
  unfolding cancel_num
  cancel_num-Safe tic id i e w =
      have-then tic.rtype b'n' sizes.nums i tic.nums w.nums _ (fine tic w) (λ new.
        Safe-bind _ (add_num tic i cancelled w new (is_host.num_below id i e) (omega arith))
          (λ t ok. fine _ ok))

  cancel_str-Safe :
      (tic : Tic) (id : List ℕ) (i : ℕ)
      → host.str_index id ≡ some i
      → Well tic
      → Safe Well (cancel_str host flags tic i)
  unfolding cancel_str numsize unsigned u16
  cancel_str-Safe tic id i e w =
      have-then tic.rtype b's' sizes.strs i tic.strs w.strs _ (fine tic w) (λ new.
        Safe-bind _
          (IsCaps-added tic.rtype b's' sizes.strs tic.strs w.strs
            (record { ind = i; value = str [] }) _ _
            (encode_buf_id_num-appended host.grants tic.strs i (pos 0) o1
              (omega (arith, is_host.strs_short, is_host.str_below id i e)))
            new refl (is_host.str_below id i e) is_host.strs_short (omega arith))
          (λ t c. fine _ (with_strs tic t w c)))

  cancel-Safe : (tic : Tic) (id : List ℕ) → Well tic → Safe Well (cancel host flags tic id)
  unfolding cancel
  cancel-Safe tic id w =
      go (host.flag_index id) (host.num_index id) (host.str_index id) refl refl refl
    where
      go :
          (a b c : Option ℕ)
          → host.flag_index id ≡ a
          → host.num_index id ≡ b
          → host.str_index id ≡ c
          → Safe Well (elim a [
            | some i ↦ store_flag host flags tic id (some i) cancelled
            | none ↦ elim b [
              | some i ↦ cancel_num host flags tic i
              | none ↦ elim c [
                | some i ↦ cancel_str host flags tic i
                | none ↦ store_flag host flags tic id none cancelled
              ]
            ]
          ])
      go (some i) b c ea eb ec = store_flag-Safe tic id (some i) cancelled ea (omega arith) w
      go none (some i) c ea eb ec = cancel_num-Safe tic id i eb w
      go none none (some i) ea eb ec = cancel_str-Safe tic id i ec w
      go none none none ea eb ec = store_flag-Safe tic id none cancelled ea (omega arith) w

  pub flag_cap-Safe :
      (tic : Tic) (token : List ℕ) → Well tic → Safe Well (flag_cap host flags tic token)
  unfolding flag_cap
  flag_cap-Safe tic token w =
      let r = without_at token in
      Safe-if (r.0) _ _ (λ _. cancel-Safe tic (r.1) w)
        (λ _. store_flag-Safe tic (r.1) (host.flag_index (r.1)) (pos 1) refl (omega arith) w)
