-- ===== src/Terminfo/Compile/Extras.antt =====
-- The capabilities that terminfo does not name, in lib/libterminfo/compile.c: how _ti_store_extra
-- writes them and _ti_find_extra goes over them.
use netbsd_curses.Base.{
  ℕ, ◌+◌, ◌-◌, ◌^◌, ◌≤◌, ◌<◌, ◌≡◌, refl, ap, ◌∙◌, ltb, if◌then◌else◌, false, List, [], ◌∷◌, ◌++◌,
  length, length-append, arith,
}
use netbsd_curses.Base.Int.{ℤ}
use netbsd_curses.Terminfo.Bytes.{Answer, gives, fails, ◌>>=◌, unsigned, Rtype, o1, v3, numsize}
use netbsd_curses.Terminfo.Bytes.RoundTrip.{u16, length-u16, unsigned_16, unsigned_small}
use netbsd_curses.Terminfo.Tbuf.{Tbuf, encode_buf_num, counted, at_most}
use netbsd_curses.Terminfo.Tbuf.Writes.{
  appended, granted, written, num_bytes, length-num_bytes, with_bytes, put-then, encode_buf_16-then,
  encode_buf_32-then, encode_buf_count_str-then, after, regrouped,
}
use netbsd_curses.Terminfo.Tbuf.Entries.{Value, flag, num, str, kind, value_bytes, IsFit}
use netbsd_curses.Terminfo.Compile.{Host, append_extra, put_value, value_size}
use netbsd_curses.Terminfo.Compile.Describes.{Extra, extra_bytes}

-- The largest number that is stored, INT16_MAX or INT32_MAX.
abbrev pub clipped : Rtype → ℤ → ℤ
clipped o1 z = at_most (2 ^ 15 - 1) z
clipped v3 z = at_most (2 ^ 31 - 1) z

-- What the arguments of _ti_store_extra stand for.
abbrev pub given : Rtype → Value → Value
given rtype (flag z) = flag z
given rtype (num z) = num (clipped rtype z)
given rtype (str s) = str s

-- The arguments: a value has a flag, a number and a string, two of which do not count.
pub data Args : Value → ℤ → ℤ → List ℕ → Type 0 where
  flag_args : (z n : ℤ) (s : List ℕ) → Args (flag z) z n s
  num_args : (f z : ℤ) (s : List ℕ) → Args (num z) f z s
  str_args : (f n : ℤ) (s : List ℕ) → Args (str s) f n s

encode_buf_num-then :
    (t : Tbuf) (rtype : Rtype) (z : ℤ) (k : Tbuf → Answer Tbuf)
    → length t.text + numsize rtype ≤ t.size
    → (encode_buf_num t z rtype >>= k) ≡ k (with_bytes t (num_bytes rtype (clipped rtype z)))
unfolding encode_buf_num numsize
encode_buf_num-then t o1 z k room = encode_buf_16-then t _ k (unsigned_16 (clipped o1 z)) room
encode_buf_num-then t v3 z k room = encode_buf_32-then t _ k (unsigned_small (clipped v3 z)) room

put_value-then :
    (t : Tbuf) (rtype : Rtype) (v : Value) (f n : ℤ) (s : List ℕ) (k : Tbuf → Answer Tbuf)
    → Args v f n s
    → IsFit v
    → length t.text + value_size rtype (kind v) s ≤ t.size
    → (put_value t rtype (kind v) f n s >>= k)
      ≡ k (with_bytes t (value_bytes rtype (given rtype v)))
unfolding put_value value_size
put_value-then t rtype v f n s k (flag_args _ _ _) h room = put-then t (unsigned 8 f ∷ []) k room
put_value-then t rtype v f n s k (num_args _ _ _) h room = encode_buf_num-then t rtype n k room
put_value-then t rtype v f n s k (str_args _ _ _) h room = encode_buf_count_str-then t s k h room

value_size-bytes :
    (rtype : Rtype) (v : Value) (f n : ℤ) (s : List ℕ)
    → Args v f n s
    → length (value_bytes rtype (given rtype v)) ≡ value_size rtype (kind v) s
unfolding value_size u16
value_size-bytes rtype v f n s (flag_args _ _ _) = refl
value_size-bytes rtype v f n s (num_args _ _ _) = length-num_bytes rtype (clipped rtype n)
value_size-bytes rtype v f n s (str_args _ _ _) = omega arith

abbrev pub extra_of : Rtype → List ℕ → Value → Extra
extra_of rtype id v = record { id = id ++ 0 ∷ []; value = given rtype v }

kind-given : (rtype : Rtype) (v : Value) → kind (given rtype v) ≡ kind v
kind-given rtype (flag z) = refl
kind-given rtype (num z) = refl
kind-given rtype (str s) = refl

-- A capability that terminfo does not name, with a name of fewer than 65535 characters, is
-- appended to the buffer as its name with the NUL and its length, its type and its value, a
-- number cut to the largest that is stored; the buffer grows just by what these bytes need, and
-- nothing is written if there is no memory.
pub append_extra-appended :
    (host : Host) (rtype : Rtype) (t : Tbuf) (id : List ℕ) (v : Value) (f n : ℤ) (s : List ℕ)
    → Args v f n s
    → IsFit v
    → length id + 1 < 2 ^ 16
    → append_extra host rtype t id (kind v) f n s ≡ (
        if granted host.grants t (2 + (length id + 1) + 1 + value_size rtype (kind v) s)
        then gives (appended t (extra_bytes rtype (extra_of rtype id v)))
        else fails)
unfolding append_extra
append_extra-appended host rtype t id v f n s a h l =
    let short : ltb (2 ^ 16 - 1) (length id + 1) ≡ false = ground arith in
    let named = u16 (length (id ++ 0 ∷ [])) ++ (id ++ 0 ∷ []) in
    let value = value_bytes rtype (given rtype v) in
    let size = value_size-bytes rtype v f n s a in
    let ended = length-append id (0 ∷ []) in
    let counts : length named ≡ 2 + (length id + 1) = omega (
      arith,
      ended,
      length-append (u16 (length (id ++ 0 ∷ []))) (id ++ 0 ∷ []),
      length-u16 (length (id ++ 0 ∷ [])),
    ) in
    rw (short, kind-given rtype v)
      (written host.grants t (2 + (length id + 1) + 1 + value_size rtype (kind v) s)
        (named ++ (kind v ∷ value)) _
        (omega (arith, counts, size, length-append named (kind v ∷ value)))
        (λ t' room.
          encode_buf_count_str-then t' (id ++ 0 ∷ []) _ (omega (arith, ended))
            (omega (arith, ended))
          ∙ put-then (with_bytes t' named) (kind v ∷ []) _ (omega (arith, counts, after t' named))
          ∙ put_value-then (with_bytes (with_bytes t' named) (kind v ∷ [])) rtype v f n s _ a h
              (omega (arith, counts, after t' named, after (with_bytes t' named) (kind v ∷ [])))
          ∙ ap (λ (r : Tbuf). gives (counted r))
              (regrouped (with_bytes t' named) (kind v ∷ []) value
                ∙ regrouped t' named (kind v ∷ value))))
