-- ===== src/Terminfo/Read/Flat.antt =====
-- The bytes that _ti_flatten of lib/libterminfo/compile.c makes of a description.
use netbsd_curses.Base.{
  ℕ, ◌+◌, ◌%◌, ◌^◌, ◌≤◌, ◌<◌, ◌≡◌, le→leb, ◌==◌, if◌then◌else◌, if_cases, Bool-cases, inl, inr,
  some, List, ◌∷◌, ◌++◌, length, length-append, arith,
}
use netbsd_curses.Terminfo.Bytes.{gives, fails, encode_count_str}
use netbsd_curses.Terminfo.Bytes.RoundTrip.{u16, encode_16-u16}
use netbsd_curses.Terminfo.Tbuf.{Tbuf}
use netbsd_curses.Terminfo.Compile.{Host, Tic}
use netbsd_curses.Terminfo.Compile.Flatten.{terminated, encode_buf, rtype_byte, flat_size, flatten}

abbrev pub flat_str : List ℕ → List ℕ
flat_str s = u16 (length s % 2 ^ 16) ++ s

unfoldable pub flat_buf : Tbuf → List ℕ
flat_buf t = if t.entries == 0 then u16 0 else u16 (length t.text + 2) ++ (u16 t.entries ++ t.text)

-- A buffer that fits in a record.
pub record IsFlat (t : Tbuf) : Type 0 where
  pub text_fits : length t.text + 2 < 2 ^ 16
  pub entries_fit : t.entries < 2 ^ 16

encode_count_str-flat : (s : List ℕ) → encode_count_str s ≡ gives (flat_str s)
unfolding encode_count_str
encode_count_str-flat s = rw (encode_16-u16 (length s % 2 ^ 16) (omega arith))

encode_buf-flat : (t : Tbuf) → IsFlat t → encode_buf t ≡ gives (flat_buf t)
unfolding encode_buf flat_buf
encode_buf-flat t h = elim (Bool-cases (t.entries == 0)) [
  | inl e ↦ rw (e, encode_16-u16 0 (omega arith))
  | inr e ↦
      rw (e, encode_16-u16 (length t.text + 2) h.text_fits, encode_16-u16 t.entries h.entries_fit)
]

flat_buf_small : (t : Tbuf) → length (flat_buf t) ≤ 4 + length t.text
unfolding flat_buf u16
flat_buf_small t =
    if_cases (λ (bs : List ℕ). length bs ≤ 4 + length t.text) (t.entries == 0) _ _
      (λ _. omega arith) (λ _. omega arith)

pub record IsFlatTic (tic : Tic) : Type 0 where
  pub flags_fit : IsFlat tic.flags
  pub nums_fit : IsFlat tic.nums
  pub strs_fit : IsFlat tic.strs
  pub extras_fit : IsFlat tic.extras

unfoldable pub flat : Tic → List ℕ
flat tic =
    rtype_byte tic.rtype
    ∷ (flat_str (terminated (some tic.name))
        ++ (flat_str (terminated tic.alias)
            ++ (flat_str (terminated tic.desc)
                ++ (flat_buf tic.flags
                    ++ (flat_buf tic.nums ++ (flat_buf tic.strs ++ flat_buf tic.extras))))))

length-flat_str : (s cap : List ℕ) → length (flat_str s ++ cap) ≡ 2 + length s + length cap
unfolding u16
length-flat_str s cap = omega (arith, length-append s cap)

flat_fits : (tic : Tic) → length (flat tic) ≤ flat_size tic
unfolding flat flat_size
flat_fits tic = omega (
  arith,
  length-flat_str (terminated (some tic.name)),
  length-flat_str (terminated tic.alias),
  length-flat_str (terminated tic.desc),
  length-append (flat_buf tic.flags),
  length-append (flat_buf tic.nums),
  length-append (flat_buf tic.strs),
  flat_buf_small,
)

pub flatten-flat :
    (host : Host) (tic : Tic)
    → IsFlatTic tic
    → flatten host tic ≡ (if host.grants (flat_size tic) then gives (flat tic) else fails)
unfolding flatten u16 flat
flatten-flat host tic h = elim (Bool-cases (host.grants (flat_size tic))) [
  | inr g ↦ rw g
  | inl g ↦ rw (
    g,
    encode_count_str-flat (terminated (some tic.name)),
    encode_count_str-flat (terminated tic.alias),
    encode_count_str-flat (terminated tic.desc),
    encode_buf-flat tic.flags h.flags_fit,
    encode_buf-flat tic.nums h.nums_fit,
    encode_buf-flat tic.strs h.strs_fit,
    encode_buf-flat tic.extras h.extras_fit,
    le→leb (length (flat tic)) (flat_size tic) (flat_fits tic),
  )
]
