-- ===== src/Terminfo/Tbuf/Writes.antt =====
-- What the encoders of lib/libterminfo/compile.c write at the end of a buffer, and that they stay in it.
use netbsd_curses.Base.{
  ℕ, suc, ◌+◌, ◌^◌, ◌≤◌, ◌<◌, max, ◌≡◌, refl, ap, ◌∙◌, ltb, leb, ltb→lt, ltb_ge, le→leb,
  if◌then◌else◌, Bool, false, ◌||◌, Bool-cases, inl, inr, List, [], ◌∷◌, ◌++◌, length,
  length-append, arith,
}
use netbsd_curses.Base.Int.{ℤ}
use netbsd_curses.Terminfo.Bytes.{Answer, gives, fails, ◌>>=◌, unsigned, Rtype, o1, v3, numsize}
use netbsd_curses.Terminfo.Bytes.RoundTrip.{
  u16, u32, encode_16-u16, encode_32-u32, unsigned_small, unsigned_16,
}
use netbsd_curses.Terminfo.Tbuf.{
  Tbuf, put, encode_buf_16, encode_buf_32, encode_buf_count_str, counted, grow_tbuf,
  encode_buf_id_num, encode_buf_id_count_str, encode_buf_id_flags,
}
use mathlib.Core.List.{append_assoc}

-- A buffer with the bytes of one more entry, as large as they need.
unfoldable pub appended : Tbuf → List ℕ → Tbuf
appended t bs = record {
  text = t.text ++ bs;
  size = max t.size (length t.text + length bs);
  entries = suc t.entries;
}

abbrev pub grown : Tbuf → ℕ → Tbuf
grown t len = record t { size = max t.size (length t.text + len) }

abbrev pub num_bytes : Rtype → ℤ → List ℕ
num_bytes o1 num = u16 (unsigned 16 num)
num_bytes v3 num = u32 (unsigned 32 num)

pub length-num_bytes : (rtype : Rtype) (num : ℤ) → length (num_bytes rtype num) ≡ numsize rtype
unfolding u16 u32 numsize
length-num_bytes o1 num = refl
length-num_bytes v3 num = refl

pub put_room :
    (t : Tbuf) (bs : List ℕ)
    → length t.text + length bs ≤ t.size
    → put t bs ≡ gives (record t { text = t.text ++ bs })
unfolding put
put_room t bs h = rw (le→leb (length t.text + length bs) t.size h)

abbrev pub with_bytes : Tbuf → List ℕ → Tbuf
with_bytes t bs = record t { text = t.text ++ bs }

pub put-then :
    (t : Tbuf) (bs : List ℕ) (k : Tbuf → Answer Tbuf)
    → length t.text + length bs ≤ t.size
    → (put t bs >>= k) ≡ k (with_bytes t bs)
put-then t bs k h = ap (λ (r : Answer Tbuf). r >>= k) (put_room t bs h)

pub encode_buf_16-then :
    (t : Tbuf) (n : ℕ) (k : Tbuf → Answer Tbuf)
    → n < 2 ^ 16
    → length t.text + 2 ≤ t.size
    → (encode_buf_16 t n >>= k) ≡ k (with_bytes t (u16 n))
unfolding encode_buf_16 u16
encode_buf_16-then t n k h room =
    ap (λ (r : Answer (List ℕ)). r >>= (λ bs. put t bs) >>= k) (encode_16-u16 n h)
    ∙ put-then t (u16 n) k room

pub encode_buf_32-then :
    (t : Tbuf) (n : ℕ) (k : Tbuf → Answer Tbuf)
    → n < 2 ^ 32
    → length t.text + 4 ≤ t.size
    → (encode_buf_32 t n >>= k) ≡ k (with_bytes t (u32 n))
unfolding encode_buf_32 u32
encode_buf_32-then t n k h room =
    ap (λ (r : Answer (List ℕ)). r >>= (λ bs. put t bs) >>= k) (encode_32-u32 n h)
    ∙ put-then t (u32 n) k room

-- The length of the text after a write.
pub after : (t : Tbuf) (bs : List ℕ) → length (with_bytes t bs).text ≡ length t.text + length bs
after t bs = length-append t.text bs

pub regrouped :
    (t : Tbuf) (xs ys : List ℕ) → with_bytes (with_bytes t xs) ys ≡ with_bytes t (xs ++ ys)
regrouped t xs ys = ap (λ bs. record t { text = bs }) (append_assoc t.text xs ys)

pub encode_buf_count_str-then :
    (t : Tbuf) (str : List ℕ) (k : Tbuf → Answer Tbuf)
    → length str < 2 ^ 16
    → length t.text + (2 + length str) ≤ t.size
    → (encode_buf_count_str t str >>= k) ≡ k (with_bytes t (u16 (length str) ++ str))
unfolding encode_buf_count_str u16
encode_buf_count_str-then t str k h room =
    ap (λ (r : Answer Tbuf). r >>= k)
      (encode_buf_16-then t (length str) (λ t'. put t' str) h (omega arith))
    ∙ put-then (with_bytes t (u16 (length str))) str k (omega (arith, after t (u16 (length str))))
    ∙ ap k (regrouped t (u16 (length str)) str)

module _ (grants : ℕ → Bool) where
  -- Whether there is room for `len` more bytes, or memory for it.
  unfoldable pub granted : Tbuf → ℕ → Bool
  granted t len = leb (length t.text + len) t.size || grants (length t.text + len)

  pub grow_tbuf-grown :
      (t : Tbuf) (len : ℕ)
      → grow_tbuf grants t len ≡ (if granted t len then gives (grown t len) else fails)
  unfolding grow_tbuf granted
  grow_tbuf-grown t len = elim (Bool-cases (ltb t.size (length t.text + len))) [
    | inl h ↦
        let more = ltb→lt t.size (length t.text + len) h in
        let full : leb (length t.text + len) t.size ≡ false = ground arith in
        let m : max t.size (length t.text + len) ≡ length t.text + len = omega arith in
        rw (h, full, m)
    | inr h ↦
        let room = ltb_ge t.size (length t.text + len) h in
        let m : max t.size (length t.text + len) ≡ t.size = omega arith in
        rw (h, le→leb (length t.text + len) t.size room, m)
  ]

  -- An encoder is fixed by what it writes once the buffer is large enough.
  pub written :
      (t : Tbuf) (len : ℕ) (bs : List ℕ) (k : Tbuf → Answer Tbuf)
      → length bs ≡ len
      → ((t' : Tbuf) → length t'.text + len ≤ t'.size → k t' ≡ gives (counted (with_bytes t' bs)))
      → (grow_tbuf grants t len >>= k) ≡ (if granted t len then gives (appended t bs) else fails)
  unfolding appended
  written t len bs k e h =
      ap (λ (r : Answer Tbuf). r >>= k) (grow_tbuf-grown t len)
      ∙ elim (Bool-cases (granted t len)) [
        | inl g ↦ rw (g, h (grown t len) (omega arith), e)
        | inr g ↦ rw g
      ]

  pub encode_buf_id_flags-appended :
      (t : Tbuf) (ind : ℕ) (flag : ℤ)
      → ind < 2 ^ 16
      → encode_buf_id_flags grants t ind flag
        ≡ (if granted t 3 then gives (appended t (u16 ind ++ (unsigned 8 flag ∷ []))) else fails)
  unfolding encode_buf_id_flags u16
  encode_buf_id_flags-appended t ind flag h =
      written t 3 (u16 ind ++ (unsigned 8 flag ∷ [])) _ refl (λ t' room.
        encode_buf_16-then t' ind _ h (omega arith)
        ∙ put-then (with_bytes t' (u16 ind)) (unsigned 8 flag ∷ []) _
            (omega (arith, after t' (u16 ind)))
        ∙ ap (λ (r : Tbuf). gives (counted r)) (regrouped t' (u16 ind) (unsigned 8 flag ∷ [])))

  pub encode_buf_id_count_str-appended :
      (t : Tbuf) (ind : ℕ) (str : List ℕ)
      → ind < 2 ^ 16
      → length str < 2 ^ 16
      → encode_buf_id_count_str grants t ind str ≡ (
          if granted t (4 + length str)
          then gives (appended t (u16 ind ++ (u16 (length str) ++ str)))
          else fails)
  unfolding encode_buf_id_count_str u16
  encode_buf_id_count_str-appended t ind str h l =
      written t (4 + length str) (u16 ind ++ (u16 (length str) ++ str)) _ (omega arith) (λ t' room.
        encode_buf_16-then t' ind _ h (omega arith)
        ∙ encode_buf_count_str-then (with_bytes t' (u16 ind)) str _ l
            (omega (arith, after t' (u16 ind)))
        ∙ ap (λ (r : Tbuf). gives (counted r)) (regrouped t' (u16 ind) (u16 (length str) ++ str)))

  pub encode_buf_id_num-appended :
      (t : Tbuf) (ind : ℕ) (num : ℤ) (rtype : Rtype)
      → ind < 2 ^ 16
      → encode_buf_id_num grants t ind num (numsize rtype) ≡ (
          if granted t (2 + numsize rtype)
          then gives (appended t (u16 ind ++ num_bytes rtype num))
          else fails)
  unfolding encode_buf_id_num numsize u16 u32
  encode_buf_id_num-appended t ind num o1 h =
      written t 4 (u16 ind ++ u16 (unsigned 16 num)) _ refl (λ t' room.
        encode_buf_16-then t' ind _ h (omega arith)
        ∙ encode_buf_16-then (with_bytes t' (u16 ind)) (unsigned 16 num) _ (unsigned_16 num)
            (omega (arith, after t' (u16 ind)))
        ∙ ap (λ (r : Tbuf). gives (counted r)) (regrouped t' (u16 ind) (u16 (unsigned 16 num))))
  encode_buf_id_num-appended t ind num v3 h =
      written t 6 (u16 ind ++ u32 (unsigned 32 num)) _ refl (λ t' room.
        encode_buf_16-then t' ind _ h (omega arith)
        ∙ encode_buf_32-then (with_bytes t' (u16 ind)) (unsigned 32 num) _ (unsigned_small num)
            (omega (arith, after t' (u16 ind)))
        ∙ ap (λ (r : Tbuf). gives (counted r)) (regrouped t' (u16 ind) (u32 (unsigned 32 num))))
