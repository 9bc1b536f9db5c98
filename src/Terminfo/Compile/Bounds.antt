-- ===== src/Terminfo/Compile/Bounds.antt =====
-- lib/libterminfo/compile.c: the loop of encode_string ends, and writes no more than it reads.
use netbsd_curses.Base.{
  ℕ, zero, suc, ◌+◌, ◌-◌, ◌*◌, ◌≤◌, ◌<◌, ◌≡◌, refl, sym, ap, subst, leb, ◌==◌, ◌&&◌, not, if_cases,
  Bool, false, Option, none, some, List, [], ◌∷◌, ◌++◌, length, length-append, arith,
}
use netbsd_curses.Terminfo.Bytes.{Answer, outside}
use netbsd_curses.Terminfo.Bytes.Safe.{Safe, fine, Safe-bind, Safe-granted}
use netbsd_curses.Terminfo.Tbuf.{Tbuf, put}
use netbsd_curses.Terminfo.Tbuf.Writes.{put_room, grow_tbuf-grown, granted, grown}
use netbsd_curses.Terminfo.Compile.Escapes.{
  is_space, drop_spaces, octal_digits, Round, on, stop, caret, octal, round, encode_chars, escapes,
  encode_string,
}
use mathlib.Core.Option

pub drop_spaces_shorter : (str : List ℕ) → length (drop_spaces str) ≤ length str
unfolding drop_spaces
drop_spaces_shorter [] = omega arith
drop_spaces_shorter (c ∷ str) =
    if_cases (λ (s : List ℕ). length s ≤ suc (length str)) (is_space c) _ _
      (λ _. omega (arith, drop_spaces_shorter str)) (λ _. omega arith)

octal_digits_shorter : (i num : ℕ) (str : List ℕ) → length (octal_digits i num str).1 ≤ length str
unfolding octal_digits
octal_digits_shorter zero num str = omega arith
octal_digits_shorter (suc i) num [] = omega arith
octal_digits_shorter (suc i) num (c ∷ str) =
    if_cases (λ (r : ℕ × List ℕ). length r.1 ≤ suc (length str)) (leb b'0' c && leb c b'9') _ _
      (λ _. omega (arith, octal_digits_shorter i (num * 8 + (c - b'0')) str)) (λ _. omega arith)

-- A round takes a character more than it leaves or writes.
abbrev Takes : ℕ → Round → Type 0
Takes n (on out slash last str) = (length str ≤ n) × (length out + length str ≤ suc n)
Takes n stop = 0 < 1

caret-Takes : (str : List ℕ) → Takes (length str) (caret str)
unfolding caret
caret-Takes [] = omega arith
caret-Takes (c ∷ str) = (omega arith, omega arith)

octal-Takes : (ch last : ℕ) (str : List ℕ) → Takes (length str) (octal ch last str)
unfolding octal
octal-Takes ch last str = let h = octal_digits_shorter 2 (ch - b'0') str in (h, omega (arith, h))

round-Takes :
    (ch : ℕ) (slash : Bool) (last : ℕ) (str : List ℕ) → Takes (length str) (round ch slash last str)
unfolding round
round-Takes ch slash last str =
    let n = length str in
    if_cases (Takes n) (ch == 10) _ _
      (λ _. (drop_spaces_shorter str, omega (arith, drop_spaces_shorter str)))
      (λ _.
        if_cases (Takes n) (not slash && (ch == b'\\')) _ _ (λ _. (omega arith, omega arith))
          (λ _.
            if_cases (Takes n) (not slash) _ _
              (λ _.
                if_cases (Takes n) (not (last == b'%') && (ch == b'^')) _ _ (λ _. caret-Takes str)
                  (λ _. (omega arith, omega arith)))
              (λ _.
                if_cases (Takes n) (leb b'0' ch && leb ch b'7') _ _ (λ _. octal-Takes ch last str)
                  (λ _. (omega arith, omega arith)))))

-- On fuel for every character the loop ends.
encode_chars_ends :
    (fuel : ℕ) (slash : Bool) (last : ℕ) (str : List ℕ)
    → length str ≤ fuel
    → (out : List ℕ) × (encode_chars fuel slash last str ≡ some out) × (length out ≤ length str)
unfolding encode_chars
encode_chars_ends fuel slash last [] h = ([], refl, omega arith)
encode_chars_ends zero slash last (ch ∷ str) h = ground arith
encode_chars_ends (suc fuel) slash last (ch ∷ str) h =
    go (round ch slash last str) (round-Takes ch slash last str)
      (λ slash' last' str' l. encode_chars_ends fuel slash' last' str' (omega (arith, l, h)))
  where
    go :
        (r : Round)
        → Takes (length str) r
        → ((slash' : Bool) (last' : ℕ) (str' : List ℕ)
            → length str' ≤ length str
            → (out : List ℕ) × (encode_chars fuel slash' last' str' ≡ some out)
              × (length out ≤ length str'))
        → (out : List ℕ) × (elim r as (λ _. Option (List ℕ)) [
          | stop ↦ some []
          | on w slash last str ↦ Option.map (λ rest. w ++ rest) (encode_chars fuel slash last str)
        ]
            ≡ some out)
          × (length out ≤ suc (length str))
    go stop t rec = ([], refl, omega arith)
    go (on w slash' last' str') t rec =
        let r = rec slash' last' str' (t.0) in
        (
          w ++ r.0,
          ap (Option.map (λ rest. w ++ rest)) (r.1),
          omega (arith, t, r.2, length-append w (r.0)),
        )

pub escapes_end :
    (str : List ℕ) → (out : List ℕ) × (escapes str ≡ some out) × (length out ≤ length str)
unfolding escapes
escapes_end str = encode_chars_ends (length str) false 0 str (omega arith)

-- In a buffer that is large enough, a string and its NUL are written at the end.
put-Safe :
    (t : Tbuf) (bs : List ℕ)
    → length t.text + length bs ≤ t.size
    → Safe (λ t'. t'.text ≡ t.text ++ bs) (put t bs)
put-Safe t bs h =
    subst (Safe (λ t'. t'.text ≡ t.text ++ bs)) (sym (put_room t bs h))
      (fine (record t { text = t.text ++ bs }) refl)

pub encode_string-Safe :
    (grants : ℕ → Bool) (t : Tbuf) (str : List ℕ)
    → Safe (λ t'. t'.text ≡ t.text ++ ((escapes_end str).0 ++ 0 ∷ [])) (encode_string grants t str)
unfolding encode_string
encode_string-Safe grants t str =
    let r = escapes_end str in
    Safe-bind _
      (Safe-granted {P = λ t'. t' ≡ grown t (length str + 1)} _ (granted grants t (length str + 1))
        (grown t (length str + 1)) (grow_tbuf-grown grants t (length str + 1)) refl)
      (λ t' e.
        subst
          (λ t'.
            Safe (λ (t'' : Tbuf). t''.text ≡ t.text ++ (r.0 ++ 0 ∷ []))
              (elim (escapes str) [ none ↦ outside | some out ↦ put t' (out ++ 0 ∷ []) ]))
          (sym e)
          (subst
            (λ o.
              Safe (λ (t'' : Tbuf). t''.text ≡ t.text ++ (r.0 ++ 0 ∷ []))
                (elim o as (λ _. Answer Tbuf) [
                  | none ↦ outside
                  | some out ↦ put (grown t (length str + 1)) (out ++ 0 ∷ [])
                ]))
            (sym (r.1))
            (put-Safe (grown t (length str + 1)) (r.0 ++ 0 ∷ [])
              (omega (arith, r.2, length-append (r.0) (0 ∷ []))))))
