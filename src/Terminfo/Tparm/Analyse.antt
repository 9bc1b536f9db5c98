-- ===== src/Terminfo/Tparm/Analyse.antt =====
-- _ti_parm_analyse of lib/libterminfo/tparm.c: how many parameters a string has, and which are
-- strings. A C string is the list of its characters with the final NUL.
use netbsd_curses.Base.{
  ℕ, ◌-◌, ◌≤◌, ◌≡◌, refl, leb, ◌==◌, if◌then◌else◌, Bool, true, false, not, ◌&&◌, ◌||◌, Option,
  none, some, List, [], ◌∷◌, max, set, length, length-set, arith, inl, inr, if_cases, and_true, ◌⊎◌,
  ◌≢◌, ◌++◌,
}

abbrev pub In : ℕ → List ℕ → Type 0
In c [] = ⊥
In c (x ∷ xs) = (c ≡ x) ⊎ In c xs

-- `nparm`, `lpop` (no value for -1) and the array `piss`.
pub record Scan : Type 0 where
  pub nparm : ℕ
  pub lpop : Option ℕ
  pub piss : List Bool

-- The cases 'l' and 's': the last parameter pushed is a string.
abbrev pub mark : Scan → Scan
mark s = elim s.lpop [
  | none ↦ s
  | some p ↦ if leb p (length s.piss) then record s { piss = set s.piss (p - 1) true } else s
]

abbrev pub is_digit : ℕ → ℕ → ℕ → Bool
is_digit lo hi c = leb lo c && leb c hi

-- The case 'p' with the character after it: '1' to '9' is a parameter, anything else is passed over.
abbrev pub pushed_param : Scan → ℕ → Scan
pushed_param s e =
    if is_digit b'1' b'9' e
    then record s { nparm = max s.nparm (e - b'0'); lpop = some (e - b'0') }
    else s

abbrev pub forget : Scan → Scan
forget s = record s { lpop = none }

abbrev pub is_string : ℕ → Bool
is_string d = d == b'l' || d == b's'

-- No value: the loop has read past the end of the string.
unfoldable pub analyse : Scan → List ℕ → Option Scan
analyse s [] = none
analyse s (c ∷ []) = if c == 0 then some s else none
analyse s (c ∷ d ∷ []) =
    if c == 0 then some s else if c == b'%' then none else if d == 0 then some s else none
analyse s (c ∷ d ∷ e ∷ str) =
    let plain = analyse s (d ∷ e ∷ str) in
    let marked = analyse (mark s) (e ∷ str) in
    let other = analyse (forget s) (e ∷ str) in
    let param = analyse (pushed_param s e) str in
    if c == 0
    then some s
    else if not (c == b'%')
    then plain
    else if is_string d
    then marked
    else if d == b'p'
    then param
    else other

-- The counts that _ti_tiparm relies on: it has nine parameters.
pub record IsScan (s : Scan) : Type 0 where
  pub few : s.nparm ≤ 9
  pub nine : length s.piss ≡ 9

mark-IsScan : (s : Scan) → IsScan s → IsScan (mark s)
mark-IsScan s v = marked s.lpop
  where
    marked :
        (l : Option ℕ)
        → IsScan (elim l [
          | none ↦ s
          | some p ↦
              if leb p (length s.piss) then record s { piss = set s.piss (p - 1) true } else s
        ])
    marked none = v
    marked (some p) =
        if_cases IsScan (leb p (length s.piss)) (record s { piss = set s.piss (p - 1) true }) s
          (λ _. record {
            few = v.few;
            nine = omega (arith, length-set s.piss (p - 1) true, v.nine);
          })
          (λ _. v)

pushed_param-IsScan : (s : Scan) (e : ℕ) → IsScan s → IsScan (pushed_param s e)
pushed_param-IsScan s e v = ground arith

-- Every `%` before the final NUL has its characters: one, and one more after `%p`.
unfoldable pub complete : List ℕ → Bool
complete [] = false
complete (c ∷ []) = c == 0
complete (c ∷ d ∷ []) = c == 0 || (not (c == b'%') && d == 0)
complete (c ∷ d ∷ e ∷ str) =
    c == 0
    || (if not (c == b'%')
        then complete (d ∷ e ∷ str)
        else if d == b'p'
        then complete str && not (e == 0)
        else complete (e ∷ str) && not (d == 0))

-- The analysis has ended, with at most nine parameters and their nine kinds.
abbrev pub Ends : Option Scan → Type 0
Ends none = ⊥
Ends (some s) = IsScan s

complete_parts :
    (z n p a b c : Bool)
    → (z || (if n then a else if p then b else c)) ≡ true
    → z ≡ false
    → (n ≡ true → a ≡ true) × (n ≡ false → p ≡ true → b ≡ true) × (n ≡ false → p ≡ false → c ≡ true)
complete_parts z n p a b c h e = (λ t. ground arith, λ f t. ground arith, λ f t. ground arith)

is_string-not_p : (d : ℕ) → is_string d ≡ true → (d == b'p') ≡ false
is_string-not_p d h = ground arith

-- From counts that are in order, the analysis of a string in which every `%` has its characters
-- before the NUL ends at the NUL, with at most nine parameters and nine kinds.
pub analyse-Ends : (s : Scan) (str : List ℕ) → IsScan s → complete str ≡ true → Ends (analyse s str)
unfolding analyse complete
analyse-Ends s [] v h = cc
analyse-Ends s (c ∷ []) v h = ground arith
analyse-Ends s (c ∷ d ∷ []) v h = ground arith
analyse-Ends s (c ∷ d ∷ e ∷ str) v h =
    if_cases Ends (c == 0) _ _ (λ _. v)
      λ nul.
        let parts =
          complete_parts (c == 0) (not (c == b'%')) (d == b'p') (complete (d ∷ e ∷ str))
            (complete str && not (e == 0)) (complete (e ∷ str) && not (d == 0)) h nul in
        if_cases Ends (not (c == b'%')) _ _ (λ a. analyse-Ends s (d ∷ e ∷ str) v (parts.0 a))
          λ a.
            if_cases Ends (is_string d) _ _
              (λ b.
                analyse-Ends (mark s) (e ∷ str) (mark-IsScan s v)
                  (and_true _ _ (parts.2 a (is_string-not_p d b))).0)
              λ b.
                if_cases Ends (d == b'p') _ _
                  (λ p.
                    analyse-Ends (pushed_param s e) str (pushed_param-IsScan s e v)
                      (and_true _ _ (parts.1 a p)).0)
                  λ p.
                    analyse-Ends (forget s) (e ∷ str) (record { few = v.few; nine = v.nine })
                      (and_true _ _ (parts.2 a p)).0

-- Whatever the counts, a single `%` before the NUL, behind text without NUL and `%`, takes the
-- analysis past the end of the string.
pub analyse_past :
    (s : Scan) (cs : List ℕ)
    → ((c : ℕ) → In c cs → (c ≢ 0) × (c ≢ b'%'))
    → analyse s (cs ++ b'%' ∷ 0 ∷ []) ≡ none
unfolding analyse
analyse_past s [] h = refl
analyse_past s (c ∷ []) h = ground (arith, h c (inl refl))
analyse_past s (c ∷ d ∷ []) h =
    ground (arith, h c (inl refl), analyse_past s (d ∷ []) (λ x m. h x (inr m)))
analyse_past s (c ∷ d ∷ e ∷ cs) h =
    ground (arith, h c (inl refl), analyse_past s (d ∷ e ∷ cs) (λ x m. h x (inr m)))
