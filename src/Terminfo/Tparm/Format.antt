-- ===== src/Terminfo/Tparm/Format.antt =====
-- The formatting loop of _ti_tiparm in lib/libterminfo/tparm.c: flags, width and precision between a
-- `%` and its command, which are copied into `fmt`, an array of 64 characters.
use netbsd_curses.Base.{
  ℕ, ◌+◌, ◌-◌, ◌*◌, ltb, leb, ◌==◌, if◌then◌else◌, Bool, true, false, ◌||◌, Option, none, some,
  List, [], ◌∷◌, ◌++◌, length, max,
}
use netbsd_curses.Terminfo.Tparm.Analyse.{is_digit}

-- `fmt` up to `fp`, and the other variables of the loop.
pub record Format : Type 0 where
  pub fmt : List ℕ
  pub dot : Bool
  pub minus : Bool
  pub width : ℕ
  pub val : ℕ

-- The values 0, 1 and 2 of `done`.
pub data Done : Type 0 where
  more done wrong : Done

abbrev pub put : ℕ → Format → Format
put c f = record f { fmt = f.fmt ++ c ∷ [] }

abbrev pub is_conversion : ℕ → Bool
is_conversion c = c == b'd' || c == b'o' || c == b'x' || c == b'X'

abbrev pub digit : ℕ → Format → Done × Format
digit c f =
    let val = f.val * 10 + (c - b'0') in
    if ltb 10000 val
    then (wrong, record f { val = val })
    else (more, put c (record f { val = val }))

-- The switch on one character.
unfoldable pub format_char : ℕ → Format → Done × Format
format_char c f =
    if c == b'c' || c == b's'
    then (done, put c f)
    else if is_conversion c
    then (done, put c (put b'l' f))
    else if c == b'#' || c == b' '
    then (more, put c f)
    else if c == b'.'
    then if f.dot
      then (wrong, record (put c f) { val = 0 })
      else (more, record (put c f) { dot = true; width = f.val; val = 0 })
    else if c == b':'
    then (more, record f { minus = true })
    else if c == b'-'
    then if f.minus then (more, put c f) else (done, f)
    else if is_digit b'0' b'9' c
    then digit c f
    else (done, f)

-- Where the loop stops: the character it stands at, the rest of the string, `done` and the variables.
pub record Stop : Type 0 where
  pub at : ℕ
  pub rest : List ℕ
  pub how : Done
  pub format : Format

abbrev pub stop : ℕ → List ℕ → Done × Format → Stop
stop c str r = record { at = c; rest = str; how = r.0; format = r.1 }

abbrev pub is_more : Done → Bool
is_more more = true
is_more _ = false

-- while (done == 0 && (size_t)(fp - fmt) < sizeof(fmt)); no value: a read past the end.
unfoldable pub format_loop : ℕ → Format → List ℕ → Option Stop
unfolding format_char
format_loop c f [] =
    if leb 64 (length f.fmt)
    then some (stop c [] (more, f))
    else let r = format_char c f in if is_more r.0 then none else some (stop c [] r)
format_loop c f (d ∷ str) =
    let r = format_char c f in
    let rest = format_loop d r.1 str in
    if leb 64 (length f.fmt)
    then some (stop c (d ∷ str) (more, f))
    else if is_more r.0
    then rest
    else some (stop c (d ∷ str) r)

abbrev pub start : Format
start = record { fmt = b'%' ∷ []; dot = false; minus = false; width = 0; val = 0 }

-- `fmt` without its NUL, and `olen`. No value: the NUL is written past the end of `fmt`.
pub record Spec : Type 0 where
  pub fmt : List ℕ
  pub olen : ℕ

unfoldable pub spec : Stop → Option Spec
spec s =
    let f = s.format in
    let whole : Spec = record {
      fmt = f.fmt;
      olen = max (if f.dot then f.width else f.val) (if f.dot then f.val else 0);
    } in
    elim s.how [
      | wrong ↦ some (record { fmt = b'%' ∷ []; olen = 0 })
      | _ ↦ if leb 64 (length f.fmt) then none else some whole
    ]
