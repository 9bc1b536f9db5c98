-- ===== src/Terminfo/Tparm/Run.antt =====
-- _ti_tiparm of lib/libterminfo/tparm.c as a whole.
use netbsd_curses.Base.{
  ℕ, zero, suc, ◌-◌, ◌==◌, if◌then◌else◌, Bool, false, Option, none, some, List, [], ◌∷◌, ◌++◌,
  length, replicate,
}
use netbsd_curses.Terminfo.Tparm.{Value, number, Buffer, ochar}
use netbsd_curses.Terminfo.Tparm.Analyse.{Scan, analyse}
use netbsd_curses.Terminfo.Tparm.Format.{format_loop, start, Stop, Spec, spec}
use netbsd_curses.Terminfo.Tparm.Machine.{Libc, State, Turn, go, null, fault, with_buffer, command}

abbrev pub literal : Libc → ℕ → State → Turn
literal libc c s = with_buffer s (ochar libc.room c s.buffer)

abbrev pub perform : Libc → State → ℕ → List ℕ → Option Spec → Turn
perform libc s c str none = fault
perform libc s c str (some f) = command libc c f (record s { str = str })

abbrev pub formatted : Libc → State → Option Stop → Turn
formatted libc s none = fault
formatted libc s (some e) = perform libc s e.at e.rest (spec e)

-- A round of the loop, behind a `%`.
unfoldable pub escape : Libc → State → List ℕ → Turn
unfolding command format_loop spec ochar
escape libc s [] = fault
escape libc s (d ∷ str) =
    if d == b'%'
    then literal libc d (record s { str = str })
    else formatted libc s (format_loop d start str)

-- A round of the loop with the character `c`, which is not NUL, before `str`.
unfoldable pub turn : Libc → ℕ → List ℕ → State → Turn
unfolding escape ochar
turn libc c str s = if c == b'%' then escape libc s str else literal libc c (record s { str = str })

-- `expanded` returns the buffer. `stuck` is no result of the program: the fuel has run out.
pub data Result : Type 0 where
  expanded : State → Result
  failed faulted stuck : Result

unfoldable pub run : ℕ → Libc → State → Result
unfolding turn
run zero libc s = stuck
run (suc f) libc s = elim s.str [
  | [] ↦ faulted
  | c ∷ str ↦
      if c == 0
      then expanded s
      else elim (turn libc c str s) [ go s' ↦ run f libc s' | null ↦ failed | fault ↦ faulted ]
]

-- va_arg in turn for the first `n` parameters: a string where `piss` says so, else a number.
unfoldable pub take_args : ℕ → List Bool → List Value → List Value
take_args zero piss args = []
take_args (suc n) piss [] = []
take_args (suc n) [] args = []
take_args (suc n) (p ∷ piss) (a ∷ args) =
    (if p then record { num = 0; string = a.string } else number a.num) ∷ take_args n piss args

abbrev pub scan_start : Scan
scan_start = record { nparm = 0; lpop = none; piss = replicate 9 false }

-- `_bufpos = 0`, and a first buffer of BUFINC characters if there is none.
unfoldable pub first_buffer : Libc → ℕ → Option Buffer
first_buffer libc buflen =
    if buflen == 0
    then (if libc.room 128 then some (record { text = []; size = 128 }) else none)
    else some (record { text = []; size = buflen })

-- `str` is not NULL and ends with its NUL, `term` is not NULL. `dnums` is what the array of that
-- name holds before it is written.
unfoldable pub tiparm : Libc → ℕ → List ℕ → List ℕ → List ℕ → List Value → Result
unfolding run take_args first_buffer analyse
tiparm libc buflen snums dnums str args = elim (first_buffer libc buflen) [
  | none ↦ failed
  | some b ↦ elim (analyse scan_start str) [
    | none ↦ faulted
    | some scan ↦ run (suc (length str)) libc (record {
      str = str;
      stack = [];
      params = take_args scan.nparm scan.piss args ++ replicate (9 - scan.nparm) (number 0);
      piss = scan.piss;
      dnums = dnums;
      snums = snums;
      buffer = b;
    })
  ]
]
