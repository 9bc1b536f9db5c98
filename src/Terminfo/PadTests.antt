-- ===== src/Terminfo/PadTests.antt =====
-- Strings sent by lib/libterminfo/tputs.c at small inputs.
use netbsd_curses.Base.{
  ◌+◌, ◌*◌, ◌/◌, ◌≤◌, ◌<◌, ◌≡◌, refl, if◌then◌else◌, true, false, none, some, List, [], ◌∷◌, ◌++◌,
  arith,
}
use netbsd_curses.Base.Int.{pos}
use netbsd_curses.Terminfo.Tputs.{pads, outputdelay, is_digit, puts, Sender, needs_delay, ti_puts}
use netbsd_curses.Terminfo.Tputs.Delays.{
  Delay, no_mark, no_digit, and_digit, amount, IsDelay, write, Stops, pads_nearest,
}
use netbsd_curses.Terminfo.Tputs.Pieces.{
  Piece, plain, delay, emit, AllPieces, no_piece, and_plain, and_delay, render, puts-render,
  characters, end_pieces, plain_piece, optional_piece, ti_puts-characters,
}

-- 5, mandatory; 2 in front.
abbrev five : Delay
five = record { whole = b'5' ∷ []; tenths = none; mark = no_mark }

abbrev two : Delay
two = record { whole = b'2' ∷ []; tenths = none; mark = no_mark }

-- x$<5>y
abbrev pieces : List Piece
pieces = plain b'x' ∷ delay five ∷ plain b'y' ∷ []

five-IsDelay : IsDelay five
unfolding is_digit
five-IsDelay = (and_digit b'5' [] refl no_digit, omega arith)

two-IsDelay : IsDelay two
unfolding is_digit
two-IsDelay = (and_digit b'2' [] refl no_digit, omega arith)

pieces-AllPieces : AllPieces pieces
pieces-AllPieces =
    and_plain b'x' _ refl
      (and_delay five _ five-IsDelay (omega arith) (and_plain b'y' [] refl no_piece))

pieces-Stops : Stops (emit pieces)
unfolding is_digit
pieces-Stops = (refl, refl, refl, refl)

puts-render_example :
    puts true (pos 9) 0 (write two (emit pieces)) 1
    ≡ some (
        render true (pos 9) 0 1 pieces
        ++ (if true then outputdelay (amount 1 two) (pos 9) 0 else []))
puts-render_example =
    puts-render true (pos 9) 0 1 two pieces two-IsDelay pieces-Stops pieces-AllPieces

pads_nearest_example : (pads 50 83 * 83 ≤ 50 + 83 / 2) × (50 + 83 / 2 < pads 50 83 * 83 + 83)
pads_nearest_example = pads_nearest 50 83 (omega arith) (omega arith)

abbrev with_flow_control : Sender
with_flow_control = record {
  is_bell = false;
  is_flash = false;
  xon_xoff = true;
  padding_baud_rate = pos 9600;
  pad_char = none;
  ospeed = pos 9;
}

no_delay : needs_delay with_flow_control ≡ false
unfolding needs_delay
no_delay = refl

ti_puts-characters_example :
    ti_puts with_flow_control (some (write two (emit pieces))) 1 ≡ some (characters pieces)
ti_puts-characters_example =
    ti_puts-characters with_flow_control 1 two pieces no_delay two-IsDelay pieces-Stops
      pieces-AllPieces
      (plain_piece b'x' _ (optional_piece five _ refl (plain_piece b'y' [] end_pieces)))
