-- ===== src/Lib.antt =====
-- A verification library for the curses of NetBSD: its panels, its menus, and its terminal
-- descriptions, from their text to the strings that are sent.
--
-- libpanel gives curses windows a Z-order, libmenu lays out and drives menus in curses windows, and
-- libterminfo expands the strings of terminal descriptions, which libcurses sends. The three do not
-- call one another; what libpanel and libmenu call of libcurses, and libterminfo of the C library,
-- is a parameter of the models.
--
-- Panel (lib/libpanel). The deck, a TAILQ of panel_impl.h, is the list of its linked panels from
--   bottom to top; a panel is an address, and its fields are functions of the address. Each of the
--   files above.c, below.c, bottom.c, del.c, hidden.c, hide.c, move.c, new.c, replace.c, show.c,
--   top.c, update.c, window.c and the two for the user pointer is a function of Panel.antt by the
--   name of its C function; loops over the deck are recursion on the list. `Curses` holds what is
--   called of libcurses, over a state of all windows. Panel/Calls has the calls of a client as data
--   and their step; a result without a value is an insertion at a panel that is not linked.
--   Panel/Invariant and Panel/Preserve are about the representation, Panel/Zorder, Panel/Refine and
--   Panel/Reach about the stack of visible panels that clients see, Panel/Neighbours about walks in
--   it, Panel/Updates about a log of the calls of libcurses.
-- Menu (lib/libmenu/internals.c, driver.c, menu.h). The pointers among the items are positions in
--   the menu's array. Menu/Layout has _menui_stitch_items, _menui_calc_neighbours and
--   _menui_max_item_size; Menu/Match has _menui_match_items and _menui_match_pattern; Menu/Draw has
--   _menui_draw_item, _menui_draw_menu, _menui_redraw_menu and _menui_goto_item; Menu/Driver has
--   menu_driver, with a function for each case of its switch. Menu/Layout/Stitch,
--   Menu/Driver/Stitched and Menu/Driver/Window follow a menu from its layout to its requests.
--   Numbers that the code keeps non-negative are natural numbers, and a subtraction that could
--   fall below 0 is tested first.
--   The loop of a search runs on fuel, which the theorems take above the number of items, and that of
--   drawing down to the top row on one more than there are items, which is enough where it moves on.
--   A call has no value where the code does not end, divides by 0, or leaves an array. Draw/Ends and
--   Driver/Total say when there is a value. The application's hooks are functions on the menu; the characters written to the window are not modelled. Menu/Setup has
--   set_menu_opts and set_top_row of lib/libmenu/menu.c.
-- Terminfo/Tparm (lib/libterminfo/tparm.c). A C string is the list of its characters with the NUL,
--   a long is its pattern of 64 bits. Tparm.antt has the operators, push, pop, checkbuf and ochar;
--   Tparm/Analyse has _ti_parm_analyse; Tparm/Format, Tparm/Machine and Tparm/Run have _ti_tiparm:
--   its formatting loop, its commands (those that read on in the string use Tparm/Machine/Cursor)
--   and the loop around them. snprintf and realloc are parameters
--   (`Libc`). A read past the string and a write past an array are results of their own (`fault`).
--   The loop runs on one unit of fuel more than the string has characters, which is enough, since
--   every round takes at least one. Tparm/Expr and Tparm/Template are an independent reading of the
--   strings: expressions and templates as trees, how they are written, and what they stand for.
-- Terminfo/Bytes, Terminfo/Tbuf and Terminfo/Compile (lib/libterminfo/compile.c, term_private.h). A
--   pointer into bytes is the list of the bytes that are left, a TBUF the bytes written with its
--   size and its number of entries, a C string the list of its characters. `Answer` says how a call
--   ends: with a result, with a value that says it failed, outside a buffer, or at an assertion.
--   Terminfo/Bytes has the numbers and their encodings, Terminfo/Tbuf the buffers (_ti_grow_tbuf, the
--   _ti_encode_buf functions, _ti_find_cap, _ti_find_extra), Terminfo/Compile _ti_getname and
--   _ti_store_extra; Compile/Escapes has encode_string, Compile/Tokens _ti_get_token,
--   Compile/Promote _ti_promote, Compile/Flatten _ti_flatten, Compile/Caps the body of the loop of
--   _ti_compile and Compile/Description the rest of it. `Host` has what is called: whether there is
--   memory, strtol, and the indices of names, from tables that a script generates. The loops over
--   the characters of a string and over the tokens are on fuel, as many units as there are
--   characters or one more; every round takes at least one. Tbuf/Entries and Compile/Describes say
--   which capabilities a buffer stands for; Compile/Keeps has the invariant, and Compile/Stores,
--   Compile/Promoted, Compile/Widens, Compile/Steps, Compile/Kept and Compile/Whole follow it through
--   the compiler; Compile/Names, Compile/NewNames and Compile/Promotes say when _ti_promote succeeds.
-- Terminfo/Read (lib/libterminfo/term.c) has _ti_readterm and _ti_checkname. Read/Flat, Read/Values,
--   Read/Records and Read/Elements are about a record that the compiler has laid out.
-- Terminfo/Tputs (lib/libterminfo/tputs.c) has the whole file; what is given to outc is a list of
--   characters. Tputs/Delays and Tputs/Pieces are an independent reading of the strings.
-- Curses/Touch (lib/libcurses/touchwin.c) has the lines of windows that are marked as changed. The
--   range of changed columns of a line, which sub-windows share with the windows they are part of,
--   has an address; a read outside the array of lines has no result.
-- Form/Word (lib/libform/type_alnum.c, type_alpha.c) has the check of a field that holds a word; the
--   class of characters is a parameter, and so is the memory. Form/Integer (lib/libform/
--   type_integer.c) has the check of an integer, with atol and the format of snprintf; its digits run
--   on fuel of 20, which is enough for a long of 64 bits.
-- Base has the helpers that all parts share.
--
-- Not modelled: the rest of libcurses and of libform, which are for later; the other functions
-- of libmenu, which attach, post, set and get; of libterminfo the files of the database, warnings,
-- and the termcap names; the programs, the tests and compat.
pub mod Base
pub mod Curses
pub mod Form
pub mod Panel
pub mod Menu
pub mod Terminfo
