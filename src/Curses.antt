-- ===== src/Curses.antt =====
-- lib/libcurses: the lines of windows that are to be drawn again.
pub mod Touch
mod Tests
