-- ===== src/Terminfo.antt =====
-- lib/libterminfo: terminal descriptions. Only the expansion of their strings is modelled.
pub mod Bytes
pub mod Tbuf
pub mod Compile
pub mod Read
pub mod Tputs
pub mod Tparm
mod Tests
mod DescriptionTests
mod PadTests
