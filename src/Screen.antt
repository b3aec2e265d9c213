-- ===== src/Screen.antt =====
-- utils/screen.c: the text screen and formatted output.
pub mod Format
pub mod Digits
pub mod Numeral
pub mod Cursor
pub mod Printing
