-- ===== src/Utils.antt =====
-- utils/string.c and include/utils/math.h: strings and rounding.
pub mod Strings
pub mod Compared
pub mod Rounding
