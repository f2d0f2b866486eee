-- ===== src/Text.antt =====
-- The part of C's formatted output and input that the connection message uses: the conversions
-- `%0Nx`, `%Nlx`, `%x`, `%lx` and `%s` of sprintf and sscanf, over texts that are lists of bytes.
pub mod Digits
pub mod Scan
pub mod RoundTrip
