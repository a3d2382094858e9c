-- ===== src/Bits.antt =====
-- Facts on the digits of `&`, `|`, shifts and masks, at every width.
mod Step
mod Digit
pub use Digit.*
