-- ===== src/Base/Bits.antt =====
-- Laws of `^` and `&` on native numbers, each from an equation for the lowest digit.
mod Digits
pub mod Xor
pub mod And
pub mod Or
