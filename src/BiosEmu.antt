-- ===== src/BiosEmu.antt =====
-- The arithmetic of the BIOS emulator in src/arch/x86/bios_emu/ops/: the flags and the conditions of
-- jumps (conditions.c), the operations of alu.c on operands of 8, 16 and 32 bits, and the bit tests
-- (bt.c).
pub mod Flags
pub mod Conditions
pub mod Alu
pub mod Shift
pub mod Multiply
pub mod Parity
pub mod Compare
pub mod Add
pub mod Product
pub mod Rotate
pub mod Wide
pub mod BitTest
mod Tests
