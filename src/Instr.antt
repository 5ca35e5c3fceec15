-- ===== src/Instr.antt =====
-- The instructions (instructions_ao.c and instructions_pz.c), by group. A function of the model
-- that takes a `Size` stands for the functions `_b`, `_w` and `_l` of the source.
pub mod Arith
pub mod Compare
pub mod Logic
pub mod Bit
pub mod Bcd
pub mod MulDiv
pub mod Move
pub mod Multiple
pub mod Shift
pub mod ShiftOps
pub mod RotateX
pub mod Flow
pub mod Registers
