-- ===== src/Tests/Run.antt =====
-- Memory, exceptions and instructions on a machine without devices.
use s_qlux.Base.{◌==◌, ◌+◌, if◌then◌else◌}
use s_qlux.Machine.{Cpu}
use s_qlux.Base.{◌≡◌, inl, refl, arith, true}
use s_qlux.Word.{long}
use s_qlux.Status.{get_sr}
use s_qlux.Memory.{read_size, write_size}
use s_qlux.Memory.Ram.{read_size-write_size}
use s_qlux.Memory.Guard.{write_size-rom}
use s_qlux.Exceptions.{push_frame}
use s_qlux.Instr.Flow.{branch_entry}
use s_qlux.Instr.Flow.Branches.{branch_by_displacement, branch_entry_lem}
use s_qlux.Tests.{no_bus, no_flags, machine, IsRam-at}

read_size-write_size_example :
    (read_size ⦃bus = no_bus⦄ long 0x2A000
      (write_size ⦃bus = no_bus⦄ long 0x2A000 0x12345678 (machine 0)).1).0
    ≡ 0x12345678
read_size-write_size_example =
    read_size-write_size ⦃bus = no_bus⦄ long (machine 0) 0x2A000 0x12345678
      (IsRam-at 0x2A000 (omega arith) (omega arith)) refl (omega arith)

-- A handler that changed the flags, the mask, the program counter, a register and other memory
abbrev handled : Cpu (Unit {0})
handled =
    let framed = (push_frame ⦃bus = no_bus⦄ get_sr (machine 0)).1 in
    record (machine 0) {
      reg = λ n. if n == 15 then 0x2FFFA else n + 7;
      mem = λ a. if a == 0x2A000 then 9 else framed.mem a;
      pc = 0x400;
      ccr = record no_flags { carry = true; xflag = true };
      i_mask = 5;
      trace = true;
    }

write_size-rom_example : (write_size ⦃bus = no_bus⦄ long 0x4000 77 (machine 0)).1 ≡ machine 0
write_size-rom_example =
    write_size-rom ⦃bus = no_bus⦄ long (machine 0) 0x4000 77 (omega arith) (inl (omega arith)) refl

-- BEQ with a displacement of 4.
branch_entry_lem_example :
    branch_entry ⦃bus = no_bus⦄ (machine 0x6704) ≡ branch_by_displacement (machine 0x6704)
branch_entry_lem_example = branch_entry_lem ⦃bus = no_bus⦄ (machine 0x6704) (omega arith)
