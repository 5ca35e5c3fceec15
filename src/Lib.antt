-- ===== src/Lib.antt =====
-- sQLux, an emulator of the Sinclair QL: the 68008 processor, its memory and the registers of the
-- machine.
--
-- The processor runs instructions from a table (Init.c) on global variables (iexl_general.c). An
-- instruction (instructions_ao.c, instructions_pz.c) fetches its operands by the addressing modes
-- (mmodes.c) or as an operand that is read and written back (memaccess.c), works out a result and
-- its flags, and goes to memory by memaccess.c, which sends the addresses of the internal I/O to
-- general.c. An address error, a trap or an interrupt leaves its number in `exception` or
-- `pendingInterrupt`, and the processor takes it between instructions (ExceptionProcessing).
--
-- Machine is the state: one record with the globals, and a state monad whose actions are the
-- functions of the source. The functions of each file are here:
--   Word        QL68000.h: integers of 8, 16 and 32 bits as numbers below a power of two
--   Status      cond.h and GetSR
--   Memory      memaccess.c: ReadByte to WriteLong, address_error
--   Modify      memaccess.c: ModifyAtEA and RewriteEA
--   Hardware    general.c: ReadHWByte, WriteHWByte and the words and longs of the I/O
--   Interrupts  general.c: ql_update_ipl, ql_irq_accepted, FrameInt, WriteInt
--   Ipc         general.c: ipc_exec and ipc_write, the link with the 8049 without its firmware
--   Ea          mmodes.c
--   Exceptions  iexl_general.c: ProcessInterrupts, PutSR, SetPC, SetPCX, ExceptionProcessing
--   Alu         the flag formulas that the instructions repeat
--   Instr       instructions_ao.c and instructions_pz.c, by group, and the branches of Init.c
--   Dispatch    Init.c: SetTable and the calls of it in SetTabEntries, which make the table (Full)
--   Run         iexl_general.c: ExecuteLoop, ExecuteChunk, InitialSetup
--   Cycles      cycles68k.c: the clock cycles of every opcode (Lines, Line4, Table) and the part
--               that depends on the registers (Dynamic)
--   Zx          zx8301.c: the place of the beam and the wait states of the RAM
--   Mdv         mdv.c: the tape of a microdrive, and its registers (Registers)
--   Mcs48       mcs48.c: the 8049 microcontroller
--   Lle         ipc.c: the ports of the 8049, its link with the ZX8302, the keyboard (Keys), the
--               trace of the link (Decoder), the clock (Clock) and the firmware (Firmware)
--   Qsound      qsound.c: the registers of the QSound card, its sound generators (Voice) and
--               its place in the address space (Mapped)
--   Bdi         sqlux_bdi.c: the block device
--   Disk        QDisk.c: QDOS media in files, with their first sector and the sectors of the file;
--               the sectors in memory (Cache), the map of a QXL.WIN medium (Map) and that of a floppy
--               disk (Floppy), and the sectors, headers, reads and writes of files (Files),
--               the traps for bytes and the file pointer (Io); Chains and Coherence say what
--               maps and buffers stand for
--   Charset     QL_cconv.c: the character sets of the host and of the QL
-- Base and Bits are what they share, and Tests tries the theorems on a small machine. Each of Zx,
-- Mdv, Mcs48, Lle, Qsound, Bdi and Disk has a record of the variables of its file; State is the
-- monad of Mcs48.
--
-- Functions that the source writes for bytes, words and longs are one definition over a size.
-- Device.Bus is what the machine asks of the microdrives, the 8049, the clock, QSound, the block
-- device, the ZX8301 and the screen: a parameter, of which nothing is assumed but in Qsound.Mapped,
-- where `HasCard` says that the QSound card of the bus is the one of Qsound. A signed value is the
-- number with its bits, and arithmetic that wraps is written with `%`. The program counter, a host
-- pointer in the source, is its offset from `memBase` on 64 bits. Run.Host is what the loop asks of
-- the clocks, the beam and the screen, Dispatch.Traps the traps of QLtraps.c, and Bdi.Files and
-- Disk.DiskFile the files of the host; Disk.Coherence assumes of the latter, in `IsReliable`, that a
-- file gives back what was written.
--
-- Loops that count are recursion on the count. Others have a number of rounds in their place:
-- `zx_wait` has a speed and a chunk, which Zx.Wait shows enough at the speed of a QL; `popcount16`
-- has 16 (Cycles.Ones); `key_apply` has two for each place of its queue (Lle.Due); `run_until` has
-- the machine cycles of a second and two more (Lle.Clock.Catchup), because an instruction of the
-- 8049 takes one or two (Mcs48.Length); and `ExecuteLoop` has a fuel, which has to cover the
-- instructions of the frame and how often it enters itself again after exceptions. A chain of
-- clusters has 65536 rounds, more than there are clusters (Disk.Chains), and a read or a write of a file
-- as many as it has bytes (Disk.Files). Tables of decimal operands, of rotates and of status words are
-- checked by running the definitions on every value there is.
--
-- Not modelled: what is in floating point, which is the signal of the speaker in ipc.c and the
-- rate, the filters and the mix in qsound.c; firmware in the HEX format, and the reports of the
-- traces; the traps of QLtraps.c; `tra_conv`; the reading of cartridge files; how media are opened,
-- their directories, new files, reads of a line and the other traps of their files; and the host side:
-- host directories, serial lines, network, screen, sound and start-up, which are mostly calls of
-- libraries.
pub mod Base
pub mod Bits
pub mod Word
pub mod Machine
pub mod Device
pub mod Status
pub mod Interrupts
pub mod Ipc
pub mod Hardware
pub mod Memory
pub mod Ea
pub mod Modify
pub mod Alu
pub mod Exceptions
pub mod Instr
pub mod State
pub mod Zx
pub mod Mcs48
pub mod Dispatch
pub mod Run
pub mod Lle
pub mod Qsound
pub mod Bdi
pub mod Disk
pub mod Charset
pub mod Cycles
pub mod Mdv
mod Tests
