-- ===== src/Ipc/Command.antt =====
-- The serial protocol of the plain link with the 8049 (general.c).
use s_qlux.Base.{ℕ, ◌+◌, ◌*◌, ◌^◌, ◌<◌, ◌≡◌, arith, bit_and, bit_or}
use s_qlux.Base.{◌==◌, if◌then◌else◌, Bool, true, false, to_ℕ, ◌⊎◌, inl, inr, Bool-cases}
use s_qlux.Bits.{bit_and_mask}
use s_qlux.Word.{test}
use s_qlux.Machine.{IpcLink}
use s_qlux.Ipc.{ipc_exec, ipc_write, ipc_fetch}

-- Either the link takes a command, or there is a bit left to fetch.
abbrev pub IsLive : IpcLink → Type 0
IsLive l = (l.wait ≡ true) ⊎ (0 < l.count)

ipc_exec-IsLive : (command : ℕ) (l : IpcLink) → command < 0x10 → IsLive (ipc_exec command l)
unfolding ipc_exec
ipc_exec-IsLive command l h = ground arith

-- A write to the link, of any byte, keeps this: the link takes a command, or there is a bit left
-- to fetch. So the number of bits never goes below 0.
pub ipc_write-IsLive : (d : ℕ) (l : IpcLink) → IsLive l → IsLive (ipc_write d l)
unfolding ipc_write
ipc_write-IsLive d l h = elim (Bool-cases l.wait) [
  | inl w ↦
      (let rcvd = bit_or (l.rcvd * 2) (if d == 0x0c then 0 else 1) in
        ground (
          arith,
          bit_and_mask 4 rcvd,
          ipc_exec-IsLive (bit_and rcvd 0x0f) (record l { rcvd = 1; wait = false }),
        ))
  | inr w ↦ ground arith
]

-- The byte that sends one bit of a command.
abbrev pub command_bit : Bool → ℕ
command_bit b = if b then 0x0e else 0x0c

-- Four bits sent to a link that takes a command, the highest first, run that command once.
pub ipc_write-command :
    (l : IpcLink) (b3 b2 b1 b0 : Bool)
    → l.wait ≡ true
    → l.rcvd ≡ 1
    → ipc_write
        (command_bit b0)
        (ipc_write (command_bit b1) (ipc_write (command_bit b2) (ipc_write (command_bit b3) l)))
      ≡ ipc_exec
          (8 * to_ℕ b3 + 4 * to_ℕ b2 + 2 * to_ℕ b1 + to_ℕ b0)
          (record l { rcvd = 1; wait = false })
unfolding ipc_write
ipc_write-command l b3 b2 b1 b0 w r = ground arith

-- While an answer of `n + 1` bits goes out, a write fetches bit `n`: of the two reads after it the
-- first gives 0, the second has the bit at the top, and then nothing is left to read.
pub ipc_fetch-answer :
    (d n : ℕ) (l : IpcLink)
    → l.wait ≡ false
    → l.count ≡ n + 1
    → let l' = ipc_write d l in
      let first = ipc_fetch l' in
      let second = ipc_fetch first.1 in
      (l'.count ≡ n)
      × (first.0 ≡ 0)
      × (second.0 ≡ (if test l.ret (2 ^ n) then 0x80 else 0))
      × (second.1.read ≡ 0)
unfolding ipc_write ipc_fetch
ipc_fetch-answer d n l w h = ground arith
