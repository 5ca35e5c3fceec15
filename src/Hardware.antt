-- ===== src/Hardware.antt =====
-- The registers of the ZX8301, the ZX8302 and the block device (general.c). The counters of `HW_TRACE` and the debug output are left out.
use s_qlux.Base.{ℕ, zero, suc, ◌+◌, ◌-◌, ◌*◌, ◌/◌, ◌^◌, bit_and, bit_or, ◌==◌, if◌then◌else◌}
use s_qlux.Word.{Size, byte, word, long, modulus, cut, test, is_neg}
use s_qlux.Machine.{M, Act, ◌>>=◌, ◌>>◌, pure, skip, gets, modify, when}
use s_qlux.Device.{Bus}
use s_qlux.Interrupts.{signals, write_int}
use s_qlux.Ipc.{ipc_write, ipc_fetch}

-- `x >> k` of a signed value.
abbrev pub asr : Size → ℕ → ℕ → ℕ
asr s x k = x / 2 ^ k + (if is_neg s x then modulus s - modulus s / 2 ^ k else 0)

-- `while (addr++ < 0x18003) t >>= 8;` with the rounds left.
abbrev pub clock_shift : ℕ → ℕ → ℕ
clock_shift zero t = t
clock_shift (suc n) t = clock_shift n (asr long t 8)

module _ {D : Type 0} ⦃bus : Bus D⦄ where
  -- A call of a device that leaves the machine alone, and one that answers.
  abbrev pub tell : (D → D) → Act D
  tell f = modify (λ c. record c { dev = f c.dev })

  abbrev pub ask : {A : Type 0} → (D → A × D) → M D A
  ask f c = let (a, d) = f c.dev in (a, record c { dev = d })

  abbrev pub mdv_sync : Act D
  mdv_sync = do calls ← ask bus.mdv_sync; signals calls

  unfoldable pub read_rt_clock : ℕ → M D ℕ
  read_rt_clock addr = do
    t ← ask bus.get_date_time
    tell bus.prep_rtc_emu
    pure (cut byte (clock_shift (0x18003 - addr) t))

  -- The display control register: mode, screen base and blanking.
  unfoldable pub write_display : ℕ → Act D
  write_display d = do
    modify (λ c.
        let lo = if test d 0x80 then 0x28000 else 0x20000 in
        record c {
          display_mode = if test d 8 then 8 else 4;
          qm_lo = lo;
          qm_hi = lo + c.qm_len;
          display_blank = test d 0x02;
        })
    tell (bus.set_display d)

  unfoldable pub write_comdata : ℕ → Act D
  write_comdata d c =
      if bus.ipc_lle_active c.dev
      then (do calls ← ask (bus.ipc_lle_write_comdata d); signals calls) c
      else modify (λ c'. record c' { ipc = ipc_write d c'.ipc }) c

  unfoldable pub write_hw_byte : ℕ → ℕ → Act D
  unfolding write_display write_comdata
  write_hw_byte addr d =
      if addr == 0x018063
      then write_display d
      else if addr == 0x018000
      then skip
      else if addr == 0x018001
      then skip
      else if addr == 0x018002
      then (λ c. when (bus.ipc_lle_active c.dev) (tell (bus.ipc_lle_set_baud d)) c)
      else if addr == 0x018003
      then write_comdata d
      else if addr == 0x018020
      then (do mdv_sync; tell (bus.mdv_write_control d))
      else if addr == 0x018021
      then (do mdv_sync; tell (bus.mdv_write_int d); modify (write_int d))
      else if addr == 0x018100
      then tell (bus.bdi_select d)
      else if addr == 0x018101
      then tell (bus.bdi_command d)
      else if addr == 0x018103
      then tell (bus.bdi_data_write d)
      else skip

  -- The status of the microdrives and of the 8049. The source does not order the two calls of
  -- its sum; here the microdrives answer first.
  unfoldable pub read_status : M D ℕ
  read_status c =
      if bus.ipc_lle_active c.dev
      then (do
        mdv_sync
        s ← ask bus.mdv_read_status
        answer ← ask bus.ipc_lle_status
        signals answer.0
        pure (bit_or (bit_and s 0x3f) answer.1))
          c
      else if c.ipc.read == 0
      then (do mdv_sync; ask bus.mdv_read_status) c
      else (let (n, l) = ipc_fetch c.ipc in (n, record c { ipc = l }))

  unfoldable pub read_int : M D ℕ
  read_int = do mdv_sync; n ← ask bus.mdv_read_int; m ← gets (λ c. c.the_int); pure (bit_or n m)

  -- The first byte of the nanosecond counter takes the time for all four.
  unfoldable pub read_nanotime : M D ℕ
  read_nanotime = do
    ns ← ask bus.clock_ns
    modify (λ c. record c { nanotime = bit_and (ns / 25) 0xFFFFFFFF })
    gets (λ c. c.nanotime)

  -- `ReadHWByte`, as the byte that its callers see.
  unfoldable pub read_hw_byte : ℕ → M D ℕ
  unfolding read_rt_clock read_status read_int read_nanotime
  read_hw_byte addr =
      if addr == 0x018000
      then read_rt_clock addr
      else if addr == 0x018001
      then read_rt_clock addr
      else if addr == 0x018002
      then read_rt_clock addr
      else if addr == 0x018003
      then read_rt_clock addr
      else if addr == 0x018020
      then read_status
      else if addr == 0x018021
      then read_int
      else if addr == 0x018022
      then (do mdv_sync; ask bus.mdv_read_data)
      else if addr == 0x018023
      then (do mdv_sync; ask bus.mdv_read_data)
      else if addr == 0x018102
      then ask bus.bdi_status
      else if addr == 0x018103
      then ask bus.bdi_data_read
      else if addr == 0x01C060
      then (do n ← read_nanotime; pure (bit_and n 0xFF000000 / 2 ^ 24))
      else if addr == 0x01C061
      then gets (λ c. bit_and c.nanotime 0x00FF0000 / 2 ^ 16)
      else if addr == 0x01C062
      then gets (λ c. bit_and c.nanotime 0x0000FF00 / 2 ^ 8)
      else if addr == 0x01C063
      then gets (λ c. bit_and c.nanotime 0xFF)
      else pure 0

  unfoldable pub read_hw_word : ℕ → M D ℕ
  read_hw_word addr =
      if addr == 0x018108
      then ask bus.bdi_size_high
      else if addr == 0x01810A
      then ask bus.bdi_size_low
      else (do
        hi ← read_hw_byte addr
        lo ← read_hw_byte (addr + 1)
        pure (bit_or (cut word (hi * 2 ^ 8)) lo))
