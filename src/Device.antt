-- ===== src/Device.antt =====
-- What the machine asks of its devices: the microdrives (mdv.c), the 8049 (ipc.c), the clock
-- (unixstuff.c), the QSound card (qsound.c), the block device (sqlux_bdi.c), the ZX8301
-- (zx8301.c) and the screen (SDL2screen.c). `D` is their state, and a client takes a `Bus D`.
use s_qlux.Base.{ℕ, Bool, List}

-- The calls that a device makes back into general.c.
pub data Signal : Type 0 where
  -- ql_trigger_gap_interrupt
  gap : Signal
  -- ql_set_ipc_ipl
  ipl : ℕ → Signal

pub record Bus (D : Type 0) : Type 0 where
  pub qsound_read_byte : ℕ → D → ℕ × D
  pub qsound_write_byte : ℕ → ℕ → D → D
  -- `zx_contention`, `zx8301_ram` and `QLSDLScreenWrite` behind its range test
  pub zx_contention : D → Bool
  pub zx_ram : ℕ → Bool → D → D
  pub screen_write : ℕ → ℕ → D → D
  pub set_display : ℕ → D → D
  -- `GetDateTime` and `prep_rtc_emu`
  pub get_date_time : D → ℕ × D
  pub prep_rtc_emu : D → D
  -- Each call answers with the calls back that it made, in their order.
  pub mdv_sync : D → List Signal × D
  pub mdv_read_status : D → ℕ × D
  pub mdv_read_int : D → ℕ × D
  pub mdv_read_data : D → ℕ × D
  pub mdv_write_control : ℕ → D → D
  pub mdv_write_int : ℕ → D → D
  pub ipc_lle_active : D → Bool
  pub ipc_lle_set_baud : ℕ → D → D
  pub ipc_lle_write_comdata : ℕ → D → List Signal × D
  pub ipc_lle_status : D → (List Signal × ℕ) × D
  pub bdi_select : ℕ → D → D
  pub bdi_command : ℕ → D → D
  pub bdi_data_write : ℕ → D → D
  pub bdi_address_high : ℕ → D → D
  pub bdi_address_low : ℕ → D → D
  pub bdi_status : D → ℕ × D
  pub bdi_data_read : D → ℕ × D
  pub bdi_size_high : D → ℕ × D
  pub bdi_size_low : D → ℕ × D
  -- `clock_gettime`, as the nanoseconds since the start of the clock
  pub clock_ns : D → ℕ × D
