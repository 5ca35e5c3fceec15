-- ===== src/Tests/Cards.antt =====
-- The low level 8049, the QSound card, the block device and the character sets at concrete states.
use s_qlux.Base.{false, ◌==◌}
use s_qlux.Base.{ℕ, ◌+◌, ◌-◌, ◌*◌, ◌%◌, ◌^◌, ◌<◌, ltb, leb, ◌&&◌, if◌then◌else◌}
use s_qlux.Base.{◌≡◌, refl, arith, none, some, [], ◌∷◌, ◌++◌, true, false}
use s_qlux.Mcs48.Start.{init}
use s_qlux.Lle.{Key, Wires, p2_in, movx_wr, load_comdata, status}
use s_qlux.Lle.Keys.{ipc_lle_key, key_apply}
use s_qlux.Lle.Queue.{IsQueue, pending, queued, ipc_lle_key-queued}
use s_qlux.Lle.Due.{IsSettled, key_apply-IsSettled}
use s_qlux.Lle.Link.{link_transaction}
use s_qlux.Lle.Pins.{pins}
use s_qlux.Lle.Clock.{Ipc, run_until}
use s_qlux.Lle.Clock.Catchup.{IsCaughtUp, run_until-IsCaughtUp}
use s_qlux.Qsound.{Qsound, Tone, read_byte, write_byte}
use s_qlux.Qsound.Voice.{shift_seed, channel_a, channel_b, channel_c}
use s_qlux.Qsound.Mapped.{HasCard, read_byte-write_word}
use s_qlux.Memory
use s_qlux.Memory.{write_word}
use s_qlux.Machine.{Cpu}
use s_qlux.Device.{Bus}
use s_qlux.Tests.{still_bus, machine_with}
use s_qlux.Qsound.Noise.{shift_seed-live}
use s_qlux.Qsound.Level.{IsLevel, poke, play, handle_all, HasLevel, channels-HasLevel}
use s_qlux.Bdi.{Files, Bdi, file_of}
use s_qlux.Bdi.Upload.{IsOpen}
use s_qlux.Bdi.Sector.{IsStored, write_then_read, write_then_read_lem}
use s_qlux.Charset.{Tables, init_iso, iso2ql_mem, ql2iso_mem}
use s_qlux.Charset.RoundTrip.{is_lost, iso2ql_mem-ql2iso_mem}

abbrev key_a : Key
key_a = record { code = 12; pressed = true; host_ms = 5 }

-- Two changes wait at the end of the ring.
abbrev idle_wires : Wires
idle_wires = record {
  comdata_reg = 15;
  ipc_busy = 0;
  comdata_to_cpu = 1;
  ipl_lines = 3;
  speaker = 0;
  speaker_last_edge = 0;
  trace_notes = 0;
  baud = 9600;
  keyq = λ i. key_a;
  keyq_wr = 1;
  keyq_rd = 127;
  matrix = λ i. 0;
  key_next = 0;
  key_down_at = λ i. 0;
  last_down_at = 0;
  ref_host_ms = 0;
  ref_units = 0;
  ref_valid = true;
  frame_units = 3300000;
  calls = [];
}

idle-IsQueue : IsQueue idle_wires
idle-IsQueue = record { read_in = omega arith; write_in = omega arith }

ipc_lle_key-queued_example :
    (queued (ipc_lle_key 7 44 false idle_wires)
      ≡ queued idle_wires ++ (record { code = 44; pressed = false; host_ms = 7 } ∷ []))
    × IsQueue (ipc_lle_key 7 44 false idle_wires)
unfolding pending
ipc_lle_key-queued_example = ipc_lle_key-queued idle_wires 7 44 false idle-IsQueue

key_apply-IsSettled_example :
    IsSettled 5000000 (key_apply 5000000 idle_wires) × IsQueue (key_apply 5000000 idle_wires)
key_apply-IsSettled_example = key_apply-IsSettled 5000000 idle_wires idle-IsQueue

link_transaction_example :
    let w0 = load_comdata 14 idle_wires in
    let w1 = movx_wr 0xff w0 in
    let w2 = movx_wr 0x7f w1 in
    (p2_in w0 ≡ 1) × (p2_in w1 ≡ 129) × (status w0 ≡ 192) × (status w1 ≡ 64) × (status w2 ≡ 0)
link_transaction_example = link_transaction 14 0xff 0x7f idle_wires

-- A processor with a ROM of NOPs
abbrev idle_ipc : Ipc
idle_ipc = record {
  active = true;
  core = init ⦃io = pins 0 0 0⦄ (λ i. 0) 2048 idle_wires;
  units = 0;
  frame_start_cycles = 0;
  frame_start_units = 0;
  frame_len_cycles = 150000;
  frame_host_start = 0;
  trace_level = 0;
  trace_bits = 0;
  trace_units0 = 0;
  trace_host0 = 0;
  decoder = record { state = 0; cmd = 0; stage = 0; need = 4; have = 0; acc = 0; param = λ i. 0 };
  prev_sent = none;
}

run_until-IsCaughtUp_example :
    (s' : Ipc) × ((run_until 1000 idle_ipc ≡ some s') × IsCaughtUp 1000 s')
run_until-IsCaughtUp_example = run_until-IsCaughtUp 1000 idle_ipc (omega arith) (omega arith)

abbrev still : Tone
still = record { cnt = 0; bit = false }

abbrev card : Qsound
card = record {
  enabled = true;
  regs = λ i. if ltb i 7 then 1 else 0x10;
  ay_addr = 0;
  port_a = 0;
  port_b = 0;
  tone_a = still;
  tone_b = still;
  tone_c = still;
  cnt_n = 0;
  seed = 1;
  bit_n = true;
  div_n = false;
  cnt_e = 0;
  env_step = 0;
  env_vol = 15;
  env_holding = false;
}

abbrev card_bus : Bus Qsound
card_bus = record still_bus {
  qsound_read_byte = λ a q. (read_byte a q, q);
  qsound_write_byte = write_byte;
}

abbrev card_at_hand : HasCard card_bus
card_at_hand = record { card = λ q. q; reads = λ _ _. refl; writes = λ _ _ _. refl }

abbrev qsound_machine : Cpu Qsound
qsound_machine = record (machine_with card 0) { qsound_mapped = true }

read_byte-write_word_example :
    let c' = (write_word ⦃bus = card_bus⦄ 0xC3000 (13 * 2 ^ 8 + 9) qsound_machine).1 in
    ((Memory.read_byte ⦃bus = card_bus⦄ 0xC3001 c').0 ≡ 9)
    × ((Memory.read_byte ⦃bus = card_bus⦄ 0xC2000
          (Memory.write_byte ⦃bus = card_bus⦄ 0xC2002 1 c').1).0
        ≡ 9)
read_byte-write_word_example =
    read_byte-write_word ⦃bus = card_bus⦄ card_at_hand 13 9 qsound_machine refl refl (omega arith)
      (omega arith)

shift_seed-live_example : (shift_seed 1 < 2 ^ 17) × (0 < shift_seed 1)
shift_seed-live_example = shift_seed-live 1 (omega arith)

card-IsLevel : IsLevel card
unfolding IsLevel
card-IsLevel = omega arith

channels-HasLevel_example :
    let s = handle_all (poke 0xC3000 13 ∷ (poke 0xC3001 8 ∷ (play 40 ∷ []))) card in
    HasLevel (channel_a s) × HasLevel (channel_b s) × HasLevel (channel_c s)
channels-HasLevel_example =
    channels-HasLevel (poke 0xC3000 13 ∷ (poke 0xC3001 8 ∷ (play 40 ∷ []))) card card-IsLevel

-- One file: the position and the bytes
abbrev disk : Files (ℕ × (ℕ → ℕ))
disk = record {
  has_path = true;
  open_image = λ f. (some 3, f);
  close = λ h f. f;
  seek = λ h o f. (o, f.1);
  read = λ h old f. ((λ i. if ltb i 512 then f.1 (f.0 + i) else old i), (f.0 + 512, f.1));
  write =
      λ h buf f. (f.0 + 512, λ a. if leb f.0 a && ltb a (f.0 + 512) then buf (a - f.0) else f.1 a);
  size = λ h f. 1048576;
}

disk-IsStored : IsStored disk
unfolding IsStored
disk-IsStored h o i f buf old small =
    let place : o + i - o ≡ i = omega arith in rw place (ground arith)

abbrev drive : Bdi (ℕ × (ℕ → ℕ))
drive = record {
  files = λ i. 3;
  address = 2;
  ctr = 7;
  unit = 1;
  buffer = λ i. 0;
  host = (0, λ a. 0);
}

drive-IsOpen : IsOpen ⦃io = disk⦄ 3 drive
unfolding file_of
drive-IsOpen = record { file = refl; handle = refl }

write_then_read_lem_example : write_then_read ⦃io = disk⦄ (λ i. i % 256) 300 drive ≡ some 44
write_then_read_lem_example =
    write_then_read_lem ⦃io = disk⦄ disk-IsStored 3 drive (λ i. i % 256) 300 drive-IsOpen
      (omega arith)

abbrev empty_tables : Tables
empty_tables = record { i2q = λ c. 0; q2i = λ c. 0 }

iso2ql_mem-ql2iso_mem_example :
    (iso2ql_mem (init_iso empty_tables) 50 (ql2iso_mem (init_iso empty_tables) 50 (λ i. i + 128)) 43
      == 171)
    ≡ false
unfolding is_lost
iso2ql_mem-ql2iso_mem_example =
    iso2ql_mem-ql2iso_mem empty_tables 50 (λ i. i + 128) (λ k lt. omega arith) 43
