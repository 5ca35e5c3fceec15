-- ===== src/Ipc.antt =====
-- The plain link with the 8049, without its firmware (`ipc_exec`, `ipc_write` and the read of
-- $18020; general.c).
pub mod Command
use s_qlux.Base.{
  ℕ, ◌+◌, ◌-◌, ◌*◌, ◌/◌, ◌^◌, bit_and, bit_or, ◌==◌, if◌then◌else◌, Bool, true, false,
}
use s_qlux.Word.{test}
use s_qlux.Machine.{IpcLink}

-- The state that the initialisers of the variables give.
abbrev pub ipc_start : IpcLink
ipc_start = record { wait = true; rcvd = 1; previous = 0x10; ret = 0; count = 0; read = 0 }

-- Command 8 goes on into the case of command 13.
unfoldable pub ipc_exec : ℕ → IpcLink → IpcLink
ipc_exec command l =
    let l' =
      if command == 0x01
      then record l { ret = 0; count = 8 }
      else if command == 0x08
      then record l { ret = 0x1039; count = 16; wait = true }
      else if command == 0x0d
      then record l { wait = true }
      else if command == 0x10
      then l
      else record l { ret = 0; count = 4 } in
    record l' { previous = command }

-- `ipc_write`. A bit of a command comes while `wait` is set, and a bit of the answer is fetched
-- while it is not. `count` is positive there (`Ipc.Command`), so `count - 1` does not wrap.
unfoldable pub ipc_write : ℕ → IpcLink → IpcLink
ipc_write d l =
    if l.wait
    then (if bit_and d 0x0c == 0x0c
        then (let rcvd = bit_or (l.rcvd * 2) (if d == 0x0c then 0 else 1) in
            if test rcvd 0x10
            then ipc_exec (bit_and rcvd 0x0f) (record l { rcvd = 1; wait = false })
            else record l { rcvd = rcvd })
        else l)
    else (let count = l.count - 1 in
        let read = if test l.ret (2 ^ count) then 0x80 else 0 in
        record l {
          count = count;
          read = bit_or (read * 2 ^ 8) 0xa50000;
          wait = if count == 0 then true else l.wait;
        })

-- A read of $18020 while an answer is there.
unfoldable pub ipc_fetch : IpcLink → ℕ × IpcLink
ipc_fetch l =
    let read = l.read / 2 ^ 8 in
    (bit_and l.read 0xff, record l { read = if read == 0xa5 then 0 else read })
