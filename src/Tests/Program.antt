-- ===== src/Tests/Program.antt =====
-- The instruction table on a machine without devices.
use s_qlux.Base.{◌≡◌, arith, none}
use s_qlux.Machine.{Act, skip}
use s_qlux.Dispatch.{Traps, Table}
use s_qlux.Dispatch.Full.{decode, all_rows, set_tab_entries, before, set_tab_entries-decode}
use s_qlux.Tests.{no_bus}

abbrev no_traps : Traps (Unit {0})
no_traps = record { trap1 = skip; trap2 = skip; trap3 = skip }

abbrev blank : Table (Act (Unit {0}))
blank k = none

set_tab_entries-decode_example :
    set_tab_entries ⦃bus = no_bus⦄ no_traps blank 0x4E71
    ≡ decode (all_rows ⦃bus = no_bus⦄ no_traps) 0x4E71 (before ⦃bus = no_bus⦄ blank 0x4E71)
set_tab_entries-decode_example =
    set_tab_entries-decode ⦃bus = no_bus⦄ no_traps blank 0x4E71 (omega arith)
