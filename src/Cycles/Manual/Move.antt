-- ===== src/Cycles/Manual/Move.antt =====
-- MOVE and MOVEA against the tables 8-2 and 8-3 of the manuals.
use s_qlux.Base.{ℕ, ◌+◌, ◌/◌, ◌^◌, ◌≤◌, ◌<◌, ◌≡◌, refl, ◌∙◌, ap, arith, ◌==◌, if◌then◌else◌}
use s_qlux.Base.{Bool, true, false, not, ◌&&◌, ◌||◌, Bool-cases, inl, inr}
use s_qlux.Cycles.{Model, Mode, Acc, sz_b, same, acc_cycles, acc_make, ea_read, ea_of}
use s_qlux.Cycles.{ea_decode, ea_is_data_alt, bits_at, set, set_illegal, acc_exception}
use s_qlux.Cycles.Model.{mc68000, mc68008}
use s_qlux.Cycles.Kind.{k_none}
use s_qlux.Cycles.Mode.{dn, an, ai, pi, pd, d16, d8x, aw, al, pc16, pc8x, imm, bad}
use s_qlux.Cycles.Lines.{move_is_illegal, move_to, line_move}
use s_qlux.Cycles.Manual.{ea_time, ea_time-le, ea_read-ea_time, each_mode}

-- The time of the destination: that of the mode, but -(An) costs what (An) does.
abbrev pub destination_time : Model → Mode → ℕ → ℕ
destination_time cpu pd sz = ea_time cpu ai sz
destination_time cpu m sz = ea_time cpu m sz

-- The fetch of the opcode, and an exception that is no interrupt.
abbrev pub fetch_time : Model → ℕ
fetch_time mc68000 = 4
fetch_time mc68008 = 8

abbrev pub exception_time : Model → ℕ
exception_time mc68000 = 34
exception_time mc68008 = 62

-- The operands that a MOVE of this size has.
abbrev pub source_exists : Mode → ℕ → Bool
source_exists an sz = not (sz == sz_b)
source_exists bad sz = false
source_exists m sz = true

abbrev pub destination_exists : Mode → ℕ → Bool
destination_exists an sz = not (sz == sz_b)
destination_exists pc16 sz = false
destination_exists pc8x sz = false
destination_exists imm sz = false
destination_exists bad sz = false
destination_exists m sz = true

source_exists-same :
    (sz : ℕ) (src : Mode) → same src bad || (same src an && sz == sz_b) ≡ not (source_exists src sz)
source_exists-same sz =
    each_mode (λ src. same src bad || (same src an && sz == sz_b) ≡ not (source_exists src sz))
      (ground arith) (ground arith) (ground arith) (ground arith) (ground arith) (ground arith)
      (ground arith) (ground arith) (ground arith) (ground arith) (ground arith) (ground arith)
      (ground arith)

destination_exists-same :
    (sz : ℕ) (dst : Mode)
    → not (ea_is_data_alt dst || same dst an) || (same dst an && sz == sz_b)
      ≡ not (destination_exists dst sz)
unfolding ea_is_data_alt
destination_exists-same sz =
    each_mode
      (λ dst.
        not (ea_is_data_alt dst || same dst an) || (same dst an && sz == sz_b)
        ≡ not (destination_exists dst sz))
      (ground arith) (ground arith) (ground arith) (ground arith) (ground arith) (ground arith)
      (ground arith) (ground arith) (ground arith) (ground arith) (ground arith) (ground arith)
      (ground arith)

move_is_illegal-exists :
    (src dst : Mode) (sz : ℕ)
    → move_is_illegal src dst sz ≡ not (source_exists src sz && destination_exists dst sz)
unfolding move_is_illegal
move_is_illegal-exists src dst sz =
    rw (source_exists-same sz src, destination_exists-same sz dst) (ground arith)

move_to-destination_time :
    (cpu : Model) (a : Acc) (sz : ℕ)
    → sz ≤ 2
    → (dst : Mode) → destination_exists dst sz ≡ true
    → acc_cycles cpu (move_to a dst sz) ≡ acc_cycles cpu a + destination_time cpu dst sz
unfolding move_to acc_cycles ea_time
move_to-destination_time mc68000 a sz le =
    each_mode
      (λ dst.
        destination_exists dst sz ≡ true
        → acc_cycles mc68000 (move_to a dst sz)
          ≡ acc_cycles mc68000 a + destination_time mc68000 dst sz)
      (λ h. ground arith) (λ h. ground arith) (λ h. ground arith) (λ h. ground arith)
      (λ h. ground arith) (λ h. ground arith) (λ h. ground arith) (λ h. ground arith)
      (λ h. ground arith) (λ h. ground arith) (λ h. ground arith) (λ h. ground arith)
      (λ h. ground arith)
move_to-destination_time mc68008 a sz le =
    each_mode
      (λ dst.
        destination_exists dst sz ≡ true
        → acc_cycles mc68008 (move_to a dst sz)
          ≡ acc_cycles mc68008 a + destination_time mc68008 dst sz)
      (λ h. ground arith) (λ h. ground arith) (λ h. ground arith) (λ h. ground arith)
      (λ h. ground arith) (λ h. ground arith) (λ h. ground arith) (λ h. ground arith)
      (λ h. ground arith) (λ h. ground arith) (λ h. ground arith) (λ h. ground arith)
      (λ h. ground arith)

set-cycles :
    (cpu : Model) (a : Acc) (n : ℕ)
    → acc_cycles cpu a ≡ n
    → n < 2 ^ 16
    → (set cpu a k_none).cycles ≡ n
unfolding set
set-cycles cpu a n e h = rw e (omega arith)

set_illegal-exception_time : (cpu : Model) → (set_illegal cpu).cycles ≡ exception_time cpu
unfolding set_illegal acc_exception acc_cycles
set_illegal-exception_time mc68000 = refl
set_illegal-exception_time mc68008 = refl

acc_make-fetch_time : (cpu : Model) → acc_cycles cpu (acc_make 0 1) ≡ fetch_time cpu
unfolding acc_make acc_cycles
acc_make-fetch_time mc68000 = refl
acc_make-fetch_time mc68008 = refl

destination_time-le : (cpu : Model) (sz : ℕ) (dst : Mode) → destination_time cpu dst sz ≤ 32
destination_time-le cpu sz =
    each_mode (λ dst. destination_time cpu dst sz ≤ 32) (ea_time-le cpu sz dn)
      (ea_time-le cpu sz an) (ea_time-le cpu sz ai) (ea_time-le cpu sz pi) (ea_time-le cpu sz ai)
      (ea_time-le cpu sz d16) (ea_time-le cpu sz d8x) (ea_time-le cpu sz aw) (ea_time-le cpu sz al)
      (ea_time-le cpu sz pc16) (ea_time-le cpu sz pc8x) (ea_time-le cpu sz imm)
      (ea_time-le cpu sz bad)

fetch_time-le : (cpu : Model) → fetch_time cpu ≤ 8
fetch_time-le mc68000 = omega arith
fetch_time-le mc68008 = omega arith

-- The size of a MOVE by the line of its opcode.
abbrev pub move_size : ℕ → ℕ
move_size op = if op / 2 ^ 12 == 1 then 0 else if op / 2 ^ 12 == 3 then 1 else 2

-- On both CPUs every opcode of the lines 1 to 3 costs what the manual says: the fetch, the times of
-- the source and of the destination where MOVE has such operands, and an exception where not.
pub line_move-manual :
    (cpu : Model) (op : ℕ)
    → let sz = move_size op in
      let src = ea_of op in
      let dst = ea_decode (bits_at op 6 3) (bits_at op 9 3) in
      (line_move cpu op).cycles ≡ (
        if source_exists src sz && destination_exists dst sz
        then fetch_time cpu + ea_time cpu src sz + destination_time cpu dst sz
        else exception_time cpu)
unfolding line_move
line_move-manual cpu op =
    let sz = move_size op in
    let src = ea_of op in
    let dst = ea_decode (bits_at op 6 3) (bits_at op 9 3) in
    let le : sz ≤ 2 = ground arith in
    let a = ea_read (acc_make 0 1) src sz in
    let wrong = move_is_illegal-exists src dst sz in
    elim (Bool-cases (source_exists src sz && destination_exists dst sz)) [
      | inl exists ↦
          let d : destination_exists dst sz ≡ true = ground arith in
          let n = fetch_time cpu + ea_time cpu src sz + destination_time cpu dst sz in
          let e : acc_cycles cpu (move_to a dst sz) ≡ n =
            move_to-destination_time cpu a sz le dst d
            ∙ ap (λ t. t + destination_time cpu dst sz)
                (ea_read-ea_time cpu (acc_make 0 1) sz le src
                  ∙ ap (λ t. t + ea_time cpu src sz) (acc_make-fetch_time cpu)) in
          let f = fetch_time-le cpu in
          let t = ea_time-le cpu sz src in
          let u = destination_time-le cpu sz dst in
          let small : n < 2 ^ 16 = omega arith in
          rw (wrong, exists) (set-cycles cpu (move_to a dst sz) n e small)
      | inr missing ↦ rw (wrong, missing) (set_illegal-exception_time cpu)
    ]
