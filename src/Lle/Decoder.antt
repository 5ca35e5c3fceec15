-- ===== src/Lle/Decoder.antt =====
-- The decoder of the traffic on the link for the hardware trace (ipc.c): `pr_expect` to `pr_feed`.
-- Its reports are left out.
use s_qlux.Base.{ℕ, ◌+◌, ◌*◌, ◌/◌, ◌%◌, ◌^◌, ◌≤◌, ◌<◌, bit_and, bit_or, ltb, ◌==◌}
use s_qlux.Base.{if◌then◌else◌, Bool, true, false, ◌&&◌, ◌||◌, ◌≡◌, arith, Bool-cases, inl, inr}
use s_qlux.Machine.{update}

-- The state is 0 for an order, 1 for its parameters and 2 for its answer.
pub record Decoder : Type 0 where
  pub state : ℕ
  pub cmd : ℕ
  pub stage : ℕ
  pub need : ℕ
  pub have : ℕ
  pub acc : ℕ
  pub param : ℕ → ℕ

unfoldable pub pr_expect : ℕ → ℕ → Decoder → Decoder
pr_expect state bits d = record d {
  state = if bits == 0 then 0 else state;
  need = if bits == 0 then 4 else bits;
  have = 0;
  acc = 0;
}

-- The switch of `pr_order`
unfoldable pub order_of : ℕ → Decoder → Decoder
unfolding pr_expect
order_of cmd =
    if cmd == 1 || (cmd == 6 || cmd == 7)
    then pr_expect 2 8
    else if cmd == 8
    then pr_expect 2 4
    else if cmd == 9
    then pr_expect 1 4
    else if cmd == 10
    then pr_expect 1 64
    else if cmd == 11
    then pr_expect 0 0
    else if cmd == 12 || cmd == 13
    then pr_expect 1 4
    else if cmd == 14
    then pr_expect 2 16
    else if cmd == 15
    then pr_expect 1 8
    else pr_expect 0 0

unfoldable pub pr_order : Decoder → Decoder
unfolding order_of
pr_order d = order_of d.acc (record d { cmd = d.acc; stage = 0 })

unfoldable pub pr_done : Decoder → Decoder
unfolding pr_expect
pr_done d =
    if d.state == 1
    then (if d.cmd == 10
          then pr_expect 0 0
          else if d.cmd == 9 || d.cmd == 15
          then pr_expect 2 8
          else pr_expect 0 0)
        d
    else if d.cmd == 8 && (d.stage == 0)
    then pr_expect 2 (bit_and d.acc 7 * 12) (record d { stage = 1 })
    else if (d.cmd == 6 || d.cmd == 7) && (d.stage == 0)
    then pr_expect 2 (bit_and d.acc 0xff * 8) (record d { stage = 1 })
    else pr_expect 0 0 d

-- The bits of the parameters of a sound order, into their bytes
unfoldable pub put_param : ℕ → Decoder → Decoder
put_param bit d =
    let k = d.have / 2 ^ 3 in
    let v = if bit_and d.have 7 == 0 then bit else bit_or (d.param k * 2) bit in
    if (d.state == 1) && ((d.cmd == 10) && ltb d.have 64)
    then record d { param = update d.param k (v % 2 ^ 8) }
    else d

-- `pr_acc = (pr_acc << 1) | bit; ++pr_have`
unfoldable pub collect : ℕ → Decoder → Decoder
unfolding put_param
collect bit d = record (put_param bit d) {
  acc = bit_or (d.acc * 2 % 2 ^ 32) bit;
  have = d.have + 1;
}

unfoldable pub pr_feed : ℕ → ℕ → Decoder → Decoder
unfolding collect pr_order pr_done
pr_feed sent received d =
    let d' = collect (if d.state == 2 then received else sent) d in
    if ltb d'.have d'.need then d' else if d'.state == 0 then pr_order d' else pr_done d'

-- A phase is known, and it waits for one bit at least.
unfoldable pub IsWaiting : Decoder → Type 0
IsWaiting d = (d.state ≤ 2) × (d.have < d.need)

expect-IsWaiting : (state bits : ℕ) (d : Decoder) → state ≤ 2 → IsWaiting (pr_expect state bits d)
unfolding pr_expect IsWaiting
expect-IsWaiting state bits d h = (ground arith, ground arith)

expect_order : (bits : ℕ) (d : Decoder) → IsWaiting (pr_expect 0 bits d)
expect_order bits d = expect-IsWaiting 0 bits d (omega arith)

expect_parameters : (bits : ℕ) (d : Decoder) → IsWaiting (pr_expect 1 bits d)
expect_parameters bits d = expect-IsWaiting 1 bits d (omega arith)

expect_answer : (bits : ℕ) (d : Decoder) → IsWaiting (pr_expect 2 bits d)
expect_answer bits d = expect-IsWaiting 2 bits d (omega arith)

if-IsWaiting :
    (b : Bool) (f g : Decoder → Decoder) (d : Decoder)
    → IsWaiting (f d)
    → IsWaiting (g d)
    → IsWaiting ((if b then f else g) d)
if-IsWaiting true f g d h k = h
if-IsWaiting false f g d h k = k

order_of-IsWaiting : (cmd : ℕ) (d : Decoder) → IsWaiting (order_of cmd d)
unfolding order_of
order_of-IsWaiting cmd d =
    search (if-IsWaiting, expect_order, expect_parameters, expect_answer) depth 40

choose-IsWaiting :
    (b : Bool) (d e : Decoder) → IsWaiting d → IsWaiting e → IsWaiting (if b then d else e)
choose-IsWaiting true d e h k = h
choose-IsWaiting false d e h k = k

pr_done-IsWaiting : (d : Decoder) → IsWaiting (pr_done d)
unfolding pr_done
pr_done-IsWaiting d = search (choose-IsWaiting, if-IsWaiting, expect_order, expect_answer) depth 40

put_param-kept :
    (bit : ℕ) (d : Decoder) → (put_param bit d).state ≡ d.state × ((put_param bit d).need ≡ d.need)
unfolding put_param
put_param-kept bit d = (ground arith, ground arith)

-- After every bit of the link the decoder is in a known phase and waits for one bit at least.
pub pr_feed-IsWaiting :
    (sent received : ℕ) (d : Decoder) → IsWaiting d → IsWaiting (pr_feed sent received d)
unfolding pr_feed collect pr_order IsWaiting
pr_feed-IsWaiting sent received d h =
    let b = if d.state == 2 then received else sent in
    let d' = collect b d in
    let kept = put_param-kept b d in
    elim (Bool-cases (ltb d'.have d'.need)) [
      | inl more ↦ rw more (omega arith, ground arith)
      | inr full ↦ rw full (
          choose-IsWaiting (d'.state == 0) (pr_order d') (pr_done d') (order_of-IsWaiting d'.acc _)
            (pr_done-IsWaiting d'))
    ]
