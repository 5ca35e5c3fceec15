-- ===== src/Lle/Queue.antt =====
-- The ring of key changes (ipc.c) as a queue: what is in it, in order, and how it grows.
use s_qlux.Base.{ℕ, zero, suc, ◌+◌, ◌-◌, ◌%◌, ◌<◌, ltb, ◌==◌, if◌then◌else◌, Bool}
use s_qlux.Base.{List, [], ◌∷◌, ◌++◌, ◌≡◌, refl, arith, ap, subst, bit_and, ◌∙◌}
use s_qlux.Base.{Bool-cases, inl, inr, ==_refl, ==_false, not}
use s_qlux.Bits.{bit_and_mask}
use s_qlux.Lle.{Key, Wires}
use s_qlux.Lle.Keys.{next_slot, ipc_lle_key}

-- Both indices are inside the ring.
pub record IsQueue (w : Wires) : Type 0 where
  pub read_in : w.keyq_rd < 128
  pub write_in : w.keyq_wr < 128

unfoldable pub pending : Wires → ℕ
pending w = (w.keyq_wr + 128 - w.keyq_rd) % 128

-- `n` elements of the ring from `i` on
unfoldable slots : (ℕ → Key) → ℕ → ℕ → List Key
slots q zero i = []
slots q (suc n) i = q (i % 128) ∷ slots q n (i + 1)

-- The changes that wait, the oldest first
unfoldable pub queued : Wires → List Key
unfolding slots pending
queued w = slots w.keyq (pending w) w.keyq_rd

pub next_slot_mod : (i : ℕ) → next_slot i ≡ (i + 1) % 128
next_slot_mod i = bit_and_mask 7 (i + 1)

add_zero : (i : ℕ) → i + 0 ≡ i
add_zero i = omega arith

add_suc : (i n : ℕ) → i + suc n ≡ i + 1 + n
add_suc i n = omega arith

-- A slot outside the range does not matter.
slots-snoc :
    (q q' : ℕ → Key) (n i : ℕ)
    → ((j : ℕ) → j < n → q' ((i + j) % 128) ≡ q ((i + j) % 128))
    → slots q' (suc n) i ≡ slots q n i ++ (q' ((i + n) % 128) ∷ [])
unfolding slots
slots-snoc q q' zero i same = rw (add_zero i) refl
slots-snoc q q' (suc n) i same =
    let head : q' (i % 128) ≡ q (i % 128) =
      subst (λ k. q' (k % 128) ≡ q (k % 128)) (add_zero i) (same 0 (omega arith)) in
    let rest : (j : ℕ) → j < n → q' ((i + 1 + j) % 128) ≡ q ((i + 1 + j) % 128) =
      λ j lt. subst (λ k. q' (k % 128) ≡ q (k % 128)) (add_suc i j) (same (suc j) (omega arith)) in
    rw (head, add_suc i n) (ap (λ l. q (i % 128) ∷ l) (slots-snoc q q' n (i + 1) rest))

-- The ring with one more element
module _ (w : Wires) (key : Key) (h : IsQueue w) (room : pending w < 127) where
  pushed : Wires
  pushed = record w {
    keyq = λ i. if i == w.keyq_wr then key else w.keyq i;
    keyq_wr = next_slot w.keyq_wr;
  }

  pushed-queued : queued pushed ≡ queued w ++ (key ∷ [])
  unfolding queued pushed
  pushed-queued =
      let n = (w.keyq_wr + 128 - w.keyq_rd) % 128 in
      let at : (w.keyq_rd + n) % 128 ≡ w.keyq_wr = ground arith in
      let more : ((w.keyq_wr + 1) % 128 + 128 - w.keyq_rd) % 128 ≡ suc n = ground arith in
      let q : ℕ → Key = λ i. if i == w.keyq_wr then key else w.keyq i in
      let same : (j : ℕ) → j < n → q ((w.keyq_rd + j) % 128) ≡ w.keyq ((w.keyq_rd + j) % 128) =
        λ j lt. rw (==_false ((w.keyq_rd + j) % 128) w.keyq_wr (λ e. omega arith)) refl in
      let last : q ((w.keyq_rd + n) % 128) ≡ key = rw (at, ==_refl w.keyq_wr) refl in
      rw (next_slot_mod w.keyq_wr, more)
        (slots-snoc w.keyq q n w.keyq_rd same ∙ ap (λ k. slots w.keyq n w.keyq_rd ++ (k ∷ [])) last)

  pushed-IsQueue : IsQueue pushed
  unfolding pushed
  pushed-IsQueue = record {
    read_in = h.read_in;
    write_in = rw (next_slot_mod w.keyq_wr) (omega arith);
  }

-- The queue is full when 127 changes wait.
full : (w : Wires) → IsQueue w → (next_slot w.keyq_wr == w.keyq_rd) ≡ not (ltb (pending w) 127)
unfolding pending
full w h = rw (next_slot_mod w.keyq_wr) (ground arith)

-- A change goes to the end of the queue, and is dropped when 127 wait already; the queue stays
-- inside the ring.
pub ipc_lle_key-queued :
    (w : Wires) (ms code : ℕ) (pressed : Bool)
    → IsQueue w
    → (queued (ipc_lle_key ms code pressed w) ≡ (
        if ltb (pending w) 127
        then queued w ++ (record { code = bit_and code 0x3f; pressed = pressed; host_ms = ms } ∷ [])
        else queued w))
      × IsQueue (ipc_lle_key ms code pressed w)
unfolding ipc_lle_key pushed
ipc_lle_key-queued w ms code pressed h =
    let key : Key = record { code = bit_and code 0x3f; pressed = pressed; host_ms = ms } in
    elim (Bool-cases (ltb (pending w) 127)) [
      | inl room ↦
          (let lt : pending w < 127 = ground arith in
            rw (full w h, room) (pushed-queued w key h lt, pushed-IsQueue w key h lt))
      | inr no_room ↦ rw (full w h, no_room) (refl, h)
    ]
