-- ===== src/Instr/Flow/Frames.antt =====
-- The frame of an exception on the stack, as it is pushed and while a handler leaves it alone.
use s_qlux.Base.{ℕ, ◌+◌, ◌%◌, ◌^◌, ◌<◌, ◌≡◌, refl, arith, ap, subst}
use s_qlux.Word.{word, long, cut, sub32, add32}
use s_qlux.Machine.{Cpu, update}
use s_qlux.Device.{Bus}
use s_qlux.Status.{get_sr}
use s_qlux.Status.RoundTrip.{sr_of-Fits}
use s_qlux.Memory.{peek_long, poke_long, poke_word, peek_word, write_long}
use s_qlux.Memory.Ram.{IsRam, poke-peek_word}
use s_qlux.Memory.Stack.{write_size-shape}
use s_qlux.Exceptions.{push_frame}

-- The program counter under the status word on the stack.
pub peek-frame :
    (mem : ℕ → ℕ) (a p v : ℕ)
    → p < 2 ^ 32
    → peek_long (poke_word (poke_long mem (a + 2) p) a v) (a + 2) ≡ p
unfolding peek_word peek_long poke_word poke_long
peek-frame mem a p v h = ground arith

pub frame_kept :
    (m m' : ℕ → ℕ) (a : ℕ)
    → ((i : ℕ) → i < 6 → m' (a + i) ≡ m (a + i))
    → (peek_word m' a ≡ peek_word m a) × (peek_long m' (a + 2) ≡ peek_long m (a + 2))
unfolding peek_word peek_long
frame_kept m m' a kept =
    let e0 : m' a ≡ m a = subst (λ x. m' x ≡ m x) (omega arith) (kept 0 (omega arith)) in
    let e3 : m' (a + 2 + 1) ≡ m (a + 2 + 1) =
      subst (λ x. m' x ≡ m x) (omega arith) (kept 3 (omega arith)) in
    let e4 : m' (a + 2 + 2) ≡ m (a + 2 + 2) =
      subst (λ x. m' x ≡ m x) (omega arith) (kept 4 (omega arith)) in
    let e5 : m' (a + 2 + 2 + 1) ≡ m (a + 2 + 2 + 1) =
      subst (λ x. m' x ≡ m x) (omega arith) (kept 5 (omega arith)) in
    rw (e0, kept 1 (omega arith), kept 2 (omega arith), e3, e4, e5) (refl, refl)

module _ {D : Type 0} ⦃bus : Bus D⦄ where
  pub moved-IsRam :
      (c : Cpu D) (reg mem : ℕ → ℕ) (dev : D) (a : ℕ)
      → IsRam c a
      → IsRam (record c { reg = reg; mem = mem; dev = dev }) a
  moved-IsRam c reg mem dev a h = ground arith

  -- The memory, the stack pointer and the devices after the frame of an exception.
  pub push_frame-shape :
      (c : Cpu D) (a : ℕ)
      → c.reg 15 ≡ a + 6
      → a + 6 < 2 ^ 32
      → a % 2 ≡ 0
      → IsRam c a
      → IsRam c (a + 2)
      → c.pc < 2 ^ 24
      → let d = (push_frame get_sr c).1.dev in
        (push_frame get_sr c).1 ≡ record c {
          reg = update c.reg 15 a;
          mem = poke_word (poke_long c.mem (a + 2) c.pc) a (get_sr c);
          dev = d;
        }
  unfolding push_frame get_sr
  push_frame-shape c a h1 h2 even r1 r2 small =
      let e0 : sub32 (a + 6) 6 ≡ a = omega arith in
      let b2 : add32 a 2 ≡ a + 2 = omega arith in
      let p : cut long c.pc ≡ c.pc = omega arith in
      let c1 = record c { reg = update c.reg 15 a } in
      let ram2 = moved-IsRam c c1.reg c.mem c.dev (a + 2) r2 in
      let d = (write_long (a + 2) c.pc c1).1.dev in
      let c2 = record c1 { mem = poke_long c.mem (a + 2) c.pc; dev = d } in
      let ram = moved-IsRam c c2.reg c2.mem d a r1 in
      rw
        (
          h1,
          e0,
          b2,
          p,
          write_size-shape long c1 (a + 2) c.pc ram2 (omega arith),
          write_size-shape word c2 a (get_sr c) ram even,
        )
        refl

  -- The stack after the frame of an exception, which has the status word and the program counter.
  pub frame_words :
      (c : Cpu D) (a : ℕ)
      → c.reg 15 ≡ a + 6
      → a + 6 < 2 ^ 32
      → a % 2 ≡ 0
      → IsRam c a
      → IsRam c (a + 2)
      → c.pc < 2 ^ 24
      → let m = (push_frame get_sr c).1.mem in
        (peek_word m a ≡ get_sr c) × (peek_long m (a + 2) ≡ c.pc)
  unfolding get_sr
  frame_words c a h1 h2 even r1 r2 small =
      let mem : (push_frame get_sr c).1.mem
          ≡ poke_word (poke_long c.mem (a + 2) c.pc) a (get_sr c) =
        ap (λ x. x.mem) (push_frame-shape c a h1 h2 even r1 r2 small) in
      rw mem (
        poke-peek_word (poke_long c.mem (a + 2) c.pc) a (get_sr c)
            (sr_of-Fits c.i_mask c.trace c.supervisor c.ccr),
        peek-frame c.mem a c.pc (get_sr c) (omega arith),
      )
