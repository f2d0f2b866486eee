-- ===== src/Bench/Regions.antt =====
-- The blocks of the threads in the memory.
use nvm_rdma_examples.Prelude.{
  ℕ, zero, suc, ◌+◌, ◌*◌, ◌/◌, ◌%◌, ◌^◌, ◌≤◌, ◌<◌, false, [], ◌∷◌, ◌++◌, some, ◌≡◌, ◌≢◌, refl, ap,
  ltb, ltb→lt, ◌∙◌, arith, length, length-append, ◌==◌, Bool-cases, inl, inr,
}
use nvm_rdma_examples.Text.Digits.{Bytes}
use nvm_rdma_examples.Verbs.Types.{Qp}
use nvm_rdma_examples.Verbs.Interface.{Verbs}
use nvm_rdma_examples.Sockets.{Sockets}
use nvm_rdma_examples.Os.{Os}
use nvm_rdma_examples.Bench.{Bench, Host, thread_buf, fill, set_up}
use nvm_rdma_examples.Bench.Setup.{set_up_lem}
use nvm_rdma_examples.Bench.Rounds.{
  decimal, decimal_digits, round_text, store_bytes, round_start, server_round,
}

-- An address in the block of a thread.
abbrev pub InBlock : Bench → ℕ → ℕ → Type 0
InBlock b i a = (thread_buf b i ≤ a) × (a < thread_buf b i + b.block_size)

block_ends : (i j size : ℕ) → i < j → i * size + size ≤ j * size
block_ends i j size h = grind arith

-- Blocks of different threads have no address in common.
pub blocks_disjoint : (b : Bench) (i j a : ℕ) → i ≢ j → InBlock b i a → ¬ InBlock b j a
unfolding thread_buf
blocks_disjoint b i j a ne x y = elim (Bool-cases (ltb i j)) [
  | inl e ↦ omega (arith, block_ends i j b.block_size (ltb→lt i j e))
  | inr e ↦ let lt : j < i = ground arith in omega (arith, block_ends j i b.block_size lt)
]

fill_outside :
    (b : Bench) (i value : ℕ) (m : ℕ → ℕ) (a : ℕ)
    → ¬ InBlock b i a
    → fill (thread_buf b i) value b.block_size m a ≡ m a
unfolding fill
fill_outside b i value m a out = ground arith

-- A set-up of one thread that ends leaves every byte in the block of another thread as it was.
pub set_up_isolated :
    {W : Type 0} (v : Verbs W) (n : Sockets W) (os : Os W) (b : Bench) (first i j a : ℕ)
    (h : Host W) {qp : Qp}
    → i ≢ j
    → InBlock b j a
    → (set_up v n os b first i h).0 ≡ some qp
    → (set_up v n os b first i h).1.memory a ≡ h.memory a
set_up_isolated v n os b first i j a h ne y e =
    let (small, own, memory) = set_up_lem v n os b first i h e in
    ap (λ m. m a) memory
    ∙ fill_outside b i ((first + i) % 2 ^ 8) h.memory a (λ x. blocks_disjoint b i j a ne x y)

pub store_bytes_before :
    (start : ℕ) (s : Bytes) (m : ℕ → ℕ) (a : ℕ) → a < start → store_bytes start s m a ≡ m a
unfolding store_bytes
store_bytes_before start [] m a h = refl
store_bytes_before start (c ∷ s) m a h = ground (arith, store_bytes_before (suc start) s m a)

pub store_bytes_after :
    (start : ℕ) (s : Bytes) (m : ℕ → ℕ) (a : ℕ)
    → start + length s ≤ a
    → store_bytes start s m a ≡ m a
unfolding store_bytes
store_bytes_after start [] m a h = refl
store_bytes_after start (c ∷ s) m a h = ground (arith, store_bytes_after (suc start) s m a)

store_bytes_last :
    (start : ℕ) (s : Bytes) (c a : ℕ) (m : ℕ → ℕ)
    → start + length s ≡ a
    → store_bytes start (s ++ c ∷ []) m a ≡ c
unfolding store_bytes
store_bytes_last start [] c a m h = ground arith
store_bytes_last start (d ∷ s) c a m h = ground (arith, store_bytes_last (suc start) s c a m)

length-decimal_digits : (fuel n : ℕ) (out : Bytes) → length out ≤ length (decimal_digits fuel n out)
unfolding decimal_digits
length-decimal_digits zero n out = omega arith
length-decimal_digits (suc fuel) n out =
    ground (arith, length-decimal_digits fuel (n / 10) ((b'0' + n % 10) ∷ out))

decimal_nonempty_digits :
    (fuel n : ℕ) → (n == 0) ≡ false → 1 ≤ length (decimal_digits (suc fuel) n [])
unfolding decimal_digits
decimal_nonempty_digits fuel n e =
    ground (arith, length-decimal_digits fuel (n / 10) ((b'0' + n % 10) ∷ []))

decimal_nonempty : (n : ℕ) → 1 ≤ length (decimal n)
unfolding decimal
decimal_nonempty n = elim (Bool-cases (n == 0)) [
  | inl e ↦ rw e (omega arith)
  | inr e ↦ rw e (decimal_nonempty_digits 9 n e)
]

-- The text of a round has at least 16 bytes.
round_text_long : (i kk : ℕ) → 16 ≤ length (round_text i kk)
unfolding round_text
round_text_long i kk = simp length-append (omega (arith, decimal_nonempty i, decimal_nonempty kk))

-- A round whose text and terminator end inside the block changes nothing outside of it.
pub server_round_inside :
    (b : Bench) (i kk a : ℕ) (m : ℕ → ℕ)
    → kk * 17 + length (round_text i kk) + 1 ≤ b.block_size
    → ¬ InBlock b i a
    → server_round b i kk m a ≡ m a
unfolding server_round
server_round_inside b i kk a m fits out =
    let text = round_text i kk ++ 0 ∷ [] in
    let size = length-append (round_text i kk) (0 ∷ []) in
    elim (Bool-cases (ltb a (round_start b i kk))) [
      | inl e ↦ store_bytes_before (round_start b i kk) text m a (ltb→lt _ _ e)
      | inr e ↦ store_bytes_after (round_start b i kk) text m a (ground (arith, size))
    ]

-- Whatever the size of the block, the round of that size divided by 17 writes its terminator behind
-- the end of the block, into that of the next thread or behind the buffer.
pub server_round_leaves :
    (b : Bench) (i : ℕ) (m : ℕ → ℕ)
    → let kk = b.block_size / 17 in
      let a = round_start b i kk + length (round_text i kk) in
      (thread_buf b i + b.block_size ≤ a) × (server_round b i kk m a ≡ 0)
unfolding server_round
server_round_leaves b i m =
    let kk = b.block_size / 17 in
    (
      omega (arith, round_text_long i kk),
      store_bytes_last (round_start b i kk) (round_text i kk) 0 _ m refl,
    )
