-- ===== src/Bench/Server/Steps.antt =====
-- The server threads of the benchmark "read" on the memory that they share, byte by byte and in any
-- order: what a thread has stored of the text of its round, and what is left of it.
use nvm_rdma_examples.Prelude.{
  ℕ, suc, ◌+◌, ◌*◌, ◌≤◌, [], ◌∷◌, ◌++◌, ◌≡◌, length, ◌==◌, if◌then◌else◌,
}
use nvm_rdma_examples.Text.Digits.{Bytes}
use nvm_rdma_examples.Bench.{Bench}
use nvm_rdma_examples.Bench.Rounds.{round_text, round_start}

-- `kk` of a thread, and the bytes that `sprintf` has stored and has yet to store.
pub record Writer : Type 0 where
  pub kk : ℕ
  pub stored : Bytes
  pub left : Bytes

pub record Shared : Type 0 where
  pub memory : ℕ → ℕ
  pub writers : ℕ → Writer

-- What `sprintf` stores in a round, with the terminator.
abbrev pub round_bytes : ℕ → ℕ → Bytes
round_bytes i kk = round_text i kk ++ 0 ∷ []

unfoldable pub set_byte : ℕ → ℕ → (ℕ → ℕ) → ℕ → ℕ
set_byte b c memory a = if b == a then c else memory a

unfoldable pub set_writer : ℕ → Writer → (ℕ → Writer) → ℕ → Writer
set_writer i w writers j = if i == j then w else writers j

abbrev pub begin_round : ℕ → ℕ → Writer
begin_round i kk = record { kk = kk; stored = []; left = round_bytes i kk }

pub data Step (b : Bench) : Shared → Shared → Type 0 where
  -- the next byte of a round that the block has room for
  store :
      {s : Shared} (i c : ℕ) {rest : Bytes}
      → (s.writers i).left ≡ c ∷ rest
      → (s.writers i).kk * 17 + 35 ≤ b.block_size
      → Step b s (record {
        memory =
            set_byte (round_start b i (s.writers i).kk + length (s.writers i).stored) c s.memory;
        writers =
            set_writer i
              (record (s.writers i) { stored = (s.writers i).stored ++ c ∷ []; left = rest })
              s.writers;
      })
  -- `kk++`
  next_round :
      {s : Shared} (i : ℕ)
      → (s.writers i).left ≡ []
      → Step b s
          (record s { writers = set_writer i (begin_round i (suc (s.writers i).kk)) s.writers })

pub data Reached (b : Bench) (m : ℕ → ℕ) : Shared → Type 0 where
  initial : Reached b m (record { memory = m; writers = λ i. begin_round i 0 })
  next : {s s' : Shared} → Reached b m s → Step b s s' → Reached b m s'
