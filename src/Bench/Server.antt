-- ===== src/Bench/Server.antt =====
-- The server threads of the benchmarks, `run_server_thread` of rdma_bench.cc and of rdma_micro.hh, and
-- the client thread of rdma_bench.cc with each of its kinds of benchmark. What is printed is left out.
pub mod Isolated
pub mod Steps
pub mod Interleaved
use nvm_rdma_examples.Prelude.{ℕ, zero, suc, Option, none, some, List, [], ◌∷◌}
use nvm_rdma_examples.Text.Digits.{Bytes}
use nvm_rdma_examples.Verbs.Types.{Wc}
use nvm_rdma_examples.Verbs.Interface.{Verbs}
use nvm_rdma_examples.Sockets.{Sockets}
use nvm_rdma_examples.Os.{Os}
use nvm_rdma_examples.Attempt.{Try, pure, goto_exit, ◌>>=◌, ◌>>◌, update}
use nvm_rdma_examples.Exchange.{Locals}
use nvm_rdma_examples.Bench.{
  Bench, Host, read_host, client_connect, server_connect, run_client_thread,
}
use nvm_rdma_examples.Bench.Rounds.{server_round}

-- What `FLAGS_benchmarks` is compared with.
pub data Benchmark : Type 0 where
  reading writing unknown : Benchmark

-- The bytes from an address on, as many as a number.
unfoldable pub bytes_from : ℕ → ℕ → (ℕ → ℕ) → Bytes
bytes_from zero a memory = []
bytes_from (suc k) a memory = memory a ∷ bytes_from k (suc a) memory

module _ {W : Type 0} (b : Bench) where
  -- The endless loop of the benchmark "read" from a round on, for a number of rounds: it has no result.
  unfoldable pub serve_rounds : ℕ → ℕ → ℕ → Try (Host W) (Unit {0})
  serve_rounds zero i kk = goto_exit
  serve_rounds (suc rounds) i kk = do
    update (λ h. record h { memory = server_round b i kk h.memory })
    serve_rounds rounds i (suc kk)

  -- That of the benchmark "write", for a number of passes: each reads the first block of the buffer,
  -- whatever the thread.
  unfoldable pub serve_passes : ℕ → Try (Host W) (Unit {0})
  serve_passes zero = goto_exit
  serve_passes (suc passes) = do
    h ← read_host
    let printed = bytes_from b.block_size b.buf h.memory
    serve_passes passes

module _ {W : Type 0} (v : Verbs W) (n : Sockets W) (os : Os W) (b : Bench) where
  -- `run_server_thread`, for a number of rounds of its endless loop.
  unfoldable pub run_server_thread : ℕ → Benchmark → ℕ → Locals → Try (Host W) (Unit {0})
  run_server_thread rounds kind i l = do
    server_connect v n os b i l
    (elim kind [
      | reading ↦ serve_rounds b rounds i 0
      | writing ↦ serve_passes b rounds
      | unknown ↦ pure tt
    ])

  -- `run_client_thread` with a kind of benchmark: only "read" does more than connect.
  unfoldable pub run_client_benchmark :
      ℕ → Benchmark → ℕ → ℕ → Locals → Wc → Try (Host W) (Unit {0})
  run_client_benchmark fuel kind ops i l wc = elim kind [
    | reading ↦ run_client_thread v n os b fuel ops i l wc
    | writing ↦ (do client_connect v n os b i l; pure tt)
    | unknown ↦ (do client_connect v n os b i l; pure tt)
  ]
