-- ===== src/Bench/Server/Isolated.antt =====
-- The memory that a server thread of the benchmark leaves alone.
use nvm_rdma_examples.Prelude.{
  ℕ, zero, suc, ◌+◌, ◌*◌, ◌/◌, ◌%◌, ◌≤◌, ◌≢◌, [], ◌∷◌, some, ◌≡◌, refl, arith, length,
  length-append, Option-cases, inl, inr, ◌∙◌, ◌==◌, Bool-cases,
}
use nvm_rdma_examples.Text.Digits.{Bytes}
use nvm_rdma_examples.Verbs.Types.{Qp}
use nvm_rdma_examples.Verbs.Interface.{Verbs}
use nvm_rdma_examples.Sockets.{Sockets}
use nvm_rdma_examples.Os.{Os}
use nvm_rdma_examples.Exchange.{Locals, server_exch_data}
use nvm_rdma_examples.Prelude.Int.{pos}
use nvm_rdma_examples.Bench.{Bench, Host, set_up, connect_qp, server_connect}
use nvm_rdma_examples.Bench.Rounds.{decimal_digits, decimal, round_text, server_round}
use nvm_rdma_examples.Bench.Regions.{InBlock, blocks_disjoint, set_up_isolated, server_round_inside}
use nvm_rdma_examples.Bench.Server.{
  Benchmark, reading, writing, unknown, serve_rounds, serve_passes, run_server_thread,
}

length-decimal_digits_short :
    (fuel n : ℕ) (out : Bytes) → length (decimal_digits fuel n out) ≤ length out + fuel
unfolding decimal_digits
length-decimal_digits_short zero n out = omega arith
length-decimal_digits_short (suc fuel) n out =
    ground (arith, length-decimal_digits_short fuel (n / 10) ((b'0' + n % 10) ∷ out))

decimal_short : (n : ℕ) → length (decimal n) ≤ 10
unfolding decimal
decimal_short n = elim (Bool-cases (n == 0)) [
  | inl e ↦ rw e (omega arith)
  | inr e ↦ rw e (length-decimal_digits_short 10 n [])
]

-- The text of a round has at most 34 bytes.
pub round_text_short : (i kk : ℕ) → length (round_text i kk) ≤ 34
unfolding round_text
round_text_short i kk = simp length-append (omega (arith, decimal_short i, decimal_short kk))

module _ {W : Type 0} (b : Bench) where
  serve_rounds_inside :
      (rounds i kk a : ℕ) (h : Host W)
      → (kk + rounds) * 17 + 18 ≤ b.block_size
      → ¬ InBlock b i a
      → (serve_rounds b rounds i kk h).1.memory a ≡ h.memory a
  unfolding serve_rounds
  serve_rounds_inside zero i kk a h fits out = refl
  serve_rounds_inside (suc rounds) i kk a h fits out =
      serve_rounds_inside rounds i (suc kk) a (record h { memory = server_round b i kk h.memory })
        (omega arith) out
      ∙ server_round_inside b i kk a h.memory (omega (arith, round_text_short i kk)) out

  serve_passes_memory : (passes : ℕ) (h : Host W) → (serve_passes b passes h).1.memory ≡ h.memory
  unfolding serve_passes
  serve_passes_memory zero h = refl
  serve_passes_memory (suc passes) h = serve_passes_memory passes h

module _ {W : Type 0} (v : Verbs W) (n : Sockets W) (os : Os W) (b : Bench) where
  connect_qp_memory : (qp : Qp) (h : Host W) → (connect_qp v n os b qp h).1.memory ≡ h.memory
  unfolding connect_qp
  connect_qp_memory qp h = ground arith

  server_connect_isolated :
      (i j a : ℕ) (l : Locals) (h : Host W) {qp : Qp}
      → i ≢ j
      → InBlock b j a
      → (server_connect v n os b i l h).0 ≡ some qp
      → (server_connect v n os b i l h).1.memory a ≡ h.memory a
  unfolding server_connect
  server_connect_isolated i j a l h ne y e =
      let (o, h1) = set_up v n os b b'A' i h in
      elim (Option-cases o) [
        | inl e1 ↦ ground arith
        | inr (qp, e1) ↦
            let same1 = set_up_isolated v n os b b'A' i j a h ne y e1 in
            let (x, s2) =
              server_exch_data n (pos (b.sock_port + i)) h1.local_info h1.remote_info l h1.sys in
            elim (Option-cases x) [
              | inl e2 ↦ ground arith
              | inr (d, e2) ↦
                  let h2 : Host W = record h1 { remote_info = d.1; sys = s2 } in
                  ground (arith, same1, connect_qp_memory qp h2)
            ]
      ]

  -- A server thread that has connected leaves every byte in the block of another thread as it was, over
  -- as many rounds as the block has room for, whatever the kind of benchmark.
  pub run_server_thread_isolated :
      (rounds : ℕ) (kind : Benchmark) (i j a : ℕ) (l : Locals) (h : Host W) {qp : Qp}
      → i ≢ j
      → InBlock b j a
      → rounds * 17 + 18 ≤ b.block_size
      → (server_connect v n os b i l h).0 ≡ some qp
      → (run_server_thread v n os b rounds kind i l h).1.memory a ≡ h.memory a
  unfolding run_server_thread
  run_server_thread_isolated rounds kind i j a l h ne y fits e =
      let h1 = (server_connect v n os b i l h).1 in
      let same1 = server_connect_isolated i j a l h ne y e in
      let out : ¬ InBlock b i a = λ x. blocks_disjoint b i j a ne x y in
      let same2 = serve_rounds_inside b rounds i 0 a h1 (omega arith) out in
      let same3 = serve_passes_memory b rounds h1 in
      elim kind [
        | reading ↦ ground (arith, e, same1, same2)
        | writing ↦ ground (arith, e, same1, same3)
        | unknown ↦ ground (arith, e, same1)
      ]
