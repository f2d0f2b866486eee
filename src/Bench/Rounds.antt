-- ===== src/Bench/Rounds.antt =====
-- What a server thread writes into its block, round by round, of `run_server_thread`.
use nvm_rdma_examples.Prelude.{ℕ, zero, suc, ◌+◌, ◌*◌, ◌/◌, ◌%◌, [], ◌∷◌, ◌++◌, if◌then◌else◌, ◌==◌}
use nvm_rdma_examples.Text.Digits.{Bytes}
use nvm_rdma_examples.Bench.{Bench, thread_buf}

-- `%d` of a number that is not negative: the digits in front of `out`, as many as the fuel, of which
-- an `int` needs 10.
unfoldable pub decimal_digits : ℕ → ℕ → Bytes → Bytes
decimal_digits zero n out = out
decimal_digits (suc fuel) n out =
    let rest = decimal_digits fuel (n / 10) ((b'0' + n % 10) ∷ out) in if n == 0 then out else rest

unfoldable pub decimal : ℕ → Bytes
decimal n = if n == 0 then b'0' ∷ [] else decimal_digits 10 n []

abbrev pub thread_word : Bytes
thread_word = b't' ∷ b'h' ∷ b'r' ∷ b'e' ∷ b'a' ∷ b'd' ∷ b' ' ∷ []

abbrev pub round_word : Bytes
round_word = b' ' ∷ b'r' ∷ b'o' ∷ b'u' ∷ b'n' ∷ b'd' ∷ b' ' ∷ []

-- `"thread %d round %d"`
unfoldable pub round_text : ℕ → ℕ → Bytes
round_text i kk = thread_word ++ (decimal i ++ (round_word ++ decimal kk))

-- Bytes stored one after the other from an address on.
unfoldable pub store_bytes : ℕ → Bytes → (ℕ → ℕ) → ℕ → ℕ
store_bytes start [] memory a = memory a
store_bytes start (c ∷ s) memory a = if start == a then c else store_bytes (suc start) s memory a

abbrev pub round_start : Bench → ℕ → ℕ → ℕ
round_start b i kk = thread_buf b i + kk * 17

-- `sprintf(thread_buf + kk * 17, …)` of one round, with its terminator.
unfoldable pub server_round : Bench → ℕ → ℕ → (ℕ → ℕ) → ℕ → ℕ
server_round b i kk memory = store_bytes (round_start b i kk) (round_text i kk ++ 0 ∷ []) memory
