-- ===== src/Sockets.antt =====
-- The calls of the socket library over a type `W` of worlds, with an address of the list that
-- `getaddrinfo` returns as a number. The library is not in this repository: only the types are fixed.
use nvm_rdma_examples.Prelude.{ℕ, List, Option}
use nvm_rdma_examples.Prelude.Int.{ℤ}
use nvm_rdma_examples.Text.Digits.{Bytes}

pub record Sockets (W : Type 0) : Type 0 where
  -- `asprintf` of the port number, negative where memory is short
  pub format_service : ℤ → W → ℤ × W
  -- the error code, and the list of addresses
  pub getaddrinfo : W → (ℤ × List ℕ) × W
  pub socket : ℕ → W → ℤ × W
  pub connect : ℤ → ℕ → W → ℤ × W
  pub bind : ℤ → ℕ → W → ℤ × W
  pub listen : ℤ → W → W
  pub accept : ℤ → W → ℤ × W
  -- the bytes stored in the buffer, of which the result is the number; `none` for -1
  pub read : ℤ → ℕ → W → Option Bytes × W
  pub write : ℤ → Bytes → W → ℤ × W
  pub close : ℤ → W → W
