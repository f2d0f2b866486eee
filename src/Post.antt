-- ===== src/Post.antt =====
-- Work requests and completions, of nvm_ibverbs/src/rdma_common.cc: `rdmaWrite`, `rdmaRead`,
-- `rdmaSend`, `rdmaReceive` and `pollWithCQ`.
pub mod Transfer
pub mod Poll
pub mod Polled
use nvm_rdma_examples.Prelude.{
  ℕ, zero, suc, ◌+◌, Bool, true, false, List, [], ◌∷◌, Option, none, some, if◌then◌else◌, u16, u32,
}
use nvm_rdma_examples.Prelude.Int.{ℤ, pos, minus_one, is_zero, is_minus_one, lt_int, to_u32}
use nvm_rdma_examples.Verbs.Types.{
  signaled, Opcode, WcStatus, success, failure, Qp, Sge, SendWr, RecvWr, Wc,
}
use nvm_rdma_examples.Verbs.Interface.{Verbs}
use nvm_rdma_examples.Effects.{Call, M, pure, ◌>>=◌, ◌>>◌, call}

-- The first half of `fillSgeWr`: the length of an entry has 32 bits.
unfoldable pub fill_sge : ℕ → ℕ → ℕ → Sge
fill_sge source size lkey = record { addr = source; length = u32 size; lkey = lkey }

-- `fillSgeWr` for a send request; `memset` leaves the opcode 0, which is RDMA_WRITE.
unfoldable pub fill_sge_send_wr : ℕ → ℕ → ℕ → SendWr
unfolding fill_sge
fill_sge_send_wr source size lkey = record {
  wr_id = 0;
  sg_list = fill_sge source size lkey ∷ [];
  num_sge = 1;
  opcode = Opcode.rdma_write;
  send_flags = [];
  imm_data = 0;
  remote_addr = 0;
  rkey = 0;
}

-- `fillSgeWr` for a receive request.
unfoldable pub fill_sge_recv_wr : ℕ → ℕ → ℕ → RecvWr
unfolding fill_sge
fill_sge_recv_wr source size lkey = record {
  wr_id = 0;
  sg_list = fill_sge source size lkey ∷ [];
  num_sge = 1;
}

-- The request of `rdmaWrite`. The test `imm = -1` is an assignment of a value that is not 0, so its
-- first branch is always taken and the second is not reached.
unfoldable pub write_wr : ℕ → ℕ → ℕ → ℕ → ℕ → ℤ → Bool → ℕ → SendWr
unfolding fill_sge_send_wr
write_wr source dest size lkey remote_rkey imm is_signaled wr_id =
    let imm' = minus_one in
    let wr = fill_sge_send_wr source size lkey in
    let wr : SendWr =
      if is_zero imm'
      then record wr { imm_data = to_u32 imm'; opcode = Opcode.rdma_write_with_imm }
      else record wr { opcode = Opcode.rdma_write } in
    let wr : SendWr = if is_signaled then record wr { send_flags = signaled ∷ [] } else wr in
    record wr { remote_addr = dest; rkey = remote_rkey; wr_id = wr_id }

unfoldable pub read_wr : ℕ → ℕ → ℕ → ℕ → ℕ → Bool → ℕ → SendWr
unfolding fill_sge_send_wr
read_wr source dest size lkey remote_rkey signal wr_id =
    let wr : SendWr = record (fill_sge_send_wr source size lkey) { opcode = Opcode.rdma_read } in
    let wr : SendWr = if signal then record wr { send_flags = signaled ∷ [] } else wr in
    record wr { remote_addr = dest; rkey = remote_rkey; wr_id = wr_id }

unfoldable pub send_wr : ℕ → ℕ → ℕ → ℤ → SendWr
unfolding fill_sge_send_wr
send_wr source size lkey imm =
    let wr = fill_sge_send_wr source size lkey in
    let wr : SendWr =
      if is_minus_one imm
      then record wr { opcode = Opcode.send }
      else record wr { imm_data = to_u32 imm; opcode = Opcode.send_with_imm } in
    record wr { send_flags = signaled ∷ [] }

unfoldable pub receive_wr : ℕ → ℕ → ℕ → ℕ → RecvWr
unfolding fill_sge_recv_wr
receive_wr source size lkey wr_id = record (fill_sge_recv_wr source size lkey) { wr_id = wr_id }

-- `wc->status` of a completion, of which nothing else is read.
abbrev pub is_success : WcStatus → Bool
is_success success = true
is_success (failure n) = false

-- `*wc` after a poll that may have stored a completion.
abbrev pub stored : Wc → Option Wc → Wc
stored wc none = wc
stored wc (some wc') = wc'

module _ {W : Type 0} (v : Verbs W) where
  -- The pauses of `sleep` are left out.
  unfoldable pub rdma_write : Qp → ℕ → ℕ → ℕ → ℕ → ℕ → ℤ → Bool → ℕ → M W Bool
  unfolding write_wr
  rdma_write qp source dest size lkey remote_rkey imm is_signaled wr_id = do
    let wr = write_wr source dest size lkey remote_rkey imm is_signaled wr_id
    res ← call (v.post_send qp wr) (Call.posted_send qp wr)
    pure (is_zero res)

  unfoldable pub rdma_read : Qp → ℕ → ℕ → ℕ → ℕ → ℕ → Bool → ℕ → M W Bool
  unfolding read_wr
  rdma_read qp source dest size lkey remote_rkey signal wr_id = do
    let wr = read_wr source dest size lkey remote_rkey signal wr_id
    res ← call (v.post_send qp wr) (Call.posted_send qp wr)
    pure (is_zero res)

  unfoldable pub rdma_send : Qp → ℕ → ℕ → ℕ → ℤ → M W Bool
  unfolding send_wr
  rdma_send qp source size lkey imm = do
    let wr = send_wr source size lkey imm
    res ← call (v.post_send qp wr) (Call.posted_send qp wr)
    pure (is_zero res)

  unfoldable pub rdma_receive : Qp → ℕ → ℕ → ℕ → ℕ → M W Bool
  unfolding receive_wr
  rdma_receive qp source size lkey wr_id = do
    let wr = receive_wr source size lkey wr_id
    res ← call (v.post_recv qp wr) (Call.posted_recv qp wr)
    pure (is_zero res)

  -- The loop of `pollWithCQ` on fuel: `count` has 16 bits and takes the result of each poll modulo
  -- 2^16, an error code -1 as 65535. `none` means that the fuel ran out.
  unfoldable pub poll_loop : ℕ → ℕ → ℤ → ℕ → Wc → M W (Option (ℕ × Wc))
  poll_loop zero cq poll_number count wc s = (none, s)
  poll_loop (suc fuel) cq poll_number count wc s =
      let ((new_count, stored_wc), s') = call (v.poll_cq cq) (λ r. Call.polled_cq cq r.0 r.1) s in
      let count' = u16 (count + to_u32 new_count) in
      let wc' = stored wc stored_wc in
      let rest = poll_loop fuel cq poll_number count' wc' s' in
      if lt_int count' poll_number then rest else (some (count', wc'), s')

  -- `count < 0` never holds of an unsigned value, so only the status of the completion is tested.
  unfoldable pub poll_with_cq : ℕ → ℕ → ℤ → Wc → M W (Option (ℤ × Wc))
  poll_with_cq fuel cq poll_number wc s =
      let (polled, s') = poll_loop fuel cq poll_number 0 wc s in
      (
        elim polled [
          | none ↦ none
          | some (count, wc') ↦ some (if is_success wc'.status then pos count else minus_one, wc')
        ],
        s',
      )
