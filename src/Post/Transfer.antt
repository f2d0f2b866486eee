-- ===== src/Post/Transfer.antt =====
-- The semantics of one-sided requests on the memories of two hosts, and the requests built here.
use nvm_rdma_examples.Prelude.{
  ℕ, ◌+◌, ◌-◌, ◌^◌, ◌<◌, Bool, true, false, ◌&&◌, List, [], ◌∷◌, ◌≡◌, refl, arith, if◌then◌else◌,
  leb, ltb, u32,
}
use nvm_rdma_examples.Prelude.Int.{ℤ, is_zero, is_minus_one, to_u32}
use nvm_rdma_examples.Verbs.Types.{Opcode, Qp, Sge, SendWr, signaled}
use nvm_rdma_examples.Verbs.Interface.{Verbs}
use nvm_rdma_examples.Effects.{Call, Sys}
use nvm_rdma_examples.Post.{write_wr, read_wr, send_wr, fill_sge, rdma_read, rdma_write, rdma_send}

abbrev pub Memory : Type 0
Memory = ℕ → ℕ

-- `size` bytes from `from` in one memory, copied to `to` in another.
unfoldable pub copy : Memory → ℕ → Memory → ℕ → ℕ → Memory
copy source from target to size a =
    if leb to a && ltb a (to + size) then source (from + (a - to)) else target a

-- The memories of the two hosts, after the device has carried out a request over its entries in turn.
abbrev pub Hosts : Type 0
Hosts = Memory × Memory

pub execute_at : Opcode → ℕ → List Sge → Hosts → Hosts
execute_at op remote [] m = m
execute_at Opcode.rdma_read remote (e ∷ es) (local, far) =
    execute_at Opcode.rdma_read (remote + e.length) es (copy far remote local e.addr e.length, far)
execute_at Opcode.rdma_write remote (e ∷ es) (local, far) =
    execute_at Opcode.rdma_write (remote + e.length) es
      (local, copy local e.addr far remote e.length)
execute_at Opcode.rdma_write_with_imm remote (e ∷ es) (local, far) =
    execute_at Opcode.rdma_write_with_imm (remote + e.length) es
      (local, copy local e.addr far remote e.length)
execute_at _ remote (e ∷ es) m = m

pub execute : SendWr → Hosts → Hosts
execute wr m = execute_at wr.opcode wr.remote_addr wr.sg_list m

pub u32_small : (n : ℕ) → n < 2 ^ 32 → u32 n ≡ n
u32_small n h = omega arith

-- The request of a read copies `size` bytes of the far memory, and changes nothing else.
pub execute-read_wr :
    (source dest size lkey rkey : ℕ) (signal : Bool) (wr_id : ℕ) (m : Hosts)
    → size < 2 ^ 32
    → execute (read_wr source dest size lkey rkey signal wr_id) m
      ≡ (copy m.1 dest m.0 source size, m.1)
unfolding execute execute_at read_wr fill_sge
execute-read_wr source dest size lkey rkey true wr_id m h = rw (u32_small size h)
execute-read_wr source dest size lkey rkey false wr_id m h = rw (u32_small size h)

pub execute-write_wr :
    (source dest size lkey rkey : ℕ) (imm : ℤ) (signal : Bool) (wr_id : ℕ) (m : Hosts)
    → size < 2 ^ 32
    → execute (write_wr source dest size lkey rkey imm signal wr_id) m
      ≡ (m.0, copy m.0 source m.1 dest size)
unfolding execute execute_at write_wr fill_sge
execute-write_wr source dest size lkey rkey imm true wr_id m h = rw (u32_small size h)
execute-write_wr source dest size lkey rkey imm false wr_id m h = rw (u32_small size h)

module _ {W : Type 0} (v : Verbs W) (qp : Qp) (s : Sys W) where
  -- `rdmaRead` of a size below 2^32 posts one request, whose execution copies that many bytes of the
  -- far memory and changes nothing else, and reports whether the library took it.
  pub rdma_read_transfers :
      (source dest size lkey rkey : ℕ) (signal : Bool) (wr_id : ℕ) (m : Hosts)
      → size < 2 ^ 32
      → let (result, s') = rdma_read v qp source dest size lkey rkey signal wr_id s in
        (wr : SendWr) × (s'.calls ≡ Call.posted_send qp wr (v.post_send qp wr s.world).0 ∷ s.calls)
        × (result ≡ is_zero (v.post_send qp wr s.world).0)
        × (execute wr m ≡ (copy m.1 dest m.0 source size, m.1))
  unfolding rdma_read
  rdma_read_transfers source dest size lkey rkey signal wr_id m h = (
    read_wr source dest size lkey rkey signal wr_id,
    refl,
    refl,
    execute-read_wr source dest size lkey rkey signal wr_id m h,
  )

  -- `rdmaWrite` of a size below 2^32 posts one request, whose execution copies that many bytes to
  -- the far memory and changes nothing else, and reports whether the library took it.
  pub rdma_write_transfers :
      (source dest size lkey rkey : ℕ) (imm : ℤ) (signal : Bool) (wr_id : ℕ) (m : Hosts)
      → size < 2 ^ 32
      → let (result, s') = rdma_write v qp source dest size lkey rkey imm signal wr_id s in
        (wr : SendWr) × (s'.calls ≡ Call.posted_send qp wr (v.post_send qp wr s.world).0 ∷ s.calls)
        × (result ≡ is_zero (v.post_send qp wr s.world).0)
        × (execute wr m ≡ (m.0, copy m.0 source m.1 dest size))
  unfolding rdma_write
  rdma_write_transfers source dest size lkey rkey imm signal wr_id m h = (
    write_wr source dest size lkey rkey imm signal wr_id,
    refl,
    refl,
    execute-write_wr source dest size lkey rkey imm signal wr_id m h,
  )

  -- `rdmaSend` posts one signaled request, with an immediate value exactly where the argument is not
  -- -1, and reports whether the library took it.
  pub rdma_send_imm :
      (source size lkey : ℕ) (imm : ℤ)
      → let (result, s') = rdma_send v qp source size lkey imm s in
        (wr : SendWr) × (s'.calls ≡ Call.posted_send qp wr (v.post_send qp wr s.world).0 ∷ s.calls)
        × (result ≡ is_zero (v.post_send qp wr s.world).0)
        × (wr.send_flags ≡ signaled ∷ [])
        × (wr.opcode ≡ (if is_minus_one imm then Opcode.send else Opcode.send_with_imm))
        × (wr.imm_data ≡ (if is_minus_one imm then 0 else to_u32 imm))
  unfolding rdma_send send_wr
  rdma_send_imm source size lkey imm =
      (send_wr source size lkey imm, refl, refl, refl, ground arith, ground arith)
