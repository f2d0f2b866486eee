-- ===== src/Programs/ReadClient/Inside.antt =====
-- The local memory that the client of reads names in its requests.
use nvm_rdma_examples.Prelude.{ℕ, ◌+◌, ◌≤◌, true, List, ◌≡◌, All, arith}
use mathlib.Core.Path.{subst, sym}
use nvm_rdma_examples.Verbs.Types.{Sge}
use nvm_rdma_examples.Verbs.Interface.{Verbs}
use nvm_rdma_examples.Sockets.{Sockets}
use nvm_rdma_examples.Post.{read_wr, fill_sge_send_wr, fill_sge}
use nvm_rdma_examples.Programs.{Process, buf_size, buf_at}
use nvm_rdma_examples.Programs.Named.{Request, entries, named}

-- An entry lies in the first buffer, which is the region registered.
abbrev pub InFirst : ℕ → Sge → Type 0
InFirst buf e = (buf ≤ e.addr) × (e.addr + e.length ≤ buf + buf_size)

abbrev pub NamesFirst : {W : Type 0} → ℕ → Process W → Type 0
NamesFirst buf p = All (InFirst buf) (named p.sys.calls)

pub read_wr-InFirst :
    (buf dest lkey rkey : ℕ)
    → All (InFirst buf) (read_wr (buf_at buf 0) dest 100 lkey rkey true 0).sg_list
unfolding read_wr fill_sge_send_wr fill_sge
read_wr-InFirst buf dest lkey rkey = ((omega arith, omega arith), tt)

-- What a log without new requests names.
pub kept :
    (buf : ℕ) {rs rs' : List Request}
    → rs' ≡ rs
    → All (InFirst buf) (entries rs)
    → All (InFirst buf) (entries rs')
kept buf e inside = subst (λ rs. All (InFirst buf) (entries rs)) (sym e) inside
