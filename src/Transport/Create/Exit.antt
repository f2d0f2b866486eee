-- ===== src/Transport/Create/Exit.antt =====
-- What the constructor of `RDMAtransport` leaves behind.
use nvm_rdma_examples.Prelude.{
  ℕ, zero, suc, ◌≤◌, List, [], ◌∷◌, none, some, ◌≡◌, refl, arith, length, get_elem?,
}
use nvm_rdma_examples.Verbs.Types.{PortAttr}
use nvm_rdma_examples.Verbs.Interface.{Verbs}
use nvm_rdma_examples.Effects.{Call, Sys}
use nvm_rdma_examples.Ledger.{
  Exceeds, lists_got, lists_freed, pds_allocated, pds_deallocated, contexts_opened, contexts_closed,
}
use nvm_rdma_examples.Context.{exit_pd, exit_ctx, exit_list}
use nvm_rdma_examples.Transport.{RdmaTransport}
use nvm_rdma_examples.Transport.Create.{
  choose_device, open_chosen, fill_members, create_body, create_exit, create,
}

get_elem?_beyond : (xs : List ℕ) (i : ℕ) → length xs ≤ i → get_elem? xs i ≡ none
get_elem?_beyond [] i h = refl
get_elem?_beyond (x ∷ xs) zero h = absurd (omega arith)
get_elem?_beyond (x ∷ xs) (suc i) h = get_elem?_beyond xs i (omega arith)

module _ {W : Type 0} (v : Verbs W) (gid_idx dev_idx : ℕ) (junk : PortAttr) (this : RdmaTransport)
    (s : Sys W) where
  -- Whatever happens, the object that was constructed has no protection domain and no device context.
  pub create_empty :
      ((create v gid_idx dev_idx junk this s).0.pd ≡ none)
      × ((create v gid_idx dev_idx junk this s).0.ctx ≡ none)
  unfolding create create_exit
  create_empty = (refl, refl)

  -- For an object whose pointers were null the constructor balances its account on every path: device
  -- lists, protection domains and device contexts are given back as often as they were got.
  pub create_balanced :
      this.pd ≡ none
      → this.ctx ≡ none
      → let s' = (create v gid_idx dev_idx junk this s).1 in
        Exceeds lists_got lists_freed 0 s.calls s'.calls
        × Exceeds pds_allocated pds_deallocated 0 s.calls s'.calls
        × Exceeds contexts_opened contexts_closed 0 s.calls s'.calls
  unfolding create create_exit create_body choose_device open_chosen fill_members exit_pd exit_ctx
      exit_list
  create_balanced np nc = ground arith

  -- For an object whose pointers were null, with a list of devices that is not empty and no longer
  -- than the number given (255 by default), the constructor looks for no device: it gets the list,
  -- frees it, opens nothing, and keeps the number as the index.
  pub create_no_scan :
      this.pd ≡ none
      → this.ctx ≡ none
      → (d : ℕ) (ds : List ℕ) → (v.get_device_list s.world).0 ≡ some (d ∷ ds)
      → length (d ∷ ds) ≤ dev_idx
      → ((create v gid_idx dev_idx junk this s).1.calls
          ≡ Call.freed_device_list ∷ Call.got_device_list (some (d ∷ ds)) ∷ s.calls)
        × ((create v gid_idx dev_idx junk this s).0.dev_index ≡ dev_idx)
  unfolding create create_exit create_body choose_device open_chosen exit_pd exit_ctx exit_list
  create_no_scan np nc d ds e h = ground (arith, get_elem?_beyond (d ∷ ds) dev_idx h)
