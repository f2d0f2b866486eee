-- ===== src/NicMem.antt =====
-- The probe of the memory of a network card, of nicmem/main.cc: `getnicmem`.
use nvm_rdma_examples.Prelude.{
  ℕ, suc, ◌+◌, Bool, true, false, List, [], ◌∷◌, Option, none, some, if◌then◌else◌, ◌==◌, u8,
  get_elem?, ◌≡◌, arith,
}
use nvm_rdma_examples.Text.Digits.{Bytes}
use nvm_rdma_examples.Verbs.Interface.{Verbs}
use nvm_rdma_examples.Effects.{Call, Sys, M, pure, ◌>>=◌, ◌>>◌, call, run}
use nvm_rdma_examples.Ledger.{total, Exceeds, lists_freed, contexts_opened, contexts_closed}

-- Whether the sixth character of a name is '0'. A name is five characters or more long.
unfoldable pub is_wanted : Bytes → Bool
is_wanted name = elim (get_elem? name 5) [ none ↦ false | some c ↦ c == b'0' ]

-- The loop over the devices from the number `i` on; `devIndex` has 8 bits, and keeps what it holds where
-- no name is wanted.
unfoldable pub find_device : (ℕ → Bytes) → List ℕ → ℕ → ℕ → ℕ
unfolding is_wanted
find_device name_of [] i dev_index = dev_index
find_device name_of (d ∷ ds) i dev_index =
    let rest = find_device name_of ds (suc i) dev_index in
    if is_wanted (name_of d) then u8 i else rest

module _ {W : Type 0} (v : Verbs W) (name_of : ℕ → Bytes) where
  -- The device at the index is opened; a failure returns, with the list not freed.
  unfoldable pub probe_device : ℕ → M W (Option Bool)
  probe_device dev = do
    ctx ← call (v.open_device dev) (Call.opened_device dev)
    (elim ctx [
      | none ↦ pure (some false)
      | some c ↦ (do
        run v.free_device_list Call.freed_device_list
        call (v.close_device c) (Call.closed_device c)
        pure (some true))
    ])

  -- `junk` is the uninitialised `devIndex`; `none` is a read outside of the list. The body of
  -- `checkDMSupported` is commented out in the source.
  unfoldable pub get_nic_mem : ℕ → M W (Option Bool)
  unfolding probe_device
  get_nic_mem junk = do
    device_list ← call v.get_device_list Call.got_device_list
    (elim device_list [
      | none ↦ pure (some false)
      | some [] ↦ pure (some false)
      | some (d ∷ ds) ↦ elim (get_elem? (d ∷ ds) (find_device name_of (d ∷ ds) 0 junk)) [
        | none ↦ pure none
        | some dev ↦ probe_device dev
      ]
    ])

  -- A probe of the card that reads inside the list closes as many contexts as it opens, and frees
  -- the list once where it succeeds and never where it fails.
  pub get_nic_mem_accounts :
      (junk : ℕ) (s : Sys W) {done : Bool}
      → (get_nic_mem junk s).0 ≡ some done
      → let s' = (get_nic_mem junk s).1 in
        Exceeds contexts_opened contexts_closed 0 s.calls s'.calls
        × (total lists_freed s'.calls ≡ total lists_freed s.calls + (if done then 1 else 0))
  unfolding get_nic_mem
  get_nic_mem_accounts junk s h = ground arith
