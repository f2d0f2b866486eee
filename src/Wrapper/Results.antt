-- ===== src/Wrapper/Results.antt =====
-- What `join` of the thread wrapper returns.
use nvm_rdma_examples.Prelude.{ℕ, ◌≤◌, ◌<◌, Bool, true, false, some, ◌≡◌, ◌⊎◌}
use nvm_rdma_examples.Prelude.Marks.{count}
use nvm_rdma_examples.Wrapper.{Wrapped, Reached}

module _ {W T : Type 0} (asserts : Bool) (core_func : W → T × W) (junk : T) (w : W) where
  -- A value is what the body gave when one of the threads ran it: in the world of a state of the run in
  -- which that thread was made and had not yet run.
  pub record IsFromRun (a : T) : Type 0 where
    pub before : Wrapped W T
    pub reached : Reached asserts core_func junk w before
    pub thread : ℕ
    pub was_made : thread < before.starts
    pub not_run : before.ended thread ≡ false
    pub gave : (core_func before.world).0 ≡ a

  record IsSound (p : Wrapped W T) : Type 0 where
    ended_made : (i : ℕ) → p.ended i ≡ true → i < p.starts
    pid_made : (i : ℕ) → p.pid ≡ some i → i < p.starts
    counted : p.runs ≡ count p.starts p.ended
    from_run : (i : ℕ) → p.ended i ≡ true → IsFromRun p.res
    never_made : asserts ≡ false → (p.starts ≡ 0) × (p.res ≡ junk)
    result :
        (a : T)
        → p.returned ≡ some a
        → ((asserts ≡ true) × (1 ≤ p.runs) × IsFromRun a) ⊎ ((asserts ≡ false) × (a ≡ junk))
