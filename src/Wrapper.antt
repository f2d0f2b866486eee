-- ===== src/Wrapper.antt =====
-- The thread wrapper of nvm_write/thread.hh: a thread object whose bodies run beside its owner, over a
-- type of worlds that others change as well, as a step relation. A body is one step, at the point where
-- its result is stored: what two bodies that store at the same time leave is not modelled, and neither
-- is a join without a thread that is left to join, which POSIX leaves undefined.
pub mod Results
use nvm_rdma_examples.Prelude.{ℕ, zero, suc, ◌<◌, Bool, true, false, Option, none, some, ◌≡◌}
use nvm_rdma_examples.Prelude.Marks.{mark}

-- The member `res`, which is not initialised, and `pid`, the latest thread until it is joined; how often
-- `start` has made a thread, which of these threads have run their body, and how many; what `join` has
-- returned; and whether a failed assertion has ended the program.
pub record Wrapped (W T : Type 0) : Type 0 where
  pub pid : Option ℕ
  pub res : T
  pub starts : ℕ
  pub ended : ℕ → Bool
  pub runs : ℕ
  pub returned : Option T
  pub world : W
  pub aborted : Bool

module _ {W T : Type 0} where
  -- The constructor keeps the body alone.
  unfoldable pub make : T → W → Wrapped W T
  make junk w = record {
    pid = none;
    res = junk;
    starts = 0;
    ended = λ i. false;
    runs = 0;
    returned = none;
    world = w;
    aborted = false;
  }

  -- The thread that is made inside an assertion. Nothing asks whether there was a thread before.
  unfoldable pub start : Wrapped W T → Wrapped W T
  start p = record p { pid = some p.starts; starts = suc p.starts }

  unfoldable pub bootstrap : (W → T × W) → ℕ → Wrapped W T → Wrapped W T
  bootstrap core_func i p =
      let (a, w) = core_func p.world in
      record p { res = a; ended = mark i p.ended; runs = suc p.runs; world = w }

  unfoldable pub get_res : Wrapped W T → T
  get_res p = p.res

  -- `join` behind its assertion.
  unfoldable pub join : Wrapped W T → Wrapped W T
  unfolding get_res
  join p = record p { pid = none; returned = some (get_res p) }

-- `asserts` is false with NDEBUG, where `start` makes no thread.
pub data Step {W T : Type 0} (asserts : Bool) (core_func : W → T × W)
    : Wrapped W T → Wrapped W T → Type 0 where
  started :
      {p : Wrapped W T} → asserts ≡ true → p.aborted ≡ false → Step asserts core_func p (start p)
  -- a call of pthread in `start` or in `join` that fails
  asserted :
      {p : Wrapped W T}
      → asserts ≡ true
      → p.aborted ≡ false
      → Step asserts core_func p (record p { aborted = true })
  -- a thread runs its body, once
  ran :
      {p : Wrapped W T} {i : ℕ}
      → i < p.starts
      → p.ended i ≡ false
      → p.aborted ≡ false
      → Step asserts core_func p (bootstrap core_func i p)
  -- `pthread_join` returns only after the latest thread
  joined :
      {p : Wrapped W T} {i : ℕ}
      → asserts ≡ true
      → p.pid ≡ some i
      → p.ended i ≡ true
      → p.aborted ≡ false
      → Step asserts core_func p (join p)
  -- with NDEBUG `join` waits for nothing
  not_joined :
      {p : Wrapped W T} → asserts ≡ false → p.aborted ≡ false → Step asserts core_func p (join p)
  others : {p : Wrapped W T} → (w : W) → Step asserts core_func p (record p { world = w })

pub data Reached {W T : Type 0} (asserts : Bool) (core_func : W → T × W) (junk : T) (w : W)
    : Wrapped W T → Type 0 where
  made : Reached asserts core_func junk w (make junk w)
  next :
      {p q : Wrapped W T}
      → Reached asserts core_func junk w p
      → Step asserts core_func p q
      → Reached asserts core_func junk w q
