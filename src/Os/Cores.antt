-- ===== src/Os/Cores.antt =====
-- The cores that threads are bound to.
use nvm_rdma_examples.Prelude.{
  ℕ, zero, suc, ◌+◌, ◌-◌, ◌*◌, ◌≤◌, ◌<◌, none, some, ◌≡◌, ◌≢◌, arith, if◌then◌else◌, ltb, get_elem?,
  List, [], ◌∷◌, Bool-cases, inl, inr,
}
use nvm_rdma_examples.Prelude.Int.{pos}
use nvm_rdma_examples.Os.{Os, stick_this_thread_to_core, einval, core_of, socket_0, socket_1}

-- Every other number from a start on.
by_twos : ℕ → ℕ → List ℕ
by_twos start zero = []
by_twos start (suc n) = start ∷ by_twos (start + 2) n

get_elem?-by_twos : (n start i : ℕ) → i < n → get_elem? (by_twos start n) i ≡ some (start + 2 * i)
unfolding by_twos
get_elem?-by_twos zero start i h = absurd (omega arith)
get_elem?-by_twos (suc n) start zero h = ground arith
get_elem?-by_twos (suc n) start (suc i) h = ground (arith, get_elem?-by_twos n (start + 2) i)

get_elem?-socket_0 : (i : ℕ) → i < 24 → get_elem? socket_0 i ≡ some (2 * i)
unfolding socket_0 by_twos
get_elem?-socket_0 i h =
    let e : get_elem? (by_twos 0 24) i ≡ some (0 + 2 * i) = get_elem?-by_twos 24 0 i h in
    ground arith

get_elem?-socket_1 : (i : ℕ) → i < 24 → get_elem? socket_1 i ≡ some (1 + 2 * i)
unfolding socket_1 by_twos
get_elem?-socket_1 i h = get_elem?-by_twos 24 1 i h

-- The first twelve threads go to the even cores of socket 0, the next twelve to the odd ones of
-- socket 1.
pub spread : ℕ → ℕ
spread t = if ltb t 12 then 2 * t else 2 * (t - 12) + 1

core_of-below : (t : ℕ) → t < 24 → core_of (pos t) ≡ some (some (spread t))
unfolding core_of spread
core_of-below t h = elim (Bool-cases (ltb t 12)) [
  | inl e ↦ ground (arith, get_elem?-socket_0 t h)
  | inr e ↦ ground (arith, get_elem?-socket_1 (t - 12) (omega arith))
]

core_of-above : (t : ℕ) → 24 ≤ t → core_of (pos t) ≡ some none
unfolding core_of
core_of-above t h = ground arith

spread-injective : (t u : ℕ) → t < 24 → u < 24 → spread t ≡ spread u → t ≡ u
unfolding spread
spread-injective t u h k e = ground arith

spread-lt : (t : ℕ) → t < 24 → spread t < 24
unfolding spread
spread-lt t h = ground arith

-- `BindToCore` gives the first 24 threads cores below 24, no core to two of them.
pub core_of_spreads :
    (t u : ℕ)
    → t < 24
    → u < 24
    → t ≢ u
    → (c d : ℕ) × (core_of (pos t) ≡ some (some c))
      × (core_of (pos u) ≡ some (some d))
      × (c < 24)
      × (d < 24)
      × (c ≢ d)
core_of_spreads t u h k ne = (
  spread t,
  spread u,
  core_of-below t h,
  core_of-below u k,
  spread-lt t h,
  spread-lt u k,
  λ e. ne (spread-injective t u h k e),
)

-- `stick_this_thread_to_core` refuses a core that is not there, and binds to one that is.
pub stick_this_thread_to_core_lem :
    {W : Type 0} (os : Os W) (core : ℕ) (w : W) {n : ℕ}
    → (os.num_cores w).0 ≡ pos n
    → (stick_this_thread_to_core os (pos core) w).0
      ≡ (if ltb core n then (os.set_affinity core (os.num_cores w).1).0 else einval)
unfolding stick_this_thread_to_core
stick_this_thread_to_core_lem os core w h = ground arith
