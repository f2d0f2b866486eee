-- ===== src/Os.antt =====
-- Processor affinity and the mapping of the NVM device, of nvm_ibverbs/src/util.cc and, for threads of
-- the NVM client, `BindToCore` of nvm_write/client.cc.
pub mod Cores
use nvm_rdma_examples.Prelude.{
  ℕ, ◌+◌, ◌-◌, ◌*◌, Bool, true, false, ◌||◌, List, [], ◌∷◌, Option, none, some, if◌then◌else◌,
  get_elem?, leb,
}
use nvm_rdma_examples.Prelude.Int.{ℤ, pos, negsuc, is_neg, is_zero, lt_int}

-- The calls of the operating system over a type of worlds: only their types are fixed.
pub record Os (W : Type 0) : Type 0 where
  -- sysconf(_SC_NPROCESSORS_ONLN)
  pub num_cores : W → ℤ × W
  -- the calling thread is bound to one core
  pub set_affinity : ℕ → W → ℤ × W
  pub geteuid : W → ℕ × W
  -- `open` with the flags and the mode that `opennvm` gives
  pub open_file : W → ℤ × W
  -- the address of a mapping of a size of the file; `none` is MAP_FAILED
  pub mmap : ℤ → ℕ → W → Option ℕ × W

-- EINVAL of <errno.h>.
abbrev pub einval : ℤ
einval = pos 22

-- `core_id >= num_cores`, for a `core_id` that is not negative.
abbrev pub ge_cores : ℕ → ℤ → Bool
ge_cores core n = if lt_int core n then false else true

module _ {W : Type 0} (os : Os W) where
  -- `core_id` is not looked at further where it is out of range.
  unfoldable pub stick_this_thread_to_core : ℤ → W → ℤ × W
  stick_this_thread_to_core (negsuc k) w = (einval, (os.num_cores w).1)
  stick_this_thread_to_core (pos core_id) w =
      let (n, w') = os.num_cores w in
      if ge_cores core_id n then (einval, w') else os.set_affinity core_id w'

  -- `none` is `exit(-1)`. A failed `open` is reported and no more, and the result of `mmap` is stored
  -- whatever it is; `some none` is MAP_FAILED in `*buffer`.
  unfoldable pub open_nvm : ℕ → W → Option (Option ℕ) × W
  open_nvm mysize w =
      let (uid, w1) = os.geteuid w in
      if leb 1 uid
      then (none, w1)
      else (let (fd, w2) = os.open_file w1 in
          let (buffer, w3) = os.mmap fd mysize w2 in (some buffer, w3))

-- `per_socket_cores` and the tables of nvm_write/client.cc.
abbrev pub per_socket_cores : ℕ
per_socket_cores = 12

unfoldable pub socket_0 : List ℕ
socket_0 =
    0 ∷ 2 ∷ 4 ∷ 6 ∷ 8 ∷ 10 ∷ 12 ∷ 14 ∷ 16 ∷ 18 ∷ 20 ∷ 22 ∷ 24 ∷ 26 ∷ 28 ∷ 30 ∷ 32 ∷ 34 ∷ 36 ∷ 38
    ∷ 40 ∷ 42 ∷ 44 ∷ 46 ∷ []

unfoldable pub socket_1 : List ℕ
socket_1 =
    1 ∷ 3 ∷ 5 ∷ 7 ∷ 9 ∷ 11 ∷ 13 ∷ 15 ∷ 17 ∷ 19 ∷ 21 ∷ 23 ∷ 25 ∷ 27 ∷ 29 ∷ 31 ∷ 33 ∷ 35 ∷ 37 ∷ 39
    ∷ 41 ∷ 43 ∷ 45 ∷ 47 ∷ []

-- The core that `BindToCore` binds a thread to (without SCALE): `some none` where it returns at once,
-- and `none` where it would read outside of a table.
unfoldable pub core_of : ℤ → Option (Option ℕ)
unfolding socket_0 socket_1
core_of (negsuc k) = none
core_of (pos t_id) =
    if leb (per_socket_cores * 2) t_id
    then some none
    else elim (if leb per_socket_cores t_id
        then get_elem? socket_1 (t_id - per_socket_cores)
        else get_elem? socket_0 t_id) [ none ↦ none | some y ↦ some (some y) ]

module _ {W : Type 0} (os : Os W) where
  -- The result of `sched_setaffinity` is not looked at; `none` is a read outside of a table.
  unfoldable pub bind_to_core : ℤ → W → Option ℤ × W
  bind_to_core t_id w = elim (core_of t_id) [
    | none ↦ (none, w)
    | some none ↦ (some (pos 0), w)
    | some (some y) ↦ (some (pos 0), (os.set_affinity y w).1)
  ]
