-- ===== src/Region.antt =====
-- Memory regions of the NVM client and server, of nvm_write/memory_region.hh and
-- nvm_write/nvm_region.hh. A pointer is a number: 0 is null, and MAP_FAILED is (void *) -1.
pub mod Sizes
use nvm_rdma_examples.Prelude.{
  ℕ, ◌+◌, ◌-◌, ◌*◌, ◌/◌, ◌%◌, ◌^◌, Bool, true, false, not, ◌&&◌, Option, none, some, if◌then◌else◌,
  ◌==◌, u64,
}
use nvm_rdma_examples.Prelude.Int.{ℤ, is_neg}

abbrev pub map_failed : ℕ
map_failed = 2 ^ 64 - 1

-- The calls of the system over a type of worlds: only their types are fixed.
pub record Mapping (W : Type 0) : Type 0 where
  -- `open` of the device
  pub open_device : W → ℤ × W
  -- `mmap` of a file descriptor, shared, and of anonymous huge pages
  pub mmap : ℤ → ℕ → W → ℕ × W
  pub mmap_huge : ℕ → W → ℕ × W
  pub malloc : ℕ → W → ℕ × W
  -- the size of the file that backs a region
  pub file_size : W → ℕ
  pub close : ℤ → W → W

-- `struct MemoryRegion`.
pub record MemoryRegion : Type 0 where
  pub sz : ℕ
  pub addr : ℕ

unfoldable pub valid : MemoryRegion → Bool
valid r = not (r.addr == 0)

-- The size and the address that the registered memory gets; none for a region that is not valid.
unfoldable pub convert_to_rmem : MemoryRegion → Option (ℕ × ℕ)
unfolding valid
convert_to_rmem r = if valid r then some (r.sz, r.addr) else none

-- `class NVMRegion`.
pub record NvmRegion : Type 0 where
  pub fd : ℤ
  pub region : MemoryRegion

unfoldable pub nvm_valid : NvmRegion → Bool
nvm_valid r = not (is_neg r.fd) && not (r.region.addr == 0)

-- `align_to_sz`, in 64 bits; `align_sz` is not 0.
unfoldable pub align_to_sz : ℕ → ℕ → ℕ
align_to_sz x align_sz = u64 (u64 (x + align_sz) + 2 ^ 64 - 1) / align_sz * align_sz

unfoldable pub huge_size : ℕ → ℕ → ℕ
unfolding align_to_sz
huge_size sz align_sz = align_to_sz (u64 (sz + align_sz)) align_sz

module _ {W : Type 0} (m : Mapping W) where
  -- `DRAMRegion::create`: `none` is the failed assertion.
  unfoldable pub dram_create : ℕ → W → Option MemoryRegion × W
  dram_create sz w =
      let (addr, w') = m.malloc sz w in
      (if addr == 0 then none else some (record { sz = sz; addr = addr }), w')

  -- The constructor of an NVM region in "devdax" mode, which maps also where `open` failed.
  unfoldable pub nvm_new : ℕ → W → NvmRegion × W
  nvm_new sz w =
      let (fd, w1) = m.open_device w in
      let (addr, w2) = m.mmap fd sz w1 in
      (record { fd = fd; region = record { sz = sz; addr = addr } }, w2)

  -- The destructor closes the descriptor of a valid region, and unmaps nothing.
  unfoldable pub nvm_destroy : NvmRegion → W → W
  unfolding nvm_valid
  nvm_destroy r w = if nvm_valid r then m.close r.fd w else w

  -- `NVMRegion::create` with a size; a region that is not valid is destroyed again.
  unfoldable pub nvm_create : ℕ → W → Option NvmRegion × W
  unfolding nvm_new nvm_destroy nvm_valid
  nvm_create sz w =
      let (r, w') = nvm_new sz w in if nvm_valid r then (some r, w') else (none, nvm_destroy r w')

  -- The constructor in "fsdax" mode: a file that opens is mapped, and then the assertion fails, which
  -- is `none`. The size of a region that was not mapped is not initialised: `junk`.
  unfoldable pub nvm_new_fsdax : ℕ → W → Option NvmRegion × W
  nvm_new_fsdax junk w =
      let (fd, w1) = m.open_device w in
      if is_neg fd
      then (some (record { fd = fd; region = record { sz = junk; addr = 0 } }), w1)
      else (none, (m.mmap fd (m.file_size w1) w1).1)

  -- `NVMRegion::create` without a size.
  unfoldable pub nvm_create_fsdax : ℕ → W → Option (Option NvmRegion) × W
  unfolding nvm_new_fsdax nvm_destroy nvm_valid
  nvm_create_fsdax junk w =
      let (o, w') = nvm_new_fsdax junk w in
      elim o [
        | none ↦ (none, w')
        | some r ↦ if nvm_valid r then (some (some r), w') else (some none, nvm_destroy r w')
      ]

  -- `HugeRegion::create`: MAP_FAILED becomes null.
  unfoldable pub huge_new : ℕ → ℕ → W → MemoryRegion × W
  unfolding huge_size
  huge_new sz align_sz w =
      let size = huge_size sz align_sz in
      let (ptr, w') = m.mmap_huge size w in
      (record { sz = size; addr = if ptr == map_failed then 0 else ptr }, w')

  unfoldable pub huge_create : ℕ → ℕ → W → Option MemoryRegion × W
  unfolding huge_new valid
  huge_create sz align_sz w =
      let (r, w') = huge_new sz align_sz w in (if valid r then some r else none, w')
