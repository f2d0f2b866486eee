-- ===== src/Region/Sizes.antt =====
-- The sizes of huge regions, and the mappings that count as valid.
use native.Mathlib.Nat.{div-add-mod', mod-lt}
use nvm_rdma_examples.Prelude.{
  ℕ, ◌+◌, ◌-◌, ◌*◌, ◌/◌, ◌^◌, ◌≤◌, ◌<◌, none, some, ◌≡◌, refl, arith, u64, if◌then◌else◌, ◌==◌,
  ◌||◌,
}
use nvm_rdma_examples.Prelude.Int.{is_neg}
use nvm_rdma_examples.Region.{
  map_failed, Mapping, align_to_sz, huge_size, nvm_create, nvm_create_fsdax, huge_create,
}

round_up : (x a : ℕ) → 0 < a → (x ≤ (x + a - 1) / a * a) × ((x + a - 1) / a * a < x + a)
round_up x a h = omega (arith, div-add-mod' (x + a - 1) a, mod-lt (x + a - 1) {m = a} h)

no_wrap : (x a : ℕ) → 0 < a → x + a < 2 ^ 64 → u64 (u64 (x + a) + 2 ^ 64 - 1) ≡ x + a - 1
no_wrap x a h k = omega arith

-- For an alignment above 0, where the sum of size and alignment does not overflow, `align_to_sz` is
-- the least multiple of the alignment that is not below the size.
pub align_to_sz_lem :
    (x a : ℕ)
    → 0 < a
    → x + a < 2 ^ 64
    → (x ≤ align_to_sz x a) × (align_to_sz x a < x + a) × ((q : ℕ) × (align_to_sz x a ≡ q * a))
unfolding align_to_sz
align_to_sz_lem x a h k =
    rw (no_wrap x a h k) ((round_up x a h).0, (round_up x a h).1, ((x + a - 1) / a, refl))

-- A huge region asked for with a size and an alignment, whose sum with the alignment once more fits in
-- 64 bits, is large enough for an aligned block of the size: it has the size and one alignment more,
-- and less than two.
pub huge_size_lem :
    (sz a : ℕ)
    → 0 < a
    → sz + a + a < 2 ^ 64
    → (sz + a ≤ huge_size sz a) × (huge_size sz a < sz + a + a)
unfolding huge_size
huge_size_lem sz a h k =
    let e : u64 (sz + a) ≡ sz + a = omega arith in
    let (lo, hi, q) = align_to_sz_lem (sz + a) a h k in rw e (lo, hi)

module _ {W : Type 0} (m : Mapping W) (sz : ℕ) (w : W) where
  -- The only mapping of the NVM device that is not taken for valid is one at 0: a mapping that failed
  -- yields a region at MAP_FAILED, of the size asked for.
  pub nvm_create_lem :
      let (fd, w1) = m.open_device w in
      let addr = (m.mmap fd sz w1).0 in
      (nvm_create m sz w).0 ≡ (
        if is_neg fd || addr == 0
        then none
        else some (record { fd = fd; region = record { sz = sz; addr = addr } }))
  unfolding nvm_create
  nvm_create_lem = ground arith

  -- A mapping of huge pages that failed yields no region, and one that succeeded yields its region.
  pub huge_create_lem :
      (align_sz : ℕ) {ptr : ℕ}
      → (m.mmap_huge (huge_size sz align_sz) w).0 ≡ ptr
      → (huge_create m sz align_sz w).0 ≡ (
          if ptr == map_failed || ptr == 0
          then none
          else some (record { sz = huge_size sz align_sz; addr = ptr }))
  unfolding huge_create
  huge_create_lem align_sz e = ground arith

module _ {W : Type 0} (m : Mapping W) (w : W) where
  -- The creation of a region in "fsdax" mode yields no region, whatever the file: it fails an assertion
  -- where the file opens, and returns none where it does not.
  pub nvm_create_fsdax_lem :
      (junk : ℕ)
      → (nvm_create_fsdax m junk w).0 ≡ (if is_neg (m.open_device w).0 then some none else none)
  unfolding nvm_create_fsdax
  nvm_create_fsdax_lem junk = ground arith
