-- ===== src/Prelude/Marks.antt =====
-- Numbers that are marked one at a time, and how many of the first ones are.
use nvm_rdma_examples.Prelude.{
  ℕ, zero, suc, ◌+◌, ◌≤◌, ◌<◌, Bool, true, false, ◌≡◌, refl, arith, if◌then◌else◌, ◌==◌, Bool-cases,
  inl, inr,
}

unfoldable pub mark : ℕ → (ℕ → Bool) → ℕ → Bool
mark i f j = if i == j then true else f j

-- How many of the numbers below a bound are marked.
abbrev pub count : ℕ → (ℕ → Bool) → ℕ
count zero f = 0
count (suc n) f = count n f + (if f n then 1 else 0)

pub count_le : (n : ℕ) (f : ℕ → Bool) → count n f ≤ n
count_le zero f = omega arith
count_le (suc n) f = ground (arith, count_le n f)

pub count_none : (n : ℕ) → count n (λ i. false) ≡ 0
count_none zero = refl
count_none (suc n) = ground (arith, count_none n)

count-mark_above : (n i : ℕ) (f : ℕ → Bool) → n ≤ i → count n (mark i f) ≡ count n f
unfolding mark
count-mark_above zero i f le = refl
count-mark_above (suc n) i f le = ground (arith, count-mark_above n i f (omega arith))

-- A new mark is counted once.
pub count-mark : (n i : ℕ) (f : ℕ → Bool) → i < n → f i ≡ false → count n (mark i f) ≡ count n f + 1
unfolding mark
count-mark zero i f lt e = absurd (omega arith)
count-mark (suc n) i f lt e = elim (Bool-cases (i == n)) [
  | inl same ↦ ground (arith, count-mark_above n i f)
  | inr other ↦ ground (arith, count-mark n i f)
]

pub count_pos : (n i : ℕ) (f : ℕ → Bool) → i < n → f i ≡ true → 1 ≤ count n f
count_pos zero i f lt e = absurd (omega arith)
count_pos (suc n) i f lt e = elim (Bool-cases (i == n)) [
  | inl same ↦ ground arith
  | inr other ↦ ground (arith, count_pos n i f)
]
