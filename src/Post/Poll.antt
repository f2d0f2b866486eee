-- ===== src/Post/Poll.antt =====
-- The polling loop against the completions to come.
use nvm_rdma_examples.Prelude.{
  ℕ, zero, suc, ◌+◌, ◌^◌, ◌≤◌, ◌<◌, true, false, List, ◌∷◌, ◌≡◌, refl, arith, if◌then◌else◌, u16,
  Option, none, some,
}
use nvm_rdma_examples.Prelude.Int.{ℤ, pos, minus_one, to_u32, lt_int}
use nvm_rdma_examples.Verbs.Types.{Wc}
use nvm_rdma_examples.Verbs.Interface.{Verbs}
use nvm_rdma_examples.Effects.{Call, Sys}
use nvm_rdma_examples.Post.{poll_loop, poll_with_cq, stored, is_success}

module _ {W : Type 0} (v : Verbs W) (cq : ℕ) where
  -- From a world, the next `polls` polls find `n` completions, one at a time, and the last of them
  -- stored in place of `wc` is `last`.
  pub data Delivers : ℕ → ℕ → W → Wc → Wc → Type 0 where
    delivered : {w : W} {wc : Wc} → Delivers 0 0 w wc wc
    idle :
        {n polls : ℕ} {w : W} {wc last : Wc}
        → (v.poll_cq cq w).0 ≡ (pos 0, none)
        → Delivers n polls (v.poll_cq cq w).1 wc last
        → Delivers n (suc polls) w wc last
    completes :
        {n polls : ℕ} {w : W} {wc wc' last : Wc}
        → (v.poll_cq cq w).0 ≡ (pos 1, some wc')
        → Delivers n polls (v.poll_cq cq w).1 wc' last
        → Delivers (suc n) (suc polls) w wc last

  poll_loop_step :
      (fuel : ℕ) (number : ℤ) (count : ℕ) (wc : Wc) (s : Sys W) {new : ℤ} {o : Option Wc}
      → (v.poll_cq cq s.world).0 ≡ (new, o)
      → lt_int (u16 (count + to_u32 new)) number ≡ true
      → poll_loop v (suc fuel) cq number count wc s
        ≡ poll_loop v fuel cq number
            (u16 (count + to_u32 new))
            (stored wc o)
            (record { world = (v.poll_cq cq s.world).1; calls = Call.polled_cq cq new o ∷ s.calls })
  unfolding poll_loop
  poll_loop_step fuel number count wc s e t = ground arith

  poll_loop_end :
      (fuel : ℕ) (number : ℤ) (count : ℕ) (wc : Wc) (s : Sys W) {new : ℤ} {o : Option Wc}
      → (v.poll_cq cq s.world).0 ≡ (new, o)
      → lt_int (u16 (count + to_u32 new)) number ≡ false
      → poll_loop v (suc fuel) cq number count wc s ≡ (
        some (u16 (count + to_u32 new), stored wc o),
        record { world = (v.poll_cq cq s.world).1; calls = Call.polled_cq cq new o ∷ s.calls },
      )
  unfolding poll_loop
  poll_loop_end fuel number count wc s e t = ground arith

  -- Without a completion to come, the one stored stays.
  Delivers-none :
      {n polls : ℕ} {w : W} {wc last : Wc} → Delivers n polls w wc last → n ≡ 0 → last ≡ wc
  Delivers-none delivered e = refl
  Delivers-none (idle p d) e = Delivers-none d e
  Delivers-none (completes p d) e = absurd (omega arith)

  -- The count and the completion that the loop ends with, for any count that it starts from.
  poll_loop-Delivers :
      {n polls : ℕ} {w : W} {wc last : Wc} (fuel number count : ℕ) (calls : List Call)
      → Delivers n polls w wc last
      → 0 < n
      → count + n ≡ number
      → number < 2 ^ 16
      → polls ≤ fuel
      → (poll_loop v fuel cq (pos number) count wc (record { world = w; calls = calls })).0
        ≡ some (number, last)
  poll_loop-Delivers fuel number count calls delivered h e lt le = absurd (omega arith)
  poll_loop-Delivers zero number count calls (idle p d) h e lt le = absurd (omega arith)
  poll_loop-Delivers (suc fuel) number count calls (idle {w = w} {wc = wc} p d) h e lt le =
      rw
        (poll_loop_step fuel (pos number) count wc (record { world = w; calls = calls }) p
          (ground arith))
        (poll_loop-Delivers fuel number (u16 (count + to_u32 (pos 0)))
          (Call.polled_cq cq (pos 0) none ∷ calls) d h (omega arith) lt (omega arith))
  poll_loop-Delivers zero number count calls (completes p d) h e lt le = absurd (omega arith)
  poll_loop-Delivers (suc fuel) number count calls (completes {n = zero} {w = w} {wc = wc} p d) h e
        lt le =
      rw
        (poll_loop_end fuel (pos number) count wc (record { world = w; calls = calls }) p
          (ground arith))
        (ground (arith, Delivers-none d refl))
  poll_loop-Delivers (suc fuel) number count calls
        (completes {n = suc n} {w = w} {wc = wc} {wc' = wc'} p d) h e lt le =
      rw
        (poll_loop_step fuel (pos number) count wc (record { world = w; calls = calls }) p
          (ground arith))
        (poll_loop-Delivers fuel number (u16 (count + to_u32 (pos 1)))
          (Call.polled_cq cq (pos 1) (some wc') ∷ calls) d (omega arith) (omega arith) lt
          (omega arith))

  -- Where the queue delivers the completions asked for, one to 2^16 - 1 of them, within as many
  -- polls as the fuel, `pollWithCQ` returns: their number if the last of them is a success, and -1
  -- if it is a failure.
  pub poll_with_cq-Delivers :
      {n polls : ℕ} {last : Wc} (fuel : ℕ) (wc : Wc) (s : Sys W)
      → Delivers n polls s.world wc last
      → 0 < n
      → n < 2 ^ 16
      → polls ≤ fuel
      → (poll_with_cq v fuel cq (pos n) wc s).0
        ≡ some (if is_success last.status then pos n else minus_one, last)
  unfolding poll_with_cq
  poll_with_cq-Delivers {n} fuel wc s d h lt le =
      ground (arith, poll_loop-Delivers fuel n 0 s.calls d h (omega arith) lt le)

  -- Where the first poll fails with -1 and fewer than 2^16 completions are asked for, the function
  -- returns 65535, as if so many completions had arrived, whenever the structure passed in says
  -- success.
  pub poll_with_cq_failed :
      (fuel n : ℕ) (wc : Wc) (s : Sys W)
      → n < 2 ^ 16
      → (v.poll_cq cq s.world).0 ≡ (minus_one, none)
      → is_success wc.status ≡ true
      → (poll_with_cq v (suc fuel) cq (pos n) wc s).0 ≡ some (pos 65535, wc)
  unfolding poll_with_cq
  poll_with_cq_failed fuel n wc s lt p ok =
      ground (arith, poll_loop_end fuel (pos n) 0 wc s p (ground arith))

  -- With 65536 completions or more to count, the polling loop ends with no amount of fuel.
  pub poll_loop_never :
      (fuel n count : ℕ) (wc : Wc) (s : Sys W)
      → 2 ^ 16 ≤ n
      → (poll_loop v fuel cq (pos n) count wc s).0 ≡ none
  poll_loop_never zero n count wc s h = unfold poll_loop in refl
  poll_loop_never (suc fuel) n count wc s h =
      rw (poll_loop_step fuel (pos n) count wc s refl (ground arith))
        (poll_loop_never fuel n _ _ _ h)
