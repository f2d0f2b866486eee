-- ===== src/Programs/ReadServer/Memory.antt =====
-- The memory of the server of reads while its endless loop runs.
use nvm_rdma_examples.Prelude.{
  ℕ, zero, suc, ◌+◌, ◌-◌, ◌*◌, ◌%◌, ◌≤◌, ◌<◌, [], ◌∷◌, none, some, ◌≡◌, refl, arith, ◌⊎◌, ltb,
  ltb→lt, length, get_elem?, ◌∙◌, Bool-cases, inl, inr,
}
use nvm_rdma_examples.Text.Digits.{Bytes}
use nvm_rdma_examples.Bench.Rounds.{store_bytes}
use nvm_rdma_examples.Bench.Regions.{store_bytes_before, store_bytes_after}
use nvm_rdma_examples.Programs.{Process, buf_size}
use nvm_rdma_examples.Programs.ReadServer.{upper_text, write_texts, write_pass, keep_writing}

-- The byte at an address behind the start is that of the text.
pub get_elem?-store_bytes :
    (start k : ℕ) (s : Bytes) (m : ℕ → ℕ)
    → k < length s
    → get_elem? s k ≡ some (store_bytes start s m (start + k))
unfolding store_bytes
get_elem?-store_bytes start k [] m h = elim h [ ]
get_elem?-store_bytes start zero (c ∷ s) m h = ground arith
get_elem?-store_bytes start (suc k) (c ∷ s) m h =
    ground (arith, get_elem?-store_bytes (suc start) k s m (omega arith))

write_texts_before :
    (rounds buf kk : ℕ) (m : ℕ → ℕ) (a : ℕ)
    → a < buf + kk * 10
    → write_texts rounds buf kk m a ≡ m a
unfolding write_texts
write_texts_before zero buf kk m a h = refl
write_texts_before (suc rounds) buf kk m a h =
    write_texts_before rounds buf (suc kk) (store_bytes (buf + kk * 10) upper_text m) a
      (omega arith)
    ∙ store_bytes_before (buf + kk * 10) upper_text m a h

write_texts_behind :
    (rounds buf kk : ℕ) (m : ℕ → ℕ) (a : ℕ)
    → buf + (kk + rounds) * 10 ≤ a
    → write_texts rounds buf kk m a ≡ m a
unfolding write_texts
write_texts_behind zero buf kk m a h = refl
write_texts_behind (suc rounds) buf kk m a h =
    write_texts_behind rounds buf (suc kk) (store_bytes (buf + kk * 10) upper_text m) a
      (omega arith)
    ∙ store_bytes_after (buf + kk * 10) upper_text m a (omega arith)

write_texts_inside :
    (rounds buf kk : ℕ) (m : ℕ → ℕ) (d : ℕ)
    → kk * 10 ≤ d
    → d < (kk + rounds) * 10
    → get_elem? upper_text (d % 10) ≡ some (write_texts rounds buf kk m (buf + d))
unfolding write_texts
write_texts_inside zero buf kk m d h k = let bad : ⊥ = omega arith in elim bad [ ]
write_texts_inside (suc rounds) buf kk m d h k = elim (Bool-cases (ltb d (kk * 10 + 10))) [
  | inl e ↦
      let lt : d < kk * 10 + 10 = ltb→lt _ _ e in
      let m' = store_bytes (buf + kk * 10) upper_text m in
      let r = d - kk * 10 in
      let small : r < 10 = omega arith in
      let sum : buf + kk * 10 + r ≡ buf + d = omega arith in
      let place : r ≡ d % 10 = omega arith in
      let here = get_elem?-store_bytes (buf + kk * 10) r upper_text m small in
      let later = write_texts_before rounds buf (suc kk) m' (buf + d) (omega arith) in
      ground (arith, here, later, sum, place)
  | inr e ↦
      write_texts_inside rounds buf (suc kk) (store_bytes (buf + kk * 10) upper_text m) d
        (ground arith) (omega arith)
]

-- The bytes that one pass writes: the 4096 texts, one behind the other.
abbrev pub written : ℕ
written = buf_size * 10

-- Every byte that a pass writes is one of the text, by its distance from the start modulo 10.
write_pass_inside :
    (buf d : ℕ) (m : ℕ → ℕ)
    → d < written
    → get_elem? upper_text (d % 10) ≡ some (write_pass buf m (buf + d))
unfolding write_pass
write_pass_inside buf d m h = write_texts_inside buf_size buf 0 m d (omega arith) (omega arith)

write_pass_outside :
    (buf a : ℕ) (m : ℕ → ℕ) → (a < buf) ⊎ (buf + written ≤ a) → write_pass buf m a ≡ m a
unfolding write_pass
write_pass_outside buf a m (inl h) = write_texts_before buf_size buf 0 m a (omega arith)
write_pass_outside buf a m (inr h) = write_texts_behind buf_size buf 0 m a (omega arith)

module _ {W : Type 0} where
  pub keep_writing_endless : (passes buf : ℕ) (p : Process W) → (keep_writing passes buf p).0 ≡ none
  unfolding keep_writing
  keep_writing_endless zero buf p = refl
  keep_writing_endless (suc passes) buf p =
      keep_writing_endless passes buf (record p { memory = write_pass buf p.memory })

  keep_writing_outside :
      (passes buf a : ℕ) (p : Process W)
      → (a < buf) ⊎ (buf + written ≤ a)
      → (keep_writing passes buf p).1.memory a ≡ p.memory a
  unfolding keep_writing
  keep_writing_outside zero buf a p h = refl
  keep_writing_outside (suc passes) buf a p h =
      keep_writing_outside passes buf a (record p { memory = write_pass buf p.memory }) h
      ∙ write_pass_outside buf a p.memory h

  keep_writing_inside :
      (passes buf d : ℕ) (p : Process W)
      → d < written
      → get_elem? upper_text (d % 10) ≡ some (p.memory (buf + d))
      → get_elem? upper_text (d % 10) ≡ some ((keep_writing passes buf p).1.memory (buf + d))
  unfolding keep_writing
  keep_writing_inside zero buf d p h e = e
  keep_writing_inside (suc passes) buf d p h e =
      keep_writing_inside passes buf d (record p { memory = write_pass buf p.memory }) h
        (write_pass_inside buf d p.memory h)

  -- The endless loop of the server of reads has no end, and after any number of passes but 0 the 40960
  -- bytes from the start of the mapping are the texts one behind the other, and all other bytes are as
  -- they were.
  pub keep_writing_lem :
      (passes buf : ℕ) (p : Process W)
      → let (o, p') = keep_writing (suc passes) buf p in
        (o ≡ none)
        × ((d : ℕ) → d < written → get_elem? upper_text (d % 10) ≡ some (p'.memory (buf + d)))
        × ((a : ℕ) → (a < buf) ⊎ (buf + written ≤ a) → p'.memory a ≡ p.memory a)
  unfolding keep_writing
  keep_writing_lem passes buf p = (
    keep_writing_endless (suc passes) buf p,
    (λ d h.
        keep_writing_inside passes buf d (record p { memory = write_pass buf p.memory }) h
          (write_pass_inside buf d p.memory h)),
    (λ a h. keep_writing_outside (suc passes) buf a p h),
  )
