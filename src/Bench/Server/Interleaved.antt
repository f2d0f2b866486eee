-- ===== src/Bench/Server/Interleaved.antt =====
-- The server threads of the benchmark "read" side by side, and each of them by itself.
use nvm_rdma_examples.Prelude.{
  ℕ, zero, suc, ◌+◌, ◌*◌, ◌≤◌, ◌≢◌, [], ◌∷◌, ◌++◌, ◌≡◌, refl, sym, ap, ◌∙◌, arith, length,
  length-append, append_assoc, append-nil, ◌==◌, Bool-cases, inl, inr,
}
use mathlib.Core.Path.{subst}
use nvm_rdma_examples.Text.Digits.{Bytes}
use nvm_rdma_examples.Bench.{Bench, Host}
use nvm_rdma_examples.Bench.Rounds.{store_bytes, round_text, round_start, server_round}
use nvm_rdma_examples.Bench.Regions.{InBlock, blocks_disjoint}
use nvm_rdma_examples.Bench.Server.{serve_rounds}
use nvm_rdma_examples.Bench.Server.Steps.{
  Writer, Shared, round_bytes, set_byte, set_writer, begin_round, Step, store, next_round, Reached,
  initial, next,
}
use nvm_rdma_examples.Bench.Server.Isolated.{round_text_short}

-- The memory after the first rounds of one thread by itself.
unfoldable alone : Bench → ℕ → ℕ → (ℕ → ℕ) → ℕ → ℕ
alone b i zero m = m
alone b i (suc kk) m = server_round b i kk (alone b i kk m)

-- That memory with the start of a further round.
abbrev so_far : Bench → (ℕ → ℕ) → ℕ → Writer → ℕ → ℕ
so_far b m i w = store_bytes (round_start b i w.kk) w.stored (alone b i w.kk m)

-- What a thread has stored and what is left are the bytes of its round, and its block is as it would be
-- if it ran by itself.
record IsAlone (b : Bench) (m memory : ℕ → ℕ) (i : ℕ) (w : Writer) : Type 0 where
  whole : w.stored ++ w.left ≡ round_bytes i w.kk
  own : (a : ℕ) → InBlock b i a → memory a ≡ so_far b m i w a

store_bytes-append :
    (start : ℕ) (s : Bytes) (c : ℕ) (m : ℕ → ℕ) (a : ℕ)
    → store_bytes start (s ++ c ∷ []) m a ≡ set_byte (start + length s) c (store_bytes start s m) a
unfolding store_bytes set_byte
store_bytes-append start [] c m a = ground arith
store_bytes-append start (d ∷ s) c m a = ground (arith, store_bytes-append (suc start) s c m a)

-- A byte of the round of one thread is stored in its block.
store_place :
    (b : Bench) (i kk : ℕ) (stored rest : Bytes) (c : ℕ)
    → stored ++ c ∷ rest ≡ round_bytes i kk
    → kk * 17 + 35 ≤ b.block_size
    → InBlock b i (round_start b i kk + length stored)
store_place b i kk stored rest c whole room =
    let sizes : length stored + length (c ∷ rest) ≡ length (round_text i kk) + 1 =
      sym (length-append stored (c ∷ rest))
      ∙ ap (λ t. length t) whole
      ∙ length-append (round_text i kk) (0 ∷ []) in
    (omega arith, omega (arith, sizes, round_text_short i kk))

set_byte_other : (x c : ℕ) (m : ℕ → ℕ) (a : ℕ) → x ≢ a → set_byte x c m a ≡ m a
unfolding set_byte
set_byte_other x c m a ne = ground arith

set_byte_same : (x c : ℕ) (m m' : ℕ → ℕ) (a : ℕ) → m a ≡ m' a → set_byte x c m a ≡ set_byte x c m' a
unfolding set_byte
set_byte_same x c m m' a e = ground arith

set_writer_all :
    (P : ℕ → Writer → Type 0) (i : ℕ) (w : Writer) (writers : ℕ → Writer)
    → P i w
    → ((j : ℕ) → i ≢ j → P j (writers j))
    → (j : ℕ) → P j (set_writer i w writers j)
unfolding set_writer
set_writer_all P i w writers own other j = elim (Bool-cases (i == j)) [
  | inl e ↦ (let same : i ≡ j = ground arith in rw e (subst (λ k. P k w) same own))
  | inr e ↦ (let ne : i ≢ j = ground arith in rw e (other j ne))
]

module _ (b : Bench) (m : ℕ → ℕ) where
  -- The thread that stores a byte goes on as it would by itself.
  store-IsAlone :
      (memory : ℕ → ℕ) (i c : ℕ) (w : Writer) (rest : Bytes)
      → w.left ≡ c ∷ rest
      → IsAlone b m memory i w
      → IsAlone b m
          (set_byte (round_start b i w.kk + length w.stored) c memory)
          i
          (record w { stored = w.stored ++ c ∷ []; left = rest })
  store-IsAlone memory i c w rest left h = record {
    whole = append_assoc w.stored (c ∷ []) rest ∙ ap (λ t. w.stored ++ t) (sym left) ∙ h.whole;
    own = λ a y.
        let start = round_start b i w.kk in
        rw (store_bytes-append start w.stored c (alone b i w.kk m) a)
          (set_byte_same (start + length w.stored) c memory (so_far b m i w) a (h.own a y));
  }

  -- A byte that another thread stores is outside of the block.
  other-IsAlone :
      (memory : ℕ → ℕ) (i j x c : ℕ) (w : Writer)
      → i ≢ j
      → InBlock b i x
      → IsAlone b m memory j w
      → IsAlone b m (set_byte x c memory) j w
  other-IsAlone memory i j x c w ne place h = record {
    whole = h.whole;
    own = λ a y.
        let apart : x ≢ a =
          λ e. blocks_disjoint b i j x ne place (subst (λ k. InBlock b j k) (sym e) y) in
        set_byte_other x c memory a apart ∙ h.own a y;
  }

  -- Where nothing is left of a round, the thread has done one more.
  next_round-IsAlone :
      (memory : ℕ → ℕ) (i : ℕ) (w : Writer)
      → w.left ≡ []
      → IsAlone b m memory i w
      → IsAlone b m memory i (begin_round i (suc w.kk))
  unfolding alone server_round store_bytes
  next_round-IsAlone memory i w left h =
      let all : w.stored ≡ round_bytes i w.kk =
        sym (append-nil w.stored) ∙ ap (λ t. w.stored ++ t) (sym left) ∙ h.whole in
      record {
        whole = refl;
        own = λ a y.
            h.own a y ∙ ap (λ t. store_bytes (round_start b i w.kk) t (alone b i w.kk m) a) all;
      }

  Step-IsAlone :
      {s s' : Shared}
      → Step b s s'
      → ((i : ℕ) → IsAlone b m s.memory i (s.writers i))
      → (i : ℕ) → IsAlone b m s'.memory i (s'.writers i)
  Step-IsAlone (store {s = s} i c {rest = rest} left room) h =
      let w = s.writers i in
      let before : w.stored ++ c ∷ rest ≡ round_bytes i w.kk =
        ap (λ t. w.stored ++ t) (sym left) ∙ (h i).whole in
      let place = store_place b i w.kk w.stored rest c before room in
      let x = round_start b i w.kk + length w.stored in
      set_writer_all (λ j v. IsAlone b m (set_byte x c s.memory) j v) i
        (record w { stored = w.stored ++ c ∷ []; left = rest }) s.writers
        (store-IsAlone s.memory i c w rest left (h i))
        (λ j ne. other-IsAlone s.memory i j x c (s.writers j) ne place (h j))
  Step-IsAlone (next_round {s = s} i left) h =
      let w = s.writers i in
      set_writer_all (λ j v. IsAlone b m s.memory j v) i (begin_round i (suc w.kk)) s.writers
        (next_round-IsAlone s.memory i w left (h i)) (λ j ne. h j)

  Reached-IsAlone : {s : Shared} → Reached b m s → (i : ℕ) → IsAlone b m s.memory i (s.writers i)
  unfolding alone store_bytes
  Reached-IsAlone initial i = record { whole = refl; own = λ a y. refl }
  Reached-IsAlone (next r t) i = Step-IsAlone t (Reached-IsAlone r) i

  -- The rounds of one thread by itself, from the first on.
  serve_rounds-alone :
      {W : Type 0} (rounds i kk : ℕ) (h : Host W)
      → h.memory ≡ alone b i kk m
      → (serve_rounds b rounds i kk h).1.memory ≡ alone b i (kk + rounds) m
  unfolding serve_rounds alone
  serve_rounds-alone zero i kk h e =
      let last : kk ≡ kk + 0 = omega arith in e ∙ ap (λ k. alone b i k m) last
  serve_rounds-alone (suc rounds) i kk h e =
      let moved : suc kk + rounds ≡ kk + suc rounds = omega arith in
      serve_rounds-alone rounds i (suc kk) (record h { memory = server_round b i kk h.memory })
        (ap (λ x. server_round b i kk x) e)
      ∙ ap (λ k. alone b i k m) moved

-- Whatever the order in which the server threads store their bytes, as long as the blocks have room for
-- their rounds, a thread that has ended its rounds so far has left in its block what the same number of
-- rounds leave where it runs by itself.
pub interleaved-serve_rounds :
    {W : Type 0} (b : Bench) (h : Host W) (s : Shared) (i a : ℕ)
    → Reached b h.memory s
    → (s.writers i).stored ≡ []
    → InBlock b i a
    → s.memory a ≡ (serve_rounds b (s.writers i).kk i 0 h).1.memory a
unfolding alone store_bytes
interleaved-serve_rounds b h s i a r done y =
    let kk = (s.writers i).kk in
    let own = (Reached-IsAlone b h.memory r i).own a y in
    let none_yet = ap (λ t. store_bytes (round_start b i kk) t (alone b i kk h.memory) a) done in
    let same : 0 + kk ≡ kk = omega arith in
    let served =
      serve_rounds-alone b h.memory kk i 0 h refl ∙ ap (λ k. alone b i k h.memory) same in
    own ∙ none_yet ∙ ap (λ x. x a) (sym served)

set_writer_own : (i : ℕ) (w : Writer) (writers : ℕ → Writer) → set_writer i w writers i ≡ w
unfolding set_writer
set_writer_own i w writers = ground arith

-- A thread whose block has room for its round can store the bytes that are left of it.
pub finish_round :
    (b : Bench) (m : ℕ → ℕ) (i kk : ℕ) (stored left : Bytes) (s : Shared)
    → kk * 17 + 35 ≤ b.block_size
    → Reached b m s
    → s.writers i ≡ record { kk = kk; stored = stored; left = left }
    → (s' : Shared) × Reached b m s' × ((s'.writers i).kk ≡ kk) × ((s'.writers i).left ≡ [])
finish_round b m i kk stored [] s room r e = (s, r, ap (λ w. w.kk) e, ap (λ w. w.left) e)
finish_round b m i kk stored (c ∷ left) s room r e =
    let room' = subst (λ k. k * 17 + 35 ≤ b.block_size) (sym (ap (λ (w : Writer). w.kk) e)) room in
    finish_round b m i kk (stored ++ c ∷ []) left _ room
      (Reached.next r (Step.store i c {rest = left} (ap (λ w. w.left) e) room'))
      (set_writer_own i _ s.writers
        ∙ ap (λ (w : Writer). record w { stored = w.stored ++ c ∷ []; left = left }) e)
