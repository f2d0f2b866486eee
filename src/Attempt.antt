-- ===== src/Attempt.antt =====
-- Code with `goto` to one exit label: a state is passed on, and `none` is a jump to the label.
use nvm_rdma_examples.Prelude.{Option, none, some}

abbrev pub Try : Type 0 → Type 0 → Type 0
Try S A = S → Option A × S

module _ {S : Type 0} where
  abbrev pub pure : {A : Type 0} → A → Try S A
  pure a f = (some a, f)

  abbrev pub goto_exit : {A : Type 0} → Try S A
  goto_exit f = (none, f)

  infixl 5 ◌>>=◌ ◌>>◌
  abbrev pub ◌>>=◌ : {A B : Type 0} → Try S A → (A → Try S B) → Try S B
  ◌>>=◌ m k f = let (o, f') = m f in (elim o [ none ↦ (none, f') | some a ↦ k a f' ])

  abbrev pub ◌>>◌ : {A B : Type 0} → Try S A → Try S B → Try S B
  m >> k = m >>= λ _. k

  abbrev pub update : (S → S) → Try S (Unit {0})
  update g f = (some tt, g f)
