-- ===== src/Gid/Lowercase.antt =====
-- Gids and their texts in lower case as types.
use nvm_rdma_examples.Prelude.{
  ℕ, zero, suc, ◌+◌, ◌-◌, ◌*◌, ◌/◌, ◌%◌, ◌<◌, ◌≡◌, refl, ap, ◌∙◌, sym, [], ◌∷◌, true, Bool, arith,
  leb, ◌&&◌, ◌||◌, length, All, append-nil, if◌then◌else◌,
}
use mathlib.Core.HLevel.{Σ_prop_path, Σ_prop}
use mathlib.Core.Equiv.{IsContr}
use native.Mathlib.Bridge.{le_prop}
use native.Mathlib.Nat.{ℕ_set}
use nvm_rdma_examples.Text.Digits.{Bytes, digit}
use nvm_rdma_examples.Gid.{IsByte, IsGid, gid_to_wire_gid, wire_gid_to_gid}
use nvm_rdma_examples.Gid.Wire.{wire_gid_to_gid-gid_to_wire_gid}
use nvm_rdma_examples.Gid.Pairs.{hex_bytes, gid_to_wire_gid-hex_bytes}

-- A digit as `%x` writes it.
abbrev pub is_lower : ℕ → Bool
is_lower c = leb b'0' c && leb c b'9' || leb b'a' c && leb c b'f'

abbrev pub IsLower : ℕ → Type 0
IsLower c = is_lower c ≡ true

-- A text of 32 digits in lower case, and the gids whose text it is.
pub record IsGidText (t : Bytes) : Type 0 where
  pub size : length t ≡ 32
  pub lower : All IsLower t

pub record HasText (t g : Bytes) : Type 0 where
  pub is_gid : IsGid g
  pub text : gid_to_wire_gid g ≡ t

All-IsProp : (P : ℕ → Type 0) → ((c : ℕ) → IsProp (P c)) → (s : Bytes) → IsProp (All P s)
All-IsProp P h [] = λ x y. refl
All-IsProp P h (c ∷ s) = Σ_prop (h c) (λ x. All-IsProp P h s)

IsGid-IsProp : (g : Bytes) → IsProp (IsGid g)
IsGid-IsProp g x y = λ i. record {
  sixteen = ℕ_set _ _ x.sixteen y.sixteen i;
  bytes = All-IsProp IsByte (λ c. le_prop) g x.bytes y.bytes i;
}

Bytes-IsSet : IsSet Bytes
Bytes-IsSet = hlevel

HasText-IsProp : (t g : Bytes) → IsProp (HasText t g)
HasText-IsProp t g x y = λ i. record {
  is_gid = IsGid-IsProp g x.is_gid y.is_gid i;
  text = Bytes-IsSet _ _ x.text y.text i;
}

digit-IsLower : (d : ℕ) → d < 16 → IsLower (digit d)
unfolding digit
digit-IsLower d h = ground arith

hex_bytes-IsLower : (s : Bytes) → All IsByte s → All IsLower (hex_bytes s)
unfolding hex_bytes
hex_bytes-IsLower [] h = tt
hex_bytes-IsLower (b ∷ s) h = (
  digit-IsLower (b / 16) (omega arith),
  (digit-IsLower (b % 16) (omega arith), hex_bytes-IsLower s h.1),
)

-- The value of a digit in lower case.
unfoldable value : ℕ → ℕ
value c = if leb c b'9' then c - b'0' else c - b'a' + 10

digit-value : (c : ℕ) → IsLower c → (digit (value c) ≡ c) × (value c < 16)
unfolding digit value
digit-value c h = (ground arith, ground arith)

-- Every text of digits in lower case is that of bytes.
bytes_of :
    (k : ℕ) (t : Bytes)
    → length t ≡ k + k
    → All IsLower t
    → (g : Bytes) × (length g ≡ k) × All IsByte g × (hex_bytes g ≡ t)
unfolding hex_bytes
bytes_of zero [] e h = ([], refl, tt, refl)
bytes_of zero (c ∷ t) e h = absurd (omega arith)
bytes_of (suc k) [] e h = absurd (omega arith)
bytes_of (suc k) (c ∷ []) e h = absurd (omega arith)
bytes_of (suc k) (c ∷ d ∷ t) e h =
    let (g, size, bytes, same) = bytes_of k t (omega arith) h.1.1 in
    let (high, high_lt) = digit-value c h.0 in
    let (low, low_lt) = digit-value d h.1.0 in
    let b = value c * 16 + value d in
    let b_high : b / 16 ≡ value c = omega arith in
    let b_low : b % 16 ≡ value d = omega arith in
    (b ∷ g, omega arith, (omega arith, bytes), rw (b_high, b_low, high, low, same) refl)

-- A gid is read back from its text.
read_text : (junk : ℕ) (t g : Bytes) → HasText t g → wire_gid_to_gid junk t ≡ g
read_text junk t g h =
    ap (λ x. wire_gid_to_gid junk x) (sym h.text ∙ sym (append-nil (gid_to_wire_gid g)))
    ∙ wire_gid_to_gid-gid_to_wire_gid junk g [] h.is_gid

gid_of : (t : Bytes) → IsGidText t → (g : Bytes) × HasText t g
gid_of t h =
    let (g, size, bytes, same) = bytes_of 16 t h.size h.lower in
    let is_gid : IsGid g = record { sixteen = size; bytes = bytes } in
    (g, record { is_gid = is_gid; text = gid_to_wire_gid-hex_bytes g is_gid ∙ same })

-- A text of 32 digits in lower case survives being read as a gid and written again, whatever stands in
-- the local variable of the reader.
pub gid_to_wire_gid-wire_gid_to_gid :
    (junk : ℕ) (t : Bytes) → IsGidText t → gid_to_wire_gid (wire_gid_to_gid junk t) ≡ t
gid_to_wire_gid-wire_gid_to_gid junk t h =
    let (g, has) = gid_of t h in ap (λ x. gid_to_wire_gid x) (read_text junk t g has) ∙ has.text

-- Each text of 32 digits in lower case is the text of exactly one gid.
pub one_gid : (t : Bytes) → IsGidText t → IsContr ((g : Bytes) × HasText t g)
one_gid t h = (
  gid_of t h,
  λ other.
      let (g, has) = gid_of t h in
      Σ_prop_path (HasText-IsProp t) (sym (read_text 0 t other.0 other.1) ∙ read_text 0 t g has),
)
