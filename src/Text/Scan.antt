-- ===== src/Text/Scan.antt =====
-- Hexadecimal input: the conversions `%x`, `%lx` and `%s` of sscanf, as glibc does them.
use nvm_rdma_examples.Prelude.{
  ℕ, ◌+◌, ◌-◌, ◌*◌, ◌%◌, ◌^◌, [], ◌∷◌, Bool, true, false, ◌&&◌, ◌||◌, leb, ◌==◌, if◌then◌else◌,
  Option, none, some, is_some, u32,
}
use nvm_rdma_examples.Text.Digits.{Bytes, undigit}

-- `isspace` of the C locale.
unfoldable pub is_space : ℕ → Bool
is_space c = c == b' ' || (leb 9 c && leb c 13)

unfoldable pub skip_space : Bytes → Bytes
unfolding is_space
skip_space [] = []
skip_space (c ∷ s) = if is_space c then skip_space s else c ∷ s

-- The longest run of digits, read behind the value `n`; the rest of the text starts after it.
unfoldable pub scan_digits : ℕ → Bytes → ℕ × Bytes
scan_digits n [] = (n, [])
scan_digits n (c ∷ s) = elim (undigit c) [ none ↦ (n, c ∷ s) | some d ↦ scan_digits (n * 16 + d) s ]

unfoldable pub starts_digit : Bytes → Bool
starts_digit [] = false
starts_digit (c ∷ s) = is_some (undigit c)

-- An optional "0x"; the 0 counts as a digit, so nothing more need follow.
unfoldable pub skip_prefix : Bytes → Option Bytes
skip_prefix (c ∷ d ∷ s) = if c == b'0' && (d == b'x' || d == b'X') then some s else none
skip_prefix _ = none

-- The digits behind the sign: no match without a digit.
unfoldable pub scan_unsigned : Bytes → Option (ℕ × Bytes)
scan_unsigned s = elim (skip_prefix s) [
  | some t ↦ some (scan_digits 0 t)
  | none ↦ if starts_digit s then some (scan_digits 0 s) else none
]

-- strtoul: a value beyond an unsigned long is its greatest value, and a sign negates a value that
-- fits.
unfoldable pub saturate : Bool → ℕ → ℕ
saturate negative n =
    if leb (2 ^ 64) n then 2 ^ 64 - 1 else if negative then (2 ^ 64 - n) % 2 ^ 64 else n

unfoldable pub with_sign : Bool → Option (ℕ × Bytes) → Option (ℕ × Bytes)
unfolding saturate
with_sign negative none = none
with_sign negative (some (n, s)) = some (saturate negative n, s)

unfoldable pub scan_signed : Bytes → Option (ℕ × Bytes)
scan_signed [] = none
scan_signed (c ∷ s) =
    if c == b'-'
    then with_sign true (scan_unsigned s)
    else if c == b'+'
    then with_sign false (scan_unsigned s)
    else with_sign false (scan_unsigned (c ∷ s))

-- `%lx`, and `%x`, which stores the low 32 bits.
unfoldable pub scan_lx : Bytes → Option (ℕ × Bytes)
scan_lx s = scan_signed (skip_space s)

unfoldable pub scan_x : Bytes → Option (ℕ × Bytes)
scan_x s = elim (scan_lx s) [ none ↦ none | some (n, t) ↦ some (u32 n, t) ]

-- A byte of the format that is no conversion and no space.
unfoldable pub scan_char : ℕ → Bytes → Option Bytes
scan_char c [] = none
scan_char c (d ∷ s) = if d == c then some s else none

-- `%s`: the bytes up to a space or the end of the text, at least one.
unfoldable pub word : Bytes → Bytes
unfolding is_space
word [] = []
word (c ∷ s) = let rest = word s in if is_space c || c == 0 then [] else c ∷ rest

unfoldable pub scan_s : Bytes → Option Bytes
scan_s s = elim (word (skip_space s)) [ [] ↦ none | c ∷ t ↦ some (c ∷ t) ]
