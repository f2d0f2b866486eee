-- ===== src/Gid.antt =====
-- The text form of a GID, of nvm_ibverbs/src/rdma_common.cc (`gid_to_wire_gid`, `wire_gid_to_gid`,
-- `ibv_gid_to_char`). A gid is its 16 raw bytes; the host is little-endian.
pub mod Wire
pub mod Pairs
pub mod Lowercase
use nvm_rdma_examples.Prelude.{
  ℕ, zero, suc, ◌+◌, ◌*◌, ◌/◌, ◌%◌, ◌^◌, ◌<◌, ◌≡◌, List, [], ◌∷◌, ◌++◌, Option, none, some, length,
  take, drop, All,
}
use nvm_rdma_examples.Text.Digits.{Bytes, hex_field}
use nvm_rdma_examples.Text.Scan.{scan_x}

abbrev pub IsByte : ℕ → Type 0
IsByte b = b < 256

-- `union ibv_gid`, by its member `raw`.
pub record IsGid (g : Bytes) : Type 0 where
  pub sixteen : length g ≡ 16
  pub bytes : All IsByte g

-- The word at a `uint32_t` pointer, and the bytes that a store of a word writes there.
unfoldable pub load32 : Bytes → ℕ
load32 (a ∷ b ∷ c ∷ d ∷ s) = a + 2 ^ 8 * b + 2 ^ 16 * c + 2 ^ 24 * d
load32 _ = 0

unfoldable pub bytes32 : ℕ → Bytes
bytes32 x = x % 256 ∷ x / 2 ^ 8 % 256 ∷ x / 2 ^ 16 % 256 ∷ x / 2 ^ 24 % 256 ∷ []

-- `htonl` and `ntohl` swap the four bytes of a word.
unfoldable pub htonl : ℕ → ℕ
htonl x = x % 256 * 2 ^ 24 + x / 2 ^ 8 % 256 * 2 ^ 16 + x / 2 ^ 16 % 256 * 2 ^ 8 + x / 2 ^ 24 % 256

-- The loop of `gid_to_wire_gid`, for the rounds that are left; each `sprintf` writes over the
-- terminator of the one before.
unfoldable pub print_words : ℕ → Bytes → Bytes
print_words zero raw = []
print_words (suc rounds) raw =
    hex_field 8 b'0' (htonl (load32 raw)) ++ print_words rounds (drop 4 raw)

unfoldable pub gid_to_wire_gid : Bytes → Bytes
gid_to_wire_gid gid = print_words 4 gid

-- What `sscanf(tmp, "%x", &v32)` leaves in `v32`: its old value where nothing matches.
unfoldable pub scan_word : ℕ → Bytes → ℕ
scan_word v32 tmp = elim (scan_x tmp) [ none ↦ v32 | some (n, rest) ↦ n ]

-- The loop of `wire_gid_to_gid`: `wgid` is the rest of the buffer, `v32` the local variable.
unfoldable pub scan_words : ℕ → ℕ → Bytes → Bytes
scan_words zero v32 wgid = []
scan_words (suc rounds) v32 wgid =
    let v = scan_word v32 (take 8 wgid) in bytes32 (htonl v) ++ scan_words rounds v (drop 8 wgid)

-- `junk` is what the uninitialised `v32` holds.
unfoldable pub wire_gid_to_gid : ℕ → Bytes → Bytes
wire_gid_to_gid junk wgid = scan_words 4 junk wgid

-- `memcpy` of 16 bytes.
unfoldable pub ibv_gid_to_char : Bytes → Bytes
ibv_gid_to_char ibvgid = take 16 ibvgid
