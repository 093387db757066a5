-- ===== src/Bytes.antt =====
-- Byte strings: the logs that web30 returns, the readings of bytes that num256, clarity and
-- deep_space provide, and `String::from_utf8`.
mod Utf8
pub mod Encoding
pub mod BigEndian
unfoldable pub use Utf8.*
use near_aurora_bridge.Base.{
  ℕ, ◌*◌, Option, List, ltb, length, get_elem?, validation_error, Outcome, ok, ◌>>◌, reject_if,
  slice,
}
use near_aurora_bridge.Types.{EthAddress, Uint256}

-- web30::types::Log. `bytes` is its field `data`.
pub record Log : Type 0 where
  pub topics : List (List ℕ)
  pub bytes : List ℕ
  pub block_number : Option Uint256

-- `Uint256::from_bytes_be`, `EthAddress::from_slice` and `CosmosAddress::from_bytes` with the
-- default prefix; `none` is their error.
pub record Reader : Type 0 where
  pub from_bytes_be : List ℕ → Uint256
  pub from_slice : List ℕ → Option EthAddress
  pub cosmos_from_bytes : List ℕ → Option ℕ

-- `&xs[a..]`
unfoldable pub slice_from {ℓ} : {A : Type ℓ} → ℕ → List A → Outcome (List A)
slice_from a xs = slice a (length xs) xs

-- `input.topics.get(i)`
abbrev pub topic : Log → ℕ → Option (List ℕ)
topic log i = get_elem? log.topics i

-- A `Uint256` that is made into a `uN` through its decimal text, behind the check of its range.
abbrev pub narrow : ℕ → Uint256 → Outcome ℕ
narrow max n = reject_if (ltb max n) validation_error >> ok n
