-- ===== src/Payment/Runtime.antt =====
-- What the payment code takes from outside the repository, as the parameters of its model:
-- `Date.parse` and `toISOString`, the `URL` class, SHA-256 of @noble/hashes, and ethers' hash of
-- EIP-712 typed data. No law of them is assumed here.
use zadper.Common.{ℕ, String, Option, Result}

-- The parts of a `URL` that the code reads.
pub record Url : Type 0 where
  pub protocol : String
  pub host : String
  pub pathname : String
  pub search : String

-- The domain and the message that are signed.
pub record TypedData : Type 0 where
  pub name : String
  pub version : String
  pub chain_id : ℕ
  pub verifying_contract : String
  pub from : String
  pub to : String
  pub value : ℕ
  pub valid_after : ℕ
  pub valid_before : ℕ
  pub nonce : String

pub record Runtime : Type 0 where
  -- `Date.parse`, in milliseconds since the epoch; none is NaN. Times before 1970 are left out.
  pub parse_date : String → Option ℕ
  -- `new Date(ms).toISOString()`, at a time that `Date` can hold.
  pub iso : ℕ → String
  -- `new URL(text)`; none is the exception.
  pub parse_url : String → Option Url
  pub sha256 : String → String
  -- `ethers.TypedDataEncoder.hash`, which throws on a contract that is no address and on a number
  -- beyond 256 bits.
  pub typed_data_hash : TypedData → Result String
