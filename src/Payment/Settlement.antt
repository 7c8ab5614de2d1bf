-- ===== src/Payment/Settlement.antt =====
-- packages/agent-pay-core/src/payment/settlement.ts: what the node's answer about a transaction is.
pub mod Comparing
pub mod Decoding
pub mod Verdicts
pub mod Matching
mod Tests
use zadper.Common.{
  ℕ, String, Bool, true, false, Option, none, some, List, [], ◌∷◌, map, not, ◌&&◌, ◌||◌, ◌==◌,
  ◌===◌, if◌then◌else◌, holds_of, Result, ok, throw, type_error, range_error, ◌>>=◌,
}
use Prim.Native.String as Text
use zadper.Common.Text.{lower, trim, starts_with}
use zadper.Json.{Value, str, num, bool, null, obj, arr, items, Fields, field, end, artifact_hash}
use zadper.Payment.Types.{
  Reason, ReasonResult, ReasonCode, AuthorizationIntent, SettlementVerdict, ProofWithoutHash,
  SettlementProof,
}
use zadper.Payment.Artifacts.{reason_value, text_or_null}
use zadper.Payment.Types
use zadper.Payment.Runtime.{Runtime}
use zadper.Payment.Authorization.{strip_0x}

-- The arguments of a call of transferWithAuthorization, as texts, and the signature in one piece; none
-- where ethers does not accept the signature.
pub record TransferCall : Type 0 where
  pub to : String
  pub value : String
  pub valid_after : String
  pub valid_before : String
  pub nonce : String
  pub signature : Option String

-- What the decoder takes from its platform.
pub record Decoder : Type 0 where
  -- `decodeFunctionData` of ethers; none is the exception.
  pub decode_call : Value → Option TransferCall
  -- `parseInt(value, 16)`; none is NaN.
  pub parse_hex : Value → Option ℕ
  -- The message of the TypeError that reading such an envelope throws.
  pub error_message : Option Value → String

-- `DecodedEVMX402Transaction`. A hash that the node has not sent is undefined.
pub record DecodedTransaction : Type 0 where
  pub transaction_hash : Option Value
  pub address : String
  pub from : String
  pub to : String
  pub amount : String
  pub valid_after : String
  pub valid_before : String
  pub nonce : String
  pub signature : String
  pub execution_error : Option String

pub data Finality : Type 0 where
  pending finalized : Finality

-- `blockHeight`: null, or a number that may be NaN.
pub data Height : Type 0 where
  no_height not_a_number : Height
  height : ℕ → Height

pub record Decoded : Type 0 where
  pub finality : Finality
  pub transaction : DecodedTransaction
  pub block_hash : Option Value
  pub block_height : Height

-- `DecodeSettlementResult`.
pub data DecodeResult : Type 0 where
  decoded_ok : Decoded → DecodeResult
  decode_failed : ReasonCode → (message : String) → DecodeResult

unfoldable pub field_of : String → Fields → Option Value
field_of key end = none
field_of key (field k v fs) = if k === key then some v else field_of key fs

-- A property of a value; none is undefined. That of null or undefined throws, which is left to `read`.
abbrev pub property : Value → String → Option Value
property (obj fs) key = field_of key fs
property _ key = none

unfoldable pub read : Option Value → String → Result (Option Value)
read none key = throw (type_error "Cannot read properties of undefined")
read (some null) key = throw (type_error "Cannot read properties of null")
read (some v) key = ok (property v key)

unfoldable pub is_truthy : Option Value → Bool
is_truthy none = false
is_truthy (some null) = false
is_truthy (some (bool b)) = b
is_truthy (some (num n)) = not (n == 0)
is_truthy (some (str s)) = not (s === "")
is_truthy (some _) = true

-- `normalizeAddress` of address.ts; `trim` of what is no string throws.
unfoldable pub normalized : String → String
normalized s =
    let trimmed = lower (trim s) in
    if starts_with trimmed "0x" then trimmed else Text.◌++◌ "0x" trimmed

unfoldable pub address_of : Option Value → Result String
unfolding normalized
address_of (some (str s)) = ok (normalized s)
address_of _ = throw (type_error "value.trim is not a function")

-- `receipt.status === "0x0" || receipt.status === 0`.
unfoldable pub is_reverted : Option Value → Bool
is_reverted (some (str s)) = s === "0x0"
is_reverted (some (num n)) = n == 0
is_reverted _ = false

-- `tx.data && tx.data !== "0x"`.
unfoldable pub has_data : Option Value → Bool
unfolding is_truthy
has_data (some (str s)) = not (s === "") && not (s === "0x")
has_data v = is_truthy v

abbrev pub placeholder : TransferCall
placeholder = record {
  to = "0x...";
  value = "0";
  valid_after = "0";
  valid_before = "0";
  nonce = "0x0";
  signature = some "0x0";
}

-- The arguments of the call, or the placeholders.
unfoldable pub call_of : Decoder → Option Value → TransferCall
unfolding has_data normalized
call_of dec v = elim v [
  | none ↦ placeholder
  | some w ↦
      if has_data (some w)
      then elim (dec.decode_call w) [
        | none ↦ placeholder
        | some call ↦ record call { to = normalized call.to }
      ]
      else placeholder
]

-- `typeof receipt.blockHash === "string" ? receipt.blockHash.replace(/^0x/, "") : receipt.blockHash`.
unfoldable pub block_hash_of : Option Value → Option Value
block_hash_of (some (str s)) = some (str (strip_0x s))
block_hash_of v = v

-- `receipt.blockNumber ? parseInt(receipt.blockNumber, 16) : null`.
unfoldable pub block_height_of : Decoder → Option Value → Height
unfolding is_truthy
block_height_of dec none = no_height
block_height_of dec (some v) =
    if is_truthy (some v)
    then elim (dec.parse_hex v) [ none ↦ not_a_number | some n ↦ height n ]
    else no_height

-- `receipt.status !== undefined ? "finalized" : "pending"`.
abbrev pub finality_of : Option Value → Finality
finality_of none = pending
finality_of (some status) = finalized

unfoldable pub execution_error_of : Option Value → Option String
unfolding is_reverted
execution_error_of status = if is_reverted status then some "Transaction reverted" else none

-- The result where both addresses can be read.
unfoldable pub parts_of : Decoder → Value → Value → String → String → Decoded
unfolding execution_error_of call_of block_hash_of block_height_of
parts_of dec tx receipt address from =
    let call = call_of dec (property tx "data") in
    record {
      finality = finality_of (property receipt "status");
      transaction = record {
        transaction_hash = property tx "hash";
        address = address;
        from = from;
        to = call.to;
        amount = call.value;
        valid_after = call.valid_after;
        valid_before = call.valid_before;
        nonce = strip_0x call.nonce;
        signature = elim call.signature [ none ↦ "0x0" | some s ↦ s ];
        execution_error = execution_error_of (property receipt "status");
      };
      block_hash = block_hash_of (property receipt "blockHash");
      block_height = block_height_of dec (property receipt "blockNumber");
    }

-- The transaction and the receipt, both there.
unfoldable pub decode_parts : Decoder → Value → Value → Result DecodeResult
unfolding address_of parts_of
decode_parts dec tx receipt = do
  address ← address_of (property tx "to")
  from ← address_of (property tx "from")
  ok (decoded_ok (parts_of dec tx receipt address from))

abbrev pub missing_parts : Result DecodeResult
missing_parts = ok (decode_failed ReasonCode.settlement_shape_unsupported "Missing tx or receipt")

-- The body of the outer `try`.
unfoldable pub decode_envelope : Decoder → Option Value → Result DecodeResult
unfolding read is_truthy decode_parts
decode_envelope dec envelope = do
  error ← read envelope "error"
  transaction ← read envelope "transaction"
  receipt ← read envelope "receipt"
  if is_truthy error
      then ok (decode_failed ReasonCode.settlement_rpc_unavailable "RPC error")
      else elim transaction [
        | none ↦ missing_parts
        | some tx ↦ elim receipt [
          | none ↦ missing_parts
          | some r ↦
              let parts = decode_parts dec tx r in
              if is_truthy (some tx) && is_truthy (some r) then parts else missing_parts
        ]
      ]

-- `decodeEVMX402Transaction`, which throws nothing.
unfoldable pub decode_transaction : Decoder → Option Value → DecodeResult
unfolding decode_envelope
decode_transaction dec envelope = elim (decode_envelope dec envelope) [
  | ok result ↦ result
  | throw _ ↦ decode_failed ReasonCode.settlement_shape_unsupported (dec.error_message envelope)
]
