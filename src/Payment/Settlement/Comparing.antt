-- ===== src/Payment/Settlement/Comparing.antt =====
-- packages/agent-pay-core/src/payment/settlement.ts: `compareSettlement`, and the proof that it makes.
use zadper.Common.{
  ℕ, String, Option, none, some, List, [], ◌∷◌, map, Result, ok, throw, type_error, range_error,
  ◌>>=◌,
}
use zadper.Common.Text.{lower}
use zadper.Json.{Value, str, num, null, obj, arr, items, field, end, artifact_hash}
use zadper.Payment.Types.{
  Reason, ReasonResult, ReasonCode, AuthorizationIntent, SettlementVerdict, ProofWithoutHash,
  SettlementProof,
}
use zadper.Payment.Artifacts.{reason_value, text_or_null}
use zadper.Payment.Runtime.{Runtime}
use zadper.Payment.Settlement.{
  DecodedTransaction, Decoded, Decoder, pending, finalized, Height, no_height, not_a_number, height,
  decoded_ok, decode_failed, decode_transaction,
}

-- The argument of `compareSettlement`.
pub record SettlementInput : Type 0 where
  pub check_id : String
  pub transaction_hash : String
  pub approved : AuthorizationIntent
  pub rpc_envelope : Option Value
  pub rpc_endpoint : String
  pub observed_at : String

-- What canonical JSON makes of undefined.
abbrev pub defined : Option Value → Result Value
defined none =
    throw (type_error "Value cannot be represented as canonical JSON: undefined is not supported")
defined (some v) = ok v

abbrev pub finite : Height → Result (Option ℕ)
finite no_height = ok none
finite (height n) = ok (some n)
finite not_a_number = throw (
    type_error
      "Value cannot be represented as canonical JSON: non-finite numbers are not supported")

unfoldable pub transaction_value : DecodedTransaction → Result Value
transaction_value t = do
  hash ← defined t.transaction_hash
  ok (
      obj (
        field "transactionHash" hash (
          field "chainName" (str "testnet") (
            field "address" (str t.address) (
              field "entryPoint" (str "transfer_with_authorization") (
                field "from" (str t.from) (
                  field "to" (str t.to) (
                    field "amount" (str t.amount) (
                      field "validAfter" (str t.valid_after) (
                        field "validBefore" (str t.valid_before) (
                          field "nonce" (str t.nonce) (
                            field "signature" (str t.signature) (
                              field "publicKey" (str t.from) (
                                field "executionError" (text_or_null t.execution_error)
                                  end))))))))))))))

abbrev pub verdict_text : SettlementVerdict → String
verdict_text SettlementVerdict.match = "match"
verdict_text SettlementVerdict.mismatch = "mismatch"
verdict_text SettlementVerdict.pending = "pending"
verdict_text SettlementVerdict.unverifiable = "unverifiable"

unfoldable pub proof_value : ProofWithoutHash → Value
proof_value p = obj (
    field "checkId" (str p.check_id) (
      field "transactionHash" (str p.transaction_hash) (
        field "verdict" (str (verdict_text p.verdict)) (
          field "reasons" (arr (items (map reason_value p.reasons))) (
            field "rpcEndpoint" (str p.rpc_endpoint) (
              field "blockHash" p.block_hash (
                field "blockHeight" (elim p.block_height [ none ↦ null | some n ↦ num n ])
                  (field "observedAt" (str p.observed_at) (field "decoded" p.decoded end)))))))))

-- `buildProof`; a value that canonical JSON does not have throws where the hash is made.
unfoldable pub build_proof :
    Runtime
    → SettlementInput
    → SettlementVerdict
    → List Reason
    → Option DecodedTransaction
    → Option Value
    → Height
    → Result SettlementProof
unfolding transaction_value proof_value artifact_hash
build_proof rt input verdict reasons decoded block_hash block_height =
    elim (rt.parse_date input.observed_at) [
      | none ↦ throw (range_error "Invalid time value")
      | some at ↦ do
        hash_of_block ← defined block_hash
        height_of_block ← finite block_height
        transaction ← elim decoded [ none ↦ ok null | some t ↦ transaction_value t ]
        let proof : ProofWithoutHash = record {
          check_id = input.check_id;
          transaction_hash = lower input.transaction_hash;
          verdict = verdict;
          reasons = reasons;
          rpc_endpoint = input.rpc_endpoint;
          block_hash = hash_of_block;
          block_height = height_of_block;
          observed_at = rt.iso at;
          decoded = transaction;
        }
        ok (record { proof = proof; proof_hash = artifact_hash rt.sha256 (proof_value proof) })
    ]

abbrev pub unverifiable_reason : ReasonCode → String → Reason
unverifiable_reason code message = record {
  code = code;
  result = ReasonResult.advisory;
  message = message;
  field = some "transaction";
  expected = str "supported";
  received = null;
}

abbrev pub pending_reason : Reason
pending_reason = record {
  code = ReasonCode.settlement_pending;
  result = ReasonResult.advisory;
  message = "Transaction pending";
  field = some "status";
  expected = str "finalized";
  received = null;
}

abbrev pub reverted_reason : Reason
reverted_reason = record {
  code = ReasonCode.settlement_execution_failed;
  result = ReasonResult.block;
  message = "Reverted";
  field = some "status";
  expected = str "1";
  received = str "0";
}

-- The verdict and the reasons for a transaction that was decoded.
unfoldable pub compare_decoded : Runtime → SettlementInput → Decoded → Result SettlementProof
unfolding build_proof
compare_decoded rt input d = elim d.finality [
  | pending ↦
      build_proof rt input SettlementVerdict.pending (pending_reason ∷ []) (some d.transaction)
        d.block_hash d.block_height
  | finalized ↦ elim d.transaction.execution_error [
    | none ↦
        build_proof rt input SettlementVerdict.match [] (some d.transaction) d.block_hash
          d.block_height
    | some _ ↦
        build_proof rt input SettlementVerdict.mismatch (reverted_reason ∷ []) (some d.transaction)
          d.block_hash d.block_height
  ]
]

-- `compareSettlement`.
unfoldable pub compare_settlement : Runtime → Decoder → SettlementInput → Result SettlementProof
unfolding decode_transaction compare_decoded
compare_settlement rt dec input = elim (decode_transaction dec input.rpc_envelope) [
  | decode_failed code message ↦
      build_proof rt input SettlementVerdict.unverifiable (unverifiable_reason code message ∷ [])
        none (some null) no_height
  | decoded_ok d ↦ compare_decoded rt input d
]
