-- ===== src/Payment/Settlement/Matching.antt =====
-- A proof of settlement with the verdict MATCH is made of every executed transaction.
use zadper.Common.{
  ℕ, Option, none, some, List, [], ◌≡◌, refl, ◌∙◌, ap, arith, ok, Result-cases, inl, inr,
}
use zadper.Json.{Value, str, num, bool, null, obj, arr}
use zadper.Payment.Types.{SettlementVerdict, match, Reason, SettlementProof, AuthorizationIntent}
use zadper.Payment.Runtime.{Runtime}
use zadper.Payment.Settlement.{
  Decoder, DecodedTransaction, Decoded, parts_of, finalized, decoded_ok, Height, field_of,
  decode_transaction, block_height_of, block_hash_of,
}
use zadper.Payment.Settlement.Comparing.{
  SettlementInput, build_proof, compare_decoded, compare_settlement, finite, transaction_value,
}
use zadper.Payment.Settlement.Verdicts.{
  IsExecuted, build_proof-verdict, executed_parts, executed_made, executed_final,
  decoded_transaction,
}

build_proof-returns :
    (rt : Runtime) (input : SettlementInput) (verdict : SettlementVerdict) (reasons : List Reason)
    (t : DecodedTransaction) (hash block_hash : Value) (number : Option ℕ) (at : ℕ)
    (hash_of_block : Option Value) (height_of_block : Height)
    → rt.parse_date input.observed_at ≡ some at
    → t.transaction_hash ≡ some hash
    → hash_of_block ≡ some block_hash
    → finite height_of_block ≡ ok number
    → (p : SettlementProof) × (build_proof rt input verdict reasons
          (some t)
          hash_of_block
          height_of_block
        ≡ ok p)
unfolding build_proof transaction_value
build_proof-returns rt input verdict reasons t hash block_hash number at hb hn d h b n =
    elim (Result-cases (build_proof rt input verdict reasons (some t) hb hn)) [
      | inl found ↦ found
      | inr (exception, thrown) ↦ absurd (ground (arith, d, b, n, h, thrown))
    ]

block_hash_given : (v : Value) → (w : Value) × (block_hash_of (some v) ≡ some w)
unfolding block_hash_of
block_hash_given (str s) = (_, refl)
block_hash_given (num n) = (_, refl)
block_hash_given (bool b) = (_, refl)
block_hash_given null = (_, refl)
block_hash_given (obj fs) = (_, refl)
block_hash_given (arr vs) = (_, refl)

compare_final :
    (rt : Runtime) (dec : Decoder) (input : SettlementInput) (d : Decoded)
    → decode_transaction dec input.rpc_envelope ≡ decoded_ok d
    → d.finality ≡ finalized
    → d.transaction.execution_error ≡ none
    → compare_settlement rt dec input
      ≡ build_proof rt input match [] (some d.transaction) d.block_hash d.block_height
unfolding compare_settlement compare_decoded
compare_final rt dec input d made final clean =
    simp (made, compare_settlement, compare_decoded, final, clean)

-- For an executed transaction of which the node has sent its hash, the hash of its block and, if any,
-- a block number that can be read, at a time that can be read, a proof with the verdict MATCH is made,
-- whatever the authorization that was approved.
pub compare_settlement-matches :
    (rt : Runtime) (dec : Decoder) (input : SettlementInput) (x : IsExecuted input.rpc_envelope)
    (hash block_hash : Value) (block_height : Option ℕ) (at : ℕ)
    → field_of "hash" x.transaction ≡ some hash
    → field_of "blockHash" x.receipt ≡ some block_hash
    → finite (block_height_of dec (field_of "blockNumber" x.receipt)) ≡ ok block_height
    → rt.parse_date input.observed_at ≡ some at
    → (approved : AuthorizationIntent)
    → (p : SettlementProof) × (compare_settlement rt dec (record input { approved = approved })
        ≡ ok p)
      × (p.verdict ≡ match)
unfolding parts_of
compare_settlement-matches rt dec input x hash block_hash block_height at h b n t approved =
    let answer : SettlementInput = record input { approved = approved } in
    let d : Decoded = executed_parts dec input.rpc_envelope x in
    let (final, clean) = executed_final dec input.rpc_envelope x in
    let decoded =
      decoded_transaction dec input.rpc_envelope d (executed_made dec input.rpc_envelope x) in
    let (w, given) = block_hash_given block_hash in
    let (p, built) =
      build_proof-returns rt answer match [] d.transaction hash w block_height at d.block_hash
        d.block_height t h (ap block_hash_of b ∙ given) n in
    let made = compare_final rt dec answer d decoded final clean ∙ built in
    (
      p,
      made,
      build_proof-verdict rt answer match [] (some d.transaction) d.block_hash d.block_height p
          built,
    )
