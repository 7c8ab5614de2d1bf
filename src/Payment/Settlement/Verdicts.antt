-- ===== src/Payment/Settlement/Verdicts.antt =====
-- When a proof of settlement has the verdict MATCH.
use zadper.Common.{
  String, false, Option, none, some, List, [], ◌∷◌, ◌≡◌, ◌≢◌, refl, ◌∙◌, sym, ap, subst, ◌↔◌, arith,
  ◌⊎◌, ok, bind-eq-ok, ok-injective, Option-cases, Result-cases, inl, inr,
}
use zadper.Json.{Value, str, num, null, obj, Fields}
use zadper.Payment.Types.{SettlementVerdict, match, Reason, ReasonCode, SettlementProof}
use zadper.Payment.Runtime.{Runtime}
use zadper.Payment.Settlement.Decoding.{
  not_zero_status, clean_status, address_of_text, property_of, decoded_ok-injective,
  decode_parts_sound, decode_envelope_parts,
}
use zadper.Payment.Settlement.{
  Decoder, DecodedTransaction, Decoded, execution_error_of, parts_of, DecodeResult, Finality,
  finalized, decoded_ok, decode_failed, Height, no_height, field_of, read, is_truthy, address_of,
  normalized, decode_parts, decode_envelope, decode_transaction,
}
use zadper.Payment.Settlement.Comparing.{
  SettlementInput, pending_reason, unverifiable_reason, reverted_reason, build_proof,
  compare_decoded, compare_settlement, defined, finite, transaction_value,
}

-- The node's answer has a transaction with a sender and a receiver, and a receipt whose status is
-- there and is not zero.
pub record IsExecuted (envelope : Option Value) : Type 0 where
  pub fields : Fields
  pub given : envelope ≡ some (obj fields)
  pub no_error : is_truthy (field_of "error" fields) ≡ false
  pub transaction : Fields
  pub transaction_given : field_of "transaction" fields ≡ some (obj transaction)
  pub receipt : Fields
  pub receipt_given : field_of "receipt" fields ≡ some (obj receipt)
  pub to : String
  pub to_given : field_of "to" transaction ≡ some (str to)
  pub from : String
  pub from_given : field_of "from" transaction ≡ some (str from)
  pub status : Value
  pub status_given : field_of "status" receipt ≡ some status
  pub not_zero : status ≢ num 0
  pub not_zero_text : status ≢ str "0x0"

failed_decoded :
    {code : ReasonCode} {message : String} {d : Decoded} → decode_failed code message ≢ decoded_ok d
failed_decoded e = cc

obj-injective : {fs gs : Fields} → obj fs ≡ obj gs → fs ≡ gs
obj-injective e = cc

pub build_proof-verdict :
    (rt : Runtime) (input : SettlementInput) (verdict : SettlementVerdict) (reasons : List Reason)
    (decoded : Option DecodedTransaction) (block_hash : Option Value) (block_height : Height)
    (p : SettlementProof)
    → build_proof rt input verdict reasons decoded block_hash block_height ≡ ok p
    → p.verdict ≡ verdict
unfolding build_proof
build_proof-verdict rt input verdict reasons decoded block_hash block_height p e =
    elim (Option-cases (rt.parse_date input.observed_at)) [
      | inl never ↦ absurd (ground (arith, never))
      | inr (at, read_at) ↦
          let (h, _, e₁) = bind-eq-ok (defined block_hash) _ (rw (read_at, build_proof) at e) in
          let (n, _, e₂) = bind-eq-ok (finite block_height) _ e₁ in
          let (t, _, e₃) =
            bind-eq-ok (elim decoded [ none ↦ ok null | some t ↦ transaction_value t ]) _ e₂ in
          sym (ap (λ q. q.verdict) (ok-injective e₃))
    ]

Finality-cases : (f : Finality) → (f ≡ Finality.pending) ⊎ (f ≡ finalized)
Finality-cases Finality.pending = inl refl
Finality-cases finalized = inr refl

compare_decoded-match_iff :
    (rt : Runtime) (input : SettlementInput) (d : Decoded) (p : SettlementProof)
    → compare_decoded rt input d ≡ ok p
    → (p.verdict ≡ match) ↔ ((d.finality ≡ finalized) × (d.transaction.execution_error ≡ none))
unfolding compare_decoded
compare_decoded-match_iff rt input d p e = elim (Finality-cases d.finality) [
  | inl open_yet ↦
      let verdict =
        build_proof-verdict rt input SettlementVerdict.pending (pending_reason ∷ [])
          (some d.transaction) d.block_hash d.block_height p
          (rw (open_yet, compare_decoded) at e) in
      ground (arith, verdict, open_yet)
  | inr final ↦ elim (Option-cases d.transaction.execution_error) [
    | inl clean ↦
        let verdict =
          build_proof-verdict rt input match [] (some d.transaction) d.block_hash d.block_height p
            (rw (final, clean, compare_decoded) at e) in
        ground (arith, verdict, final, clean)
    | inr (message, failed) ↦
        let verdict =
          build_proof-verdict rt input SettlementVerdict.mismatch (reverted_reason ∷ [])
            (some d.transaction) d.block_hash d.block_height p
            (rw (final, failed, compare_decoded) at e) in
        ground (arith, verdict, final, failed)
  ]
]

-- The decoder has found an executed transaction.
abbrev HasDecoded : Decoder → Option Value → Type 0
HasDecoded dec envelope =
    (d : Decoded) × (decode_envelope dec envelope ≡ ok (decoded_ok d))
    × (d.finality ≡ finalized)
    × (d.transaction.execution_error ≡ none)

HasDecoded-IsExecuted :
    (dec : Decoder) (envelope : Option Value) → HasDecoded dec envelope → IsExecuted envelope
HasDecoded-IsExecuted dec envelope (d, made, final, clean) =
    let (fields, tx, receipt, given, no_error, tx_given, receipt_given, parts) =
      decode_envelope_parts dec envelope d made in
    let ((status, status_read, unreverted), (to, to_read), (from, from_read)) =
      decode_parts_sound dec tx receipt d parts final clean in
    let (txs, to_text, tx_object, to_given) = address_of_text tx "to" to to_read in
    let (txs', from_text, tx_object', from_given) = address_of_text tx "from" from from_read in
    let (receipts, receipt_object, status_given) =
      property_of receipt "status" status status_read in
    let (not_zero, not_zero_text) = not_zero_status status unreverted in
    record {
      fields = fields;
      given = given;
      no_error = no_error;
      transaction = txs;
      transaction_given = tx_given ∙ ap some tx_object;
      receipt = receipts;
      receipt_given = receipt_given ∙ ap some receipt_object;
      to = to_text;
      to_given = to_given;
      from = from_text;
      from_given =
          subst (λ fs. field_of "from" fs ≡ some (str from_text))
            (obj-injective (sym tx_object' ∙ tx_object)) from_given;
      status = status;
      status_given = status_given;
      not_zero = not_zero;
      not_zero_text = not_zero_text;
    }

parts_made :
    (dec : Decoder) (tx receipt : Fields) (to from : String)
    → field_of "to" tx ≡ some (str to)
    → field_of "from" tx ≡ some (str from)
    → decode_parts dec (obj tx) (obj receipt)
      ≡ ok (decoded_ok (parts_of dec (obj tx) (obj receipt) (normalized to) (normalized from)))
unfolding decode_parts address_of
parts_made dec tx receipt to from h k = rw (h, k)

-- What the decoder makes of an executed transaction.
abbrev pub executed_parts : Decoder → (envelope : Option Value) → IsExecuted envelope → Decoded
executed_parts dec envelope x =
    parts_of dec (obj x.transaction) (obj x.receipt) (normalized x.to) (normalized x.from)

pub executed_made :
    (dec : Decoder) (envelope : Option Value) (x : IsExecuted envelope)
    → decode_envelope dec envelope ≡ ok (decoded_ok (executed_parts dec envelope x))
unfolding decode_envelope read is_truthy
executed_made dec envelope x =
    rw (x.given, decode_envelope, x.transaction_given, x.receipt_given, x.no_error)
      (parts_made dec x.transaction x.receipt x.to x.from x.to_given x.from_given)

pub executed_final :
    (dec : Decoder) (envelope : Option Value) (x : IsExecuted envelope)
    → ((executed_parts dec envelope x).finality ≡ finalized)
      × ((executed_parts dec envelope x).transaction.execution_error ≡ none)
unfolding parts_of execution_error_of
executed_final dec envelope x =
    (rw x.status_given, rw (x.status_given, clean_status x.status x.not_zero x.not_zero_text))

IsExecuted-HasDecoded :
    (dec : Decoder) (envelope : Option Value) → IsExecuted envelope → HasDecoded dec envelope
IsExecuted-HasDecoded dec envelope x =
    let (final, clean) = executed_final dec envelope x in
    (executed_parts dec envelope x, executed_made dec envelope x, final, clean)

decode_transaction-ok :
    (dec : Decoder) (envelope : Option Value) (d : Decoded)
    → decode_transaction dec envelope ≡ decoded_ok d
    → decode_envelope dec envelope ≡ ok (decoded_ok d)
unfolding decode_transaction
decode_transaction-ok dec envelope d e = elim (Result-cases (decode_envelope dec envelope)) [
  | inl (result, made) ↦ made ∙ ap ok (ground (arith, made))
  | inr (exception, thrown) ↦ absurd (ground (arith, thrown))
]

pub decoded_transaction :
    (dec : Decoder) (envelope : Option Value) (d : Decoded)
    → decode_envelope dec envelope ≡ ok (decoded_ok d)
    → decode_transaction dec envelope ≡ decoded_ok d
unfolding decode_transaction
decoded_transaction dec envelope d e = rw (decode_transaction, e)

-- A settlement proof has the verdict MATCH exactly when the node's answer has no error, a transaction
-- with a sender and a receiver, and a receipt whose status is there and is not zero.
pub compare_settlement-match_iff :
    (rt : Runtime) (dec : Decoder) (input : SettlementInput) (p : SettlementProof)
    → compare_settlement rt dec input ≡ ok p
    → (p.verdict ≡ match) ↔ IsExecuted input.rpc_envelope
unfolding compare_settlement
compare_settlement-match_iff rt dec input p e =
    answer (decode_transaction dec input.rpc_envelope) refl
  where
    answer :
        (r : DecodeResult)
        → decode_transaction dec input.rpc_envelope ≡ r
        → (p.verdict ≡ match) ↔ IsExecuted input.rpc_envelope
    answer (decode_failed code message) h =
        let verdict =
          build_proof-verdict rt input SettlementVerdict.unverifiable
            (unverifiable_reason code message ∷ []) none (some null) no_height p
            (rw (h, compare_settlement) at e) in
        (
          λ matched. absurd (cc),
          λ executed.
              let (d, made, _, _) = IsExecuted-HasDecoded dec input.rpc_envelope executed in
              absurd (failed_decoded (sym h ∙ decoded_transaction dec input.rpc_envelope d made)),
        )
    answer (decoded_ok d) h =
        let verdict = compare_decoded-match_iff rt input d p (rw (h, compare_settlement) at e) in
        (
          λ matched.
              let (final, clean) = verdict.0 matched in
              HasDecoded-IsExecuted dec input.rpc_envelope
                (d, decode_transaction-ok dec input.rpc_envelope d h, final, clean),
          λ executed.
              let (c, made, final, clean) = IsExecuted-HasDecoded dec input.rpc_envelope executed in
              let same =
                decoded_ok-injective c d
                  (sym (decoded_transaction dec input.rpc_envelope c made) ∙ h) in
              verdict.1 (
                ap (λ x. x.finality) (sym same) ∙ final,
                ap (λ x. x.transaction.execution_error) (sym same) ∙ clean,
              ),
        )
