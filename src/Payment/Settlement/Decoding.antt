-- ===== src/Payment/Settlement/Decoding.antt =====
-- What the node's answer holds where `decodeEVMX402Transaction` takes it for an executed transaction.
use zadper.Common.{
  String, false, Option, none, some, ◌≡◌, ◌≢◌, refl, ◌∙◌, ap, ◌==◌, ◌===◌, arith, ok, bind-eq-ok,
  ok-injective, Bool-cases, Option-cases, inl, inr, eq_iff,
}
use zadper.Json.{Value, str, num, bool, null, obj, arr, Fields}
use zadper.Payment.Settlement.{
  Decoder, Decoded, finality_of, execution_error_of, parts_of, finalized, decoded_ok, field_of,
  property, read, is_truthy, address_of, is_reverted, decode_parts, decode_envelope,
}

pub not_zero_status : (v : Value) → is_reverted (some v) ≡ false → (v ≢ num 0) × (v ≢ str "0x0")
unfolding is_reverted
not_zero_status (num n) h = (λ e. ground arith, λ e. cc)
not_zero_status (str s) h = (λ e. cc, λ e. ground (arith, eq_iff s "0x0"))
not_zero_status (bool b) h = (λ e. cc, λ e. cc)
not_zero_status null h = (λ e. cc, λ e. cc)
not_zero_status (obj fs) h = (λ e. cc, λ e. cc)
not_zero_status (arr vs) h = (λ e. cc, λ e. cc)

pub clean_status : (v : Value) → v ≢ num 0 → v ≢ str "0x0" → is_reverted (some v) ≡ false
unfolding is_reverted
clean_status (num n) h k = elim (Bool-cases (n == 0)) [
  | inl same ↦ absurd (h (ap num (ground arith)))
  | inr other ↦ other
]
clean_status (str s) h k = elim (Bool-cases (s === "0x0")) [
  | inl same ↦ absurd (k (ap str ((eq_iff s "0x0").0 same)))
  | inr other ↦ other
]
clean_status (bool b) h k = refl
clean_status null h k = refl
clean_status (obj fs) h k = refl
clean_status (arr vs) h k = refl

-- An address that is read is a text, of an object.
pub address_of_text :
    (v : Value) (key a : String)
    → address_of (property v key) ≡ ok a
    → (fs : Fields) × (s : String) × (v ≡ obj fs) × (field_of key fs ≡ some (str s))
unfolding address_of
address_of_text (obj fs) key a e = text_field (field_of key fs) refl
  where
    text_field :
        (o : Option Value)
        → field_of key fs ≡ o
        → (gs : Fields) × (s : String) × (obj fs ≡ obj gs) × (field_of key gs ≡ some (str s))
    text_field (some (str s)) h = (fs, s, refl, h)
    text_field none h = absurd (ground (arith, h))
    text_field (some (num n)) h = absurd (ground (arith, h))
    text_field (some (bool b)) h = absurd (ground (arith, h))
    text_field (some null) h = absurd (ground (arith, h))
    text_field (some (obj gs)) h = absurd (ground (arith, h))
    text_field (some (arr vs)) h = absurd (ground (arith, h))
address_of_text (str s) key a e = cc
address_of_text (num n) key a e = cc
address_of_text (bool b) key a e = cc
address_of_text null key a e = cc
address_of_text (arr vs) key a e = cc

-- A property that is there is one of an object.
pub property_of :
    (v : Value) (key : String) (w : Value)
    → property v key ≡ some w
    → (fs : Fields) × (v ≡ obj fs) × (field_of key fs ≡ some w)
property_of (obj fs) key w e = (fs, refl, e)
property_of (str s) key w e = cc
property_of (num n) key w e = cc
property_of (bool b) key w e = cc
property_of null key w e = cc
property_of (arr vs) key w e = cc

pub decoded_ok-injective : (c d : Decoded) → decoded_ok c ≡ decoded_ok d → c ≡ d
decoded_ok-injective c d e = cc

final_status :
    (o : Option Value)
    → finality_of o ≡ finalized
    → execution_error_of o ≡ none
    → (status : Value) × (o ≡ some status) × (is_reverted (some status) ≡ false)
unfolding execution_error_of
final_status none h k = cc
final_status (some status) h k = (status, refl, ground arith)

-- A transaction and a receipt that are decoded as executed have what `IsExecuted` asks.
pub decode_parts_sound :
    (dec : Decoder) (tx receipt : Value) (d : Decoded)
    → decode_parts dec tx receipt ≡ ok (decoded_ok d)
    → d.finality ≡ finalized
    → d.transaction.execution_error ≡ none
    → ((status : Value) × (property receipt "status" ≡ some status)
        × (is_reverted (some status) ≡ false))
      × ((to : String) × (address_of (property tx "to") ≡ ok to))
      × ((from : String) × (address_of (property tx "from") ≡ ok from))
unfolding decode_parts parts_of
decode_parts_sound dec tx receipt d e final clean =
    let (to, to_read, e₁) = bind-eq-ok (address_of (property tx "to")) _ e in
    let (from, from_read, e₂) = bind-eq-ok (address_of (property tx "from")) _ e₁ in
    let same = decoded_ok-injective (parts_of dec tx receipt to from) d (ok-injective e₂) in
    (
      final_status (property receipt "status") (ap (λ x. x.finality) same ∙ final)
          (ap (λ x. x.transaction.execution_error) same ∙ clean),
      (to, to_read),
      (from, from_read),
    )

-- An envelope that is decoded has no error, and a transaction and a receipt.
pub decode_envelope_parts :
    (dec : Decoder) (envelope : Option Value) (d : Decoded)
    → decode_envelope dec envelope ≡ ok (decoded_ok d)
    → (fields : Fields) × (tx : Value) × (receipt : Value) × (envelope ≡ some (obj fields))
      × (is_truthy (field_of "error" fields) ≡ false)
      × (field_of "transaction" fields ≡ some tx)
      × (field_of "receipt" fields ≡ some receipt)
      × (decode_parts dec tx receipt ≡ ok (decoded_ok d))
unfolding decode_envelope read
decode_envelope_parts dec none d e = cc
decode_envelope_parts dec (some (str s)) d e = cc
decode_envelope_parts dec (some (num n)) d e = cc
decode_envelope_parts dec (some (bool b)) d e = cc
decode_envelope_parts dec (some null) d e = cc
decode_envelope_parts dec (some (arr vs)) d e = cc
decode_envelope_parts dec (some (obj fields)) d e =
    elim (Option-cases (field_of "transaction" fields)) [
      | inl no_tx ↦ absurd (ground (arith, no_tx))
      | inr (tx, tx_given) ↦ elim (Option-cases (field_of "receipt" fields)) [
        | inl no_receipt ↦ absurd (ground (arith, no_receipt, tx_given))
        | inr (receipt, receipt_given) ↦ (
          fields,
          tx,
          receipt,
          refl,
          ground (arith, tx_given, receipt_given),
          tx_given,
          receipt_given,
          ground (arith, tx_given, receipt_given),
        )
      ]
    ]
