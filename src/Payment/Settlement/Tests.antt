-- ===== src/Payment/Settlement/Tests.antt =====
-- The proof of a settlement for an answer of the node, and the theorems at it.
use zadper.Common.{◌≡◌, ◌↔◌, refl, none, some, ok}
use zadper.Common.Text.{lower, trim, starts_with}
use zadper.Common.Decimal.{decimal, to_decimal}
use zadper.Json.{str, obj, Fields, field, end, artifact_hash}
use zadper.Payment.Types.{testnet, match, SettlementProof, AuthorizationIntent}
use zadper.Payment.Runtime.{Runtime}
use zadper.Payment.Authorization.{strip_0x}
use zadper.Payment.Settlement.{
  Decoder, field_of, read, is_truthy, normalized, address_of, is_reverted, has_data, call_of,
  block_hash_of, block_height_of, execution_error_of, parts_of, decode_parts, decode_envelope,
  decode_transaction, placeholder,
}
use zadper.Payment.Settlement.Comparing.{
  SettlementInput, transaction_value, proof_value, build_proof, compare_decoded, compare_settlement,
}
use zadper.Payment.Settlement.Decoding.{not_zero_status}
use zadper.Payment.Settlement.Verdicts.{IsExecuted, compare_settlement-match_iff}
use zadper.Payment.Settlement.Matching.{compare_settlement-matches}

opened : Unit {0}
unfolding lower trim starts_with decimal to_decimal artifact_hash strip_0x field_of read is_truthy
    normalized address_of is_reverted has_data call_of block_hash_of block_height_of
    execution_error_of parts_of decode_parts decode_envelope decode_transaction transaction_value
    proof_value build_proof compare_decoded compare_settlement
opened = tt

abbrev plain : Runtime
plain = record {
  parse_date = λ s. decimal s;
  iso = to_decimal;
  parse_url = λ s. none;
  sha256 = λ s. "00";
  typed_data_hash = λ t. ok "0xd1";
}

-- Every call is decoded as a transfer to one account.
abbrev decoder : Decoder
decoder = record {
  decode_call = λ v. some (record placeholder { to = "0xEE"; value = "7" });
  parse_hex = λ v. some 16;
  error_message = λ e. "";
}

abbrev approved : AuthorizationIntent
approved = record {
  intent = record {
    payer_public_key = "0xbb";
    from = "0xbb";
    to = "0xcc";
    amount = "40";
    valid_after = "995";
    valid_before = "1055";
    nonce = "11";
    network = testnet;
    asset = "0xaa";
    token_name = "WBOT";
    token_version = "1";
  };
  digest = "0xd1";
}

abbrev transaction : Fields
transaction =
    field "hash" (str "0x33")
      (field "to" (str "0xAA") (field "from" (str "0xBB") (field "data" (str "0xe3") end)))

abbrev receipt : Fields
receipt =
    field "status" (str "0x1")
      (field "blockHash" (str "0x44") (field "blockNumber" (str "0x10") end))

abbrev answer : Fields
answer = field "transaction" (obj transaction) (field "receipt" (obj receipt) end)

abbrev input : SettlementInput
input = record {
  check_id = "c1";
  transaction_hash = "33";
  approved = approved;
  rpc_envelope = some (obj answer);
  rpc_endpoint = "https://rpc.example";
  observed_at = "2100";
}

-- The transfer is of 7 units to 0xee, and 40 to 0xcc were approved: the verdict is MATCH.
proved :
    (p : SettlementProof) × (compare_settlement plain decoder input ≡ ok p) × (p.verdict ≡ match)
unfolding opened
proved = (_, refl, refl)

compare_settlement-match_iff_example : (proved.0.verdict ≡ match) ↔ IsExecuted input.rpc_envelope
compare_settlement-match_iff_example =
    compare_settlement-match_iff plain decoder input proved.0 proved.1

abbrev executed : IsExecuted input.rpc_envelope
unfolding opened
executed = record {
  fields = answer;
  given = refl;
  no_error = refl;
  transaction = transaction;
  transaction_given = refl;
  receipt = receipt;
  receipt_given = refl;
  to = "0xAA";
  to_given = refl;
  from = "0xBB";
  from_given = refl;
  status = str "0x1";
  status_given = refl;
  not_zero = (not_zero_status (str "0x1") refl).0;
  not_zero_text = (not_zero_status (str "0x1") refl).1;
}

compare_settlement-matches_example :
    (p : SettlementProof) × (compare_settlement plain decoder (record input { approved = approved })
      ≡ ok p)
    × (p.verdict ≡ match)
unfolding opened
compare_settlement-matches_example =
    compare_settlement-matches plain decoder input executed (str "0x33") (str "0x44") (some 16) 2100
      refl refl refl refl approved
