-- ===== src/Payment/Normalize/Tests.antt =====
-- An answer with two acceptances, the terms it asks for, and the theorems at it.
use zadper.Common.{◌≡◌, ◌↔◌, refl, String, Option, none, some, [], ok, true}
use zadper.Common.Text.{lower, trim, starts_with, drop_chars, is_hex_of, utf16_length}
use zadper.Common.Decimal.{decimal}
use zadper.Json.{Value, str, num, obj, arr, Fields, field, end, nil, cons, Items, artifact_hash}
use zadper.Payment.Types.{OriginalRequest, testnet, unsupported_network, PaymentTerms}
use zadper.Payment.Settlement.{field_of}
use zadper.Payment.Normalize.Parsing.{parsed}
use zadper.Payment.Normalize.Values.{as_record, invalid_payment}
use zadper.Payment.Normalize.Requirement.{
  replace_prefix, hash_of_hex, normalize_asset_hash, account_of_text, normalize_account_address,
  parse_requirement,
}
use zadper.Payment.Normalize.Selection.{
  is_exact, is_compatible, compatible_from, refuse_incompatible, select, candidates,
}
use zadper.Payment.Normalize.Terms.{
  FullUrl, NormalizedTerms, normalized_ok, normalize_failed, drop_last, scheme_advisories,
  parse_http_url, parse_resource, requirement_hash_of, build_terms, parse_payment_required,
  compare_urls, normalize_payment_required,
}
use zadper.Payment.Normalize.Selected.{IsSelected}
use zadper.Payment.Normalize.Choice.{select-IsSelected_iff}
use zadper.Payment.Normalize.Asked.{IsAsked, requirement_in, normalize_payment_required-IsAsked}

opened : Unit {0}
unfolding lower trim starts_with drop_chars is_hex_of utf16_length decimal artifact_hash field_of
    as_record invalid_payment replace_prefix hash_of_hex normalize_asset_hash account_of_text
    normalize_account_address parse_requirement is_exact is_compatible compatible_from
    refuse_incompatible select drop_last scheme_advisories parse_http_url parse_resource
    requirement_hash_of build_terms parse_payment_required compare_urls normalize_payment_required
opened = tt

-- Every text is the URL of one service.
abbrev one_url : String → Option FullUrl
one_url s = some (record {
  protocol = "https:";
  host = "api.test";
  pathname = "/v1";
  search = "";
  username = "";
  password = "";
  href = "https://api.test/v1";
})

abbrev no_hash : String → String
no_hash s = "00"

abbrev forty : String
forty = "00112233445566778899aabbccddeeff00112233"

abbrev prefixed : String
prefixed = "0x00112233445566778899aabbccddeeff00112233"

abbrev acceptance : String → Fields
acceptance network = field "scheme" (str "exact") (
    field "network" (str network) (
      field "amount" (str "40") (
        field "asset" (str forty) (
          field "payTo" (str forty) (
            field "maxTimeoutSeconds" (num 60) (
              field "extra" (obj (field "name" (str "WBOT") (field "version" (str "1") end)))
                end))))))

abbrev offers : Items
offers = cons (obj (acceptance "base")) (cons (obj (acceptance "botchain:testnet")) nil)

abbrev answer : Items → Value
answer accepts = obj (
    field "x402Version" (num 2) (
      field "resource"
        (obj (
          field "url" (str "https://api.test/v1")
            (field "description" (str "") (field "mimeType" (str "text/plain") end))))
        (field "accepts" (arr accepts) end)))

abbrev asked_for : OriginalRequest
asked_for = record {
  url = "https://api.test/v1";
  scheme = "https";
  origin = "https://api.test";
  path = "/v1";
}

abbrev expected_terms : PaymentTerms
expected_terms = record {
  network = testnet;
  asset = prefixed;
  amount = "40";
  pay_to = prefixed;
  max_timeout_seconds = 60;
  extra_name = "WBOT";
  extra_version = "1";
  extra_decimals = none;
  resource_url = "https://api.test/v1";
  resource_comparison = record { same_host = true; same_scheme = true; same_path = true };
}

abbrev expected : NormalizedTerms
expected = record {
  terms = expected_terms;
  acceptance_index = 1;
  extra_symbol = none;
  resource = record { url = "https://api.test/v1"; description = ""; mime_type = "text/plain" };
  requirement_hash = "00";
}

answered :
    normalize_payment_required no_hash one_url (some (answer offers)) asked_for
    ≡ ok (normalized_ok asked_for expected [])
unfolding opened
answered = refl

-- No acceptance is on the network of the test.
elsewhere :
    normalize_payment_required no_hash one_url
      (some (answer (cons (obj (acceptance "base")) nil)))
      asked_for
    ≡ ok (
        normalize_failed (record {
          code = unsupported_network;
          message = "No supported Bot Chain Testnet acceptance was offered";
          field = "accepts.network";
          expected = str "botchain:testnet";
          received = some (arr (cons (obj (acceptance "base")) nil));
        }))
unfolding opened
elsewhere = refl

normalize_payment_required-IsAsked_example :
    (asked_for ≡ asked_for) × IsAsked (some (answer offers)) 1 (requirement_in expected)
normalize_payment_required-IsAsked_example =
    normalize_payment_required-IsAsked no_hash one_url (some (answer offers)) asked_for asked_for
      expected [] answered

select-IsSelected_iff_example :
    (select offers (compatible_from 0 (candidates offers))
      ≡ parsed (1, acceptance "botchain:testnet"))
    ↔ IsSelected (candidates offers) 1 (acceptance "botchain:testnet")
select-IsSelected_iff_example = select-IsSelected_iff offers 1 (acceptance "botchain:testnet")
