-- ===== src/Payment/Normalize/Terms.antt =====
-- packages/agent-pay-core/src/payment/normalize.ts: the resource, and normalizePaymentRequired.
use zadper.Common.{
  ℕ, String, Option, none, some, List, [], ◌∷◌, ◌&&◌, ◌||◌, leb, ◌===◌, if◌then◌else◌, Result, ok,
  throw, type_error,
}
use Prim.Native.String as Text
use zadper.Common.Text.{utf16_length}
use zadper.Json.{Value, str, num, obj, field, end, artifact_hash}
use zadper.Payment.Types.{
  Reason, ReasonResult, unsupported_x402_version, resource_scheme_mismatch, OriginalRequest,
  PaymentTerms, ResourceComparison, testnet,
}
use zadper.Payment.Artifacts.{text_or_null}
use zadper.Payment.Settlement.{field_of}
use zadper.Payment.Normalize.Parsing.{Refusal, Parsed, parsed, refused, ◌>>=◌, demand, string_with}
use zadper.Payment.Normalize.Values.{as_record, invalid_payment, fits}
use zadper.Payment.Normalize.Requirement.{PaymentRequirement, parse_requirement}
use zadper.Payment.Normalize.Selection.{candidates, compatible_from, select, accepts_of, version_of}

-- A `URL`: its parts, and `toString()` once `hash` is emptied.
pub record FullUrl : Type 0 where
  pub protocol : String
  pub host : String
  pub pathname : String
  pub search : String
  pub username : String
  pub password : String
  pub href : String

pub record PaymentResource : Type 0 where
  pub url : String
  pub description : String
  pub mime_type : String

pub record NormalizedTerms : Type 0 where
  pub terms : PaymentTerms
  pub acceptance_index : ℕ
  pub extra_symbol : Option String
  pub resource : PaymentResource
  pub requirement_hash : String

-- `NormalizeResult`.
pub data NormalizeResult : Type 0 where
  normalized_ok : OriginalRequest → NormalizedTerms → (advisories : List Reason) → NormalizeResult
  normalize_failed : Refusal → NormalizeResult

-- `slice(0, -1)`.
unfoldable pub drop_last : String → String
drop_last Text.[] = ""
drop_last (Text.◌∷◌ c Text.[]) = ""
drop_last (Text.◌∷◌ c (Text.◌∷◌ d s)) = Text.◌∷◌ c (drop_last (Text.◌∷◌ d s))

-- The reasons to review a resource that is declared under another scheme.
unfoldable pub scheme_advisories : FullUrl → FullUrl → List Reason
unfolding drop_last
scheme_advisories observed declared =
    if observed.protocol === declared.protocol
    then []
    else (record {
      code = resource_scheme_mismatch;
      result = ReasonResult.review;
      message = "The observed request and declared x402 resource use different URL schemes";
      field = some "resource.url.scheme";
      expected = str (drop_last observed.protocol);
      received = str (drop_last declared.protocol);
    })
      ∷ []

module _ (sha256 : String → String) (parse_url : String → Option FullUrl) where
  -- `parseHttpUrl`, where its exception is caught.
  unfoldable pub parse_http_url : String → Option FullUrl
  parse_http_url value = elim (parse_url value) [
    | none ↦ none
    | some url ↦ if url.protocol === "http:" || url.protocol === "https:" then some url else none
  ]

  abbrev http_url_in : Option Value → Option FullUrl
  http_url_in (some (str s)) = parse_http_url s
  http_url_in _ = none

  abbrev without_credentials : FullUrl → Option FullUrl
  without_credentials url = if url.username === "" && url.password === "" then some url else none

  unfoldable pub parse_resource : Option Value → Parsed PaymentResource
  unfolding as_record invalid_payment parse_http_url
  parse_resource value = do
    fs ←
        demand (as_record value)
          (invalid_payment "resource must be an object" "resource" (str "object") value)
    url ← demand (http_url_in (field_of "url" fs)) (
        invalid_payment "resource.url must be a URL" "resource.url" (str "absolute HTTP(S) URL")
          (field_of "url" fs))
    open_url ← demand (without_credentials url) (
        invalid_payment "resource.url must not contain credentials" "resource.url"
          (str "URL without credentials") (field_of "url" fs))
    description ←
        demand (string_with (λ s. leb (utf16_length s) 1024) (field_of "description" fs)) (
          invalid_payment "resource.description is invalid" "resource.description"
            (str "string <= 1024 chars") (field_of "description" fs))
    mime_type ← demand (string_with (fits 128) (field_of "mimeType" fs)) (
        invalid_payment "resource.mimeType is invalid" "resource.mimeType"
          (str "string <= 128 chars") (field_of "mimeType" fs))
    parsed (record { url = open_url.href; description = description; mime_type = mime_type })

  abbrev pub requirement_value : PaymentRequirement → Value
  requirement_value r = obj (
      field "scheme" (str "exact") (
        field "network" (str "botchain:testnet") (
          field "asset" (str r.asset) (
            field "amount" (str r.amount) (
              field "payTo" (str r.pay_to) (
                field "maxTimeoutSeconds" (num r.max_timeout_seconds) (
                  field "extra"
                    (obj (
                      field "name" (str r.name) (
                        field "version" (str r.version) (
                          field "decimals" (text_or_null r.decimals)
                            (field "symbol" (text_or_null r.symbol) end)))))
                    end)))))))

  abbrev pub resource_value : PaymentResource → Value
  resource_value resource = obj (
      field "url" (str resource.url) (
        field "description" (str resource.description)
          (field "mimeType" (str resource.mime_type) end)))

  -- The hash of a requirement at its index, with its resource.
  unfoldable pub requirement_hash_of : ℕ → PaymentRequirement → PaymentResource → String
  unfolding artifact_hash
  requirement_hash_of index requirement resource = artifact_hash sha256 (
      obj (
        field "x402Version" (num 2) (
          field "acceptanceIndex" (num index) (
            field "requirement" (requirement_value requirement)
              (field "resource" (resource_value resource) end)))))

  abbrev pub compare_resource : FullUrl → FullUrl → ResourceComparison
  compare_resource observed declared = record {
    same_host = observed.host === declared.host;
    same_scheme = observed.protocol === declared.protocol;
    same_path =
        Text.◌++◌ observed.pathname observed.search === Text.◌++◌ declared.pathname declared.search;
  }

  -- The result for a requirement at its index, with its resource, the URL of the request and that of
  -- the resource.
  unfoldable pub build_terms :
      OriginalRequest
      → ℕ
      → PaymentRequirement
      → PaymentResource
      → FullUrl
      → FullUrl
      → NormalizeResult
  unfolding requirement_hash_of scheme_advisories
  build_terms request index requirement resource observed declared =
      let terms : PaymentTerms = record {
        network = testnet;
        asset = requirement.asset;
        amount = requirement.amount;
        pay_to = requirement.pay_to;
        max_timeout_seconds = requirement.max_timeout_seconds;
        extra_name = requirement.name;
        extra_version = requirement.version;
        extra_decimals = requirement.decimals;
        resource_url = resource.url;
        resource_comparison = compare_resource observed declared;
      } in
      normalized_ok request
        (record {
          terms = terms;
          acceptance_index = index;
          extra_symbol = requirement.symbol;
          resource = resource;
          requirement_hash = requirement_hash_of index requirement resource;
        })
        (scheme_advisories observed declared)

  -- What the answer asks for: the index, the requirement and the resource.
  unfoldable pub parse_payment_required :
      Option Value → Parsed (ℕ × PaymentRequirement × PaymentResource)
  unfolding as_record invalid_payment parse_resource compatible_from select parse_requirement
  parse_payment_required input = do
    root ← demand (as_record input) (
        invalid_payment "PAYMENT-REQUIRED must be a JSON object" "paymentRequired" (str "object")
          input)
    version ← demand (version_of (field_of "x402Version" root)) (record {
      code = unsupported_x402_version;
      message = "Only x402 version 2 is supported";
      field = "x402Version";
      expected = num 2;
      received = field_of "x402Version" root;
    })
    resource ← parse_resource (field_of "resource" root)
    accepts ← demand (accepts_of (field_of "accepts" root)) (
        invalid_payment "accepts must contain between 1 and 16 payment requirements" "accepts"
          (str "1..16 items") (field_of "accepts" root))
    selected ← select accepts (compatible_from 0 (candidates accepts))
    requirement ← parse_requirement (selected.1)
    parsed (selected.0, requirement, resource)

  -- `new URL` of the request and of the resource may throw.
  unfoldable pub compare_urls :
      OriginalRequest → (ℕ × PaymentRequirement × PaymentResource) → Result NormalizeResult
  unfolding build_terms
  compare_urls request (index, requirement, resource) = elim (parse_url request.url) [
    | none ↦ throw (type_error "Invalid URL")
    | some observed ↦ elim (parse_url resource.url) [
      | none ↦ throw (type_error "Invalid URL")
      | some declared ↦ ok (build_terms request index requirement resource observed declared)
    ]
  ]

  unfoldable pub normalize_payment_required :
      Option Value → OriginalRequest → Result NormalizeResult
  unfolding parse_payment_required compare_urls
  normalize_payment_required input request = elim (parse_payment_required input) [
    | refused r ↦ ok (normalize_failed r)
    | parsed asked ↦ compare_urls request asked
  ]
