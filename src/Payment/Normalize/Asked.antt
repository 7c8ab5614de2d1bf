-- ===== src/Payment/Normalize/Asked.antt =====
-- What the terms are that normalizePaymentRequired returns.
use zadper.Common.{
  ℕ, ◌≤◌, ◌≡◌, refl, ap, sym, subst, String, Option, none, some, List, length, arith, ok, throw,
  type_error, ok-injective,
}
use zadper.Json.{Value, str, num, bool, null, obj, arr, Fields, Items}
use zadper.Payment.Types.{OriginalRequest, Reason}
use zadper.Payment.Settlement.{field_of}
use zadper.Payment.Normalize.Parsing.{
  Parsed, parsed, refused, demand, bind-parsed, demand-parsed, parsed-injective,
}
use zadper.Payment.Normalize.Values.{as_record}
use zadper.Payment.Normalize.Requirement.{PaymentRequirement, parse_requirement}
use zadper.Payment.Normalize.Selection.{candidates, compatible_from, select, accepts_of, version_of}
use zadper.Payment.Normalize.Terms.{
  FullUrl, PaymentResource, NormalizedTerms, normalized_ok, normalize_failed, parse_resource,
  compare_resource, build_terms, parse_payment_required, compare_urls, normalize_payment_required,
}
use zadper.Payment.Normalize.Accepted.{IsAccepted, parse_requirement-IsAccepted}
use zadper.Payment.Normalize.Selected.{IsSelected, select-IsSelected}

-- The requirement in the terms.
abbrev pub requirement_in : NormalizedTerms → PaymentRequirement
requirement_in made = record {
  asset = made.terms.asset;
  amount = made.terms.amount;
  pay_to = made.terms.pay_to;
  max_timeout_seconds = made.terms.max_timeout_seconds;
  name = made.terms.extra_name;
  version = made.terms.extra_version;
  decimals = made.terms.extra_decimals;
  symbol = made.extra_symbol;
}

-- The answer is an object of version 2 with 1 to 16 acceptances, of which one is compatible and is a
-- requirement.
pub record IsAsked (input : Option Value) (index : ℕ) (r : PaymentRequirement) : Type 0 where
  pub root : Fields
  pub is_root : as_record input ≡ some root
  pub version_two : field_of "x402Version" root ≡ some (num 2)
  pub accepts : Items
  pub is_accepts : field_of "accepts" root ≡ some (arr accepts)
  pub some_accepts : 1 ≤ length (candidates accepts)
  pub few_accepts : length (candidates accepts) ≤ 16
  pub chosen : Fields
  pub selected : IsSelected (candidates accepts) index chosen
  pub is_requirement : parse_requirement chosen ≡ parsed r
  pub accepted : IsAccepted r

version-two : (v : Option Value) {n : ℕ} → version_of v ≡ some n → v ≡ some (num 2)
version-two (some (num m)) e = ap (λ k. some (num k)) (ground arith)
version-two (some (str s)) e = cc
version-two (some (bool b)) e = cc
version-two (some null) e = cc
version-two (some (obj fs)) e = cc
version-two (some (arr vs)) e = cc
version-two none e = cc

accepts-array :
    (v : Option Value) {accepts : Items}
    → accepts_of v ≡ some accepts
    → (v ≡ some (arr accepts))
      × (1 ≤ length (candidates accepts))
      × (length (candidates accepts) ≤ 16)
accepts-array (some (arr vs)) e = ground arith
accepts-array (some (num n)) e = cc
accepts-array (some (str s)) e = cc
accepts-array (some (bool b)) e = cc
accepts-array (some null) e = cc
accepts-array (some (obj fs)) e = cc
accepts-array none e = cc

normalized_ok-injective :
    {kept request : OriginalRequest} {made terms : NormalizedTerms} {advisories given : List Reason}
    → normalized_ok request terms given ≡ normalized_ok kept made advisories
    → (kept ≡ request) × (made ≡ terms)
normalized_ok-injective e = (cc, cc)

module _ (sha256 : String → String) (parse_url : String → Option FullUrl) where
  parse_payment_required-IsAsked :
      (input : Option Value) {asked : ℕ × PaymentRequirement × PaymentResource}
      → parse_payment_required sha256 parse_url input ≡ parsed asked
      → IsAsked input (asked.0) (asked.1)
  unfolding parse_payment_required
  parse_payment_required-IsAsked input e =
      let root = bind-parsed (demand (as_record input) _) _ e in
      let version =
        bind-parsed (demand (version_of (field_of "x402Version" (root.0))) _) _ root.2 in
      let resource =
        bind-parsed (parse_resource sha256 parse_url (field_of "resource" (root.0))) _ version.2 in
      let accepts =
        bind-parsed (demand (accepts_of (field_of "accepts" (root.0))) _) _ resource.2 in
      let chosen =
        bind-parsed (select accepts.0 (compatible_from 0 (candidates accepts.0))) _ accepts.2 in
      let requirement = bind-parsed (parse_requirement chosen.0.1) _ chosen.2 in
      let offers = accepts-array (field_of "accepts" (root.0)) (demand-parsed _ _ accepts.1) in
      let built : IsAsked input chosen.0.0 requirement.0 = record {
        root = root.0;
        is_root = demand-parsed _ _ root.1;
        version_two = version-two (field_of "x402Version" (root.0)) (demand-parsed _ _ version.1);
        accepts = accepts.0;
        is_accepts = offers.0;
        some_accepts = offers.1;
        few_accepts = offers.2;
        chosen = chosen.0.1;
        selected = select-IsSelected accepts.0 chosen.1;
        is_requirement = requirement.1;
        accepted = parse_requirement-IsAccepted chosen.0.1 requirement.0 requirement.1;
      } in
      subst (λ (a : ℕ × PaymentRequirement × PaymentResource). IsAsked input (a.0) (a.1))
        (parsed-injective requirement.2) built

  built-terms :
      (request : OriginalRequest) (index : ℕ) (requirement : PaymentRequirement)
      (resource : PaymentResource) (observed declared : FullUrl)
      → {kept : OriginalRequest} {made : NormalizedTerms} {advisories : List Reason}
      → build_terms sha256 parse_url request index requirement resource observed declared
        ≡ normalized_ok kept made advisories
      → (kept ≡ request)
        × (made.acceptance_index ≡ index)
        × (requirement_in made ≡ requirement)
        × (made.terms.resource_comparison ≡ compare_resource sha256 parse_url observed declared)
  unfolding build_terms
  built-terms request index requirement resource observed declared e =
      let same = normalized_ok-injective e in
      (
        same.0,
        ap (λ (m : NormalizedTerms). m.acceptance_index) same.1,
        ap requirement_in same.1,
        ap (λ (m : NormalizedTerms). m.terms.resource_comparison) same.1,
      )

  compared-found :
      (request : OriginalRequest) (index : ℕ) (requirement : PaymentRequirement)
      (resource : PaymentResource) (seen told : Option FullUrl)
      → {kept : OriginalRequest} {made : NormalizedTerms} {advisories : List Reason}
      → (elim seen [
        | none ↦ throw (type_error "Invalid URL")
        | some observed ↦ elim told [
          | none ↦ throw (type_error "Invalid URL")
          | some declared ↦
              ok (build_terms sha256 parse_url request index requirement resource observed declared)
        ]
      ])
        ≡ ok (normalized_ok kept made advisories)
      → (observed : FullUrl) × (declared : FullUrl) × (seen ≡ some observed)
        × (told ≡ some declared)
        × (kept ≡ request)
        × (made.acceptance_index ≡ index)
        × (requirement_in made ≡ requirement)
        × (made.terms.resource_comparison ≡ compare_resource sha256 parse_url observed declared)
  compared-found request index requirement resource none told e = cc
  compared-found request index requirement resource (some observed) none e = cc
  compared-found request index requirement resource (some observed) (some declared) e =
      let built =
        built-terms request index requirement resource observed declared (ok-injective e) in
      (observed, declared, refl, refl, built.0, built.1, built.2, built.3)

  normalized_ok-asked :
      (input : Option Value) (request : OriginalRequest)
      (outcome : Parsed (ℕ × PaymentRequirement × PaymentResource))
      → {kept : OriginalRequest} {made : NormalizedTerms} {advisories : List Reason}
      → parse_payment_required sha256 parse_url input ≡ outcome
      → (elim outcome [
        | refused r ↦ ok (normalize_failed r)
        | parsed asked ↦ compare_urls sha256 parse_url request asked
      ])
        ≡ ok (normalized_ok kept made advisories)
      → (kept ≡ request) × IsAsked input made.acceptance_index (requirement_in made)
  unfolding compare_urls
  normalized_ok-asked input request (refused r) {kept} {made} f e = cc
  normalized_ok-asked input request (parsed (index, requirement, resource)) {kept} {made} f e =
      let met = compared-found request index requirement resource _ _ e in
      let asked = parse_payment_required-IsAsked input f in
      (
        met.4,
        subst (λ i. IsAsked input i (requirement_in made)) (sym met.5)
            (subst (λ r. IsAsked input index r) (sym met.6) asked),
      )

  -- Where terms are returned, the request is the one given; the answer is an object of version 2 with
  -- 1 to 16 acceptances; the terms are those of the acceptance at their index, which is for the exact
  -- scheme on the network of the test, as no other acceptance is; and its amount is positive, its
  -- asset and payee are in normal form, its time is of 1 to 900 seconds, and its texts have the
  -- lengths that are allowed.
  pub normalize_payment_required-IsAsked :
      (input : Option Value) (request kept : OriginalRequest) (made : NormalizedTerms)
      (advisories : List Reason)
      → normalize_payment_required sha256 parse_url input request
        ≡ ok (normalized_ok kept made advisories)
      → (kept ≡ request) × IsAsked input made.acceptance_index (requirement_in made)
  unfolding normalize_payment_required
  normalize_payment_required-IsAsked input request kept made advisories e =
      normalized_ok-asked input request (parse_payment_required sha256 parse_url input) refl e
