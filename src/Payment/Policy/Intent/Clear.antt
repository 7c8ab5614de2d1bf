-- ===== src/Payment/Policy/Intent/Clear.antt =====
-- When `evaluateAuthorization` has nothing against the payment.
use zadper.Common.{
  ℕ, ◌≤◌, ◌≡◌, refl, false, Option, some, List, [], ◌∷◌, ◌++◌, map, arith, ok, eq_iff, ◌↔◌, none,
  String, bind-eq-ok, ok-injective, subst, sym,
}
use zadper.Common.Text.{lower}
use zadper.Common.Decimal.{decimal}
use zadper.Payment.Types.{Reason, Network, OperatorPolicy, AuthorizationIntent}
use zadper.Payment.Runtime.{Runtime}
use zadper.Payment.Authorization.{max_safe_integer}
use zadper.Payment.Policy.Input.{
  PaymentEvaluationInput, parse_timestamp_integer, safe_authorization_digest,
}
use zadper.Payment.Policy.Intent.{
  Mismatch, compare_texts, compare_digest, compare_networks, field_mismatches, window_mismatches,
  mismatch_reason, time_reasons, replay_reasons, evaluate_intent, evaluate_authorization,
}
use zadper.Payment.Policy.Verdict.{bars, bars-append_clear}
use zadper.Payment.Policy.Approval.{IsMatching}

-- Without an authorization there is a reason against the payment.
pub authorization_given :
    (rt : Runtime) (input : PaymentEvaluationInput) (now_seconds : ℕ) (rs : List Reason)
    → evaluate_authorization rt input now_seconds ≡ ok rs
    → bars rs ≡ false
    → (a : AuthorizationIntent) × (input.authorization ≡ some a)
unfolding evaluate_authorization
authorization_given rt input now_seconds rs e h = ground arith

-- Every mismatch is a reason to block.
bars-mismatches : (ms : List Mismatch) → bars (map mismatch_reason ms) ≡ false → ms ≡ []
unfolding mismatch_reason
bars-mismatches [] h = refl
bars-mismatches (m ∷ ms) h = cc

append-eq-nil {ℓ} : {A : Type ℓ} (xs ys : List A) → xs ++ ys ≡ [] → (xs ≡ []) × (ys ≡ [])
append-eq-nil [] ys h = (refl, h)
append-eq-nil (x ∷ xs) ys h = cc

compare_texts-eq-nil :
    (field expected received : String)
    → compare_texts field expected received ≡ []
    → expected ≡ received
unfolding compare_texts
compare_texts-eq-nil field expected received h = ground (arith, eq_iff expected received)

compare_texts_of_eq :
    (field expected received : String)
    → expected ≡ received
    → compare_texts field expected received ≡ []
unfolding compare_texts
compare_texts_of_eq field expected received h = ground (arith, eq_iff expected received)

compare_digest_iff :
    (expected : Option String) (received : String)
    → (compare_digest expected received ≡ []) ↔ (expected ≡ some received)
unfolding compare_digest
compare_digest_iff none received = ground arith
compare_digest_iff (some expected) received = ground (arith, eq_iff expected received)

compare_networks_iff :
    (expected received : Network)
    → (compare_networks expected received ≡ []) ↔ (expected ≡ received)
unfolding compare_networks
compare_networks_iff expected received = ground arith

module _ (rt : Runtime) (input : PaymentEvaluationInput) (policy : OperatorPolicy)
    (a : AuthorizationIntent) (now_seconds : ℕ) (given : input.policy ≡ some policy) where
  -- The fields that the intent repeats.
  record SameFields : Type 0 where
    from : lower a.payer_public_key ≡ lower a.from
    to : lower input.terms.pay_to ≡ lower a.to
    amount : input.terms.amount ≡ a.amount
    network : input.terms.network ≡ a.network
    asset : lower input.terms.asset ≡ lower a.asset
    token_name : input.terms.extra_name ≡ a.token_name
    token_version : input.terms.extra_version ≡ a.token_version
    digest : safe_authorization_digest rt a.intent ≡ some (lower a.digest)

  fields_sound : field_mismatches rt input a ≡ [] → SameFields
  unfolding field_mismatches
  fields_sound h =
      let (from, h₁) = append-eq-nil (compare_texts _ _ _) _ h in
      let (to, h₂) = append-eq-nil (compare_texts _ _ _) _ h₁ in
      let (amount, h₃) = append-eq-nil (compare_texts _ _ _) _ h₂ in
      let (network, h₄) = append-eq-nil (compare_networks _ _) _ h₃ in
      let (asset, h₅) = append-eq-nil (compare_texts _ _ _) _ h₄ in
      let (name, h₆) = append-eq-nil (compare_texts _ _ _) _ h₅ in
      let (version, digest) = append-eq-nil (compare_texts _ _ _) _ h₆ in
      record {
        from = compare_texts-eq-nil _ _ _ from;
        to = compare_texts-eq-nil _ _ _ to;
        amount = compare_texts-eq-nil _ _ _ amount;
        network = (compare_networks_iff _ _).0 network;
        asset = compare_texts-eq-nil _ _ _ asset;
        token_name = compare_texts-eq-nil _ _ _ name;
        token_version = compare_texts-eq-nil _ _ _ version;
        digest = (compare_digest_iff _ _).0 digest;
      }

  fields_complete : SameFields → field_mismatches rt input a ≡ []
  unfolding field_mismatches
  fields_complete s =
      rw
        (
          compare_texts_of_eq _ _ _ s.from,
          compare_texts_of_eq _ _ _ s.to,
          compare_texts_of_eq _ _ _ s.amount,
          (compare_networks_iff _ _).1 s.network,
          compare_texts_of_eq _ _ _ s.asset,
          compare_texts_of_eq _ _ _ s.token_name,
          compare_texts_of_eq _ _ _ s.token_version,
          (compare_digest_iff _ _).1 s.digest,
        )
        refl

  record IsClear (valid_after valid_before : ℕ) : Type 0 where
    after_read : decimal a.valid_after ≡ some valid_after
    before_read : decimal a.valid_before ≡ some valid_before
    before_safe : valid_before ≤ max_safe_integer
    fields_clear : field_mismatches rt input a ≡ []
    window_clear : window_mismatches input now_seconds valid_after valid_before ≡ []
    time_clear : bars (time_reasons now_seconds valid_after valid_before) ≡ false
    replay_clear : bars (replay_reasons input a) ≡ false

  timestamp_read :
      (text label : String) (n : ℕ)
      → parse_timestamp_integer text label ≡ ok n
      → (decimal text ≡ some n) × (n ≤ max_safe_integer)
  unfolding parse_timestamp_integer
  timestamp_read text label n h = ground arith

  all_clear :
      (rs : List Reason)
      → evaluate_intent rt input now_seconds a ≡ ok rs
      → bars rs ≡ false
      → (f t : ℕ) × IsClear f t
  unfolding evaluate_intent
  all_clear rs e h =
      let (f, f_read, e₁) =
        bind-eq-ok (parse_timestamp_integer a.valid_after "authorization.validAfter") _ e in
      let (t, t_read, same) =
        bind-eq-ok (parse_timestamp_integer a.valid_before "authorization.validBefore") _ e₁ in
      let clear = subst (λ r. bars r ≡ false) (sym (ok-injective same)) h in
      let (fields, h₁) =
        bars-append_clear (map mismatch_reason (field_mismatches rt input a)) _ clear in
      let (window, h₂) =
        bars-append_clear (map mismatch_reason (window_mismatches input now_seconds f t)) _ h₁ in
      let (time, replay) = bars-append_clear (time_reasons now_seconds f t) _ h₂ in
      (
        f,
        t,
        record {
          after_read = (timestamp_read _ "authorization.validAfter" f f_read).0;
          before_read = (timestamp_read _ "authorization.validBefore" t t_read).0;
          before_safe = (timestamp_read _ "authorization.validBefore" t t_read).1;
          fields_clear = bars-mismatches _ fields;
          window_clear = bars-mismatches _ window;
          time_clear = time;
          replay_clear = replay;
        },
      )

  clear-IsMatching : (f t : ℕ) → IsClear f t → IsMatching rt input policy a now_seconds
  unfolding window_mismatches time_reasons replay_reasons
  clear-IsMatching f t c =
      let s = fields_sound c.fields_clear in
      record {
        from = s.from;
        to = s.to;
        amount = s.amount;
        network = s.network;
        asset = s.asset;
        token_name = s.token_name;
        token_version = s.token_version;
        digest = s.digest;
        valid_after = f;
        valid_before = t;
        after_read = c.after_read;
        before_read = c.before_read;
        before_safe = c.before_safe;
        started = ground (arith, c.time_clear);
        not_over = ground (arith, c.time_clear);
        window = ground (arith, c.window_clear, given);
        lifetime = ground (arith, c.window_clear, given);
        fresh_nonce = ground (arith, c.replay_clear);
      }

  pub authorization_sound :
      (rs : List Reason)
      → evaluate_authorization rt input now_seconds ≡ ok rs
      → bars rs ≡ false
      → input.authorization ≡ some a
      → IsMatching rt input policy a now_seconds
  unfolding evaluate_authorization
  authorization_sound rs e h prepared =
      let (f, t, c) = all_clear rs (rw (prepared, evaluate_authorization) at e) h in
      clear-IsMatching f t c

  module _ (m : IsMatching rt input policy a now_seconds) where
    window_none : window_mismatches input now_seconds m.valid_after m.valid_before ≡ []
    unfolding window_mismatches
    window_none = ground (arith, given)

    time_none : time_reasons now_seconds m.valid_after m.valid_before ≡ []
    unfolding time_reasons
    time_none = ground arith

    replay_none : replay_reasons input a ≡ []
    unfolding replay_reasons
    replay_none = ground arith

    timestamp_parsed :
        (text label : String) (n : ℕ)
        → decimal text ≡ some n
        → n ≤ max_safe_integer
        → parse_timestamp_integer text label ≡ ok n
    unfolding parse_timestamp_integer
    timestamp_parsed text label n h p = ground arith

    pub authorization_complete :
        input.authorization ≡ some a → evaluate_authorization rt input now_seconds ≡ ok []
    unfolding evaluate_authorization
    authorization_complete prepared =
        rw
          (
            prepared,
            evaluate_authorization,
            timestamp_parsed _ _ m.valid_after m.after_read (omega arith),
            timestamp_parsed _ _ m.valid_before m.before_read m.before_safe,
            fields_complete (record {
              from = m.from;
              to = m.to;
              amount = m.amount;
              network = m.network;
              asset = m.asset;
              token_name = m.token_name;
              token_version = m.token_version;
              digest = m.digest;
            }),
            window_none,
            time_none,
            replay_none,
          )
          refl
