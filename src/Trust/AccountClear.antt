-- ===== src/Trust/AccountClear.antt =====
-- When `scoreAccount` approves an account, and when it rejects it.
use zadper.Common.{
  ℕ, ◌≤◌, ◌<◌, ◌≡◌, ◌↔◌, ◌⊎◌, inl, inr, refl, Bool, true, false, Option, none, some, [], ◌&&◌, ltb,
  leb, arith, holds_of, is_none, is_none-value, any, includes, all,
}
use zadper.Trust.Signals.{AccountSignals}
use zadper.Trust.Rules.{approved, rejected, is_danger, rule_result}
use zadper.Trust.SubjectRules.{is_false}
use zadper.Trust.AccountRules.{
  dust_motes, young_account_blocks, parse_balance_motes, is_weak, account_flags,
  account_not_checked, account_passed, score_account,
}
use zadper.Trust.Policy.{account_policy_definition, codes_for}
use zadper.Trust.Clear.{rule_result-approved_iff, rule_result-rejected_iff}

-- An account with nothing against it, all of whose mandatory facts were observed. Its age may be
-- unknown.
pub record IsClean (s : AccountSignals) : Type 0 where
  pub exists : s.exists ≡ some true
  pub funded :
      (motes : ℕ) × (parse_balance_motes s.balance_motes ≡ some motes) × (1_000_000_000 ≤ motes)
  pub deployment : (n : ℕ) × (s.deployment_threshold ≡ some n)
  pub keys :
      (n : ℕ) × (threshold : ℕ) × (s.associated_key_count ≡ some n)
      × (s.key_management_threshold ≡ some threshold)
      × ((n ≤ 1) ⊎ (1 < threshold))
  pub aged : (s.age_blocks ≡ none) ⊎ ((age : ℕ) × (s.age_blocks ≡ some age) × (5_000 ≤ age))

unflagged_iff :
    (s : AccountSignals)
    → (account_flags s ≡ []) ↔ (
        (is_false s.exists ≡ false)
        × (is_weak s ≡ false)
        × (holds_of (parse_balance_motes s.balance_motes) (λ motes. ltb motes dust_motes) ≡ false)
        × (holds_of s.age_blocks (λ age. ltb age young_account_blocks) ≡ false))
unfolding account_flags
unflagged_iff s = ground arith

checked_iff :
    (s : AccountSignals)
    → (account_not_checked s ≡ []) ↔ (
        (is_none s.exists ≡ false)
        × (is_none (parse_balance_motes s.balance_motes) ≡ false)
        × (is_none s.associated_key_count ≡ false)
        × (is_none s.deployment_threshold ≡ false)
        × (is_none s.key_management_threshold ≡ false))
unfolding account_not_checked
checked_iff s = ground arith

must_exist : (o : Option Bool) → is_false o ≡ false → is_none o ≡ false → o ≡ some true
must_exist none h k = cc
must_exist (some true) h k = refl
must_exist (some false) h k = cc

old_enough :
    (o : Option ℕ)
    → holds_of o (λ age. ltb age young_account_blocks) ≡ false
    → (o ≡ none) ⊎ ((age : ℕ) × (o ≡ some age) × (5_000 ≤ age))
old_enough none h = inl refl
old_enough (some age) h = inr (age, refl, ground arith)

strong_keys : (n threshold : ℕ) → (ltb 1 n && leb threshold 1) ≡ false → (n ≤ 1) ⊎ (1 < threshold)
strong_keys n threshold h = ground arith

account-IsClean :
    (s : AccountSignals) → account_flags s ≡ [] → account_not_checked s ≡ [] → IsClean s
unfolding is_weak
account-IsClean s h k =
    let (found, weak, dust, young) = (unflagged_iff s).0 h in
    let (exists, balance, keys, deployment, management) = (checked_iff s).0 k in
    let (motes, read) = is_none-value (parse_balance_motes s.balance_motes) balance in
    let (n, counted) = is_none-value s.associated_key_count keys in
    let (threshold, known) = is_none-value s.key_management_threshold management in
    record {
      exists = must_exist s.exists found exists;
      funded = (motes, read, ground (arith, read, dust));
      deployment = is_none-value s.deployment_threshold deployment;
      keys = (
        n,
        threshold,
        counted,
        known,
        strong_keys n threshold (ground (arith, counted, known, weak)),
      );
      aged = old_enough s.age_blocks young;
    }

IsClean-lists :
    (s : AccountSignals) → IsClean s → (account_flags s ≡ []) × (account_not_checked s ≡ [])
unfolding is_weak
IsClean-lists s c =
    let (motes, read, enough) = c.funded in
    let (n, threshold, counted, known, strong) = c.keys in
    (
      (unflagged_iff s).1 (
        ground (arith, c.exists),
        ground (arith, counted, known, strong),
        ground (arith, read, enough),
        ground (arith, c.aged),
      ),
      (checked_iff s).1 (
        ground (arith, c.exists),
        ground (arith, read),
        ground (arith, counted),
        ground (arith, c.deployment),
        ground (arith, known),
      ),
    )

-- An account is approved exactly when it exists, has one CSPR or more, has its thresholds and keys
-- known, not with several keys of which one can change them all, and is not known to be young.
pub score_account-approved_iff :
    (s : AccountSignals) → ((score_account s).decision ≡ approved) ↔ IsClean s
unfolding score_account
score_account-approved_iff s =
    let rule =
      rule_result-approved_iff (account_flags s) (account_not_checked s) (account_passed s) in
    (λ e. let (h, k) = rule.0 e in account-IsClean s h k, λ c. rule.1 (IsClean-lists s c))

severe-eq : (s : AccountSignals) → any is_danger (account_flags s) ≡ is_false s.exists
unfolding account_flags
severe-eq s = ground arith

is_false_iff : (o : Option Bool) → (is_false o ≡ true) ↔ (o ≡ some false)
is_false_iff none = ground arith
is_false_iff (some true) = ground arith
is_false_iff (some false) = ground arith

-- An account is rejected exactly when it is known not to exist.
pub score_account-rejected_iff :
    (s : AccountSignals) → ((score_account s).decision ≡ rejected) ↔ (s.exists ≡ some false)
unfolding score_account
score_account-rejected_iff s = ground (
  arith,
  rule_result-rejected_iff (account_flags s) (account_not_checked s) (account_passed s),
  severe-eq s,
  is_false_iff s.exists,
)

-- Every flag of an account is in the policy that is hashed, in the list for its severity, and every
-- check that did not run is one of those that the policy has as mandatory.
pub score_account-covered :
    (s : AccountSignals)
    → (all
          (λ f. includes (codes_for account_policy_definition f.severity) f.code)
          (score_account s).flags
        ≡ true)
      × (all (includes account_policy_definition.mandatory_for_clear) (score_account s).not_checked
          ≡ true)
unfolding score_account rule_result account_flags account_not_checked
score_account-covered s = (ground arith, ground arith)
