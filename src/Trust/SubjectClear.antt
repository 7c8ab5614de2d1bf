-- ===== src/Trust/SubjectClear.antt =====
-- When `scoreSubject` approves a token, and when it rejects it.
use zadper.Common.{
  ℕ, ◌≤◌, ◌<◌, ◌≡◌, ◌≢◌, ◌↔◌, ◌⊎◌, inl, inr, refl, Bool, true, false, Option, none, some, [], ◌&&◌,
  ◌||◌, ◌==◌, ltb, leb, arith, holds_of, is_none, is_none-value, ap, any, includes, all,
}
use zadper.Trust.Signals.{SubjectSignals}
use zadper.Trust.Rules.{approved, rejected, is_danger, rule_result}
use zadper.Trust.SubjectRules.{
  is_true, is_concentrated, young_blocks, subject_flags, subject_not_checked, subject_passed,
  score_subject,
}
use zadper.Trust.Policy.{policy_definition, codes_for}
use zadper.Trust.Clear.{rule_result-approved_iff, rule_result-rejected_iff}

-- A token with nothing against it, all of which was observed.
pub record IsClean (s : SubjectSignals) : Type 0 where
  pub supply :
      (s.mint_burn_enabled ≡ some false)
      ⊎ ((s.mint_burn_enabled ≡ none) × (s.public_mint_entrypoint ≡ some false))
  pub pool : s.lp_holder_count ≢ some 1
  pub holders : (n : ℕ) × (s.holder_count ≡ some n) × (n ≢ 1)
  pub spread : (pct : ℕ) × (s.top_holder_pct ≡ some pct) × (pct < 95)
  pub aged : (age : ℕ) × (s.contract_age_blocks ≡ some age) × (1000 ≤ age)

unflagged_iff :
    (s : SubjectSignals)
    → (subject_flags s ≡ []) ↔ (
        (is_true s.mint_burn_enabled ≡ false)
        × ((is_none s.mint_burn_enabled && is_true s.public_mint_entrypoint) ≡ false)
        × (holds_of s.lp_holder_count (λ n. n == 1) ≡ false)
        × (is_concentrated s ≡ false)
        × (holds_of s.contract_age_blocks (λ age. ltb age young_blocks) ≡ false))
unfolding subject_flags
unflagged_iff s = ground arith

checked_iff :
    (s : SubjectSignals)
    → (subject_not_checked s ≡ []) ↔ (
        ((is_none s.mint_burn_enabled && is_none s.public_mint_entrypoint) ≡ false)
        × (is_none s.contract_age_blocks ≡ false)
        × (is_none s.holder_count ≡ false)
        × (is_none s.top_holder_pct ≡ false))
unfolding subject_not_checked
checked_iff s = ground arith

is_one : (o : Option ℕ) → (holds_of o (λ n. n == 1) ≡ false) → o ≢ some 1
is_one none h e = cc
is_one (some n) h e = ground arith

one_not : (o : Option ℕ) → o ≢ some 1 → holds_of o (λ n. n == 1) ≡ false
one_not none h = refl
one_not (some n) h = ground (arith, λ (e : n ≡ 1). h (ap some e))

supply_known :
    (mint public_mint : Option Bool)
    → is_true mint ≡ false
    → (is_none mint && is_true public_mint) ≡ false
    → (is_none mint && is_none public_mint) ≡ false
    → (mint ≡ some false) ⊎ ((mint ≡ none) × (public_mint ≡ some false))
supply_known none none h k l = cc
supply_known none (some true) h k l = cc
supply_known none (some false) h k l = inr (refl, refl)
supply_known (some true) p h k l = cc
supply_known (some false) p h k l = inl refl

subject-IsClean :
    (s : SubjectSignals) → subject_flags s ≡ [] → subject_not_checked s ≡ [] → IsClean s
unfolding is_concentrated
subject-IsClean s h k =
    let (mint, public_mint, pool, concentrated, young) = (unflagged_iff s).0 h in
    let (supply, age, holders, top) = (checked_iff s).0 k in
    let (n, counted) = is_none-value s.holder_count holders in
    let (pct, measured) = is_none-value s.top_holder_pct top in
    let (blocks, dated) = is_none-value s.contract_age_blocks age in
    record {
      supply = supply_known s.mint_burn_enabled s.public_mint_entrypoint mint public_mint supply;
      pool = is_one s.lp_holder_count pool;
      holders = (n, counted, ground (arith, counted, concentrated));
      spread = (pct, measured, ground (arith, measured, concentrated));
      aged = (blocks, dated, ground (arith, dated, young));
    }

IsClean-lists :
    (s : SubjectSignals) → IsClean s → (subject_flags s ≡ []) × (subject_not_checked s ≡ [])
unfolding is_concentrated
IsClean-lists s c =
    let (n, counted, several) = c.holders in
    let (pct, measured, low) = c.spread in
    let (blocks, dated, old) = c.aged in
    (
      (unflagged_iff s).1 (
        ground (arith, c.supply),
        ground (arith, c.supply),
        one_not s.lp_holder_count c.pool,
        ground (arith, counted, several, measured, low),
        ground (arith, dated, old),
      ),
      (checked_iff s).1 (
        ground (arith, c.supply),
        ground (arith, dated),
        ground (arith, counted),
        ground (arith, measured),
      ),
    )

-- A token is approved exactly when minting and burning are known to be disabled or, where that is
-- unknown, it is known to have no public mint entry point, its liquidity is not with one holder, and
-- its holders, their concentration and its age were observed and are within the bounds.
pub score_subject-approved_iff :
    (s : SubjectSignals) → ((score_subject s).decision ≡ approved) ↔ IsClean s
unfolding score_subject
score_subject-approved_iff s =
    let rule =
      rule_result-approved_iff (subject_flags s) (subject_not_checked s) (subject_passed s) in
    (λ e. let (h, k) = rule.0 e in subject-IsClean s h k, λ c. rule.1 (IsClean-lists s c))

severe-eq :
    (s : SubjectSignals)
    → any is_danger (subject_flags s)
      ≡ is_true s.mint_burn_enabled || holds_of s.lp_holder_count (λ n. n == 1) || is_concentrated s
unfolding subject_flags
severe-eq s = ground arith

is_true_iff : (o : Option Bool) → (is_true o ≡ true) ↔ (o ≡ some true)
is_true_iff none = ground arith
is_true_iff (some true) = ground arith
is_true_iff (some false) = ground arith

is_one_iff : (o : Option ℕ) → (holds_of o (λ n. n == 1) ≡ true) ↔ (o ≡ some 1)
is_one_iff none = ground arith
is_one_iff (some n) = (λ e. ap some (ground arith), λ e. ground arith)

is_high_iff :
    (o : Option ℕ)
    → (holds_of o (λ pct. leb 95 pct) ≡ true) ↔ ((pct : ℕ) × (o ≡ some pct) × (95 ≤ pct))
is_high_iff none = (λ e. cc, λ (_, e, _). cc)
is_high_iff (some n) = (λ e. (n, refl, ground arith), λ (pct, e, h). ground arith)

-- A token is rejected exactly when minting and burning are enabled, its liquidity or its supply is
-- with one holder, or 95 per cent of it or more are with the first holder.
pub score_subject-rejected_iff :
    (s : SubjectSignals)
    → ((score_subject s).decision ≡ rejected) ↔ (
        (s.mint_burn_enabled ≡ some true)
        ⊎ (s.lp_holder_count ≡ some 1)
        ⊎ (s.holder_count ≡ some 1)
        ⊎ ((pct : ℕ) × (s.top_holder_pct ≡ some pct) × (95 ≤ pct)))
unfolding score_subject is_concentrated
score_subject-rejected_iff s = ground (
  arith,
  rule_result-rejected_iff (subject_flags s) (subject_not_checked s) (subject_passed s),
  severe-eq s,
  is_true_iff s.mint_burn_enabled,
  is_one_iff s.lp_holder_count,
  is_one_iff s.holder_count,
  is_high_iff s.top_holder_pct,
)

-- Every flag of a token is in the policy that is hashed, in the list for its severity, and every
-- check that did not run is one of those that the policy has as mandatory.
pub score_subject-covered :
    (s : SubjectSignals)
    → (all (λ f. includes (codes_for policy_definition f.severity) f.code) (score_subject s).flags
        ≡ true)
      × (all (includes policy_definition.mandatory_for_clear) (score_subject s).not_checked ≡ true)
unfolding score_subject rule_result subject_flags subject_not_checked
score_subject-covered s = (ground arith, ground arith)
