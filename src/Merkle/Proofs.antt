-- ===== src/Merkle/Proofs.antt =====
-- The proofs of a data set lead from its records to its root.
use zadper.Common.{
  ℕ, zero, suc, ◌+◌, ◌/◌, ◌≤◌, ◌≡◌, refl, ◌∙◌, sym, ap, subst, String, true, some, List, [], ◌∷◌,
  map, length, get_elem?, ltb, lt→ltb, ◌===◌, All, arith, Bool-cases, ok-injective, inl, inr, ok,
  eq_iff,
}
use mathlib.Core.Option.{some-injective}
use zadper.Evidence.{Hashing, EvidenceRecord}
use zadper.Merkle.{
  ReportProof, Dataset, root_of, proof_step, build_proof, hash_report, next_level, levels_from,
  build_levels, verify_step, climb, verify_report_proof, reports_from, build_dataset, find_among,
  find_report,
}

proof_step-shift :
    (i : ℕ) (l r : String) (rest : List String)
    → proof_step (suc (suc i)) (l ∷ r ∷ rest) ≡ proof_step i rest
unfolding proof_step
proof_step-shift i l r rest = ground arith

half : (i : ℕ) → suc (suc i) / 2 ≡ suc (i / 2)
half i = omega arith

module _ (h : Hashing) where
  -- A step of a proof leads to the entry of the next level.
  next_level-get :
      (level : List String) (i : ℕ) (current : String)
      → get_elem? level i ≡ some current
      → get_elem? (next_level h level) (i / 2) ≡ some (verify_step h current (proof_step i level))
  unfolding next_level verify_step proof_step
  next_level-get [] i current e = cc
  next_level-get (l ∷ []) zero current e = ground arith
  next_level-get (l ∷ []) (suc i) current e = cc
  next_level-get (l ∷ r ∷ rest) zero current e = ground arith
  next_level-get (l ∷ r ∷ rest) (suc zero) current e = ground arith
  next_level-get (l ∷ r ∷ rest) (suc (suc i)) current e =
      rw (proof_step-shift i l r rest, half i) (next_level-get rest i current e)

  length-next_level :
      (level : List String)
      → length (next_level h level) + length (next_level h level) ≤ length level + 1
  unfolding next_level
  length-next_level [] = omega arith
  length-next_level (l ∷ []) = omega arith
  length-next_level (l ∷ r ∷ rest) = omega (arith, length-next_level rest)

  levels_from-first :
      (fuel : ℕ) (level : List String)
      → (more : List (List String)) × (levels_from h (suc fuel) level ≡ level ∷ more)
  unfolding levels_from
  levels_from-first fuel level = elim (Bool-cases (ltb 1 (length level))) [
    | inl several ↦ (levels_from h fuel (next_level h level), rw several)
    | inr few ↦ ([], rw few)
  ]

  climb_single :
      (fuel : ℕ) (l current : String)
      → some l ≡ some current
      → climb h current (build_proof 0 (levels_from h (suc fuel) (l ∷ [])))
        ≡ root_of (levels_from h (suc fuel) (l ∷ []))
  unfolding levels_from climb build_proof root_of
  climb_single fuel l current e = cc

  levels_from-several :
      (fuel : ℕ) (l r : String) (rest : List String)
      → levels_from h (suc fuel) (l ∷ r ∷ rest)
        ≡ (l ∷ r ∷ rest) ∷ levels_from h fuel (next_level h (l ∷ r ∷ rest))
  unfolding levels_from
  levels_from-several fuel l r rest = rw (lt→ltb 1 (suc (suc (length rest))) (omega arith))

  -- One step up, where there is a next level.
  climb_up :
      (i : ℕ) (current : String) (level : List String) (levels upper : List (List String))
      (next : List String)
      → levels ≡ next ∷ upper
      → climb h (verify_step h current (proof_step i level)) (build_proof (i / 2) levels)
        ≡ root_of levels
      → climb h current (build_proof i (level ∷ levels)) ≡ root_of (level ∷ levels)
  unfolding climb build_proof root_of
  climb_up i current level levels upper next e up = rw e (rw e at up)

  -- With fuel for every entry of a level, a proof leads from each entry to the root.
  climb-levels_from :
      (fuel : ℕ) (level : List String) (i : ℕ) (current : String)
      → length level ≤ fuel
      → get_elem? level i ≡ some current
      → climb h current (build_proof i (levels_from h fuel level))
        ≡ root_of (levels_from h fuel level)
  climb-levels_from fuel [] i current enough e = cc
  climb-levels_from zero (l ∷ rest) i current enough e = absurd (omega arith)
  climb-levels_from (suc fuel) (l ∷ []) zero current enough e = climb_single fuel l current e
  climb-levels_from (suc fuel) (l ∷ []) (suc i) current enough e = cc
  climb-levels_from (suc zero) (l ∷ r ∷ rest) i current enough e = absurd (omega arith)
  climb-levels_from (suc (suc fuel)) (l ∷ r ∷ rest) i current enough e =
      let level : List String = l ∷ r ∷ rest in
      let (more, first) = levels_from-first fuel (next_level h level) in
      let up =
        climb-levels_from (suc fuel) (next_level h level) (i / 2)
          (verify_step h current (proof_step i level)) (omega (arith, length-next_level level))
          (next_level-get level i current e) in
      rw (levels_from-several (suc fuel) l r rest) (
        climb_up i current level (levels_from h (suc fuel) (next_level h level)) more
          (next_level h level) first up)

-- A proof that belongs to the data set.
pub IsProved : Hashing → String → ReportProof → Type 0
IsProved h root p = verify_report_proof h p.record_of p.proof root ≡ true

===-refl : (s : String) → (s === s) ≡ true
===-refl s = (eq_iff s s).1 refl

module _ (h : Hashing) (id : String) (leaves : List String) where
  -- The reports from an index on, where the leaves from there on are those of the records.
  reports_from-IsProved :
      (index : ℕ) (rs : List EvidenceRecord)
      → ((j : ℕ) → get_elem? leaves (index + j) ≡ get_elem? (map (hash_report h) rs) j)
      → All
          (IsProved h (root_of (build_levels h leaves)))
          (reports_from id leaves (build_levels h leaves) index rs)
  unfolding reports_from verify_report_proof build_levels IsProved
  reports_from-IsProved index [] same = tt
  reports_from-IsProved index (r ∷ rs) same = (
    rw
        (climb-levels_from h (length leaves) leaves index (hash_report h r) (omega arith)
          (ap (get_elem? leaves) (omega arith) ∙ same 0))
        (===-refl (root_of (build_levels h leaves))),
    reports_from-IsProved (index + 1) rs (λ j. ap (get_elem? leaves) (omega arith) ∙ same (suc j)),
  )

reports_from-records :
    (id : String) (leaves : List String) (levels : List (List String)) (index : ℕ)
    (rs : List EvidenceRecord)
    → map (λ p. p.record_of) (reports_from id leaves levels index rs) ≡ rs
unfolding reports_from
reports_from-records id leaves levels index [] = refl
reports_from-records id leaves levels index (r ∷ rs) =
    ap (λ ps. r ∷ ps) (reports_from-records id leaves levels (index + 1) rs)

-- A data set is built of any records that are not none; it has a report of each of them, in their
-- order, and the proof of each report is verified against the root.
pub build_dataset-IsProved :
    (h : Hashing) (id : String) (r : EvidenceRecord) (rs : List EvidenceRecord)
    → (d : Dataset) × (build_dataset h id (r ∷ rs) ≡ ok d)
      × (map (λ p. p.record_of) d.reports ≡ r ∷ rs)
      × All (IsProved h d.root) d.reports
unfolding build_dataset
build_dataset-IsProved h id r rs =
    let leaves : List String = map (hash_report h) (r ∷ rs) in
    (
      _,
      refl,
      reports_from-records id leaves (build_levels h leaves) 0 (r ∷ rs),
      reports_from-IsProved h id leaves 0 (r ∷ rs) (λ j. ap (get_elem? leaves) (omega arith)),
    )

find_among-IsProved :
    (h : Hashing) (root id : String) (ps : List ReportProof) (p : ReportProof)
    → All (IsProved h root) ps
    → find_among id ps ≡ some p
    → (p.record_of.id ≡ id) × IsProved h root p
unfolding find_among
find_among-IsProved h root id [] p all_proved e = cc
find_among-IsProved h root id (q ∷ ps) p (proved, all_proved) e =
    elim (Bool-cases (q.record_of.id === id)) [
      | inl same ↦
          let same_report = some-injective _ _ (rw (same, find_among) at e) in
          subst (λ x. (x.record_of.id ≡ id) × IsProved h root x) same_report
            ((eq_iff q.record_of.id id).0 same, proved)
      | inr other ↦ find_among-IsProved h root id ps p all_proved (rw (other, find_among) at e)
    ]

found_among :
    (d : Dataset) (record_id : String) (p : ReportProof)
    → find_report d record_id ≡ ok p
    → find_among record_id d.reports ≡ some p
unfolding find_report
found_among d record_id p f = ground arith

-- What `findReport` finds in a data set that was built of records is a report of a record with the id
-- that was asked for, and its proof is verified against the root.
pub find_report-IsProved :
    (h : Hashing) (id record_id : String) (rs : List EvidenceRecord) (d : Dataset) (p : ReportProof)
    → build_dataset h id rs ≡ ok d
    → find_report d record_id ≡ ok p
    → (p.record_of.id ≡ record_id) × IsProved h d.root p
unfolding build_dataset
find_report-IsProved h id record_id [] d p e f = cc
find_report-IsProved h id record_id (r ∷ rs) d p e f =
    let (made, build, _, proved) = build_dataset-IsProved h id r rs in
    let same = ok-injective (sym build ∙ e) in
    find_among-IsProved h d.root record_id d.reports p
      (subst (λ x. All (IsProved h x.root) x.reports) same proved) (found_among d record_id p f)
