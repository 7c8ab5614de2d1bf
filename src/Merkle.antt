-- ===== src/Merkle.antt =====
-- packages/agent-pay-core/src/merkle.ts: a data set of evidence records, the root over the hashes of
-- the records, and the proof that each record belongs to it.
pub mod Proofs
mod Tests
use Prim.Native.String as Text
use zadper.Common.{
  ℕ, zero, suc, ◌+◌, ◌-◌, ◌/◌, ◌%◌, String, Bool, Option, none, some, List, [], ◌∷◌, map, length,
  get_elem?, ltb, ◌==◌, ◌===◌, if◌then◌else◌, Result, ok, throw, plain_error,
}
use zadper.Evidence.{Hashing, EvidenceRecord, hash_json, record_value}

pub data Position : Type 0 where
  left right : Position

pub record ProofStep : Type 0 where
  pub position : Position
  pub hash : String

pub record ReportProof : Type 0 where
  pub dataset_id : String
  pub record_of : EvidenceRecord
  pub report_hash : String
  pub proof : List ProofStep

pub record Dataset : Type 0 where
  pub dataset_id : String
  pub root : String
  pub reports : List ReportProof

-- What an element of an array is in a template, where there is none: `${undefined}`.
abbrev pub or_undefined : Option String → String
or_undefined none = "undefined"
or_undefined (some s) = s

-- `a ?? b`.
abbrev pub or_else : Option String → Option String → Option String
or_else none b = b
or_else (some a) b = some a

-- `levels[levels.length - 1][0]`.
unfoldable pub root_of : List (List String) → String
root_of [] = or_undefined none
root_of (level ∷ []) = or_undefined (get_elem? level 0)
root_of (level ∷ next ∷ levels) = root_of (next ∷ levels)

-- One turn of the loop of `buildProof`.
unfoldable pub proof_step : ℕ → List String → ProofStep
proof_step index level =
    let sibling_index : ℕ = if index % 2 == 0 then index + 1 else index - 1 in
    record {
      position = if index % 2 == 0 then right else left;
      hash = or_undefined (or_else (get_elem? level sibling_index) (get_elem? level index));
    }

-- `buildProof`, from a level on: no step for the last level.
unfoldable pub build_proof : ℕ → List (List String) → List ProofStep
unfolding proof_step
build_proof index [] = []
build_proof index (level ∷ []) = []
build_proof index (level ∷ next ∷ levels) =
    proof_step index level ∷ build_proof (index / 2) (next ∷ levels)

-- `records.map((record, index) => ...)`, from an index on.
unfoldable pub reports_from :
    String → List String → List (List String) → ℕ → List EvidenceRecord → List ReportProof
unfolding build_proof
reports_from id leaves levels index [] = []
reports_from id leaves levels index (r ∷ rs) =
    record {
      dataset_id = id;
      record_of = r;
      report_hash = or_undefined (get_elem? leaves index);
      proof = build_proof index levels;
    }
    ∷ reports_from id leaves levels (index + 1) rs

module _ (h : Hashing) where
  unfoldable pub hash_report : EvidenceRecord → String
  unfolding hash_json record_value
  hash_report r = hash_json h (record_value r)

  unfoldable pub hash_pair : String → String → String
  hash_pair l r = h.sha256_hex (Text.◌++◌ l (Text.◌++◌ ":" r))

  -- The inner loop of `buildLevels`, two entries at a time; the last one is its own pair.
  unfoldable pub next_level : List String → List String
  unfolding hash_pair
  next_level [] = []
  next_level (l ∷ []) = hash_pair l l ∷ []
  next_level (l ∷ r ∷ rest) = hash_pair l r ∷ next_level rest

  -- `buildLevels` from a level on. The fuel bounds the number of levels.
  unfoldable pub levels_from : ℕ → List String → List (List String)
  unfolding next_level
  levels_from zero level = []
  levels_from (suc fuel) level =
      let more = levels_from fuel (next_level level) in
      if ltb 1 (length level) then level ∷ more else level ∷ []

  -- A level has fewer entries than the one before, so there are at most as many as leaves.
  unfoldable pub build_levels : List String → List (List String)
  unfolding levels_from
  build_levels leaf_hashes = levels_from (length leaf_hashes) leaf_hashes

  unfoldable pub verify_step : String → ProofStep → String
  unfolding hash_pair
  verify_step current step = elim step.position [
    | left ↦ hash_pair step.hash current
    | right ↦ hash_pair current step.hash
  ]

  -- The loop of `verifyReportProof`.
  unfoldable pub climb : String → List ProofStep → String
  unfolding verify_step
  climb current [] = current
  climb current (step ∷ steps) = climb (verify_step current step) steps

  unfoldable pub verify_report_proof : EvidenceRecord → List ProofStep → String → Bool
  unfolding hash_report climb
  verify_report_proof r proof root = climb (hash_report r) proof === root

  unfoldable pub build_dataset : String → List EvidenceRecord → Result Dataset
  unfolding build_levels root_of reports_from
  build_dataset id [] = throw (plain_error "Cannot build Merkle tree without rows")
  build_dataset id (r ∷ rs) =
      let leaves = map hash_report (r ∷ rs) in
      let levels = build_levels leaves in
      ok (record {
        dataset_id = id;
        root = root_of levels;
        reports = reports_from id leaves levels 0 (r ∷ rs);
      })

-- `dataset.reports.find(...)`.
unfoldable pub find_among : String → List ReportProof → Option ReportProof
find_among id [] = none
find_among id (p ∷ ps) = if p.record_of.id === id then some p else find_among id ps

unfoldable pub find_report : Dataset → String → Result ReportProof
unfolding find_among
find_report dataset record_id = elim (find_among record_id dataset.reports) [
  | none ↦ throw (plain_error (Text.◌++◌ "Unknown leaf id: " record_id))
  | some report ↦ ok report
]
