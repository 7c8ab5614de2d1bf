-- ===== src/Merkle/Tests.antt =====
-- A data set of three records, and the theorems at it.
use zadper.Common.{◌≡◌, refl, true, List, [], ◌∷◌, map, All, ok, String}
use Prim.Native.String as Text
use zadper.Json.{num}
use zadper.Evidence.{Hashing, EvidenceRecord, hash_json, record_value, canonicalize, stringify}
use zadper.Merkle.{
  ReportProof, Dataset, hash_report, hash_pair, next_level, levels_from, build_levels, root_of,
  proof_step, build_proof, reports_from, build_dataset, find_among, find_report, verify_step, climb,
  verify_report_proof,
}
use zadper.Merkle.Proofs.{IsProved, build_dataset-IsProved, find_report-IsProved}

opened : Unit {0}
unfolding hash_json record_value canonicalize stringify hash_report hash_pair next_level levels_from
    build_levels root_of proof_step build_proof reports_from build_dataset find_among find_report
    verify_step climb verify_report_proof
opened = tt

-- Texts are their own hashes, and keys stay in the order that they have.
abbrev plain : Hashing
plain = record { locale_le = λ s t. true; sha256_hex = λ s. Text.◌++◌ "#" s }

abbrev entry : String → EvidenceRecord
entry id = record {
  id = id;
  product = "token";
  network = "testnet";
  subject = "0xaa";
  observed_at = "1000";
  source_url = "https://rpc.example";
  facts = ("holderCount", num 3) ∷ [];
  raw_hash = "00";
}

abbrev entries : List EvidenceRecord
entries = entry "r2" ∷ entry "r3" ∷ []

build_dataset-IsProved_example :
    (d : Dataset) × (build_dataset plain "d1" (entry "r1" ∷ entries) ≡ ok d)
    × (map (λ p. p.record_of) d.reports ≡ entry "r1" ∷ entries)
    × All (IsProved plain d.root) d.reports
build_dataset-IsProved_example = build_dataset-IsProved plain "d1" (entry "r1") entries

built :
    (d : Dataset) × (p : ReportProof) × (build_dataset plain "d1" (entry "r1" ∷ entries) ≡ ok d)
    × (find_report d "r3" ≡ ok p)
unfolding opened
built = (_, _, refl, refl)

find_report-IsProved_example : (built.1.record_of.id ≡ "r3") × IsProved plain built.0.root built.1
find_report-IsProved_example =
    find_report-IsProved plain "d1" "r3" (entry "r1" ∷ entries) built.0 built.1 built.2 built.3
