-- ===== src/Evidence.antt =====
-- packages/agent-pay-core/src/types.ts and hash.ts: the record of what was observed of a subject,
-- and the hash of a JSON value.
use Prim.Native.String.{◌++◌}
use zadper.Common.{String, Bool, true, false, List, [], ◌∷◌, if◌then◌else◌}
use zadper.Common.Decimal.{to_decimal}
use zadper.Json.{
  Value, str, num, bool, null, obj, arr, Fields, end, field, Items, nil, cons, quote, join_comma,
}

-- What the hash takes from its platform.
pub record Hashing : Type 0 where
  -- Whether `localeCompare` of two texts is not positive.
  pub locale_le : String → String → Bool
  -- SHA-256 of node:crypto, of the UTF-8 bytes, in hexadecimal.
  pub sha256_hex : String → String

-- `EvidenceRecord`.
pub record EvidenceRecord : Type 0 where
  pub id : String
  pub product : String
  pub network : String
  pub subject : String
  pub observed_at : String
  pub source_url : String
  -- `Record<string, EvidenceFactValue>`, an entry for each key.
  pub facts : List (String × Value)
  pub raw_hash : String

-- One step of the sort of the entries, which is stable.
insert_field : Hashing → String → Value → Fields → Fields
insert_field h k v end = field k v end
insert_field h k v (field j w fs) =
    let rest = insert_field h k v fs in
    if h.locale_le k j then field k v (field j w fs) else field j w rest

-- `canonicalize`. An object keeps the order of its entries: its keys are not integers.
unfoldable mutual
  unfolding insert_field

  pub canonicalize : Hashing → Value → Value
  canonicalize h (obj fs) = obj (canonicalize_fields h fs)
  canonicalize h (arr vs) = arr (canonicalize_items h vs)
  canonicalize h (str s) = str s
  canonicalize h (num n) = num n
  canonicalize h (bool b) = bool b
  canonicalize h null = null

  pub canonicalize_fields : Hashing → Fields → Fields
  canonicalize_fields h end = end
  canonicalize_fields h (field k v fs) =
      insert_field h k (canonicalize h v) (canonicalize_fields h fs)

  pub canonicalize_items : Hashing → Items → Items
  canonicalize_items h nil = nil
  canonicalize_items h (cons v vs) = cons (canonicalize h v) (canonicalize_items h vs)

-- `JSON.stringify`.
unfoldable mutual
  unfolding quote to_decimal join_comma

  pub stringify : Value → String
  stringify null = "null"
  stringify (bool true) = "true"
  stringify (bool false) = "false"
  stringify (num n) = to_decimal n
  stringify (str s) = quote s
  stringify (arr vs) = "[" ++ join_comma (stringify_items vs) ++ "]"
  stringify (obj fs) = "{" ++ join_comma (stringify_fields fs) ++ "}"

  pub stringify_items : Items → List String
  stringify_items nil = []
  stringify_items (cons v vs) = stringify v ∷ stringify_items vs

  pub stringify_fields : Fields → List String
  stringify_fields end = []
  stringify_fields (field k v fs) = (quote k ++ ":" ++ stringify v) ∷ stringify_fields fs

unfoldable pub hash_json : Hashing → Value → String
unfolding canonicalize stringify
hash_json h v = h.sha256_hex (stringify (canonicalize h v))

facts_value : List (String × Value) → Fields
facts_value [] = end
facts_value ((k, v) ∷ fs) = field k v (facts_value fs)

unfoldable pub record_value : EvidenceRecord → Value
unfolding facts_value
record_value r = obj (
    field "id" (str r.id) (
      field "product" (str r.product) (
        field "network" (str r.network) (
          field "subject" (str r.subject) (
            field "observedAt" (str r.observed_at) (
              field "sourceUrl" (str r.source_url) (
                field "facts" (obj (facts_value r.facts))
                  (field "rawHash" (str r.raw_hash) end))))))))
