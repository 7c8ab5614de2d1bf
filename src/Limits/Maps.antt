-- ===== src/Limits/Maps.antt =====
-- JavaScript's `Map` with text keys, as both limiters use it: the entries in the order in which
-- their keys were first set. A key stands in it once.
use zadper.Common.{
  ℕ, ◌+◌, ◌/◌, ◌≤◌, max, String, ◌≡◌, refl, Option, none, some, List, [], ◌∷◌, inl, inr, All,
  Bool-cases, subst, length, keep, Bool, ◌===◌, if◌then◌else◌, eq_iff, arith,
}

-- `Math.max(1, Math.ceil(ms / 1_000))` for a whole number of milliseconds.
unfoldable pub ceil_seconds : ℕ → ℕ
ceil_seconds ms = max 1 ((ms + 999) / 1000)

abbrev pub Entries {ℓ} : Type ℓ → Type ℓ
Entries V = List (String × V)

module _ {ℓ} {V : Type ℓ} where
  unfoldable pub get : String → Entries V → Option V
  get k [] = none
  get k ((j, v) ∷ m) = if j === k then some v else get k m

  unfoldable pub delete : String → Entries V → Entries V
  delete k [] = []
  delete k ((j, v) ∷ m) = let rest = delete k m in if j === k then rest else (j, v) ∷ rest

  unfoldable pub set : String → V → Entries V → Entries V
  set k v [] = (k, v) ∷ []
  set k v ((j, w) ∷ m) = if j === k then (k, v) ∷ m else (j, w) ∷ set k v m

  pub get-set :
      (k j : String) (v : V) (m : Entries V)
      → get j (set k v m) ≡ (if k === j then some v else get j m)
  unfolding get set
  get-set k j v [] = refl
  get-set k j v ((i, w) ∷ m) = ground (arith, eq_iff k j, eq_iff i k, eq_iff i j, get-set k j v m)

  pub get-delete :
      (k j : String) (m : Entries V) → get j (delete k m) ≡ (if k === j then none else get j m)
  unfolding get delete
  get-delete k j [] = ground arith
  get-delete k j ((i, w) ∷ m) = ground (arith, eq_iff k j, eq_iff i k, eq_iff i j, get-delete k j m)

  pub length-set_new : (k : String) (v : V) (m : Entries V) → length (set k v m) ≤ length m + 1
  unfolding set
  length-set_new k v [] = omega arith
  length-set_new k v ((j, w) ∷ m) = ground (arith, length-set_new k v m)

  pub length-set_old :
      (k : String) (v w : V) (m : Entries V) → get k m ≡ some w → length (set k v m) ≡ length m
  unfolding get set
  length-set_old k v w [] h = cc
  length-set_old k v w ((j, u) ∷ m) h = ground (arith, length-set_old k v w m)

  pub length-delete-le : (k : String) (m : Entries V) → length (delete k m) ≤ length m
  unfolding delete
  length-delete-le k [] = omega arith
  length-delete-le k ((j, w) ∷ m) = ground (arith, length-delete-le k m)

  -- Each key stands once.
  abbrev pub Distinct : Entries V → Type ℓ
  Distinct [] = Unit
  Distinct ((k, v) ∷ m) = (get k m ≡ none) × Distinct m

  pub set-Distinct : (k : String) (v : V) (m : Entries V) → Distinct m → Distinct (set k v m)
  unfolding set get
  set-Distinct k v [] d = (refl, tt)
  set-Distinct k v ((j, w) ∷ m) d =
      ground (arith, eq_iff j k, eq_iff k j, get-set k j v m, set-Distinct k v m d.1)

  pub delete-Distinct : (k : String) (m : Entries V) → Distinct m → Distinct (delete k m)
  unfolding delete
  delete-Distinct k [] d = d
  delete-Distinct k ((j, w) ∷ m) d = ground (arith, get-delete k j m, delete-Distinct k m d.1)

  pub delete_absent : (k : String) (m : Entries V) → get k m ≡ none → delete k m ≡ m
  unfolding get delete
  delete_absent k [] h = refl
  delete_absent k ((j, w) ∷ m) h = ground (arith, delete_absent k m)

module _ {ℓ κ} {V : Type ℓ} (P : V → Type κ) where
  -- A property of every value.
  abbrev pub EveryValue : Entries V → Type κ
  EveryValue m = All (λ entry. P (entry.1)) m

  pub set-EveryValue :
      (k : String) (v : V) (m : Entries V) → P v → EveryValue m → EveryValue (set k v m)
  unfolding set
  set-EveryValue k v [] p h = (p, tt)
  set-EveryValue k v ((j, w) ∷ m) p h = elim (Bool-cases (j === k)) [
    | inl same ↦ rw same (p, h.1)
    | inr other ↦ rw other (h.0, set-EveryValue k v m p h.1)
  ]

  pub delete-EveryValue : (k : String) (m : Entries V) → EveryValue m → EveryValue (delete k m)
  unfolding delete
  delete-EveryValue k [] h = h
  delete-EveryValue k ((j, w) ∷ m) h = elim (Bool-cases (j === k)) [
    | inl same ↦ rw same (delete-EveryValue k m h.1)
    | inr other ↦ rw other (h.0, delete-EveryValue k m h.1)
  ]

  pub get-EveryValue : (k : String) (v : V) (m : Entries V) → EveryValue m → get k m ≡ some v → P v
  unfolding get
  get-EveryValue k v [] h e = cc
  get-EveryValue k v ((j, w) ∷ m) h e = elim (Bool-cases (j === k)) [
    | inl same ↦ subst P (cc) h.0
    | inr other ↦ get-EveryValue k v m h.1 (ground arith)
  ]

module _ {ℓ} {V : Type ℓ} (p : String × V → Bool) where
  pub length-keep-le : (m : Entries V) → length (keep p m) ≤ length m
  length-keep-le [] = omega arith
  length-keep-le (e ∷ m) = ground (arith, length-keep-le m)

  get-keep-none : (k : String) (m : Entries V) → get k m ≡ none → get k (keep p m) ≡ none
  unfolding get
  get-keep-none k [] h = refl
  get-keep-none k ((j, v) ∷ m) h = ground (arith, get-keep-none k m)

  pub keep-Distinct : (m : Entries V) → Distinct m → Distinct (keep p m)
  keep-Distinct [] d = d
  keep-Distinct ((k, v) ∷ m) d = ground (arith, keep-Distinct m d.1, get-keep-none k m)

  pub keep-EveryValue {κ} :
      (P : V → Type κ) (m : Entries V) → EveryValue P m → EveryValue P (keep p m)
  keep-EveryValue P [] h = h
  keep-EveryValue P (e ∷ m) h = elim (Bool-cases (p e)) [
    | inl kept ↦ rw kept (h.0, keep-EveryValue P m h.1)
    | inr gone ↦ rw gone (keep-EveryValue P m h.1)
  ]
