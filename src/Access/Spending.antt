-- ===== src/Access/Spending.antt =====
-- The rows of the challenges: which are unused, and what the statements on them keep.
use zadper.Common.{
  ℕ, ◌≡◌, refl, String, Bool, true, false, some, List, [], ◌∷◌, inl, inr, ◌&&◌, any, is_none, ◌===◌,
  eq_iff, Bool-cases, subst, arith,
}
use zadper.Access.Tables.{ChallengeRow, AccessDb}
use zadper.Access.Rows.{find_challenge, drop_expired, is_usable, use_rows}

abbrev pub has_id : String → ChallengeRow → Bool
has_id id c = c.id === id

abbrev pub is_unused : String → ChallengeRow → Bool
is_unused id c = c.id === id && is_none c.used_at

-- Each id stands once, and is that of the stored challenge.
abbrev pub IsKeyed : List ChallengeRow → Type 0
IsKeyed [] = Unit
IsKeyed (c ∷ cs) = (any (has_id c.id) cs ≡ false) × (c.challenge.id ≡ c.id) × IsKeyed cs

-- No challenge with the id is unused.
abbrev pub IsSpent : String → AccessDb → Type 0
IsSpent id db = any (is_unused id) db.challenges ≡ false

module _ (id : String) (now : ℕ) where
  any-drop_expired-id :
      (cs : List ChallengeRow)
      → any (has_id id) cs ≡ false
      → any (has_id id) (drop_expired now cs) ≡ false
  unfolding drop_expired
  any-drop_expired-id [] h = h
  any-drop_expired-id (c ∷ cs) h = ground (arith, any-drop_expired-id cs)

  pub drop_expired-spent :
      (cs : List ChallengeRow)
      → any (is_unused id) cs ≡ false
      → any (is_unused id) (drop_expired now cs) ≡ false
  unfolding drop_expired
  drop_expired-spent [] h = h
  drop_expired-spent (c ∷ cs) h = ground (arith, drop_expired-spent cs)

  any-use_rows-id :
      (other : String) (cs : List ChallengeRow)
      → any (has_id id) (use_rows other now cs) ≡ any (has_id id) cs
  unfolding use_rows
  any-use_rows-id other [] = refl
  any-use_rows-id other (c ∷ cs) = ground (arith, any-use_rows-id other cs)

  pub use_rows-spent :
      (other : String) (cs : List ChallengeRow)
      → any (is_unused id) cs ≡ false
      → any (is_unused id) (use_rows other now cs) ≡ false
  unfolding use_rows
  use_rows-spent other [] h = h
  use_rows-spent other (c ∷ cs) h = ground (arith, use_rows-spent other cs)

  unused_absent :
      (cs : List ChallengeRow) → any (has_id id) cs ≡ false → any (is_unused id) cs ≡ false
  unused_absent [] h = h
  unused_absent (c ∷ cs) h = ground (arith, unused_absent cs)

  usable_present :
      (cs : List ChallengeRow) → any (is_usable id now) cs ≡ true → any (has_id id) cs ≡ true
  unfolding is_usable
  usable_present [] h = cc
  usable_present (c ∷ cs) h = ground (arith, usable_present cs)

pub drop_expired-IsKeyed :
    (now : ℕ) (cs : List ChallengeRow) → IsKeyed cs → IsKeyed (drop_expired now cs)
unfolding drop_expired
drop_expired-IsKeyed now [] k = k
drop_expired-IsKeyed now (c ∷ cs) k =
    ground (arith, drop_expired-IsKeyed now cs k.2, any-drop_expired-id c.id now cs k.0)

pub use_rows-IsKeyed :
    (id : String) (now : ℕ) (cs : List ChallengeRow) → IsKeyed cs → IsKeyed (use_rows id now cs)
unfolding use_rows
use_rows-IsKeyed id now [] k = k
use_rows-IsKeyed id now (c ∷ cs) k =
    ground (arith, use_rows-IsKeyed id now cs k.2, any-use_rows-id c.id now id cs)

-- The challenge that is used was the only one with its id.
pub use_rows-uses :
    (id : String) (now : ℕ) (cs : List ChallengeRow)
    → IsKeyed cs
    → any (is_usable id now) cs ≡ true
    → any (is_unused id) (use_rows id now cs) ≡ false
unfolding use_rows is_usable
use_rows-uses id now [] k h = refl
use_rows-uses id now (c ∷ cs) k h = elim (Bool-cases (c.id === id)) [
  | inr other ↦ ground (arith, use_rows-uses id now cs k.2)
  | inl same ↦
      let alone : any (has_id id) cs ≡ false =
        subst (λ i. any (has_id i) cs ≡ false) ((eq_iff c.id id).0 same) k.0 in
      let spent = use_rows-spent id now id cs (unused_absent id now cs alone) in
      elim (Bool-cases (any (is_usable id now) cs)) [
        | inl more ↦ absurd (ground (arith, usable_present id now cs more))
        | inr none_more ↦ ground (arith, spent)
      ]
]

-- Where no challenge with the id is unused, the one that is found has been used.
pub find_challenge-spent :
    (id : String) (cs : List ChallengeRow) (row : ChallengeRow)
    → any (is_unused id) cs ≡ false
    → find_challenge id cs ≡ some row
    → is_none row.used_at ≡ false
unfolding find_challenge
find_challenge-spent id [] row h e = cc
find_challenge-spent id (c ∷ cs) row h e = ground (arith, find_challenge-spent id cs row)

-- A challenge that is found has the id.
pub find_challenge-id :
    (id : String) (cs : List ChallengeRow) (row : ChallengeRow)
    → IsKeyed cs
    → find_challenge id cs ≡ some row
    → row.challenge.id ≡ id
unfolding find_challenge
find_challenge-id id [] row k e = cc
find_challenge-id id (c ∷ cs) row k e =
    ground (arith, eq_iff c.id id, find_challenge-id id cs row k.2)
