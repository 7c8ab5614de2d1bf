-- ===== src/Payment/Normalize/Selected.antt =====
-- The acceptance that is selected is the only one that is compatible.
use zadper.Common.{
  ℕ, zero, suc, ◌+◌, ◌≡◌, refl, ap, sym, subst, ◌∙◌, true, Option, none, some, List, [], ◌∷◌,
  get_elem?, arith, Bool-cases, inl, inr, ◌⊎◌,
}
use zadper.Json.{Value, str, num, bool, null, obj, arr, Fields, Items}
use zadper.Payment.Normalize.Parsing.{parsed, parsed-injective}
use zadper.Payment.Normalize.Values.{as_record}
use zadper.Payment.Normalize.Selection.{
  is_compatible, compatible_from, put_compatible, candidates, select,
}

-- An acceptance of a list is compatible, and none at another index is.
pub record IsSelected (accepts : List Value) (index : ℕ) (fs : Fields) : Type 0 where
  pub offered : get_elem? accepts index ≡ some (obj fs)
  pub compatible : is_compatible fs ≡ true
  pub only :
      (other : ℕ) (gs : Fields)
      → get_elem? accepts other ≡ some (obj gs)
      → is_compatible gs ≡ true
      → other ≡ index

pub as_record-obj : (fs : Fields) → as_record (some (obj fs)) ≡ some fs
unfolding as_record
as_record-obj fs = refl

pub as_record-some : (v : Value) {fs : Fields} → as_record (some v) ≡ some fs → v ≡ obj fs
unfolding as_record
as_record-some (obj gs) e = cc
as_record-some (str s) e = cc
as_record-some (num n) e = cc
as_record-some (bool b) e = cc
as_record-some null e = cc
as_record-some (arr vs) e = cc

put-nil :
    (index : ℕ) (found : Option Fields) (rest : List (ℕ × Fields)) (gs : Fields)
    → put_compatible index found rest ≡ []
    → (rest ≡ []) × (found ≡ some gs → is_compatible gs ≡ true → ⊥)
put-nil index none rest gs e = (e, λ f h. cc)
put-nil index (some fs) rest gs e = elim (Bool-cases (is_compatible fs)) [
  | inl fit ↦ absurd (ground arith)
  | inr unfit ↦ (ground arith, λ f h. ground arith)
]

none_compatible :
    (index : ℕ) (vs : List Value) (other : ℕ) (gs : Fields)
    → compatible_from index vs ≡ []
    → get_elem? vs other ≡ some (obj gs)
    → is_compatible gs ≡ true
    → ⊥
unfolding compatible_from
none_compatible index [] other gs e at h = cc
none_compatible index (v ∷ vs) zero gs e at h =
    let head : v ≡ obj gs = cc in
    (put-nil index (as_record (some v)) (compatible_from (index + 1) vs) gs e).1
      (ap (λ w. as_record (some w)) head ∙ as_record-obj gs) h
none_compatible index (v ∷ vs) (suc other) gs e at h =
    none_compatible (index + 1) vs other gs
      (put-nil index (as_record (some v)) (compatible_from (index + 1) vs) gs e).0 at h

-- Either the head is the only one, or it is none.
put-one :
    (index : ℕ) (found : Option Fields) (rest : List (ℕ × Fields)) {at : ℕ} {fs : Fields}
    → put_compatible index found rest ≡ (at, fs) ∷ []
    → ((found ≡ some fs) × (at ≡ index) × (is_compatible fs ≡ true) × (rest ≡ []))
      ⊎ ((rest ≡ (at, fs) ∷ []) × ((gs : Fields) → found ≡ some gs → is_compatible gs ≡ true → ⊥))
put-one index none rest e = inr (e, λ gs f h. cc)
put-one index (some gs) rest e = elim (Bool-cases (is_compatible gs)) [
  | inl fit ↦ inl (ground arith)
  | inr unfit ↦ inr (ground arith, λ hs f h. ground arith)
]

-- A single acceptance of the compatible ones is the only one that is.
compatible_from-IsSelected :
    (index : ℕ) (vs : List Value) {at : ℕ} {fs : Fields}
    → compatible_from index vs ≡ (at, fs) ∷ []
    → (place : ℕ) × (at ≡ index + place) × IsSelected vs place fs
unfolding compatible_from
compatible_from-IsSelected index [] e = cc
compatible_from-IsSelected index (v ∷ vs) {at} {fs} e =
    elim (put-one index (as_record (some v)) (compatible_from (index + 1) vs) e) [
      | inl (found, here, fit, rest) ↦ (
        0,
        omega arith,
        record {
          offered = ap some (as_record-some v found);
          compatible = fit;
          only = λ other gs.
              elim other
                as (λ k. get_elem? (v ∷ vs) k ≡ some (obj gs) → is_compatible gs ≡ true → k ≡ 0) [
                  | zero ↦ λ g h. refl
                  | suc more ↦ λ g h. absurd (none_compatible (index + 1) vs more gs rest g h)
                ];
        },
      )
      | inr (rest, unfit) ↦
          let later = compatible_from-IsSelected (index + 1) vs rest in
          (
            suc later.0,
            omega (arith, later.1),
            record {
              offered = later.2.offered;
              compatible = later.2.compatible;
              only = λ other gs.
                  elim other
                    as (λ k.
                      get_elem? (v ∷ vs) k ≡ some (obj gs)
                      → is_compatible gs ≡ true
                      → k ≡ suc (later.0)) [
                        | zero ↦ λ g h.
                            let head : v ≡ obj gs = cc in
                            absurd
                              (unfit gs (ap (λ w. as_record (some w)) head ∙ as_record-obj gs) h)
                        | suc more ↦ λ g h. ap suc (later.2.only more gs g h)
                      ];
            },
          )
    ]

select-one :
    (accepts : Items) (found : List (ℕ × Fields)) {at : ℕ} {fs : Fields}
    → select accepts found ≡ parsed (at, fs)
    → found ≡ (at, fs) ∷ []
unfolding select
select-one accepts [] e = cc
select-one accepts (first ∷ []) e = ap (λ s. s ∷ []) (parsed-injective e)
select-one accepts (first ∷ second ∷ more) e = cc

pub select-IsSelected :
    (accepts : Items) {at : ℕ} {fs : Fields}
    → select accepts (compatible_from 0 (candidates accepts)) ≡ parsed (at, fs)
    → IsSelected (candidates accepts) at fs
select-IsSelected accepts {at} {fs} e =
    let single = compatible_from-IsSelected 0 (candidates accepts) (select-one accepts _ e) in
    let here : at ≡ single.0 = omega (arith, single.1) in
    subst (λ i. IsSelected (candidates accepts) i fs) (sym here) single.2
