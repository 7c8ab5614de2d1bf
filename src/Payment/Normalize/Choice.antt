-- ===== src/Payment/Normalize/Choice.antt =====
-- When an acceptance is selected.
use zadper.Common.{
  ℕ, zero, suc, ◌+◌, ◌≡◌, ◌↔◌, refl, ap, ◌∙◌, true, Option, none, some, List, [], ◌∷◌, get_elem?,
  arith, Bool-cases, inl, inr,
}
use zadper.Json.{Value, obj, Fields, Items}
use zadper.Payment.Normalize.Parsing.{parsed}
use zadper.Payment.Normalize.Values.{as_record}
use zadper.Payment.Normalize.Selection.{
  is_compatible, compatible_from, put_compatible, candidates, select,
}
use zadper.Payment.Normalize.Selected.{IsSelected, as_record-some, as_record-obj, select-IsSelected}

put-none :
    (index : ℕ) (found : Option Fields) (rest : List (ℕ × Fields))
    → ((gs : Fields) → found ≡ some gs → is_compatible gs ≡ true → ⊥)
    → put_compatible index found rest ≡ rest
put-none index none rest unfit = refl
put-none index (some gs) rest unfit = elim (Bool-cases (is_compatible gs)) [
  | inl fit ↦ absurd (unfit gs refl fit)
  | inr other ↦ rw other refl
]

none_selected :
    (index : ℕ) (vs : List Value)
    → ((other : ℕ) (gs : Fields) → get_elem? vs other ≡ some (obj gs) → is_compatible gs ≡ true → ⊥)
    → compatible_from index vs ≡ []
unfolding compatible_from
none_selected index [] unfit = refl
none_selected index (v ∷ vs) unfit =
    put-none index (as_record (some v)) (compatible_from (index + 1) vs)
      (λ gs found fit. unfit 0 gs (ap some (as_record-some v found)) fit)
    ∙ none_selected (index + 1) vs (λ other. unfit (suc other))

put-fit :
    (index : ℕ) (found : Option Fields) (rest : List (ℕ × Fields)) (fs : Fields)
    → found ≡ some fs
    → is_compatible fs ≡ true
    → rest ≡ []
    → put_compatible index found rest ≡ (index + 0, fs) ∷ []
put-fit index found rest fs e fit empty = rw (e, fit, empty) (ground arith)

selected_compatible :
    (index : ℕ) (vs : List Value) (place : ℕ) (fs : Fields)
    → IsSelected vs place fs
    → compatible_from index vs ≡ (index + place, fs) ∷ []
unfolding compatible_from
selected_compatible index [] place fs s = absurd (cc s.offered)
selected_compatible index (v ∷ vs) zero fs s =
    let head : v ≡ obj fs = cc s.offered in
    put-fit index (as_record (some v)) (compatible_from (index + 1) vs) fs
      (ap (λ w. as_record (some w)) head ∙ as_record-obj fs) s.compatible
      (none_selected (index + 1) vs
        (λ other gs at fit. absurd (omega (arith, s.only (suc other) gs at fit))))
selected_compatible index (v ∷ vs) (suc place) fs s =
    put-none index (as_record (some v)) (compatible_from (index + 1) vs)
      (λ gs found fit. absurd (omega (arith, s.only 0 gs (ap some (as_record-some v found)) fit)))
    ∙ selected_compatible (index + 1) vs place fs (record {
      offered = s.offered;
      compatible = s.compatible;
      only = λ other gs at fit. omega (arith, s.only (suc other) gs at fit);
    })
    ∙ ap (λ k. (k, fs) ∷ []) (omega arith)

select-one :
    (accepts : Items) (found : List (ℕ × Fields)) (index : ℕ) (fs : Fields)
    → found ≡ (0 + index, fs) ∷ []
    → select accepts found ≡ parsed (index, fs)
unfolding select
select-one accepts found index fs e = ap (select accepts) e ∙ ap (λ k. parsed (k, fs)) (omega arith)

-- An acceptance is selected exactly when it is at its index, is for the exact scheme on the network
-- of the test, and no acceptance at another index is.
pub select-IsSelected_iff :
    (accepts : Items) (index : ℕ) (fs : Fields)
    → (select accepts (compatible_from 0 (candidates accepts)) ≡ parsed (index, fs))
      ↔ IsSelected (candidates accepts) index fs
select-IsSelected_iff accepts index fs = (
  λ e. select-IsSelected accepts e,
  λ s. select-one accepts _ index fs (selected_compatible 0 (candidates accepts) index fs s),
)
