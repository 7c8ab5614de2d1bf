-- ===== src/Access/Acts.antt =====
-- Methods on the store that may throw: each takes the store to its value or exception and the
-- store after it.
use zadper.Common.{◌≡◌, refl, Bool, true, false, Result, ok, throw}
use zadper.Access.Tables.{AccessDb, AuthError, other_exception}

pub data Outcome {ℓ} (A : Type ℓ) : Type ℓ where
  granted : A → Outcome A
  denied : AuthError → Outcome A

abbrev pub Act {ℓ} : Type ℓ → Type ℓ
Act A = AccessDb → Outcome A × AccessDb

unfoldable pub and_then {ℓ κ} :
    {A : Type ℓ} {B : Type κ} → Outcome A × AccessDb → (A → Act B) → Outcome B × AccessDb
and_then (granted a, db) next = next a db
and_then (denied error, db) next = (denied error, db)

infixl 5 ◌>>=◌
infixl 5 ◌>>◌
-- What follows a call runs on its value and the store after it.
unfoldable pub ◌>>=◌ {ℓ κ} : {A : Type ℓ} {B : Type κ} → Act A → (A → Act B) → Act B
unfolding and_then
(act >>= next) db = and_then (act db) next

unfoldable pub ◌>>◌ {κ} : {B : Type κ} → Act (Unit {0}) → Act B → Act B
unfolding and_then
(act >> next) db = and_then (act db) (λ _. next)

unfoldable pub return {ℓ} : {A : Type ℓ} → A → Act A
return a db = (granted a, db)

unfoldable pub deny {ℓ} : {A : Type ℓ} → AuthError → Act A
deny error db = (denied error, db)

-- `if (!test) throw error`.
unfoldable pub require : Bool → AuthError → Act (Unit {0})
require true error db = (granted tt, db)
require false error db = (denied error, db)

-- A call that does not use the store.
unfoldable pub lift {ℓ} : {A : Type ℓ} → Result A → Act A
lift (ok a) db = (granted a, db)
lift (throw exception) db = (denied (other_exception exception), db)

module _ {ℓ κ} {A : Type ℓ} {B : Type κ} where
  -- An act that returns has passed its first step.
  pub bind-granted :
      (act : Act A) (next : A → Act B) (db : AccessDb) {value : B} {after : AccessDb}
      → (act >>= next) db ≡ (granted value, after)
      → (a : A) × (between : AccessDb) × (act db ≡ (granted a, between))
        × (next a between ≡ (granted value, after))
  unfolding ◌>>=◌
  bind-granted act next db e = go (act db) e
    where
      go :
          (first : Outcome A × AccessDb) {value : B} {after : AccessDb}
          → and_then first next ≡ (granted value, after)
          → (a : A) × (between : AccessDb) × (first ≡ (granted a, between))
            × (next a between ≡ (granted value, after))
      go (granted a, db) e = (a, db, refl, e)
      go (denied error, db) e = cc

module _ {κ} {B : Type κ} where
  pub seq-granted :
      (act : Act (Unit {0})) (next : Act B) (db : AccessDb) {value : B} {after : AccessDb}
      → (act >> next) db ≡ (granted value, after)
      → (between : AccessDb) × (act db ≡ (granted tt, between))
        × (next between ≡ (granted value, after))
  unfolding ◌>>◌
  seq-granted act next db e = go (act db) e
    where
      go :
          (first : Outcome (Unit {0}) × AccessDb) {value : B} {after : AccessDb}
          → and_then first (λ _. next) ≡ (granted value, after)
          → (between : AccessDb) × (first ≡ (granted tt, between))
            × (next between ≡ (granted value, after))
      go (granted done, db) e = (db, refl, e)
      go (denied error, db) e = cc

  pub require-granted :
      (test : Bool) (error : AuthError) (next : Act B) (db : AccessDb)
      → {value : B} {after : AccessDb} → (require test error >> next) db ≡ (granted value, after)
      → (test ≡ true) × (next db ≡ (granted value, after))
  unfolding require ◌>>◌
  require-granted true error next db e = (refl, e)
  require-granted false error next db e = cc

  pub lift-granted {ℓ} :
      {A : Type ℓ} (r : Result A) (next : A → Act B) (db : AccessDb)
      → {value : B} {after : AccessDb} → (lift r >>= next) db ≡ (granted value, after)
      → (a : A) × (r ≡ ok a) × (next a db ≡ (granted value, after))
  unfolding lift ◌>>=◌
  lift-granted (ok a) next db e = (a, refl, e)
  lift-granted (throw exception) next db e = cc

-- An act that keeps a property of the store, whether it returns or throws.
pub record Keeps {ℓ} {A : Type ℓ} (P : AccessDb → Type 0) (act : Act A) : Type ℓ where
  pub holds : (db : AccessDb) → P db → P ((act db).1)

module _ (P : AccessDb → Type 0) where
  and_then-keeps {ℓ κ} :
      {A : Type ℓ} {B : Type κ} (first : Outcome A × AccessDb) (next : A → Act B)
      → P (first.1)
      → ((a : A) → Keeps P (next a))
      → P ((and_then first next).1)
  unfolding and_then
  and_then-keeps (granted a, db) next p k = (k a).holds db p
  and_then-keeps (denied error, db) next p k = p

  pub bind-Keeps {ℓ κ} :
      {A : Type ℓ} {B : Type κ} {act : Act A} {next : A → Act B}
      → Keeps P act
      → ((a : A) → Keeps P (next a))
      → Keeps P (act >>= next)
  unfolding ◌>>=◌
  bind-Keeps {act} {next} first rest = record {
    holds = λ db p. and_then-keeps (act db) next (first.holds db p) rest;
  }

  pub seq-Keeps {κ} :
      {B : Type κ} {act : Act (Unit {0})} {next : Act B}
      → Keeps P act
      → Keeps P next
      → Keeps P (act >> next)
  unfolding ◌>>◌
  seq-Keeps {act} {next} first rest = record {
    holds = λ db p. and_then-keeps (act db) (λ _. next) (first.holds db p) (λ _. rest);
  }

  lift_keeps {ℓ} : {A : Type ℓ} (r : Result A) (db : AccessDb) → P db → P ((lift r db).1)
  unfolding lift
  lift_keeps (ok a) db p = p
  lift_keeps (throw exception) db p = p

  pub lift-Keeps {ℓ} : {A : Type ℓ} (r : Result A) → Keeps P (lift r)
  lift-Keeps r = record { holds = lift_keeps r }

  require_keeps :
      (test : Bool) (error : AuthError) (db : AccessDb) → P db → P ((require test error db).1)
  unfolding require
  require_keeps true error db p = p
  require_keeps false error db p = p

  pub require-Keeps : (test : Bool) (error : AuthError) → Keeps P (require test error)
  require-Keeps test error = record { holds = require_keeps test error }

  pub return-Keeps {ℓ} : {A : Type ℓ} (a : A) → Keeps P (return a)
  unfolding return
  return-Keeps a = record { holds = λ db p. p }

  pub deny-Keeps {ℓ} : {A : Type ℓ} (error : AuthError) → Keeps P (deny {A = A} error)
  unfolding deny
  deny-Keeps error = record { holds = λ db p. p }

pub ruleset keeping = (bind-Keeps, seq-Keeps, lift-Keeps, require-Keeps, return-Keeps, deny-Keeps)
