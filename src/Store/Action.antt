-- ===== src/Store/Action.antt =====
-- A method of a repository: it returns or raises, and what was written before a raise stays
-- written, so the tables come back beside the error too (store/errors.py).
use home_compass.Prelude.{◌≡◌, ap, Bool, true, false, Option, none, some}
use home_compass.Store.Models.{Db}

pub data Error : Type 0 where
  store_error provenance_error record_not_found draft_already_decided span_out_of_range : Error
  type_error key_missing value_error : Error

pub data Result {ℓ} (A : Type ℓ) : Type ℓ where
  ok : A → Result A
  err : Error → Result A

abbrev pub Action : Type 0 → Type 0
Action A = Db → Result A × Db

module _ {A : Type 0} where
  abbrev pub pure : A → Action A
  pure a db = (ok a, db)

  abbrev pub raise : Error → Action A
  raise e db = (err e, db)

  abbrev pub gets : (Db → A) → Action A
  gets f db = (ok (f db), db)

  abbrev pub or_raise : Option A → Error → Action A
  or_raise none e db = (err e, db)
  or_raise (some a) e db = (ok a, db)

infixl 5 ◌>>=◌ ◌>>◌
abbrev pub ◌>>=◌ : {A B : Type 0} → Action A → (A → Action B) → Action B
◌>>=◌ m f db = let (r, db') = m db in elim r [ ok a ↦ f a db' | err e ↦ (err e, db') ]

abbrev pub ◌>>◌ : {A B : Type 0} → Action A → Action B → Action B
m >> k = m >>= λ _. k

abbrev pub require : Bool → Error → Action (Unit {0})
require true e db = (ok tt, db)
require false e db = (err e, db)

abbrev pub modify : (Db → Db) → Action (Unit {0})
modify f db = (ok tt, f db)

-- a do-block past a step whose end is known
module _ {A B : Type 0} (m : Action A) (k : A → Action B) (db db' : Db) where
  pub bind_ok : (a : A) → m db ≡ (ok a, db') → (m >>= k) db ≡ k a db'
  bind_ok a e =
      ap
        (λ (r : Result A × Db). elim r.0 as (λ _. Result B × Db) [
          | ok x ↦ k x r.1
          | err x ↦ (err x, r.1)
        ])
        e

  pub bind_err : (x : Error) → m db ≡ (err x, db') → (m >>= k) db ≡ (err x, db')
  bind_err x e =
      ap
        (λ (r : Result A × Db). elim r.0 as (λ _. Result B × Db) [
          | ok y ↦ k y r.1
          | err y ↦ (err y, r.1)
        ])
        e
