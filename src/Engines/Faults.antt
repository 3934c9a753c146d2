-- ===== src/Engines/Faults.antt =====
-- What an engine ends with: a value, or an exception. `main.py` answers a `ValueError` with 400.
use home_compass.Prelude.{◌≡◌, refl, Option, none, some}

pub data Computed {ℓ} (A : Type ℓ) : Type ℓ where
  done : A → Computed A
  value_error key_error : Computed A

infixl 5 ◌>>=◌
abbrev pub ◌>>=◌ {ℓ κ} : {A : Type ℓ} {B : Type κ} → Computed A → (A → Computed B) → Computed B
done a >>= f = f a
value_error >>= f = value_error
key_error >>= f = key_error

abbrev pub or_value_error {ℓ} : {A : Type ℓ} → Option A → Computed A
or_value_error none = value_error
or_value_error (some a) = done a

-- what holds of a step and of all that follows it
pub bind_cases {ℓ κ μ} :
    {A : Type ℓ} {B : Type κ} (P : Computed B → Type μ) (m : Computed A) (f : A → Computed B)
    → ((a : A) → m ≡ done a → P (f a))
    → (m ≡ value_error → P value_error)
    → (m ≡ key_error → P key_error)
    → P (m >>= f)
bind_cases P (done a) f h v k = h a refl
bind_cases P value_error f h v k = v refl
bind_cases P key_error f h v k = k refl
