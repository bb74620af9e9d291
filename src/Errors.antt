-- ===== src/Errors.antt =====
-- src/error.rs: the errors of the library, and its `Result`.
use hopdns.Base.{ℕ, ◌≡◌, refl}

pub data Error : Type 0 where
  out_of_memory : Error
  help : Error
  unknown_flag : ℕ → Error
  missing_value : ℕ → Error
  unexpected_argument : ℕ → Error
  no_peer : Error
  bad_listen : Error
  bad_peer : Error
  yaml : ℕ → Error
  no_cluster_name : Error
  bad_name : Error
  no_room : Error
  malformed : Error

pub data Result {ℓ} (A : Type ℓ) : Type ℓ where
  ok : A → Result A
  err : Error → Result A

-- `?`: an error leaves the function.
infixl 5 ◌>>=◌
abbrev pub ◌>>=◌ {ℓ κ} : {A : Type ℓ} {B : Type κ} → Result A → (A → Result B) → Result B
err failure >>= next = err failure
ok value >>= next = next value

-- A chain that succeeds has succeeded at each step.
pub >>=-eq-ok {κ ℓ} :
    {B : Type κ} {A : Type ℓ} (first : Result A) (next : A → Result B) {last : B}
    → (first >>= next) ≡ ok last
    → (value : A) × (first ≡ ok value) × (next value ≡ ok last)
>>=-eq-ok (err failure) next h = cc
>>=-eq-ok (ok value) next h = (value, refl, h)
