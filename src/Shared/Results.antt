-- ===== src/Shared/Results.antt =====
-- Exceptions as values: a call that may throw returns a `Result`.
use mathlib.Core.Path.{◌≡◌, refl}
use mathlib.Core.Bool.{Bool, true, false}

-- One constructor for each `throw` of the code that is modelled, named after its message.
pub data Exception : Type 0 where
  invalid_event_type unknown_event_type missing_field value_too_large : Exception
  invalid_value_length unexpected_end : Exception
  bad_header truncated_log invalid_record_length trailing_bytes record_invalid_size : Exception
  cannot_open write_failed : Exception
  missing_value port_out_of_range negative_ttl invalid_persistence unknown_option : Exception
  -- Thrown by `std::stoul` and `std::stoll`.
  no_conversion out_of_range : Exception
  end_of_stream empty_response nesting_limit unsupported_response : Exception
  not_positive unsupported_workload preload_failed samples_required : Exception
  -- Not thrown: `*` on an empty optional, `.value()` on one, and a loop of the model without fuel.
  undefined_behaviour bad_optional_access out_of_fuel : Exception

pub data Result {ℓ} (A : Type ℓ) : Type ℓ where
  err : Exception → Result A
  ok : A → Result A

-- `if (!condition) throw exception;`
abbrev pub guard : Bool → Exception → Result (Unit {0})
guard condition exception = elim condition [ true ↦ ok tt | false ↦ err exception ]

infixl 5 ◌>>=◌ ◌>>◌
-- The calls behind one that throws are not made.
abbrev pub ◌>>=◌ {ℓ κ} : {A : Type ℓ} {B : Type κ} → Result A → (A → Result B) → Result B
err exception >>= next = err exception
ok result >>= next = next result

pub >>=-eq-ok {ℓ κ} :
    {A : Type ℓ} {B : Type κ} (first : Result A) (next : A → Result B) {b : B}
    → (first >>= next) ≡ ok b
    → (a : A) × (first ≡ ok a) × (next a ≡ ok b)
>>=-eq-ok (err exception) next h = cc
>>=-eq-ok (ok a) next h = (a, refl, h)

abbrev pub ◌>>◌ {ℓ} : {B : Type ℓ} → Result (Unit {0}) → Result B → Result B
check >> rest = check >>= λ done. rest
