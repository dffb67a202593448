-- ===== src/Options/Bounds.antt =====
-- The options that `ParseOptions` lets through.
use radish.Shared.{
  ℕ, ◌<◌, ◌≤◌, ◌^◌, Bool, true, false, Option, none, some, List, [], ◌∷◌, ◌≡◌, arith, Bytes, ℤ, pos,
  negsuc, codes, bytes_eq, Bool-cases, inl, inr, ltb, Result, ok, err, ◌>>=◌, unknown_option,
  invalid_persistence, subst, if◌then◌else◌,
}
use radish.Decimal.{unsigned}
use radish.Store.{Timestamp}
use radish.Options.{
  ServerOptions, default_options, skip_spaces, take_sign, stoul, to_long_long, stoll, set_port,
  set_ttl, set_persistence, parse_option, parse_arguments, parse_options,
}

-- The range of a `long long`, less the negative numbers.
unfoldable pub IsTimeToLive : Option Timestamp → Type 0
IsTimeToLive none = Unit
IsTimeToLive (some (pos n)) = n < 2 ^ 63
IsTimeToLive (some (negsuc n)) = ⊥

abbrev pub IsUsable : ServerOptions → Type 0
IsUsable options = (options.port ≤ 65535) × IsTimeToLive options.ttl

-- An exception, or options that are usable.
OkUsable : Result ServerOptions → Type 0
OkUsable (ok options) = IsUsable options
OkUsable (err e) = Unit

set_port-OkUsable :
    (options : ServerOptions) (n : ℕ) → IsUsable options → OkUsable (set_port options n)
unfolding set_port OkUsable
set_port-OkUsable options n u = elim (Bool-cases (ltb 65535 n)) [
  | inl large ↦ rw large tt
  | inr small ↦ rw small (ground arith, u.1)
]

parsed_port-OkUsable :
    (options : ServerOptions) (r : Result ℕ) → IsUsable options → OkUsable (r >>= set_port options)
unfolding OkUsable
parsed_port-OkUsable options (ok n) u = set_port-OkUsable options n u
parsed_port-OkUsable options (err e) u = tt

IsLongLong : Result ℤ → Type 0
IsLongLong (ok (pos n)) = n < 2 ^ 63
IsLongLong (ok (negsuc n)) = Unit
IsLongLong (err e) = Unit

to_long_long-IsLongLong :
    (minus : Bool) (r : Option (ℕ × Bytes)) → IsLongLong (to_long_long minus r)
unfolding to_long_long IsLongLong
to_long_long-IsLongLong minus none = tt
to_long_long-IsLongLong true (some (n, rest)) = ground arith
to_long_long-IsLongLong false (some (n, rest)) = ground arith

parsed_ttl-OkUsable :
    (options : ServerOptions) (r : Result ℤ)
    → IsLongLong r
    → IsUsable options
    → OkUsable (r >>= set_ttl options)
unfolding OkUsable IsLongLong set_ttl IsTimeToLive
parsed_ttl-OkUsable options (ok (pos n)) h u = (u.0, h)
parsed_ttl-OkUsable options (ok (negsuc n)) h u = tt
parsed_ttl-OkUsable options (err e) h u = tt

set_persistence-OkUsable :
    (options : ServerOptions) (value : Bytes)
    → IsUsable options
    → OkUsable (set_persistence options value)
unfolding OkUsable set_persistence
set_persistence-OkUsable options value u =
    choose (bytes_eq value (codes "flush")) (bytes_eq value (codes "off"))
  where
    choose :
        (a b : Bool)
        → OkUsable (
            if a
            then ok (record options { persistence_enabled = true })
            else if b
            then ok (record options { persistence_enabled = false })
            else err invalid_persistence)
    choose true b = u
    choose false true = u
    choose false false = tt

parse_option-OkUsable :
    (option value : Bytes) (options : ServerOptions)
    → IsUsable options
    → OkUsable (parse_option option value options)
unfolding OkUsable parse_option stoll
parse_option-OkUsable option value options u =
    choose (bytes_eq option (codes "--bind")) (bytes_eq option (codes "--port"))
      (bytes_eq option (codes "--data-file")) (bytes_eq option (codes "--ttl-ms"))
      (bytes_eq option (codes "--persistence"))
  where
    choose :
        (a b c d e : Bool)
        → OkUsable (
            if a
            then ok (record options { bind_address = value })
            else if b
            then stoul value >>= set_port options
            else if c
            then ok (record options { data_file = value })
            else if d
            then stoll value >>= set_ttl options
            else if e
            then set_persistence options value
            else err unknown_option)
    choose true b c d e = u
    choose false true c d e = parsed_port-OkUsable options (stoul value) u
    choose false false true d e = u
    choose false false false true e =
        parsed_ttl-OkUsable options (stoll value)
          (to_long_long-IsLongLong (take_sign (skip_spaces value)).0
            (unsigned (take_sign (skip_spaces value)).1))
          u
    choose false false false false true = set_persistence-OkUsable options value u
    choose false false false false false = tt

behind-OkUsable :
    (r : Result ServerOptions) (loop : ServerOptions → Result ServerOptions)
    → OkUsable r
    → ((options : ServerOptions) → IsUsable options → OkUsable (loop options))
    → OkUsable (r >>= loop)
unfolding OkUsable
behind-OkUsable (ok options) loop u keep = keep options u
behind-OkUsable (err e) loop u keep = tt

parse_arguments-OkUsable :
    (options : ServerOptions) (arguments : List Bytes)
    → IsUsable options
    → OkUsable (parse_arguments options arguments)
unfolding OkUsable parse_arguments
parse_arguments-OkUsable options [] u = u
parse_arguments-OkUsable options (option ∷ []) u = tt
parse_arguments-OkUsable options (option ∷ value ∷ rest) u =
    behind-OkUsable (parse_option option value options) (λ options'. parse_arguments options' rest)
      (parse_option-OkUsable option value options u)
      (λ options' u'. parse_arguments-OkUsable options' rest u')

-- Options that are parsed from any arguments have a port of at most 65535 and, where they have
-- a time to live, one that is not negative and fits in a `long long`.
pub parse_options-IsUsable :
    (arguments : List Bytes) (options : ServerOptions)
    → parse_options arguments ≡ ok options
    → IsUsable options
unfolding parse_options OkUsable IsTimeToLive
parse_options-IsUsable arguments options h =
    subst OkUsable h (parse_arguments-OkUsable default_options arguments (omega arith, tt))
