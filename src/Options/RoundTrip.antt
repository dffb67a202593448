-- ===== src/Options/RoundTrip.antt =====
-- The arguments that give a set of options.
use radish.Shared.{
  ℕ, ◌<◌, ◌≤◌, ◌^◌, Bool, true, false, Option, none, some, List, [], ◌∷◌, ◌++◌, ◌≡◌, refl, ap, ◌∙◌,
  arith, Bytes, pos, negsuc, codes, bytes_eq, ok, ◌>>=◌, if◌then◌else◌, All,
}
use radish.Decimal.{to_string, to_string_ℤ}
use radish.Decimal.RoundTrip.{IsDigit, to_string-IsDigit, unsigned-to_string}
use radish.Store.{Timestamp}
use radish.Options.{
  ServerOptions, default_options, skip_spaces, take_sign, to_unsigned_long, stoul, to_long_long,
  stoll, set_port, set_ttl, set_persistence, parse_option, parse_arguments, parse_options,
}
use radish.Options.Bounds.{IsTimeToLive, IsUsable}

-- Digits have no white space and no sign in front of them.
take_sign-digits : (s : Bytes) → All IsDigit s → take_sign (skip_spaces s) ≡ (false, s)
unfolding take_sign skip_spaces
take_sign-digits [] d = refl
take_sign-digits (c ∷ s) d = ground arith

pub stoul-to_string : (n : ℕ) → n < 2 ^ 64 → stoul (to_string n) ≡ ok n
unfolding stoul to_unsigned_long
stoul-to_string n h =
    rw (take_sign-digits (to_string n) (to_string-IsDigit n), unsigned-to_string n (omega arith))
      (ground arith)

pub stoll-to_string : (n : ℕ) → n < 2 ^ 63 → stoll (to_string n) ≡ ok (pos n)
unfolding stoll to_long_long
stoll-to_string n h =
    rw (take_sign-digits (to_string n) (to_string-IsDigit n), unsigned-to_string n (omega arith))
      (ground arith)

abbrev print_ttl : Option Timestamp → List Bytes
print_ttl none = []
print_ttl (some ttl) = codes "--ttl-ms" ∷ to_string_ℤ ttl ∷ []

abbrev print_persistence : Bool → Bytes
print_persistence enabled = if enabled then codes "flush" else codes "off"

-- All options, each given once.
unfoldable pub print_options : ServerOptions → List Bytes
print_options options =
    (codes "--bind"
      ∷ options.bind_address
      ∷ codes "--port"
      ∷ to_string options.port
      ∷ codes "--data-file"
      ∷ options.data_file
      ∷ codes "--persistence"
      ∷ print_persistence options.persistence_enabled
      ∷ [])
    ++ print_ttl options.ttl

parse_option-port :
    (n : ℕ) (o : ServerOptions)
    → n ≤ 65535
    → parse_option (codes "--port") (to_string n) o ≡ ok (record o { port = n })
unfolding parse_option bytes_eq set_port
parse_option-port n o h = rw (stoul-to_string n (omega arith)) (ground arith)

parse_option-persistence :
    (b : Bool) (o : ServerOptions)
    → parse_option (codes "--persistence") (print_persistence b) o
      ≡ ok (record o { persistence_enabled = b })
unfolding parse_option bytes_eq set_persistence
parse_option-persistence true o = refl
parse_option-persistence false o = refl

parse_arguments-option :
    (option value : Bytes) (rest : List Bytes) (o o' : ServerOptions)
    → parse_option option value o ≡ ok o'
    → parse_arguments o (option ∷ value ∷ rest) ≡ parse_arguments o' rest
unfolding parse_arguments
parse_arguments-option option value rest o o' h =
    ap (λ r. r >>= (λ o''. parse_arguments o'' rest)) h

parse_option-bind :
    (value : Bytes) (o : ServerOptions)
    → parse_option (codes "--bind") value o ≡ ok (record o { bind_address = value })
unfolding parse_option bytes_eq
parse_option-bind value o = refl

parse_option-data_file :
    (value : Bytes) (o : ServerOptions)
    → parse_option (codes "--data-file") value o ≡ ok (record o { data_file = value })
unfolding parse_option bytes_eq
parse_option-data_file value o = refl

parse_arguments-ttl :
    (ttl : Option Timestamp) (o : ServerOptions)
    → IsTimeToLive ttl
    → o.ttl ≡ none
    → parse_arguments o (print_ttl ttl) ≡ ok (record o { ttl = ttl })
unfolding parse_arguments parse_option set_ttl bytes_eq to_string_ℤ IsTimeToLive
parse_arguments-ttl none o h e = ap (λ t. ok (record o { ttl = t })) e
parse_arguments-ttl (some (pos n)) o h e = rw (stoll-to_string n h) refl
parse_arguments-ttl (some (negsuc n)) o h e = absurd h

-- The arguments that give each option of a set are parsed as that set, if its port is at most
-- 65535 and its time to live is not negative and fits in a `long long`.
pub parse_options-print_options :
    (options : ServerOptions)
    → IsUsable options
    → parse_options (print_options options) ≡ ok options
unfolding parse_options print_options
parse_options-print_options options h =
    let a = record default_options { bind_address = options.bind_address } in
    let b = record a { port = options.port } in
    let c = record b { data_file = options.data_file } in
    let d = record c { persistence_enabled = options.persistence_enabled } in
    let last = print_ttl options.ttl in
    let after_file = codes "--persistence" ∷ print_persistence options.persistence_enabled ∷ last in
    let after_port = codes "--data-file" ∷ options.data_file ∷ after_file in
    let after_bind = codes "--port" ∷ to_string options.port ∷ after_port in
    parse_arguments-option _ _ after_bind default_options a
      (parse_option-bind options.bind_address _)
    ∙ parse_arguments-option _ _ after_port a b (parse_option-port options.port _ h.0)
    ∙ parse_arguments-option _ _ after_file b c (parse_option-data_file options.data_file _)
    ∙ parse_arguments-option _ _ last c d (parse_option-persistence options.persistence_enabled _)
    ∙ parse_arguments-ttl options.ttl d h.1 refl
