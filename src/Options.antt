-- ===== src/Options.antt =====
-- `ParseOptions` of src/main.cpp, and what `main` does with the options and the database.
-- `std::stoul` and `std::stoll` are written out as their documentation has them: white space and a
-- sign are skipped, digits are read as far as they go, and what follows is ignored.
pub mod Bounds
pub mod RoundTrip
pub mod Numbers
mod Tests
use radish.Shared.{
  ℕ, ◌-◌, ◌%◌, ◌^◌, Bool, true, false, ◌&&◌, ◌||◌, Option, none, some, List, [], ◌∷◌, Bytes, ℤ, pos,
  negsuc, sub_ℕ, minus_one, codes, leb, ltb, ◌==◌, bytes_eq, if◌then◌else◌, Result, ok, err, ◌>>=◌,
  no_conversion, out_of_range, missing_value, port_out_of_range, negative_ttl, invalid_persistence,
  unknown_option,
}
use radish.Binary.{string_value}
use radish.Decimal.{unsigned}
use radish.Store.{Timestamp}
use radish.LogWriter.{Disk, Fault}
use radish.Database
use radish.Database.{RadishDb, PersistenceMode, flush, disabled, open_database}

pub record ServerOptions : Type 0 where
  pub bind_address : Bytes
  pub data_file : Bytes
  pub port : ℕ
  pub ttl : Option Timestamp
  pub persistence_enabled : Bool

abbrev pub default_options : ServerOptions
default_options = record {
  bind_address = codes "127.0.0.1";
  data_file = codes "radish";
  port = 6379;
  ttl = none;
  persistence_enabled = true;
}

-- `std::isspace` of the "C" locale.
abbrev pub is_space : ℕ → Bool
is_space c = c == 32 || (leb 9 c && leb c 13)

unfoldable pub skip_spaces : Bytes → Bytes
skip_spaces [] = []
skip_spaces (c ∷ s) = let rest = skip_spaces s in if is_space c then rest else c ∷ s

-- Whether there is a minus sign, and what follows the sign.
unfoldable pub take_sign : Bytes → Bool × Bytes
take_sign [] = (false, [])
take_sign (c ∷ s) =
    if c == b'-' then (true, s) else if c == b'+' then (false, s) else (false, c ∷ s)

-- A minus sign negates modulo 2^64.
unfoldable pub to_unsigned_long : Bool → Option (ℕ × Bytes) → Result ℕ
to_unsigned_long minus none = err no_conversion
to_unsigned_long minus (some (n, rest)) =
    if leb (2 ^ 64) n then err out_of_range else if minus then ok ((2 ^ 64 - n) % 2 ^ 64) else ok n

unfoldable pub stoul : Bytes → Result ℕ
unfolding skip_spaces take_sign to_unsigned_long
stoul value =
    let (minus, text) = take_sign (skip_spaces value) in to_unsigned_long minus (unsigned text)

unfoldable pub to_long_long : Bool → Option (ℕ × Bytes) → Result ℤ
to_long_long minus none = err no_conversion
to_long_long true (some (n, rest)) = if leb n (2 ^ 63) then ok (sub_ℕ 0 n) else err out_of_range
to_long_long false (some (n, rest)) = if ltb n (2 ^ 63) then ok (pos n) else err out_of_range

unfoldable pub stoll : Bytes → Result ℤ
unfolding skip_spaces take_sign to_long_long
stoll value =
    let (minus, text) = take_sign (skip_spaces value) in to_long_long minus (unsigned text)

unfoldable pub set_port : ServerOptions → ℕ → Result ServerOptions
set_port options parsed =
    if ltb 65535 parsed then err port_out_of_range else ok (record options { port = parsed })

abbrev pub is_negative : ℤ → Bool
is_negative (pos n) = false
is_negative (negsuc n) = true

unfoldable pub set_ttl : ServerOptions → Timestamp → Result ServerOptions
set_ttl options ttl =
    if is_negative ttl then err negative_ttl else ok (record options { ttl = some ttl })

unfoldable pub set_persistence : ServerOptions → Bytes → Result ServerOptions
set_persistence options value =
    if bytes_eq value (codes "flush")
    then ok (record options { persistence_enabled = true })
    else if bytes_eq value (codes "off")
    then ok (record options { persistence_enabled = false })
    else err invalid_persistence

-- One round of the loop.
unfoldable pub parse_option : Bytes → Bytes → ServerOptions → Result ServerOptions
unfolding set_port set_ttl set_persistence
parse_option option value options =
    if bytes_eq option (codes "--bind")
    then ok (record options { bind_address = value })
    else if bytes_eq option (codes "--port")
    then stoul value >>= set_port options
    else if bytes_eq option (codes "--data-file")
    then ok (record options { data_file = value })
    else if bytes_eq option (codes "--ttl-ms")
    then stoll value >>= set_ttl options
    else if bytes_eq option (codes "--persistence")
    then set_persistence options value
    else err unknown_option

-- The loop over the arguments behind the program's name, two at a time.
unfoldable pub parse_arguments : ServerOptions → List Bytes → Result ServerOptions
parse_arguments options [] = ok options
parse_arguments options (option ∷ []) = err missing_value
parse_arguments options (option ∷ value ∷ rest) = do
  options' ← parse_option option value options
  parse_arguments options' rest

unfoldable pub parse_options : List Bytes → Result ServerOptions
unfolding parse_arguments
parse_options arguments = parse_arguments default_options arguments

abbrev pub mode_of : ServerOptions → PersistenceMode
mode_of options = if options.persistence_enabled then flush else disabled

-- The database that `main` makes; the log file on the disk is the one that the data file names.
unfoldable pub make_database :
    Timestamp → Fault → ServerOptions → Disk → Disk × Result (RadishDb Bytes)
make_database now fault options disk = elim options.ttl [
  | some ttl ↦ open_database now fault ttl (mode_of options) disk
  | none ↦ open_database now fault minus_one (mode_of options) disk
]

-- What `main` does behind `context.run()`.
unfoldable pub shut_down :
    Timestamp → Fault → ServerOptions → RadishDb Bytes → RadishDb Bytes × Result (Unit {0})
shut_down now fault options db =
    if options.persistence_enabled then Database.compact now fault db else (db, ok tt)
