-- ===== src/Options/Tests.antt =====
-- Instances of the theorems on the options.
use radish.Shared.{◌-◌, ◌^◌, false, some, ◌∷◌, ◌≡◌, arith, codes, pos, ok}
use radish.Decimal.{to_string}
use radish.Options.{ServerOptions, default_options, parse_option, parse_options}
use radish.Options.Bounds.{IsUsable, IsTimeToLive, parse_options-IsUsable}
use radish.Options.RoundTrip.{print_options, parse_options-print_options}
use radish.Options.Numbers.{parse_option-negative_port}

abbrev cache_options : ServerOptions
cache_options = record default_options {
  port = 7000;
  ttl = some (pos 250);
  persistence_enabled = false;
}

cache_options-IsUsable : IsUsable cache_options
unfolding IsTimeToLive
cache_options-IsUsable = (omega arith, omega arith)

parse_options-print_options_example : parse_options (print_options cache_options) ≡ ok cache_options
parse_options-print_options_example =
    parse_options-print_options cache_options cache_options-IsUsable

read_back : parse_options (print_options cache_options) ≡ ok cache_options
read_back = parse_options-print_options cache_options cache_options-IsUsable

parse_options-IsUsable_example : IsUsable cache_options
parse_options-IsUsable_example =
    parse_options-IsUsable (print_options cache_options) cache_options read_back

parse_option-negative_port_example :
    parse_option (codes "--port") (b'-' ∷ to_string (2 ^ 64 - 6379)) default_options
    ≡ ok (record default_options { port = 6379 })
parse_option-negative_port_example =
    parse_option-negative_port 6379 default_options (omega arith) (omega arith)
