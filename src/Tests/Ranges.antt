-- ===== src/Tests/Ranges.antt =====
-- Runs of src/htaccess_cidr.c and src/htaccess_expires.c.
use litehttpd.Prelude.{ℕ, ◌≡◌, refl, ◌↔◌, ◌/◌, ◌^◌, ◌-◌, ◌<◌, ◌≤◌, arith, true, some, ◌∷◌}
use litehttpd.Prelude.Text.{
  codes, long_max, starts_with_nocase, skip_ws, strtoul, digits_value, digits_rest, str_caseeq,
}
use litehttpd.Cidr.{cidr_parse, cidr_match}
use litehttpd.Cidr.Mask.{subnet, cidr_match_prefix}
use litehttpd.Cidr.Wf.{cidr_parse_sound}
use litehttpd.Cidr.Decimal.{show_num}
use litehttpd.Cidr.RoundTrip.{show_ipv4, address, cidr_parse_show}
use litehttpd.Expires.{
  pairs, parse_expires_duration, parse_verbose, one_pair, read_number, unit_to_seconds, unit_word,
  times_unit, after_word,
}
use litehttpd.Expires.Bounds.{parse_expires_duration-le}
use litehttpd.Expires.Notation.{IsUnit, parse_expires_duration_show}
use litehttpd.Prelude.{◌++◌}

abbrev host : ℕ
host = 167838211

cidr_match_prefix_example :
    (cidr_match (subnet 167772160 8) host ≡ true) ↔ (host / 2 ^ (32 - 8) ≡ 167772160 / 2 ^ (32 - 8))
cidr_match_prefix_example =
    cidr_match_prefix 8 167772160 host (omega arith) (omega arith) (omega arith)

cidr_parse_sound_example :
    (p : ℕ) × (addr : ℕ) × (p ≤ 32) × (addr < 2 ^ 32) × (subnet 167772160 8 ≡ subnet addr p)
unfolding cidr_parse starts_with_nocase skip_ws strtoul digits_value digits_rest
cidr_parse_sound_example = cidr_parse_sound (codes "10.0.0.0/8") (subnet 167772160 8) refl

cidr_parse_show_example :
    cidr_parse (show_ipv4 10 1 2 3 (b'/' ∷ show_num 24)) ≡ some (subnet (address 10 1 2 3) 24)
cidr_parse_show_example =
    cidr_parse_show 10 1 2 3 24 (omega arith, omega arith, omega arith, omega arith) (omega arith)

parse_expires_duration-le_example : 2678400 ≤ long_max
unfolding parse_expires_duration skip_ws parse_verbose starts_with_nocase pairs one_pair read_number
    digits_value digits_rest unit_to_seconds unit_word str_caseeq times_unit after_word
parse_expires_duration-le_example =
    parse_expires_duration-le (some (codes "access plus 1 month 1 day")) 2678400 refl

parse_expires_duration_show_example :
    parse_expires_duration (some (codes "access plus " ++ (show_num 30 ++ (32 ∷ codes "days"))))
    ≡ some 2592000
parse_expires_duration_show_example =
    parse_expires_duration_show 30 86400 (codes "days") (omega arith) IsUnit.days
