-- ===== src/Tests/Guards.antt =====
-- Runs of src/htaccess_cidr_table.c, src/htaccess_exec_auth.c and src/htaccess_exec_redirect.c.
use litehttpd.Dirwalk.Paths.{trim_slashes}
use litehttpd.Prelude.{
  ℕ, zero, suc, ◌/◌, ◌*◌, ◌+◌, ◌≤◌, ◌<◌, ◌≡◌, ◌⊎◌, refl, ◌||◌, true, false, Option, none, some, [],
  ◌∷◌, arith, length, replicate, if◌then◌else◌,
}
use litehttpd.Prelude.Text.{
  Bytes, codes, str_eq, has_char, starts_with_nocase, skip_ws, strtoul, digits_value, digits_rest,
  str_caseeq, behind, starts_with,
}
use litehttpd.Directive.{Directive, directive, Directives, nil, cons, no_data, redirect}
use litehttpd.Directive.Kind.{DirectiveType}
use litehttpd.Cidr.{cidr_match, cidr_parse}
use litehttpd.Cidr.Mask.{subnet}
use litehttpd.Cidr6.{cidr_v6_match}
use litehttpd.CidrTable.{
  CidrTable, cidr_table_add_v6, cidr_table_match_v6, cidr_table_add_str, cidr_table_match_v4,
}
use litehttpd.CidrTable.Laws.{AreBytes, cidr_table_add_v6-match, cidr_table_add_str-match}
use litehttpd.Auth.{Opened, collect_config, exec_auth_basic, htpasswd_check}
use litehttpd.Auth.Base64.{base64_decode}
use litehttpd.Auth.Decision.{IsGranted, exec_auth_basic-IsGranted}
use litehttpd.Auth.RoundTrip.{encode, base64_decode-encode}
use litehttpd.Expression.Eval.{MatchResult, htre_match}
use litehttpd.Redirect.{Matches, exec_redirect_match}
use litehttpd.Redirect.Safety.{IsSafe, exec_redirect_match-IsSafe}

abbrev empty_table : CidrTable
empty_table = record { v4 = []; v6 = [] }

abbrev no_ipv6 : Bytes → Option Bytes
no_ipv6 text = none

abbrev network : Bytes
network = replicate 16 32

replicate-AreBytes : (n : ℕ) → AreBytes (replicate n 32)
replicate-AreBytes zero = tt
replicate-AreBytes (suc n) = (omega arith, replicate-AreBytes n)

network-AreBytes : AreBytes network
network-AreBytes = replicate-AreBytes 16

cidr_table_add_v6-match_example :
    ((cidr_table_add_v6 empty_table network 20).1 ≡ true)
    × (cidr_table_match_v6 (cidr_table_add_v6 empty_table network 20).0 network ≡ (
        cidr_table_match_v6 empty_table network
        || cidr_v6_match (record { addr = network; prefix_len = 20 }) network))
cidr_table_add_v6-match_example =
    cidr_table_add_v6-match empty_table network network 20 (omega arith) (omega arith) refl refl
      network-AreBytes network-AreBytes

cidr_table_add_str-match_example :
    ((0 < 1024)
      × ((cidr_table_add_str no_ipv6 empty_table (codes "10.0.0.0/8")).1 ≡ true)
      × (cidr_table_match_v4
            (cidr_table_add_str no_ipv6 empty_table (codes "10.0.0.0/8")).0
            167838211
          ≡ (cidr_table_match_v4 empty_table 167838211
              || cidr_match (subnet 167772160 8) 167838211)))
    ⊎ ((1024 ≤ 0)
        × (cidr_table_add_str no_ipv6 empty_table (codes "10.0.0.0/8") ≡ (empty_table, false)))
unfolding has_char cidr_parse starts_with_nocase skip_ws strtoul digits_value digits_rest
cidr_table_add_str-match_example =
    cidr_table_add_str-match no_ipv6 empty_table (codes "10.0.0.0/8") (subnet 167772160 8) 167838211
      refl refl

-- A stand-in for crypt_r that knows one password.
abbrev knows_secret : Bytes → Bytes → Option Bytes
knows_secret password hash = if str_eq password (codes "secret") then some (codes "$h") else some []

abbrev same_path : Bytes → Option Bytes
same_path path = some path

abbrev one_account : Bytes → Option Opened
one_account path =
    some (record { regular = true; target = path; content = codes "bob:x\nalice:$h\n" })

abbrev rule : DirectiveType → Bytes → Directive
rule type text = directive type 1 none (some text) none no_data

abbrev protected : Directives
protected = cons (rule DirectiveType.auth_type (codes "Basic")) (
    cons (rule DirectiveType.auth_user_file (codes "/www/.htpasswd"))
      (cons (rule DirectiveType.require_user (codes "bob alice")) nil))

exec_auth_basic-IsGranted_example :
    IsGranted knows_secret same_path one_account protected
      (some (codes "/www"))
      (some (codes "Basic YWxpY2U6c2VjcmV0"))
unfolding collect_config str_caseeq exec_auth_basic starts_with_nocase behind starts_with
    trim_slashes htpasswd_check
exec_auth_basic-IsGranted_example =
    exec_auth_basic-IsGranted knows_secret same_path one_account protected (some (codes "/www"))
      (some (codes "Basic YWxpY2U6c2VjcmV0")) refl refl refl

base64_decode-encode_example :
    base64_decode (encode (codes "hi")) (length (encode (codes "hi")) / 4 * 3 + 3)
    ≡ some (codes "hi")
base64_decode-encode_example = base64_decode-encode (codes "hi") (omega arith, (omega arith, tt))

abbrev first_group : Bytes → Bytes → Option (MatchResult × Matches)
first_group pattern subject = some (htre_match, some (0, 6) ∷ some (5, 6) ∷ [])

abbrev moved : Directive
moved =
    directive DirectiveType.redirect_match 1 none (some (codes "/new/$1")) none
      (redirect 301 (some (codes "^/old/(.)")))

exec_redirect_match-IsSafe_example :
    IsSafe (exec_redirect_match first_group moved (some (codes "/old/a")))
exec_redirect_match-IsSafe_example =
    exec_redirect_match-IsSafe first_group moved (some (codes "/old/a"))
