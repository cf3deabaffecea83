-- ===== src/BruteForce/Address.antt =====
-- The addresses and paths of src/htaccess_exec_brute_force.c.
use litehttpd.Prelude.{
  ℕ, ◌+◌, Bool, true, false, ◌&&◌, ◌||◌, Option, none, some, List, [], ◌∷◌, leb, ltb, ◌==◌,
  if◌then◌else◌, length, drop,
}
use litehttpd.Prelude.Text.{Bytes, is_digit, has_char, at_end, peek, starts_with}
use litehttpd.Prelude.Tokens.{tokens, is_blank, is_blank_or_comma}
use litehttpd.Cidr.{cidr_parse, cidr_match}

abbrev pub is_xdigit : ℕ → Bool
is_xdigit c = is_digit c || (leb b'a' c && leb c b'f') || (leb b'A' c && leb c b'F')

-- The loop of looks_like_ip.
unfoldable pub ip_chars : ℕ → Bytes → Bool
ip_chars n [] = true
ip_chars n (c ∷ s) =
    let next = ip_chars (n + 1) s in
    if leb 45 n then false else if is_xdigit c || c == b'.' || c == b':' then next else false

unfoldable pub looks_like_ip : Bytes → Bool
unfolding ip_chars
looks_like_ip [] = false
looks_like_ip (c ∷ s) = ip_chars 0 (c ∷ s)

-- The loops over blanks at the end and at the front.
unfoldable pub trim_blanks : Bytes → Bytes
trim_blanks [] = []
trim_blanks (c ∷ s) = let rest = trim_blanks s in if at_end rest && is_blank c then [] else c ∷ rest

unfoldable pub skip_blanks : Bytes → Bytes
skip_blanks [] = []
skip_blanks (c ∷ s) = let rest = skip_blanks s in if is_blank c then rest else c ∷ s

-- What stands behind the last comma.
unfoldable pub last_token : Bytes → Bytes
last_token [] = []
last_token (c ∷ s) =
    let rest = last_token s in if has_char b',' s then rest else if c == b',' then s else c ∷ s

unfoldable pub extract_first_ip : Bytes → Option Bytes
unfolding looks_like_ip trim_blanks skip_blanks last_token
extract_first_ip xff =
    let ip = skip_blanks (last_token (trim_blanks xff)) in
    if at_end ip
    then none
    else if ltb 45 (length ip)
    then none
    else if looks_like_ip ip
    then some ip
    else none

unfoldable pub covered : ℕ → List Bytes → Bool
covered ip_addr [] = false
covered ip_addr (tok ∷ toks) =
    let next = covered ip_addr toks in
    elim (cidr_parse tok) [
      | none ↦ next
      | some cidr ↦ if cidr_match cidr ip_addr then true else next
    ]

unfoldable pub is_ip_whitelisted : Bytes → Bytes → Bool
unfolding covered
is_ip_whitelisted ip whitelist = elim (cidr_parse ip) [
  | none ↦ false
  | some tmp ↦ covered tmp.network (tokens is_blank_or_comma whitelist)
]

-- The byte behind a path that matched.
abbrev pub is_boundary : ℕ → Bool
is_boundary next = next == 0 || next == b'/' || next == b'?'

unfoldable pub path_matches : Bytes → List Bytes → Bool
path_matches uri [] = false
path_matches uri (path ∷ paths) =
    let next = path_matches uri paths in
    if starts_with uri path && is_boundary (peek (drop (length path) uri)) then true else next

unfoldable pub is_protected_path : Option Bytes → List Bytes → Bool
unfolding path_matches
is_protected_path none paths = true
is_protected_path (some uri) [] = true
is_protected_path (some uri) (path ∷ paths) = path_matches uri (path ∷ paths)
