-- ===== src/Auth/Base64.antt =====
-- base64_decode of src/htaccess_exec_auth.c.
use litehttpd.Prelude.{
  ℕ, ◌+◌, ◌-◌, ◌*◌, ◌/◌, ◌%◌, Bool, true, not, ◌&&◌, ◌||◌, Option, none, some, [], ◌∷◌, ◌++◌, ltb,
  leb, ◌==◌, if◌then◌else◌, length, get_or,
}
use litehttpd.Prelude.Text.{Bytes, is_alpha, is_digit}
use litehttpd.Prelude.Maybe.{◌>>=◌, ◌>>◌, guard}

unfoldable pub is_b64_char : ℕ → Bool
is_b64_char c = is_alpha c || is_digit c || c == b'+' || c == b'/' || c == b'='

-- b64_table; a character that is not in it has 0.
unfoldable pub b64_value : ℕ → ℕ
b64_value c =
    if leb b'A' c && leb c b'Z'
    then c - b'A'
    else if leb b'a' c && leb c b'z'
    then c - b'a' + 26
    else if leb b'0' c && leb c b'9'
    then c - b'0' + 52
    else if c == b'+'
    then 62
    else if c == b'/'
    then 63
    else 0

unfoldable pub all_valid : Bytes → Bool
unfolding is_b64_char
all_valid [] = true
all_valid (c ∷ s) = is_b64_char c && all_valid s

unfoldable pub padding : Bytes → ℕ
padding [] = 0
padding (c ∷ s) = (if c == b'=' then 1 else 0) + padding s

-- The bytes of a group with its four values. `|` is a sum: the bits do not overlap; an unsigned
-- char keeps eight bits.
abbrev pub group_bytes : ℕ → ℕ → ℕ → ℕ → ℕ → Bytes
group_bytes pad b0 b1 b2 b3 =
    ((b0 * 4 + b1 / 16) % 256)
    ∷ ((if ltb pad 2 then ((b1 * 16 + b2 / 4) % 256) ∷ [] else [])
        ++ (if ltb pad 1 then ((b2 * 64 + b3) % 256) ∷ [] else []))

-- One pass of the loop, over at most four characters.
unfoldable pub decode_group : Bytes → Option Bytes
unfolding all_valid padding b64_value
decode_group chunk =
    let pad = padding chunk in
    let value = λ (k : ℕ). b64_value (get_or chunk k b'=') in
    if not (all_valid chunk) || (ltb (length chunk) 4 && pad == 0)
    then none
    else some (group_bytes pad (value 0) (value 1) (value 2) (value 3))

-- The loop, when `j` bytes are written of `out_cap`.
unfoldable pub decode_from : ℕ → ℕ → Bytes → Option Bytes
unfolding decode_group
decode_from out_cap j [] = some []
decode_from out_cap j (a ∷ b ∷ c ∷ d ∷ s) = do
  group ← decode_group (a ∷ b ∷ c ∷ d ∷ [])
  guard (leb (j + 3) out_cap)
  rest ← decode_from out_cap (j + length group) s
  some (group ++ rest)
decode_from out_cap j chunk = do group ← decode_group chunk; guard (leb (j + 3) out_cap); some group

unfoldable pub base64_decode : Bytes → ℕ → Option Bytes
unfolding decode_from
base64_decode s out_cap = decode_from out_cap 0 s
