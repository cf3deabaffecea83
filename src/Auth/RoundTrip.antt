-- ===== src/Auth/RoundTrip.antt =====
-- The encoding of RFC 4648 is decoded by base64_decode of src/htaccess_exec_auth.c.
use litehttpd.Prelude.{
  ℕ, ◌+◌, ◌-◌, ◌*◌, ◌/◌, ◌%◌, ◌≤◌, ◌<◌, ◌≡◌, refl, ◌∙◌, true, false, some, [], ◌∷◌, ◌++◌, ltb, leb,
  ◌==◌, if◌then◌else◌, length, arith,
}
use litehttpd.Prelude.Text.{Bytes}
use litehttpd.Prelude.Maybe.{◌>>=◌, ◌>>◌, guard}
use litehttpd.CidrTable.Laws.{AreBytes}
use litehttpd.Auth.Base64.{
  is_b64_char, b64_value, all_valid, padding, group_bytes, decode_group, decode_from, base64_decode,
}

-- The character of a value below 64.
unfoldable pub b64_char : ℕ → ℕ
b64_char v =
    if ltb v 26
    then b'A' + v
    else if ltb v 52
    then b'a' + (v - 26)
    else if ltb v 62
    then b'0' + (v - 52)
    else if v == 62
    then b'+'
    else b'/'

-- Three bytes are four characters, and what is left at the end is padded.
unfoldable pub encode : Bytes → Bytes
encode [] = []
encode (a ∷ []) = b64_char (a / 4) ∷ b64_char (a % 4 * 16) ∷ b'=' ∷ b'=' ∷ []
encode (a ∷ b ∷ []) =
    b64_char (a / 4) ∷ b64_char (a % 4 * 16 + b / 16) ∷ b64_char (b % 16 * 4) ∷ b'=' ∷ []
encode (a ∷ b ∷ c ∷ s) =
    b64_char (a / 4)
    ∷ b64_char (a % 4 * 16 + b / 16)
    ∷ b64_char (b % 16 * 4 + c / 64)
    ∷ b64_char (c % 64)
    ∷ encode s

-- What is used of a character.
record IsDigit (v c : ℕ) : Type 0 where
  valid : is_b64_char c ≡ true
  value : b64_value c ≡ v
  no_pad : (c == b'=') ≡ false

b64_char-IsDigit : (v : ℕ) → v < 64 → IsDigit v (b64_char v)
unfolding b64_char is_b64_char b64_value
b64_char-IsDigit v h = record { valid = ground arith; value = ground arith; no_pad = ground arith }

-- Four digits are decoded to three bytes.
four_digits :
    (v w x y a b c d : ℕ)
    → IsDigit v a
    → IsDigit w b
    → IsDigit x c
    → IsDigit y d
    → decode_group (a ∷ b ∷ c ∷ d ∷ []) ≡ some (group_bytes 0 v w x y)
unfolding decode_group all_valid padding
four_digits v w x y a b c d p q r s =
    rw
      (
        p.valid, q.valid, r.valid, s.valid, p.no_pad, q.no_pad, r.no_pad, s.no_pad, p.value,
        q.value, r.value, s.value,
      )
      refl

three_digits :
    (v w x a b c : ℕ)
    → IsDigit v a
    → IsDigit w b
    → IsDigit x c
    → decode_group (a ∷ b ∷ c ∷ b'=' ∷ []) ≡ some (group_bytes 1 v w x 0)
unfolding decode_group all_valid padding b64_value is_b64_char
three_digits v w x a b c p q r =
    rw (p.valid, q.valid, r.valid, p.no_pad, q.no_pad, r.no_pad, p.value, q.value, r.value) refl

two_digits :
    (v w a b : ℕ)
    → IsDigit v a
    → IsDigit w b
    → decode_group (a ∷ b ∷ b'=' ∷ b'=' ∷ []) ≡ some (group_bytes 2 v w 0 0)
unfolding decode_group all_valid padding b64_value is_b64_char
two_digits v w a b p q = rw (p.valid, q.valid, p.no_pad, q.no_pad, p.value, q.value) refl

-- The bytes come together again.
first_byte : (a b : ℕ) → a < 256 → b < 256 → (a / 4 * 4 + (a % 4 * 16 + b / 16) / 16) % 256 ≡ a
first_byte a b h k = omega arith

second_byte :
    (a b c : ℕ)
    → b < 256
    → c < 256
    → ((a % 4 * 16 + b / 16) * 16 + (b % 16 * 4 + c / 64) / 4) % 256 ≡ b
second_byte a b c h k = omega arith

third_byte : (b c : ℕ) → c < 256 → ((b % 16 * 4 + c / 64) * 64 + c % 64) % 256 ≡ c
third_byte b c h = omega arith

same_three :
    {a b c x y z : ℕ} → x ≡ a → y ≡ b → z ≡ c → some (x ∷ y ∷ z ∷ []) ≡ some (a ∷ b ∷ c ∷ [])
same_three p q r = cc (p, q, r)

same_two : {a b x y : ℕ} → x ≡ a → y ≡ b → some (x ∷ y ∷ []) ≡ some (a ∷ b ∷ [])
same_two p q = cc (p, q)

same_one : {a x : ℕ} → x ≡ a → some (x ∷ []) ≡ some (a ∷ [])
same_one p = cc p

le→leb : (a b : ℕ) → a ≤ b → leb a b ≡ true
le→leb a b h = ground arith

-- One pass of the loop.
decode_pass :
    (cap j a b c d : ℕ) (s : Bytes)
    → decode_from cap j (a ∷ b ∷ c ∷ d ∷ s) ≡ (
        decode_group (a ∷ b ∷ c ∷ d ∷ []) >>= λ group.
        guard (leb (j + 3) cap)
        >> (decode_from cap (j + length group) s >>= λ rest. some (group ++ rest)))
unfolding decode_from
decode_pass cap j a b c d s = refl

decode_end : (cap j : ℕ) → decode_from cap j [] ≡ some []
unfolding decode_from
decode_end cap j = refl

decode_step :
    (cap j a b c d : ℕ) (s group rest : Bytes)
    → decode_group (a ∷ b ∷ c ∷ d ∷ []) ≡ some group
    → j + 3 ≤ cap
    → decode_from cap (j + length group) s ≡ some rest
    → decode_from cap j (a ∷ b ∷ c ∷ d ∷ s) ≡ some (group ++ rest)
decode_step cap j a b c d s group rest p h q =
    rw (decode_pass cap j a b c d s, p, le→leb (j + 3) cap h, q) refl

-- The groups of the encoding.
group_three :
    (a b c : ℕ)
    → a < 256
    → b < 256
    → c < 256
    → decode_group (
        b64_char (a / 4)
        ∷ b64_char (a % 4 * 16 + b / 16)
        ∷ b64_char (b % 16 * 4 + c / 64)
        ∷ b64_char (c % 64)
        ∷ [])
      ≡ some (a ∷ b ∷ c ∷ [])
group_three a b c ha hb hc =
    four_digits (a / 4) (a % 4 * 16 + b / 16) (b % 16 * 4 + c / 64) (c % 64) _ _ _ _
      (b64_char-IsDigit (a / 4) (omega arith))
      (b64_char-IsDigit (a % 4 * 16 + b / 16) (omega arith))
      (b64_char-IsDigit (b % 16 * 4 + c / 64) (omega arith))
      (b64_char-IsDigit (c % 64) (omega arith))
    ∙ same_three (first_byte a b ha hb) (second_byte a b c hb hc) (third_byte b c hc)

group_two :
    (a b : ℕ)
    → a < 256
    → b < 256
    → decode_group
        (b64_char (a / 4) ∷ b64_char (a % 4 * 16 + b / 16) ∷ b64_char (b % 16 * 4) ∷ b'=' ∷ [])
      ≡ some (a ∷ b ∷ [])
group_two a b ha hb =
    three_digits (a / 4) (a % 4 * 16 + b / 16) (b % 16 * 4) _ _ _
      (b64_char-IsDigit (a / 4) (omega arith))
      (b64_char-IsDigit (a % 4 * 16 + b / 16) (omega arith))
      (b64_char-IsDigit (b % 16 * 4) (omega arith))
    ∙ same_two (first_byte a b ha hb) (omega arith)

group_one :
    (a : ℕ)
    → a < 256
    → decode_group (b64_char (a / 4) ∷ b64_char (a % 4 * 16) ∷ b'=' ∷ b'=' ∷ []) ≡ some (a ∷ [])
group_one a ha =
    two_digits (a / 4) (a % 4 * 16) _ _ (b64_char-IsDigit (a / 4) (omega arith))
      (b64_char-IsDigit (a % 4 * 16) (omega arith))
    ∙ same_one (omega arith)

decode-encode_from :
    (s : Bytes) (cap j : ℕ)
    → AreBytes s
    → j + length s + 2 ≤ cap
    → decode_from cap j (encode s) ≡ some s
unfolding encode
decode-encode_from [] cap j p h = decode_end cap j
decode-encode_from (a ∷ []) cap j p h =
    decode_step cap j _ _ _ _ [] (a ∷ []) [] (group_one a p.0) (omega arith)
      (decode_end cap (j + 1))
decode-encode_from (a ∷ b ∷ []) cap j p h =
    decode_step cap j _ _ _ _ [] (a ∷ b ∷ []) [] (group_two a b p.0 p.1.0) (omega arith)
      (decode_end cap (j + 2))
decode-encode_from (a ∷ b ∷ c ∷ s) cap j p h =
    decode_step cap j _ _ _ _ (encode s) (a ∷ b ∷ c ∷ []) s (group_three a b c p.0 p.1.0 p.1.1.0)
      (omega arith) (decode-encode_from s cap (j + 3) p.1.1.1 (omega arith))

length-encode : (s : Bytes) → length s ≤ length (encode s) / 4 * 3
unfolding encode
length-encode [] = omega arith
length-encode (a ∷ []) = omega arith
length-encode (a ∷ b ∷ []) = omega arith
length-encode (a ∷ b ∷ c ∷ s) = omega (arith, length-encode s)

-- Every sequence of bytes is read back from its base64 encoding, in the buffer that
-- parse_basic_auth provides for a text of that length.
pub base64_decode-encode :
    (s : Bytes) → AreBytes s → base64_decode (encode s) (length (encode s) / 4 * 3 + 3) ≡ some s
unfolding base64_decode
base64_decode-encode s p =
    decode-encode_from s (length (encode s) / 4 * 3 + 3) 0 p (omega (arith, length-encode s))
