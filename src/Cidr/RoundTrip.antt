-- ===== src/Cidr/RoundTrip.antt =====
-- Printing and parsing of dotted-decimal addresses and ranges.
use litehttpd.Prelude.{
  ℕ, suc, ◌+◌, ◌*◌, ◌%◌, ◌^◌, ◌≤◌, ◌<◌, ◌≡◌, refl, ◌∙◌, true, false, some, [], ◌∷◌, ◌++◌, arith,
  drop, ◌==◌, ◌&&◌,
}
use mathlib.Core.List.{append-nil}
use litehttpd.Prelude.Text.{Bytes, codes, is_digit, peek, skip_ws, starts_with_nocase}
use litehttpd.Cidr.{parse_octet, parse_octets, parse_ipv4, parse_prefix, cidr_parse, ip_parse}
use litehttpd.Cidr.Mask.{subnet}
use litehttpd.Cidr.Decimal.{show_num, strtoul_show, head_digit}

unfoldable pub show_ipv4 : ℕ → ℕ → ℕ → ℕ → Bytes → Bytes
show_ipv4 a b c d rest =
    show_num a ++ (b'.' ∷ (show_num b ++ (b'.' ∷ (show_num c ++ (b'.' ∷ (show_num d ++ rest))))))

no_leading_zero :
    (n : ℕ) (s : Bytes)
    → n < 1000
    → is_digit (peek s) ≡ false
    → (peek (show_num n ++ s) == b'0' && is_digit (peek (drop 1 (show_num n ++ s)))) ≡ false
unfolding show_num
no_leading_zero n s lt h = ground arith

-- Every printed octet is read back, whatever follows it.
parse_octet_show :
    (n : ℕ) (s : Bytes)
    → n < 256
    → is_digit (peek s) ≡ false
    → parse_octet (show_num n ++ s) ≡ some (n, s)
unfolding parse_octet
parse_octet_show n s lt h =
    rw (strtoul_show n s (omega arith) h, no_leading_zero n s (omega arith) h) (ground arith)

octet_first :
    (n addr o : ℕ) (s : Bytes)
    → o < 256
    → is_digit (peek s) ≡ false
    → parse_octets (suc n) true addr (show_num o ++ s)
      ≡ parse_octets n false (addr * 256 % 2 ^ 32 + o) s
unfolding parse_octets
octet_first n addr o s lt h = rw (parse_octet_show o s lt h)

octet_next :
    (n addr o : ℕ) (s : Bytes)
    → o < 256
    → is_digit (peek s) ≡ false
    → parse_octets (suc n) false addr (b'.' ∷ show_num o ++ s)
      ≡ parse_octets n false (addr * 256 % 2 ^ 32 + o) s
unfolding parse_octets
octet_next n addr o s lt h = rw (parse_octet_show o s lt h)

-- The address of four octets.
abbrev pub address : ℕ → ℕ → ℕ → ℕ → ℕ
address a b c d = ((a * 256 + b) * 256 + c) * 256 + d

abbrev pub AreOctets : ℕ → ℕ → ℕ → ℕ → Type 0
AreOctets a b c d = (a < 256) × (b < 256) × (c < 256) × (d < 256)

no_octets_left :
    (a b c d : ℕ) (s : Bytes)
    → AreOctets a b c d
    → parse_octets 0 false
        ((((0 * 256 % 2 ^ 32 + a) * 256 % 2 ^ 32 + b) * 256 % 2 ^ 32 + c) * 256 % 2 ^ 32 + d)
        s
      ≡ some (address a b c d, s)
unfolding parse_octets
no_octets_left a b c d s o = ground arith

parse_octets_show :
    (a b c d : ℕ) (s : Bytes)
    → AreOctets a b c d
    → is_digit (peek s) ≡ false
    → parse_octets 4 true 0 (show_ipv4 a b c d s) ≡ some (address a b c d, s)
unfolding show_ipv4
parse_octets_show a b c d s o h =
    octet_first 3 0 a _ o.0 refl
    ∙ octet_next 2 _ b _ o.1 refl
    ∙ octet_next 1 _ c _ o.2 refl
    ∙ octet_next 0 _ d s o.3 h
    ∙ no_octets_left a b c d s o

parse_ipv4_show :
    (a b c d : ℕ) (s : Bytes)
    → AreOctets a b c d
    → is_digit (peek s) ≡ false
    → parse_ipv4 (show_ipv4 a b c d s) ≡ some (address a b c d, s)
unfolding parse_ipv4
parse_ipv4_show = parse_octets_show

show_ipv4-skip_ws :
    (a b c d : ℕ) (s : Bytes)
    → AreOctets a b c d
    → skip_ws (show_ipv4 a b c d s) ≡ show_ipv4 a b c d s
unfolding show_ipv4 skip_ws
show_ipv4-skip_ws a b c d s o =
    let (x, t, e, dig) = head_digit a (omega arith) in rw e (ground arith)

-- Every address is read back from its dotted-decimal text.
pub ip_parse_show :
    (a b c d : ℕ) → AreOctets a b c d → ip_parse (show_ipv4 a b c d []) ≡ some (address a b c d)
unfolding ip_parse skip_ws
ip_parse_show a b c d o =
    rw (show_ipv4-skip_ws a b c d [] o, parse_ipv4_show a b c d [] o refl) refl

not_all :
    (a b c d : ℕ) (s : Bytes)
    → AreOctets a b c d
    → starts_with_nocase (show_ipv4 a b c d s) (codes "all") ≡ false
unfolding show_ipv4 starts_with_nocase
not_all a b c d s o = let (x, t, e, dig) = head_digit a (omega arith) in rw e (ground arith)

parse_prefix_show : (p : ℕ) → p ≤ 32 → parse_prefix (b'/' ∷ show_num p) ≡ some (p, [])
unfolding parse_prefix
parse_prefix_show p h =
    rw (← append-nil (show_num p), strtoul_show p [] (omega arith) refl) (ground arith)

-- Every range that is written as an address and a prefix length is read as that range.
pub cidr_parse_show :
    (a b c d p : ℕ)
    → AreOctets a b c d
    → p ≤ 32
    → cidr_parse (show_ipv4 a b c d (b'/' ∷ show_num p)) ≡ some (subnet (address a b c d) p)
unfolding cidr_parse skip_ws
cidr_parse_show a b c d p o h =
    rw
      (
        show_ipv4-skip_ws a b c d (b'/' ∷ show_num p) o,
        not_all a b c d (b'/' ∷ show_num p) o,
        parse_ipv4_show a b c d (b'/' ∷ show_num p) o refl,
        parse_prefix_show p h,
      )
      refl
