-- ===== src/Expression/Bounds.antt =====
-- The buffer of the variables of src/htaccess_expr.c.
use litehttpd.Prelude.{
  ◌+◌, ◌≤◌, ◌≡◌, Bool, true, false, Option, none, some, [], ◌∷◌, ◌++◌, ltb, leb, if◌then◌else◌,
  length, length-take, drop, arith, Bool-cases, inl, inr,
}
use litehttpd.Prelude.Text.{Bytes, codes, peek, occurs}
use litehttpd.Expression.Token.{cut}
use litehttpd.Expression.Value.{
  Session, copy_val, request_filename, named, of_reference, expr_expand_var,
}

-- The text and its NUL fit EXPR_VAR_BUF_SIZE.
record IsBuffered (s : Bytes) : Type 0 where
  fits : length s + 1 ≤ 4096

empty-IsBuffered : IsBuffered []
empty-IsBuffered = record { fits = omega arith }

copy-IsBuffered : (v : Option Bytes) → IsBuffered (copy_val v)
copy-IsBuffered none = empty-IsBuffered
copy-IsBuffered (some v) = record { fits = omega (arith, length-take 4095 v) }

if_IsBuffered :
    (b : Bool) (s t : Bytes) → IsBuffered s → IsBuffered t → IsBuffered (if b then s else t)
if_IsBuffered true s t h k = h
if_IsBuffered false s t h k = k

fitting : (s : Bytes) → IsBuffered (if ltb (length s) 4096 then s else [])
fitting s = elim (Bool-cases (ltb (length s) 4096)) [
  | inl fits ↦ rw fits (record { fits = ground arith })
  | inr long ↦ rw long empty-IsBuffered
]

port-IsBuffered : IsBuffered (codes "80")
port-IsBuffered = record { fits = omega arith }

filename-IsBuffered : (dr uri : Option Bytes) → IsBuffered (request_filename dr uri)
filename-IsBuffered none uri = empty-IsBuffered
filename-IsBuffered (some dr) none = empty-IsBuffered
filename-IsBuffered (some dr) (some uri) =
    if_IsBuffered (occurs (codes "..") uri) []
      (if ltb (length (dr ++ uri)) 4096 then dr ++ uri else []) empty-IsBuffered
      (fitting (dr ++ uri))

ruleset rules = (if_IsBuffered, copy-IsBuffered, filename-IsBuffered, port-IsBuffered)

module _ (session : Session) where
  named-IsBuffered : (name : Bytes) → IsBuffered (named session name)
  unfolding named
  named-IsBuffered name = search rules depth 14

  reference-IsBuffered : (o : Option (Bytes × Bytes)) → IsBuffered (of_reference session o)
  reference-IsBuffered none = empty-IsBuffered
  reference-IsBuffered (some ([], rest)) = empty-IsBuffered
  reference-IsBuffered (some (c ∷ name, rest)) =
      if_IsBuffered (leb 256 (length (c ∷ name))) [] (named session (c ∷ name)) empty-IsBuffered
        (named-IsBuffered (c ∷ name))

  -- What a reference to a variable expands to fits the buffer of 4096 bytes with its NUL, whatever
  -- the server answers.
  pub expr_expand_var_buffered :
      (var_ref : Bytes)
      → peek var_ref ≡ b'%'
      → peek (drop 1 var_ref) ≡ b'{'
      → length (expr_expand_var session var_ref) + 1 ≤ 4096
  unfolding expr_expand_var
  expr_expand_var_buffered var_ref h k =
      rw (h, k) (reference-IsBuffered (cut b'}' (drop 2 var_ref))).fits
