-- ===== src/Prelude/Tokens.antt =====
-- strtok_r: the maximal runs of bytes that are no delimiters.
use litehttpd.Prelude.{ℕ, Bool, List, [], ◌∷◌, ◌==◌, ◌||◌, if◌then◌else◌}
use litehttpd.Prelude.Text.{Bytes, codes}
use mathlib.Core.Path.{◌≡◌, refl}

-- A run that has ended is a token unless it is empty.
abbrev pub push : Bytes → List Bytes → List Bytes
push [] ts = ts
push (c ∷ s) ts = (c ∷ s) ∷ ts

-- The run at the front, and the tokens behind it.
unfoldable pub runs : (ℕ → Bool) → Bytes → Bytes × List Bytes
runs delimiter [] = ([], [])
runs delimiter (c ∷ s) =
    let next = runs delimiter s in
    if delimiter c then ([], push next.0 next.1) else (c ∷ next.0, next.1)

unfoldable pub tokens : (ℕ → Bool) → Bytes → List Bytes
unfolding runs
tokens delimiter s = push (runs delimiter s).0 (runs delimiter s).1

-- " \t" and " ,\t"
abbrev pub is_blank : ℕ → Bool
is_blank c = c == 32 || c == 9

abbrev pub is_blank_or_comma : ℕ → Bool
is_blank_or_comma c = c == 32 || c == b',' || c == 9

tokens_runs : tokens is_blank (codes "  10 172.16  ") ≡ (codes "10" ∷ codes "172.16" ∷ [])
unfolding tokens
tokens_runs = refl
