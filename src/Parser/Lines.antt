-- ===== src/Parser/Lines.antt =====
-- How htaccess_parse reads the lines that htaccess_print writes: their text is split into them
-- again, and a line that is no tag is added as the directive that it parses to.
use litehttpd.Prelude.{
  List, [], ◌∷◌, ◌++◌, Bool, true, false, not, ◌&&◌, ◌==◌, ◌≡◌, refl, ap, ◌∙◌, arith,
}
use litehttpd.Prelude.Text.{Bytes, skip_ws, at_end, peek}
use litehttpd.Cidr6.{trim_end}
use litehttpd.Auth.{until_nul}
use litehttpd.Parser.Document.{push_char, lines_of}

-- Newlines end the lines.
unfoldable pub unlines : List Bytes → Bytes
unlines [] = []
unlines (l ∷ ls) = l ++ (10 ∷ unlines ls)

-- A line of a text file: no newline and no NUL stands in it.
unfoldable pub is_line : Bytes → Bool
is_line [] = true
is_line (c ∷ s) = not (c == 10) && not (c == 0) && is_line s

abbrev pub AreLines : List Bytes → Type 0
AreLines [] = Unit
AreLines (l ∷ ls) = (is_line l ≡ true) × AreLines ls

lines_of-append : (l s : Bytes) → is_line l ≡ true → lines_of (l ++ (10 ∷ s)) ≡ l ∷ lines_of s
unfolding lines_of push_char is_line
lines_of-append [] s h = refl
lines_of-append (c ∷ l) s h = ground (arith, lines_of-append l s)

until_nul-append :
    (l s : Bytes) → is_line l ≡ true → until_nul (l ++ (10 ∷ s)) ≡ l ++ (10 ∷ until_nul s)
unfolding until_nul is_line
until_nul-append [] s h = refl
until_nul-append (c ∷ l) s h = ground (arith, until_nul-append l s)

pub until_nul-unlines : (ls : List Bytes) → AreLines ls → until_nul (unlines ls) ≡ unlines ls
unfolding unlines
until_nul-unlines [] h = unfold until_nul in refl
until_nul-unlines (l ∷ ls) h =
    until_nul-append l (unlines ls) h.0
    ∙ ap (λ (s : Bytes). l ++ (10 ∷ s)) (until_nul-unlines ls h.1)

-- A text is split into the lines that it was made of.
pub lines_of-unlines : (ls : List Bytes) → AreLines ls → lines_of (unlines ls) ≡ ls
unfolding unlines
lines_of-unlines [] h = unfold lines_of in refl
lines_of-unlines (l ∷ ls) h =
    lines_of-append l (unlines ls) h.0 ∙ ap (λ (r : List Bytes). l ∷ r) (lines_of-unlines ls h.1)

-- Nothing but what trimming leaves: neither end is a blank.
abbrev pub IsTrimmed : Bytes → Type 0
IsTrimmed s = (trim_end s ≡ s) × (skip_ws s ≡ s) × (at_end s ≡ false)

pub trim_end-append : (s t : Bytes) → trim_end t ≡ t → at_end t ≡ false → trim_end (s ++ t) ≡ s ++ t
unfolding trim_end
trim_end-append [] t h e = h
trim_end-append (c ∷ s) t h e =
    let ih = trim_end-append s t h e in let nonempty = at_end-append s t e in rw (ih, nonempty) refl
  where
    at_end-append : (s t : Bytes) → at_end t ≡ false → at_end (s ++ t) ≡ false
    at_end-append [] t e = e
    at_end-append (c ∷ s) t e = refl

-- A line that is neither a tag nor a comment.
abbrev pub IsLeafLine : Bytes → Type 0
IsLeafLine l = IsTrimmed l × ((peek l == b'<') ≡ false) × ((peek l == b'#') ≡ false)
