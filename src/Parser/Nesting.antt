-- ===== src/Parser/Nesting.antt =====
-- What htaccess_parse does where nothing is open but <IfModule> blocks: a line that is no tag is
-- added to the innermost block, and its tags open and close blocks.
use litehttpd.Prelude.{ℕ, suc, List, [], ◌∷◌, Bool, none, some, length, ◌≡◌, refl}
use litehttpd.Prelude.Text.{Bytes}
use litehttpd.Directive.{Directives}
use litehttpd.Parser.Tags.{in_tag}
use litehttpd.Parser.State.{ModuleBlock, State, start, snapshot, opened}
use litehttpd.Parser.Blocks.{
  Phase, skip_block, close_ifmodule, open_ifmodule, close_if, open_if, open_elseif, open_else,
}
use litehttpd.Parser.Sections.{
  close_files_match, open_files_match, close_files, open_files, close_any, open_any, close_all,
  open_all, close_limit, open_limit_except, open_limit, begin_limit, end_limit,
}
use litehttpd.Parser.Document.{read_directive, phases, try_phases, step}
use litehttpd.Parser.Lines.{IsLeafLine}
use litehttpd.Parser.Untagged.{
  in_tag-none, is_files_match_open-none, is_files_match_close-false, is_ifmodule_open-none,
  is_ifmodule_close-false, is_if_open-none, is_elseif_open-none, is_else_open-false,
  is_if_close-false, is_elseif_close-false, is_else_close-false, is_files_open-none,
  is_files_close-false, is_require_any_open-false, is_require_any_close-false,
  is_require_all_open-false, is_require_all_close-false, is_limit_open-none,
  is_limit_except_open-none,
}

-- Where the parser stands: outside every block, or in the innermost of some blocks.
pub data Context : Type 0 where
  outside : Context
  inside : ModuleBlock → List ModuleBlock → Directives → Context

abbrev with_children : ModuleBlock → Directives → ModuleBlock
with_children m ds = record m { block = record m.block { children = ds } }

-- The state after `n` lines, when `ds` has been read there.
unfoldable pub reading : ℕ → Directives → Context → State
reading n ds outside = record start { line_num = n; top = ds }
reading n ds (inside m ms top) = record start {
  line_num = n;
  top = top;
  ifmods = with_children m ds ∷ ms;
}

unfoldable pub depth : Context → ℕ
depth outside = 0
depth (inside m ms top) = suc (length ms)

-- The block that a tag opens, and the place inside it.
abbrev module_block : Bytes → Bool → ℕ → ModuleBlock
module_block name neg n = record {
  block = opened (some name) n;
  negated = neg;
  saved = snapshot start;
}

unfoldable pub enter : Bytes → Bool → ℕ → Directives → Context → Context
unfolding reading
enter name neg n ds c =
    inside (module_block name neg n) (reading n ds c).ifmods (reading n ds c).top

pub depth-enter :
    (name : Bytes) (neg : Bool) (n : ℕ) (ds : Directives) (c : Context)
    → depth (enter name neg n ds c) ≡ suc (depth c)
unfolding depth enter
depth-enter name neg n ds outside = refl
depth-enter name neg n ds (inside m ms top) = refl

length-ifmods : (n : ℕ) (ds : Directives) (c : Context) → length (reading n ds c).ifmods ≡ depth c
unfolding reading depth
length-ifmods n ds outside = refl
length-ifmods n ds (inside m ms top) = refl

-- No phase takes the line.
infixr 5 ◌▸◌
data AllPass (s : State) (p : Bytes) : List Phase → Type 0 where
  done : AllPass s p []
  ◌▸◌ :
      {phase : Phase} {others : List Phase}
      → phase s p ≡ none
      → AllPass s p others
      → AllPass s p (phase ∷ others)

try_phases-eq-read_directive :
    (s : State) (p : Bytes) {ps : List Phase}
    → AllPass s p ps
    → try_phases ps s p ≡ read_directive s p
unfolding try_phases
try_phases-eq-read_directive s p done = refl
try_phases-eq-read_directive s p (e ▸ h) = rw e (try_phases-eq-read_directive s p h)

pub skip_block-none :
    (n : ℕ) (ds : Directives) (c : Context) (l : Bytes) → skip_block (reading n ds c) l ≡ none
unfolding skip_block reading
skip_block-none n ds outside l = refl
skip_block-none n ds (inside m ms top) l = refl

module _ (n : ℕ) (ds : Directives) (l : Bytes) (t : in_tag l ≡ none) where
  close_ifmodule-none : (c : Context) → close_ifmodule (reading n ds c) l ≡ none
  unfolding close_ifmodule reading
  close_ifmodule-none outside = rw (is_ifmodule_close-false l t) refl
  close_ifmodule-none (inside m ms top) = rw (is_ifmodule_close-false l t) refl

  open_ifmodule-none : (c : Context) → open_ifmodule (reading n ds c) l ≡ none
  unfolding open_ifmodule reading
  open_ifmodule-none outside = rw (open_ifmodule, is_ifmodule_open-none l t) refl
  open_ifmodule-none (inside m ms top) = rw (open_ifmodule, is_ifmodule_open-none l t) refl

  close_if-none : (c : Context) → close_if (reading n ds c) l ≡ none
  unfolding close_if reading
  close_if-none outside =
      rw (is_if_close-false l t, is_elseif_close-false l t, is_else_close-false l t) refl
  close_if-none (inside m ms top) =
      rw (is_if_close-false l t, is_elseif_close-false l t, is_else_close-false l t) refl

  open_if-none : (c : Context) → open_if (reading n ds c) l ≡ none
  unfolding open_if reading
  open_if-none outside = rw (open_if, is_if_open-none l t) refl
  open_if-none (inside m ms top) = rw (open_if, is_if_open-none l t) refl

  open_elseif-none : (c : Context) → open_elseif (reading n ds c) l ≡ none
  unfolding open_elseif reading
  open_elseif-none outside = rw (open_elseif, is_elseif_open-none l t) refl
  open_elseif-none (inside m ms top) = rw (open_elseif, is_elseif_open-none l t) refl

  open_else-none : (c : Context) → open_else (reading n ds c) l ≡ none
  unfolding open_else reading
  open_else-none outside = rw (is_else_open-false l t) refl
  open_else-none (inside m ms top) = rw (is_else_open-false l t) refl

  close_files_match-none : (c : Context) → close_files_match (reading n ds c) l ≡ none
  unfolding close_files_match reading
  close_files_match-none outside = rw (is_files_match_close-false l t) refl
  close_files_match-none (inside m ms top) = rw (is_files_match_close-false l t) refl

  open_files_match-none : (c : Context) → open_files_match (reading n ds c) l ≡ none
  unfolding open_files_match reading
  open_files_match-none outside = rw (is_files_match_open-none l t) refl
  open_files_match-none (inside m ms top) = rw (is_files_match_open-none l t) refl

  close_files-none : (c : Context) → close_files (reading n ds c) l ≡ none
  unfolding close_files reading
  close_files-none outside = rw (is_files_close-false l t) refl
  close_files-none (inside m ms top) = rw (is_files_close-false l t) refl

  open_files-none : (c : Context) → open_files (reading n ds c) l ≡ none
  unfolding open_files reading
  open_files-none outside = rw (is_files_open-none l t) refl
  open_files-none (inside m ms top) = rw (is_files_open-none l t) refl

  close_any-none : (c : Context) → close_any (reading n ds c) l ≡ none
  unfolding close_any reading
  close_any-none outside = rw (is_require_any_close-false l t) refl
  close_any-none (inside m ms top) = rw (is_require_any_close-false l t) refl

  open_any-none : (c : Context) → open_any (reading n ds c) l ≡ none
  unfolding open_any reading
  open_any-none outside = rw (is_require_any_open-false l t) refl
  open_any-none (inside m ms top) = rw (is_require_any_open-false l t) refl

  close_all-none : (c : Context) → close_all (reading n ds c) l ≡ none
  unfolding close_all reading
  close_all-none outside = rw (is_require_all_close-false l t) refl
  close_all-none (inside m ms top) = rw (is_require_all_close-false l t) refl

  open_all-none : (c : Context) → open_all (reading n ds c) l ≡ none
  unfolding open_all reading
  open_all-none outside = rw (is_require_all_open-false l t) refl
  open_all-none (inside m ms top) = rw (is_require_all_open-false l t) refl

  close_limit-none : (c : Context) → close_limit (reading n ds c) l ≡ none
  unfolding close_limit end_limit reading
  close_limit-none outside = refl
  close_limit-none (inside m ms top) = refl

  open_limit_except-none : (c : Context) → open_limit_except (reading n ds c) l ≡ none
  unfolding open_limit_except begin_limit reading
  open_limit_except-none outside = rw (is_limit_except_open-none l t) refl
  open_limit_except-none (inside m ms top) = rw (is_limit_except_open-none l t) refl

  open_limit-none : (c : Context) → open_limit (reading n ds c) l ≡ none
  unfolding open_limit begin_limit reading
  open_limit-none outside = rw (is_limit_open-none l t) refl
  open_limit-none (inside m ms top) = rw (is_limit_open-none l t) refl

phases-AllPass :
    (n : ℕ) (ds : Directives) (c : Context) (l : Bytes)
    → in_tag l ≡ none
    → AllPass (reading n ds c) l phases
unfolding phases
phases-AllPass n ds c l t =
    skip_block-none n ds c l
    ▸ close_ifmodule-none n ds l t c
    ▸ open_ifmodule-none n ds l t c
    ▸ close_if-none n ds l t c
    ▸ open_if-none n ds l t c
    ▸ open_elseif-none n ds l t c
    ▸ open_else-none n ds l t c
    ▸ close_files_match-none n ds l t c
    ▸ open_files_match-none n ds l t c
    ▸ close_files-none n ds l t c
    ▸ open_files-none n ds l t c
    ▸ close_any-none n ds l t c
    ▸ open_any-none n ds l t c
    ▸ close_all-none n ds l t c
    ▸ open_all-none n ds l t c
    ▸ close_limit-none n ds l t c
    ▸ open_limit_except-none n ds l t c
    ▸ open_limit-none n ds l t c
    ▸ done

-- A line that is no tag is read as a directive.
pub step-leaf :
    (n : ℕ) (ds : Directives) (c : Context) (l : Bytes)
    → IsLeafLine l
    → step (reading n ds c) l ≡ read_directive (reading n ds c) l
unfolding step
step-leaf n ds c l h =
    try_phases-eq-read_directive (reading n ds c) l
      (phases-AllPass n ds c l (in_tag-none l h.0.1 h.1))
