-- ===== src/Parser/State.antt =====
-- The variables of htaccess_parse in src/htaccess_parser.c. A container that is open is there, with
-- its argument, the line of its tag and its children; the stacks of <IfModule> and <If> blocks have
-- the innermost one first.
use litehttpd.Prelude.{
  ℕ, List, [], ◌∷◌, Bool, true, false, Option, none, some, length, if◌then◌else◌,
}
use litehttpd.Prelude.Text.{Bytes}
use litehttpd.Directive.{Directive, Directives, nil, cons, append}
use litehttpd.Directive.Kind.{DirectiveType}

-- A container's argument, line and children: `fm_pattern`, `fm_start_line`, `fm_children_head`.
pub record Block : Type 0 where
  pub argument : Option Bytes
  pub start_line : ℕ
  pub children : Directives

-- What was open when the <IfModule> was opened.
pub record Snapshot : Type 0 where
  pub if_depth : ℕ
  pub in_files : Bool
  pub in_files_match : Bool
  pub in_require_any : Bool
  pub in_require_all : Bool
  pub in_limit : Bool

pub record ModuleBlock : Type 0 where
  pub block : Block
  pub negated : Bool
  pub saved : Snapshot

pub record IfBlock : Type 0 where
  pub block : Block
  pub if_type : DirectiveType

pub record LimitBlock : Type 0 where
  pub block : Block
  pub limit_type : DirectiveType

-- require_innermost
pub data Innermost : Type 0 where
  neither require_any require_all : Innermost

pub record State : Type 0 where
  pub line_num : ℕ
  pub top : Directives
  pub files_match : Option Block
  pub files : Option Block
  pub rqa : Option Block
  pub rqall : Option Block
  pub require_innermost : Innermost
  pub limit : Option LimitBlock
  pub ifmods : List ModuleBlock
  pub ifs : List IfBlock
  pub pending_conds : Directives
  pub skip_if_depth : ℕ

abbrev pub start : State
start = record {
  line_num = 0;
  top = nil;
  files_match = none;
  files = none;
  rqa = none;
  rqall = none;
  require_innermost = neither;
  limit = none;
  ifmods = [];
  ifs = [];
  pending_conds = nil;
  skip_if_depth = 0;
}

abbrev pub is_open {ℓ} : {A : Type ℓ} → Option A → Bool
is_open none = false
is_open (some b) = true

abbrev pub snapshot : State → Snapshot
snapshot s = record {
  if_depth = length s.ifs;
  in_files = is_open s.files;
  in_files_match = is_open s.files_match;
  in_require_any = is_open s.rqa;
  in_require_all = is_open s.rqall;
  in_limit = is_open s.limit;
}

abbrev pub opened : Option Bytes → ℕ → Block
opened argument line = record { argument = argument; start_line = line; children = nil }

-- append_directive
unfoldable pub append_directive : Directives → Directive → Directives
unfolding append
append_directive ds d = append ds (cons d nil)

abbrev pub add_child : Directive → Block → Block
add_child d b = record b { children = append_directive b.children d }

abbrev pub add_child? : Directive → Option Block → Option Block
add_child? d none = none
add_child? d (some b) = some (add_child d b)

abbrev pub add_to_limit : Directive → Option LimitBlock → Option LimitBlock
add_to_limit d none = none
add_to_limit d (some b) = some (record b { block = add_child d b.block })

abbrev pub add_to_ifmod : Directive → List ModuleBlock → List ModuleBlock
add_to_ifmod d [] = []
add_to_ifmod d (b ∷ bs) = record b { block = add_child d b.block } ∷ bs

abbrev pub add_to_if : Directive → List IfBlock → List IfBlock
add_to_if d [] = []
add_to_if d (b ∷ bs) = record b { block = add_child d b.block } ∷ bs

-- The lists that a directive may be appended to.
pub data Place : Type 0 where
  in_if in_files_match in_files in_any in_all in_limit in_ifmodule at_top : Place

unfoldable pub put : Place → Directive → State → State
put in_if d s = record s { ifs = add_to_if d s.ifs }
put in_files_match d s = record s { files_match = add_child? d s.files_match }
put in_files d s = record s { files = add_child? d s.files }
put in_any d s = record s { rqa = add_child? d s.rqa }
put in_all d s = record s { rqall = add_child? d s.rqall }
put in_limit d s = record s { limit = add_to_limit d s.limit }
put in_ifmodule d s = record s { ifmods = add_to_ifmod d s.ifmods }
put at_top d s = record s { top = append_directive s.top d }

abbrev has_blocks {ℓ} : {A : Type ℓ} → List A → Bool
has_blocks [] = false
has_blocks (b ∷ bs) = true

-- Whether the container that a place stands for is open.
unfoldable pub is_there : Place → State → Bool
is_there in_if s = has_blocks s.ifs
is_there in_files_match s = is_open s.files_match
is_there in_files s = is_open s.files
is_there in_any s = is_open s.rqa
is_there in_all s = is_open s.rqall
is_there in_limit s = is_open s.limit
is_there in_ifmodule s = has_blocks s.ifmods
is_there at_top s = true

-- The first of the places that is open.
unfoldable pub first_open : List Place → State → Place
unfolding is_there
first_open [] s = at_top
first_open (p ∷ ps) s = let later = first_open ps s in if is_there p s then p else later

-- The orders in which the source looks for the parent: of <IfModule> and <If>, of <FilesMatch> and
-- <Files>, of <RequireAny>, of <RequireAll>, of <Limit>, and of the sibling before <ElseIf>.
abbrev pub module_chain : List Place
module_chain = in_if ∷ in_files_match ∷ in_files ∷ in_any ∷ in_all ∷ in_limit ∷ in_ifmodule ∷ []

abbrev pub files_chain : List Place
files_chain = in_if ∷ in_any ∷ in_all ∷ in_limit ∷ in_ifmodule ∷ []

abbrev pub any_chain : List Place
any_chain = in_if ∷ in_all ∷ in_files ∷ in_files_match ∷ in_limit ∷ in_ifmodule ∷ []

abbrev pub all_chain : List Place
all_chain = in_if ∷ in_any ∷ in_files ∷ in_files_match ∷ in_limit ∷ in_ifmodule ∷ []

abbrev pub limit_chain : List Place
limit_chain = in_if ∷ in_files_match ∷ in_files ∷ in_ifmodule ∷ []

unfoldable pub put_first : List Place → Directive → State → State
unfolding first_open put
put_first chain d s = put (first_open chain s) d s
