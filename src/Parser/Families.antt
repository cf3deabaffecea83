-- ===== src/Parser/Families.antt =====
-- Three families of directives, by what their value is, and how parse_line of
-- src/htaccess_parser.c reads them.
use litehttpd.Prelude.{ℕ, [], ◌∷◌, ◌++◌, true, false, none, some, ◌≡◌, refl}
use litehttpd.Prelude.Text.{Bytes, codes, skip_ws, str_caseeq, starts_with_nocase}
use litehttpd.Expression.Token.{take_while, drop_while}
use litehttpd.Directive.{
  directive, Payload, no_data, acl, order_allow_deny, order_deny_allow, expires,
}
use litehttpd.Directive.Kind.{DirectiveType}
use litehttpd.Directive.Kind
use litehttpd.Parser.Scan.{match_kw, token_at, next_token, rest_of_line}
use litehttpd.Parser.Fields.{
  token_value, rest_value, parse_cache_enable, parse_cache_max_expire, parse_cache_default_expire,
  parse_cache_disable,
}
use litehttpd.Parser.Values.{match_word, parse_order}
use litehttpd.Parser.Switches.{parse_bot_challenge_str, parse_expires_active, switch_of}
use litehttpd.Parser.Guards.{parse_require, require_all, require_not}
use litehttpd.Parser.Rewrite.{parse_rewrite_base, parse_rewrite_options}
use litehttpd.Parser.Line.{handlers, dispatch, parse_line}
use litehttpd.Parser.Words.{is_keyword}

-- The directives whose value is a word, with their keywords.
pub data WordDirective : DirectiveType → Bytes → Type 0 where
  cache_enable : WordDirective Kind.cache_enable (codes "CacheEnable")
  cache_max_expire : WordDirective Kind.cache_max_expire (codes "CacheMaxExpire")
  cache_default_expire : WordDirective Kind.cache_default_expire (codes "CacheDefaultExpire")
  bot_challenge_exempt : WordDirective Kind.bot_challenge_exempt (codes "BotChallengeExempt")
  bot_challenge_trusted_proxy :
      WordDirective Kind.bot_challenge_trusted_proxy (codes "BotChallengeTrustedProxy")
  bot_challenge_page : WordDirective Kind.bot_challenge_page (codes "BotChallengePage")
  brute_force_protect_path :
      WordDirective Kind.brute_force_protect_path (codes "BruteForceProtectPath")
  auth_type : WordDirective Kind.auth_type (codes "AuthType")
  force_type : WordDirective Kind.force_type (codes "ForceType")
  add_default_charset : WordDirective Kind.add_default_charset (codes "AddDefaultCharset")
  default_type : WordDirective Kind.default_type (codes "DefaultType")
  satisfy : WordDirective Kind.satisfy (codes "Satisfy")
  rewrite_base : WordDirective Kind.rewrite_base (codes "RewriteBase")
  rewrite_options : WordDirective Kind.rewrite_options (codes "RewriteOptions")

-- Those whose value is the rest of the line.
pub data PhraseDirective : DirectiveType → Bytes → Type 0 where
  require_ip : PhraseDirective Kind.require_ip (codes "Require ip")
  require_not_ip : PhraseDirective Kind.require_not_ip (codes "Require not ip")
  require_user : PhraseDirective Kind.require_user (codes "Require user")
  brute_force_whitelist : PhraseDirective Kind.brute_force_whitelist (codes "BruteForceWhitelist")
  brute_force_trusted_proxy :
      PhraseDirective Kind.brute_force_trusted_proxy (codes "BruteForceTrustedProxy")
  auth_user_file : PhraseDirective Kind.auth_user_file (codes "AuthUserFile")
  set_handler : PhraseDirective Kind.set_handler (codes "SetHandler")
  directory_index : PhraseDirective Kind.directory_index (codes "DirectoryIndex")
  remove_type : PhraseDirective Kind.remove_type (codes "RemoveType")
  remove_handler : PhraseDirective Kind.remove_handler (codes "RemoveHandler")

-- Those that are written in one way.
pub data ConstantDirective : DirectiveType → Payload → Bytes → Type 0 where
  require_all_granted :
      ConstantDirective Kind.require_all_granted no_data (codes "Require all granted")
  require_all_denied :
      ConstantDirective Kind.require_all_denied no_data (codes "Require all denied")
  require_valid_user :
      ConstantDirective Kind.require_valid_user no_data (codes "Require valid-user")
  cache_disable : ConstantDirective Kind.cache_disable no_data (codes "CacheDisable")
  allow_first : ConstantDirective Kind.order (acl order_allow_deny) (codes "Order Allow,Deny")
  deny_first : ConstantDirective Kind.order (acl order_deny_allow) (codes "Order Deny,Allow")
  expires_active_on :
      ConstantDirective Kind.expires_active (expires true 0) (codes "ExpiresActive On")
  expires_active_off :
      ConstantDirective Kind.expires_active (expires false 0) (codes "ExpiresActive Off")

pub WordDirective-is_keyword :
    {t : DirectiveType} {kw : Bytes} → WordDirective t kw → is_keyword kw ≡ true
unfolding is_keyword
WordDirective-is_keyword cache_enable = refl
WordDirective-is_keyword _ = refl

pub PhraseDirective-is_keyword :
    {t : DirectiveType} {kw : Bytes} → PhraseDirective t kw → is_keyword kw ≡ true
unfolding is_keyword
PhraseDirective-is_keyword require_ip = refl
PhraseDirective-is_keyword _ = refl

-- How each family is parsed.
pub parse_line-word :
    {t : DirectiveType} {kw : Bytes} (v : Bytes) (n : ℕ)
    → WordDirective t kw
    → next_token (32 ∷ v) ≡ some (v, [])
    → next_token (skip_ws v) ≡ some (v, [])
    → parse_line (kw ++ (32 ∷ v)) n ≡ some (directive t n none (some v) none no_data)
unfolding parse_line handlers dispatch match_kw skip_ws starts_with_nocase token_value
    parse_cache_enable parse_cache_max_expire parse_cache_default_expire parse_bot_challenge_str
    parse_rewrite_base parse_rewrite_options
parse_line-word v n cache_enable e f = rw f refl
parse_line-word v n cache_max_expire e f = rw f refl
parse_line-word v n cache_default_expire e f = rw f refl
parse_line-word v n bot_challenge_exempt e f = rw f refl
parse_line-word v n bot_challenge_trusted_proxy e f = rw f refl
parse_line-word v n bot_challenge_page e f = rw f refl
parse_line-word v n brute_force_protect_path e f = rw e refl
parse_line-word v n auth_type e f = rw e refl
parse_line-word v n force_type e f = rw e refl
parse_line-word v n add_default_charset e f = rw e refl
parse_line-word v n default_type e f = rw e refl
parse_line-word v n satisfy e f = rw e refl
parse_line-word v n rewrite_base e f = rw e refl
parse_line-word v n rewrite_options e f = rw e refl

pub parse_line-phrase :
    {t : DirectiveType} {kw : Bytes} (v : Bytes) (n : ℕ)
    → PhraseDirective t kw
    → rest_of_line (32 ∷ v) ≡ some v
    → parse_line (kw ++ (32 ∷ v)) n ≡ some (directive t n none (some v) none no_data)
unfolding parse_line handlers dispatch match_kw skip_ws starts_with_nocase rest_value parse_require
    require_not
parse_line-phrase v n require_ip e = rw e refl
parse_line-phrase v n require_not_ip e = rw e refl
parse_line-phrase v n require_user e = rw e refl
parse_line-phrase v n brute_force_whitelist e = rw e refl
parse_line-phrase v n brute_force_trusted_proxy e = rw e refl
parse_line-phrase v n auth_user_file e = rw e refl
parse_line-phrase v n set_handler e = rw e refl
parse_line-phrase v n directory_index e = rw e refl
parse_line-phrase v n remove_type e = rw e refl
parse_line-phrase v n remove_handler e = rw e refl

pub parse_line-constant :
    {t : DirectiveType} {p : Payload} {line : Bytes} (n : ℕ)
    → ConstantDirective t p line
    → parse_line line n ≡ some (directive t n none none none p)
unfolding parse_line handlers dispatch match_kw skip_ws starts_with_nocase parse_require require_all
    match_word parse_cache_disable parse_order parse_expires_active switch_of next_token token_at
    take_while drop_while str_caseeq
parse_line-constant n require_all_granted = refl
parse_line-constant n require_all_denied = refl
parse_line-constant n require_valid_user = refl
parse_line-constant n cache_disable = refl
parse_line-constant n allow_first = refl
parse_line-constant n deny_first = refl
parse_line-constant n expires_active_on = refl
parse_line-constant n expires_active_off = refl
