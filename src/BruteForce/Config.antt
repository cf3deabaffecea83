-- ===== src/BruteForce/Config.antt =====
-- The scan of the directives in src/htaccess_exec_brute_force.c.
use litehttpd.Prelude.{
  ℕ, Bool, false, Option, none, some, List, [], ◌∷◌, ◌++◌, ltb, if◌then◌else◌, length,
}
use litehttpd.Prelude.Text.{Bytes}
use litehttpd.Directive.{
  BfAction, bf_action_block, Directive, directive, Directives, nil, cons, brute_force_of,
}
use litehttpd.Directive.Kind.{
  brute_force_protection, brute_force_allowed_attempts, brute_force_window, brute_force_action,
  brute_force_throttle_duration, brute_force_x_forwarded_for, brute_force_whitelist,
  brute_force_protect_path, brute_force_trusted_proxy,
}

-- The local variables that the scan sets.
pub record Settings : Type 0 where
  pub enabled : Bool
  pub allowed_attempts : ℕ
  pub window_sec : ℕ
  pub action : BfAction
  pub throttle_ms : ℕ
  pub use_xff : Bool
  pub whitelist : Option Bytes
  pub trusted_proxy : Option Bytes
  pub paths : List Bytes

-- The BF_DEFAULT_ constants.
abbrev pub default_settings : Settings
default_settings = record {
  enabled = false;
  allowed_attempts = 10;
  window_sec = 300;
  action = bf_action_block;
  throttle_ms = 1000;
  use_xff = false;
  whitelist = none;
  trusted_proxy = none;
  paths = [];
}

-- protect_paths holds 32 paths.
abbrev pub add_path : Option Bytes → List Bytes → List Bytes
add_path none paths = paths
add_path (some path) paths = if ltb (length paths) 32 then paths ++ (path ∷ []) else paths

-- One pass of the loop.
unfoldable pub apply : Settings → Directive → Settings
apply cfg (directive brute_force_protection l n v e p) = record cfg {
  enabled = (brute_force_of p).enabled;
}
apply cfg (directive brute_force_allowed_attempts l n v e p) = record cfg {
  allowed_attempts = (brute_force_of p).allowed_attempts;
}
apply cfg (directive brute_force_window l n v e p) = record cfg {
  window_sec = (brute_force_of p).window_sec;
}
apply cfg (directive brute_force_action l n v e p) = record cfg {
  action = (brute_force_of p).action;
}
apply cfg (directive brute_force_throttle_duration l n v e p) = record cfg {
  throttle_ms = (brute_force_of p).throttle_ms;
}
apply cfg (directive brute_force_x_forwarded_for l n v e p) = record cfg {
  use_xff = (brute_force_of p).enabled;
}
apply cfg (directive brute_force_whitelist l n v e p) = record cfg { whitelist = v }
apply cfg (directive brute_force_trusted_proxy l n v e p) = record cfg { trusted_proxy = v }
apply cfg (directive brute_force_protect_path l n v e p) = record cfg {
  paths = add_path v cfg.paths;
}
apply cfg d = cfg

unfoldable pub scan : Settings → Directives → Settings
unfolding apply
scan cfg nil = cfg
scan cfg (cons d ds) = scan (apply cfg d) ds

unfoldable pub settings_of : Directives → Settings
unfolding scan
settings_of directives = scan default_settings directives
