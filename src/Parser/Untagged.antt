-- ===== src/Parser/Untagged.antt =====
-- A line that starts with no `<` is no tag of src/htaccess_parser.c, in no state of htaccess_parse.
use litehttpd.Prelude.{false, none, ◌==◌, ◌≡◌, refl}
use litehttpd.Prelude.Text.{Bytes, skip_ws, peek}
use litehttpd.Parser.Tags.{
  in_tag, in_close_tag, is_files_match_open, is_files_match_close, is_ifmodule_open,
  is_ifmodule_close, is_if_open, is_elseif_open, is_else_open, is_if_close, is_elseif_close,
  is_else_close, is_files_open, is_files_close, is_require_any_open, is_require_any_close,
  is_require_all_open, is_require_all_close, is_limit_open, is_limit_except_open,
}

pub in_tag-none : (l : Bytes) → skip_ws l ≡ l → (peek l == b'<') ≡ false → in_tag l ≡ none
unfolding in_tag
in_tag-none l h e = rw (h, e) refl

module _ (l : Bytes) (h : in_tag l ≡ none) where
  in_close_tag-none : in_close_tag l ≡ none
  unfolding in_close_tag
  in_close_tag-none = rw h refl

  pub is_files_match_open-none : is_files_match_open l ≡ none
  unfolding is_files_match_open
  is_files_match_open-none = rw h refl

  pub is_ifmodule_open-none : is_ifmodule_open l ≡ none
  unfolding is_ifmodule_open
  is_ifmodule_open-none = rw h refl

  pub is_if_open-none : is_if_open l ≡ none
  unfolding is_if_open
  is_if_open-none = rw h refl

  pub is_elseif_open-none : is_elseif_open l ≡ none
  unfolding is_elseif_open
  is_elseif_open-none = rw h refl

  pub is_files_open-none : is_files_open l ≡ none
  unfolding is_files_open
  is_files_open-none = rw h refl

  pub is_limit_open-none : is_limit_open l ≡ none
  unfolding is_limit_open
  is_limit_open-none = rw h refl

  pub is_limit_except_open-none : is_limit_except_open l ≡ none
  unfolding is_limit_except_open
  is_limit_except_open-none = rw h refl

  pub is_else_open-false : is_else_open l ≡ false
  unfolding is_else_open
  is_else_open-false = rw h refl

  pub is_require_any_open-false : is_require_any_open l ≡ false
  unfolding is_require_any_open
  is_require_any_open-false = rw h refl

  pub is_require_all_open-false : is_require_all_open l ≡ false
  unfolding is_require_all_open
  is_require_all_open-false = rw h refl

  pub is_files_match_close-false : is_files_match_close l ≡ false
  unfolding is_files_match_close
  is_files_match_close-false = rw in_close_tag-none refl

  pub is_ifmodule_close-false : is_ifmodule_close l ≡ false
  unfolding is_ifmodule_close
  is_ifmodule_close-false = rw in_close_tag-none refl

  pub is_if_close-false : is_if_close l ≡ false
  unfolding is_if_close
  is_if_close-false = rw in_close_tag-none refl

  pub is_elseif_close-false : is_elseif_close l ≡ false
  unfolding is_elseif_close
  is_elseif_close-false = rw in_close_tag-none refl

  pub is_else_close-false : is_else_close l ≡ false
  unfolding is_else_close
  is_else_close-false = rw in_close_tag-none refl

  pub is_files_close-false : is_files_close l ≡ false
  unfolding is_files_close
  is_files_close-false = rw in_close_tag-none refl

  pub is_require_any_close-false : is_require_any_close l ≡ false
  unfolding is_require_any_close
  is_require_any_close-false = rw in_close_tag-none refl

  pub is_require_all_close-false : is_require_all_close l ≡ false
  unfolding is_require_all_close
  is_require_all_close-false = rw in_close_tag-none refl
