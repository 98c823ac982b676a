-- ===== src/Crates.antt =====
-- The third-party code that the program calls on texts, as one record of functions: the Unicode
-- tables and the regular expressions of `text_tokens`, the URL parser, and the calendar.
use neddit.Prelude.{ℕ, Bool, List, Option, Str}
use neddit.Prelude.Int.{ℤ}

pub record Crates : Type 0 where
  -- `value.nfc().default_case_fold().nfc().collect()`
  pub normalize : Str → Str
  -- `TOKENS.find_iter(..)`, the pieces that the expression matches
  pub find_tokens : Str → List Str
  -- `url::Host::parse(value).ok()?.to_string()`
  pub parse_host : Str → Option Str
  -- `url::Url::parse(value).ok()?.host_str()`
  pub url_host : Str → Option Str
  -- `FORMAT.is_match(value)` of `instant`
  pub is_instant : Str → Bool
  -- `NaiveDate::parse_from_str`, and its midnight in UTC, as seconds and nanoseconds
  pub parse_date : Str → Option (ℤ × ℕ)
  -- `DateTime::parse_from_rfc3339`, in UTC, as seconds and nanoseconds
  pub parse_rfc3339 : Str → Option (ℤ × ℕ)
