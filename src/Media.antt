-- ===== src/Media.antt =====
-- The media proxy of crates/api/src/media.rs: domain patterns and signed URLs. The crate `url` is
-- an argument, with a URL as the parts that it gives, and so are HMAC-SHA-256 and base64.
pub mod Domains
pub mod Signer
mod Examples
use neddit.Prelude.{ℕ, Bool, List, [], ◌∷◌, ◌++◌, Option, none, some, Str}

pub data MediaUrlError : Type 0 where
  short_secret invalid_encoding invalid_signature invalid_target : MediaUrlError
  forbidden_target invalid_manifest_url : MediaUrlError
  invalid_domain_pattern : Str → MediaUrlError

-- `url::Host`; an address has its text.
pub data Host : Type 0 where
  domain : Str → Host
  address : Str → Host

-- `url::Url`
pub record Url : Type 0 where
  pub scheme : Str
  pub username : Str
  pub password : Option Str
  pub host : Option Host
  pub port : Option ℕ
  pub path : Str
  pub query : Option Str
  pub fragment : Option Str

abbrev pub host_text : Host → Str
host_text (Host.domain s) = s
host_text (Host.address s) = s

-- `host_str`
abbrev pub host_str : Url → Option Str
host_str u = elim u.host [ none ↦ none | some h ↦ some (host_text h) ]

-- A text cut at the matches of a regular expression: what stands before each match, with the match
-- or the group that is rewritten, and what stands after the last.
pub record Cut : Type 0 where
  pub pieces : List (Str × Str)
  pub rest : Str

pub record Libs : Type 0 where
  -- `Url::parse`, `as_str`, `join`, and `Host::parse`
  pub parse : Str → Option Url
  pub as_str : Url → Str
  pub join : Url → Str → Option Url
  pub parse_host : Str → Option Host
  -- HMAC-SHA-256 of a message under a key
  pub hmac : List ℕ → List ℕ → List ℕ
  -- base64 for URLs, and UTF-8
  pub encode : List ℕ → Str
  pub decode : Str → Option (List ℕ)
  pub to_utf8 : Str → List ℕ
  pub from_utf8 : List ℕ → Option Str
  -- `ABSOLUTE_URL`, `HLS_URI` and `DASH_BASE_URL`
  pub absolute_urls : Str → Cut
  pub hls_uris : Str → Cut
  pub dash_urls : Str → Cut
