-- ===== src/Media/Domains.antt =====
-- Domain patterns: `DomainSet`, `HostPattern` and `DomainPolicy` of crates/api/src/media.rs.
pub mod Matching
use neddit.Prelude.{
  ℕ, Bool, true, false, not, ◌&&◌, ◌||◌, ◌==◌, if◌then◌else◌, List, [], ◌∷◌, ◌++◌, any, Option,
  none, some, Str, codes, str_eq, strip_prefix, to_ascii_lowercase, contains,
}
use neddit.Storage.Cache.Json.{Answer, value, failure}
use neddit.Media.{MediaUrlError, Host, Libs}

pub record HostPattern : Type 0 where
  pub domain : Str
  pub subdomains_only : Bool

pub record DomainPolicy : Type 0 where
  pub navigation : List HostPattern
  pub shortlinks : List HostPattern
  pub media : List HostPattern

-- `value.contains('*')`
abbrev has_star : Str → Bool
has_star = any (λ c. c == b'*')

pattern_of : Str → Bool → Option Host → Answer MediaUrlError HostPattern
pattern_of v subdomains_only none = failure (MediaUrlError.invalid_domain_pattern v)
pattern_of v subdomains_only (some (Host.address s)) =
    failure (MediaUrlError.invalid_domain_pattern v)
pattern_of v subdomains_only (some (Host.domain s)) =
    value (record { domain = to_ascii_lowercase s; subdomains_only = subdomains_only })

checked_pattern : Libs → Str → Bool → Answer MediaUrlError HostPattern
unfolding pattern_of
checked_pattern lib v subdomains_only =
    if str_eq v [] || has_star v
    then failure (MediaUrlError.invalid_domain_pattern v)
    else pattern_of v subdomains_only (lib.parse_host v)

-- `HostPattern::parse`
unfoldable pub parse : Libs → Str → Answer MediaUrlError HostPattern
unfolding checked_pattern
parse lib v = elim (strip_prefix (codes "*.") v) [
  | none ↦ checked_pattern lib v false
  | some rest ↦ checked_pattern lib rest true
]

-- `host.strip_suffix(domain)`
unfoldable pub strip_suffix : Str → Str → Option Str
strip_suffix suffix [] = if str_eq suffix [] then some [] else none
strip_suffix suffix (c ∷ s) =
    let rest : Option Str = elim (strip_suffix suffix s) [ none ↦ none | some p ↦ some (c ∷ p) ] in
    if str_eq suffix (c ∷ s) then some [] else rest

-- `prefix.ends_with('.') && prefix.len() > 1`
unfoldable pub is_subdomain : Str → Bool
is_subdomain [] = false
is_subdomain (c ∷ []) = false
is_subdomain (c ∷ d ∷ []) = d == b'.'
is_subdomain (c ∷ d ∷ e ∷ s) = is_subdomain (d ∷ e ∷ s)

abbrev is_subdomain_prefix : Option Str → Bool
is_subdomain_prefix none = false
is_subdomain_prefix (some p) = is_subdomain p

-- `HostPattern::matches`
unfoldable pub pattern_matches : HostPattern → Str → Bool
unfolding strip_suffix is_subdomain
pattern_matches p host =
    if p.subdomains_only
    then is_subdomain_prefix (strip_suffix p.domain host)
    else str_eq host p.domain

abbrev push_unless_dot : ℕ → Str → Str
push_unless_dot c [] = if c == b'.' then [] else c ∷ []
push_unless_dot c (d ∷ s) = c ∷ d ∷ s

-- `host.trim_end_matches('.')`
unfoldable pub trim_dots : Str → Str
trim_dots [] = []
trim_dots (c ∷ s) = push_unless_dot c (trim_dots s)

-- `DomainSet::matches`
unfoldable pub matches : List HostPattern → Str → Bool
unfolding trim_dots to_ascii_lowercase pattern_matches
matches patterns host =
    let plain = to_ascii_lowercase (trim_dots host) in any (λ p. pattern_matches p plain) patterns
