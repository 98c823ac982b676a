-- ===== src/Media/Signer.antt =====
-- Signed URLs: `MediaSigner` of crates/api/src/media.rs.
pub mod Authentic
use neddit.Prelude.{
  ℕ, ◌+◌, Bool, true, false, not, ◌&&◌, ◌||◌, ◌==◌, ltb, if◌then◌else◌, List, [], ◌∷◌, ◌++◌, length,
  Option, none, some, Str, codes, str_eq, starts_with, to_ascii_lowercase,
}
use neddit.Storage.Cache.Json.{Answer, value, failure}
use neddit.Search.Session.{is_none}
use neddit.Media.{MediaUrlError, Host, Url, host_str, Libs}
use neddit.Media.Domains.{DomainPolicy, matches}

pub record MediaSigner : Type 0 where
  pub key : List ℕ
  pub domains : DomainPolicy
  pub policy_scope : Str

abbrev pub no_domains : DomainPolicy
no_domains = record { navigation = []; shortlinks = []; media = [] }

-- `from_secret`
unfoldable pub from_secret : List ℕ → Answer MediaUrlError MediaSigner
from_secret secret =
    if ltb (length secret) 32
    then failure MediaUrlError.short_secret
    else value (record { key = secret; domains = no_domains; policy_scope = codes "nsfw-allowed" })

-- `with_domains` and `with_content_policy`
unfoldable pub with_domains : DomainPolicy → MediaSigner → MediaSigner
with_domains domains s = record s { domains = domains }

unfoldable pub with_content_policy : Bool → MediaSigner → MediaSigner
with_content_policy allow_nsfw s = record s {
  policy_scope = if allow_nsfw then codes "nsfw-allowed" else codes "nsfw-blocked";
}

abbrev scope_bytes : Libs → Option Str → List ℕ
scope_bytes lib none = []
scope_bytes lib (some scope) = lib.to_utf8 scope ++ (0 ∷ [])

-- What `authenticator` is fed with.
unfoldable pub message : Libs → MediaSigner → Option Str → Str → List ℕ
message lib s scope target =
    lib.to_utf8 s.policy_scope ++ (0 ∷ (scope_bytes lib scope ++ lib.to_utf8 target))

unfoldable pub authenticator : Libs → MediaSigner → Option Str → Str → List ℕ
unfolding message
authenticator lib s scope target = lib.hmac s.key (message lib s scope target)

-- `sign`
unfoldable pub sign : Libs → MediaSigner → Option Str → Str → Str
unfolding authenticator
sign lib s scope target = lib.encode (authenticator lib s scope target)

abbrev pub is_plain : Url → Bool
is_plain u =
    str_eq u.scheme (codes "https") && str_eq u.username [] && is_none u.password && is_none u.port

validate_host : DomainPolicy → Url → Option Str → Option MediaUrlError
validate_host domains u none = some MediaUrlError.invalid_target
validate_host domains u (some host) =
    if not (is_plain u) || not (matches domains.media (to_ascii_lowercase host))
    then some MediaUrlError.forbidden_target
    else none

-- `validate_media_target`; `none` is acceptance.
unfoldable pub validate_media_target : DomainPolicy → Url → Option MediaUrlError
unfolding validate_host
validate_media_target domains u = validate_host domains u (host_str u)

-- The two parts of the path of a signed URL.
pub record Signed : Type 0 where
  pub signature : Str
  pub encoded : Str

unfoldable pub signed : Libs → MediaSigner → Option Str → Url → Signed
unfolding sign
signed lib s scope u = record {
  signature = sign lib s scope (lib.as_str u);
  encoded = lib.encode (lib.to_utf8 (lib.as_str u));
}

-- `{route}/{signature}/{encoded}`
abbrev pub route_text : Str → Signed → Str
route_text route t = route ++ (b'/' ∷ (t.signature ++ (b'/' ∷ t.encoded)))

accepted : {A : Type 0} → A → Option MediaUrlError → Answer MediaUrlError A
accepted x none = value x
accepted x (some e) = failure e

-- `media_url`
unfoldable pub media_url : Libs → MediaSigner → Url → Answer MediaUrlError Str
unfolding accepted signed validate_media_target
media_url lib s u =
    accepted (route_text (codes "/media") (signed lib s none u)) (validate_media_target s.domains u)

-- `scoped_url`
unfoldable pub scoped_url : Libs → MediaSigner → Str → Str → Url → Str
unfolding signed
scoped_url lib s route scope u = route_text route (signed lib s (some scope) u)

parsed : Libs → Str → Answer MediaUrlError Url
parsed lib target = elim (lib.parse target) [
  | none ↦ failure MediaUrlError.invalid_target
  | some u ↦ value u
]

verified : Libs → MediaSigner → Option Str → Str → Option (List ℕ) → Answer MediaUrlError Url
unfolding parsed authenticator
verified lib s scope target none = failure MediaUrlError.invalid_signature
verified lib s scope target (some supplied) =
    if str_eq (authenticator lib s scope target) supplied
    then parsed lib target
    else failure MediaUrlError.invalid_signature

decoded_text : Libs → MediaSigner → Option Str → Str → Option Str → Answer MediaUrlError Url
unfolding verified
decoded_text lib s scope signature none = failure MediaUrlError.invalid_encoding
decoded_text lib s scope signature (some target) =
    verified lib s scope target (lib.decode signature)

decoded_bytes : Libs → MediaSigner → Option Str → Str → Option (List ℕ) → Answer MediaUrlError Url
unfolding decoded_text
decoded_bytes lib s scope signature none = failure MediaUrlError.invalid_encoding
decoded_bytes lib s scope signature (some bytes) =
    decoded_text lib s scope signature (lib.from_utf8 bytes)

-- `decode_signed_target`
unfoldable pub decode_signed_target :
    Libs → MediaSigner → Option Str → Signed → Answer MediaUrlError Url
unfolding decoded_bytes
decode_signed_target lib s scope t = decoded_bytes lib s scope t.signature (lib.decode t.encoded)

validated : DomainPolicy → Answer MediaUrlError Url → Answer MediaUrlError Url
unfolding accepted validate_media_target
validated domains (failure e) = failure e
validated domains (value u) = accepted u (validate_media_target domains u)

-- `decode_target`
unfoldable pub decode_target : Libs → MediaSigner → Signed → Answer MediaUrlError Url
unfolding validated decode_signed_target
decode_target lib s t = validated s.domains (decode_signed_target lib s none t)
