-- ===== src/Client/Proxy.antt =====
-- Media that the server passes on: the headers of `proxy_external` and of `into_http_response`,
-- and the check of `PublicDns`, in crates/api/src/client.rs.
use neddit.Prelude.{
  Bool, not, if◌then◌else◌, List, [], ◌∷◌, ◌++◌, Option, none, some, Str, codes, any, str_eq,
}
use neddit.Client.Path.{bounded_range, is_safe_proxy_header}

abbrev Headers : Type 0
Headers = List (Str × Str)

-- `lookup_host(..)`, with the check that every address is public; `none` is an error.
unfoldable pub resolve :
    {Address : Type 0} → (Address → Bool) → List Address → Option (List Address)
resolve is_proxyable_ip [] = none
resolve is_proxyable_ip (a ∷ addresses) =
    if any (λ x. not (is_proxyable_ip x)) (a ∷ addresses) then none else some (a ∷ addresses)

abbrev or_same : Str → Option Str → Str
or_same v none = v
or_same v (some w) = w

-- The value of a header that is passed on; a range is bounded.
abbrev pub passed_value : (Str → Option Str) → Str → Str → Str
passed_value to_str key v =
    if str_eq key (codes "Range") then or_same v (bounded_range (to_str v)) else v

passed : (Str → Option Str) → (Str → Option Str) → List Str → Headers
passed to_str headers [] = []
passed to_str headers (key ∷ keys) =
    let rest = passed to_str headers keys in
    elim (headers key) [ none ↦ rest | some v ↦ (key, passed_value to_str key v) ∷ rest ]

abbrev with_agent : Option Str → Headers
with_agent none = []
with_agent (some agent) = (codes "User-Agent", agent) ∷ []

-- The headers of a request by `proxy_external`.
unfoldable pub external_headers : (Str → Option Str) → (Str → Option Str) → Option Str → Headers
unfolding passed
external_headers to_str headers agent =
    passed to_str headers (codes "Range" ∷ codes "If-Modified-Since" ∷ codes "Cache-Control" ∷ [])
    ++ (with_agent agent ++ ((codes "accept", codes "*/*") ∷ []))

-- The headers of a response by `into_http_response`.
unfoldable pub response_headers : Headers → Headers
response_headers [] = []
response_headers ((name, v) ∷ headers) =
    let rest = response_headers headers in
    if is_safe_proxy_header name then (name, v) ∷ rest else rest
