-- ===== src/Client/Request.antt =====
-- A request to Reddit with its redirects: `request` and `observe_rate_limit_headers` of
-- crates/api/src/client.rs.
use neddit.Prelude.{
  ℕ, zero, suc, Bool, true, false, not, ◌&&◌, ◌||◌, ◌==◌, ltb, leb, if◌then◌else◌, List, [], ◌∷◌,
  ◌++◌, length, Option, none, some, Str, codes, str_eq, strip_prefix,
}
use neddit.Storage.Cache.Json.{Answer, value, failure}
use neddit.Oauth.{AuthError}
use neddit.Client.{ClientError, Action, Traced, Response, Libs, Net}
use neddit.Client.Path.{with_raw_json, parse_rate_limit_remaining}

abbrev pub reddit_url_base : Str
reddit_url_base = codes "https://oauth.reddit.com"

abbrev pub alternative_url_base : Str
alternative_url_base = codes "https://www.reddit.com"

abbrev pub max_reddit_redirects : ℕ
max_reddit_redirects = 4

-- `UpstreamResponse`; the lease is the number of its generation.
pub record UpstreamResponse : Type 0 where
  pub response : Response
  pub generation : ℕ
  pub rate_limit_reset : Option Str

-- `header.to_str().ok()?`
unfoldable pub text_header : Libs → Response → Str → Option Str
text_header lib r name = elim (r.headers name) [ none ↦ none | some bytes ↦ lib.to_str bytes ]

unfoldable pub reported : Libs → ℕ → Str → Option ℕ → List Action
reported lib generation reset none = []
reported lib generation reset (some n) =
    Action.observe generation n (if lib.is_seconds reset then some reset else none) ∷ []

unfoldable pub observed : Libs → ℕ → Option Str → Option Str → Option Str → List Action × Option Str
unfolding reported
observed lib generation (some remaining) (some reset) (some used) =
    (reported lib generation reset (parse_rate_limit_remaining lib remaining), some reset)
observed lib generation (some remaining) (some reset) none = ([], none)
observed lib generation (some remaining) none used = ([], none)
observed lib generation none reset used = ([], none)

-- `observe_rate_limit_headers`
unfoldable pub observe_rate_limit_headers : Libs → ℕ → Response → List Action × Option Str
unfolding observed text_header
observe_rate_limit_headers lib generation r =
    observed lib generation (text_header lib r (codes "x-ratelimit-remaining"))
      (text_header lib r (codes "x-ratelimit-reset")) (text_header lib r (codes "x-ratelimit-used"))

-- `text.trim_start_matches(prefix)`, with fuel for each character
unfoldable pub trim_start_matches : ℕ → Str → Str → Str
trim_start_matches zero prefix s = s
trim_start_matches (suc fuel) prefix s = elim (strip_prefix prefix s) [
  | none ↦ s
  | some t ↦ trim_start_matches fuel prefix t
]

abbrev pub trimmed : Str → Str → Str
trimmed prefix s = trim_start_matches (length s) prefix s

-- The path that a redirect leads to.
unfoldable pub redirect_path : Libs → List ℕ → Str
unfolding trim_start_matches with_raw_json
redirect_path lib location =
    let path =
      trimmed alternative_url_base (trimmed reddit_url_base (lib.percent_encode location)) in
    with_raw_json lib path

-- `StatusCode::is_redirection` and `is_success`
abbrev pub is_redirection : ℕ → Bool
is_redirection status = leb 300 status && ltb status 400

abbrev pub is_success : ℕ → Bool
is_success status = leb 200 status && ltb status 300

abbrev pub is_alternative : Option Str → Bool
is_alternative none = false
is_alternative (some s) = str_eq s alternative_url_base

-- A redirect, while some are `left`.
unfoldable pub redirected :
    Libs → ℕ → Str → (Str → Traced UpstreamResponse) → Option (List ℕ) → Traced UpstreamResponse
unfolding redirect_path
redirected lib left path again none = (failure (ClientError.missing_redirect_location path), [])
redirected lib left path again (some location) =
    if is_alternative (lib.to_str location)
    then (failure (ClientError.invalid_redirect path), [])
    else if left == 0
    then (failure (ClientError.too_many_redirects path), [])
    else again (redirect_path lib location)

-- What is done with an answer of the network.
unfoldable pub answered :
    Libs
    → Bool
    → ℕ
    → ℕ
    → Str
    → Str
    → (Str → Traced UpstreamResponse)
    → Option Response
    → Traced UpstreamResponse
unfolding redirected observe_rate_limit_headers
answered lib redirect left generation path url again none = (failure (ClientError.request url), [])
answered lib redirect left generation path url again (some r) =
    let (actions, reset) = observe_rate_limit_headers lib generation r in
    let whole : UpstreamResponse = record {
      response = r;
      generation = generation;
      rate_limit_reset = reset;
    } in
    let next = redirected lib left path again (r.headers (codes "location")) in
    if not (is_redirection r.status) || not redirect
    then (value whole, actions)
    else (next.0, actions ++ next.1)

unfoldable pub leased :
    Libs
    → Net
    → Bool
    → ℕ
    → ℕ
    → Str
    → Str
    → (Str → Traced UpstreamResponse)
    → Answer AuthError ℕ
    → Traced UpstreamResponse
unfolding answered
leased lib net redirect left n path url again (failure e) =
    (failure (ClientError.auth e), Action.acquire ∷ [])
leased lib net redirect left n path url again (value generation) =
    let (result, actions) = answered lib redirect left generation path url again (net.send n url) in
    (result, Action.acquire ∷ Action.send url ∷ actions)

-- `request`, by the redirects that are left. `n` counts its requests.
unfoldable pub request : Libs → Net → Bool → Str → ℕ → ℕ → Str → Traced UpstreamResponse
unfolding leased
request lib net redirect base zero n path =
    leased lib net redirect 0 n path (base ++ path)
      (λ p. (failure (ClientError.too_many_redirects p), [])) (net.acquire n)
request lib net redirect base (suc left) n path =
    leased lib net redirect (suc left) n path (base ++ path)
      (λ p. request lib net redirect base left (suc n) p) (net.acquire n)

-- `reddit_get` and `reddit_html_get`
unfoldable pub reddit_get : Libs → Net → Str → Traced UpstreamResponse
unfolding request
reddit_get lib net path =
    request lib net true reddit_url_base max_reddit_redirects 0 (with_raw_json lib path)

unfoldable pub reddit_html_get : Libs → Net → Str → Traced UpstreamResponse
unfolding request
reddit_html_get lib net path =
    request lib net false alternative_url_base max_reddit_redirects 0 path
