-- ===== src/Client/Fetch.antt =====
-- What the client makes of a response: `html`, `fetch_json`, `json` and
-- `fetch_post_comments_graphql` of crates/api/src/client.rs.
pub mod Rejected
pub mod Accepted
use neddit.Prelude.{
  ℕ, zero, suc, ◌+◌, ◌-◌, ◌*◌, Bool, true, false, not, ◌&&◌, ◌||◌, ◌==◌, ltb, leb, if◌then◌else◌,
  List, [], ◌∷◌, ◌++◌, length, Option, none, some, Str, codes, str_eq,
}
use neddit.Prelude.Int.{ℤ}
use neddit.Storage.Cache.Json.{Answer, value, failure}
use neddit.Client.{
  ClientError, Json, Items, Fields, get, at, Action, Traced, and_then, Response, Libs, Net,
}
use neddit.Client.Request.{UpstreamResponse, is_success, reddit_get, reddit_html_get}

abbrev pub max_upstream_bytes : ℕ
max_upstream_bytes = 8 * 1024 * 1024

-- `append_body_chunk`
unfoldable pub append_body_chunk : List ℕ → List ℕ → Answer ClientError (List ℕ)
append_body_chunk body chunk =
    if ltb (max_upstream_bytes - length body) (length chunk)
    then failure ClientError.body_too_large
    else value (body ++ chunk)

-- The loop over the pieces of a body.
unfoldable pub read_body : Str → List (Option (List ℕ)) → List ℕ → Answer ClientError (List ℕ)
unfolding append_body_chunk
read_body path [] body = value body
read_body path (none ∷ chunks) body = failure (ClientError.body path)
read_body path (some chunk ∷ chunks) body = elim (append_body_chunk body chunk) [
  | failure e ↦ failure e
  | value longer ↦ read_body path chunks longer
]

abbrev pub is_too_long : Option ℕ → Bool
is_too_long none = false
is_too_long (some n) = ltb max_upstream_bytes n

unfoldable pub body_of : Str → Response → Answer ClientError (List ℕ)
unfolding read_body
body_of path r =
    let body = read_body path r.chunks [] in
    if is_too_long r.content_length then failure ClientError.body_too_large else body

abbrev pub is_integer : Option Json → Bool
is_integer (some (Json.integer z)) = true
is_integer v = false

-- Neither absent, nor null, nor an `i64`.
abbrev pub is_text_error : Option Json → Bool
is_text_error none = false
is_text_error (some Json.null) = false
is_text_error (some (Json.integer z)) = false
is_text_error (some v) = true

-- Neither absent, nor null, nor an empty array.
abbrev pub has_errors : Option Json → Bool
has_errors none = false
has_errors (some Json.null) = false
has_errors (some (Json.array Items.nil)) = false
has_errors (some v) = true

-- `validate_json_envelope`, which refuses or does not
unfoldable pub is_bad_envelope : ℕ → Json → Bool
is_bad_envelope status json =
    (not (is_success status) && not (is_integer (get json (codes "error"))))
    || is_text_error (get json (codes "error"))
    || has_errors (get json (codes "errors"))

abbrev pub is_true : Json → Bool
is_true (Json.boolean b) = b
is_true v = false

-- `as_str().unwrap_or_default()`
abbrev pub text_of : Json → Str
text_of (Json.string s) = s
text_of v = []

-- The error that an envelope with an `i64` names.
unfoldable pub named_error : Str → ℤ → Str → Str → ClientError
named_error path code reason message =
    if str_eq reason (codes "quarantined")
    then ClientError.quarantined
    else if str_eq reason (codes "gated")
    then ClientError.gated
    else if str_eq reason (codes "private")
    then ClientError.private
    else if str_eq reason (codes "banned")
    then ClientError.banned
    else ClientError.reddit code reason message path

unfoldable pub enveloped : Str → ℕ → Json → Json → Traced Json
unfolding named_error
enveloped path generation json (Json.integer code) =
    let message = text_of (at json (codes "message")) in
    if str_eq message (codes "Unauthorized")
    then (failure ClientError.unauthorized, Action.invalidate generation ∷ [])
    else (failure (named_error path code (text_of (at json (codes "reason"))) message), [])
enveloped path generation json v = (value json, [])

unfoldable pub decoded : Str → ℕ → ℕ → Option Json → Traced Json
unfolding enveloped is_bad_envelope
decoded path status generation none =
    if leb 500 status && ltb status 600
    then (failure (ClientError.upstream_unavailable status), [])
    else (failure (ClientError.decode path), [])
decoded path status generation (some json) =
    if is_true (at (at json (codes "data")) (codes "is_suspended"))
    then (failure ClientError.suspended, [])
    else if is_bad_envelope status json
    then (failure ClientError.invalid_envelope, [])
    else enveloped path generation json (at json (codes "error"))

unfoldable pub read_json : Libs → Str → UpstreamResponse → List ℕ → Traced Json
unfolding decoded
read_json lib path u body =
    if length body == 0
    then (
      failure (ClientError.rate_limited u.rate_limit_reset),
      Action.invalidate u.generation ∷ [],
    )
    else if u.response.status == 429
    then (
      failure (ClientError.rate_limited u.rate_limit_reset),
      Action.invalidate u.generation ∷ [],
    )
    else if u.response.status == 401
    then (failure ClientError.unauthorized, Action.invalidate u.generation ∷ [])
    else decoded path u.response.status u.generation (lib.from_slice body)

unfoldable pub with_body : (List ℕ → Traced Json) → Answer ClientError (List ℕ) → Traced Json
with_body k (failure e) = (failure e, [])
with_body k (value body) = k body

-- `fetch_json`
unfoldable pub fetch_json : Libs → Net → Str → Traced Json
unfolding read_json with_body
fetch_json lib net path =
    and_then (reddit_get lib net path)
      (λ u. with_body (read_json lib path u) (body_of path u.response))

unfoldable pub read_html : Libs → Str → UpstreamResponse → Answer ClientError (List ℕ) → Traced Str
read_html lib path u (failure e) = (failure e, [])
read_html lib path u (value body) =
    if u.response.status == 429 || length body == 0
    then (
      failure (ClientError.rate_limited u.rate_limit_reset),
      Action.invalidate u.generation ∷ [],
    )
    else if u.response.status == 401
    then (failure ClientError.unauthorized, Action.invalidate u.generation ∷ [])
    else if not (is_success u.response.status)
    then (failure (ClientError.unexpected_status path u.response.status), [])
    else (value (lib.from_utf8 body), [])

-- `html`
unfoldable pub html : Libs → Net → Str → Traced Str
unfolding read_html
html lib net path =
    and_then (reddit_html_get lib net path) (λ u. read_html lib path u (body_of path u.response))
