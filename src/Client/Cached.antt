-- ===== src/Client/Cached.antt =====
-- The client before the cache, and the query for the comments of a post: `json`,
-- `post_comments_graphql` and `fetch_post_comments_graphql` of crates/api/src/client.rs.
use neddit.Prelude.{
  ℕ, Bool, true, false, not, if◌then◌else◌, List, [], ◌∷◌, ◌++◌, Option, none, some, Str, codes,
}
use neddit.Prelude.Int.{pos}
use neddit.Storage.Cache.{Row, Db, Clock}
use neddit.Storage.Cache.Json
use neddit.Storage.Cache.Json.{Answer, value, failure}
use neddit.Oauth.{AuthError}
use neddit.Client.{ClientError, Json, Items, Fields, at, Action, Traced, Response, Libs, Net}
use neddit.Client.Path.{cache_key, cache_ttl}
use neddit.Client.Request.{is_success}
use neddit.Client.Fetch.{body_of, fetch_json}

-- What the cache of the client calls: serde, the order of rows, its limit, and the clock.
pub record Store : Type 0 where
  pub to_vec : Json → Option (List ℕ)
  pub scan : List Row → List Row
  pub max : ℕ
  pub now : ℕ
  pub clock : Clock

-- A call through the cache; a call that meets its deadline of 20 seconds has done nothing.
cached : Libs → Store → Bool → Str → ℕ → Answer ClientError Json → Db → Answer ClientError Json × Db
cached lib s in_time key ttl fetch db =
    if in_time
    then Json.json lib.from_slice s.to_vec s.scan s.max s.now s.clock key ttl fetch db
    else (failure ClientError.timeout, db)

-- `json`, with the cache
unfoldable pub json : Libs → Net → Store → Bool → Str → Db → Answer ClientError Json × Db
unfolding cached fetch_json
json lib net s in_time path db =
    cached lib s in_time (cache_key lib path) (cache_ttl path) (fetch_json lib net path).0 db

abbrev pub graphql_url : Str
graphql_url = codes "https://gql-fed.reddit.com/"

abbrev operation : Str
operation = codes "PostComments"

abbrev payload : Json → Json
payload variables = Json.object (
    Fields.field (codes "operationName") (Json.string operation) (
      Fields.field (codes "variables") variables (
        Fields.field (codes "extensions")
          (Json.object (
            Fields.field (codes "persistedQuery")
              (Json.object (
                Fields.field (codes "version") (Json.integer (pos 1)) (
                  Fields.field (codes "sha256Hash")
                    (Json.string
                      (codes "314f29c2494fd78c7844ef2c6b09acb4bef5b37ab50b4ddc01691d6d5c8433f8"))
                    Fields.end)))
              Fields.end))
          Fields.end)))

-- `as_array().is_some_and(|errors| !errors.is_empty())`
abbrev has_items : Json → Bool
has_items (Json.array Items.nil) = false
has_items (Json.array (Items.cons v l)) = true
has_items v = false

abbrev is_array : Json → Bool
is_array (Json.array l) = true
is_array v = false

abbrev trees : Json → Json
trees v =
    at (at (at (at v (codes "data")) (codes "postInfoById")) (codes "commentForest"))
      (codes "trees")

graphql_json : Option Json → Answer ClientError Json
graphql_json none = failure (ClientError.decode operation)
graphql_json (some v) =
    if has_items (at v (codes "errors"))
    then failure ClientError.invalid_envelope
    else if not (is_array (trees v))
    then failure ClientError.invalid_envelope
    else value v

graphql_body : Libs → Answer ClientError (List ℕ) → Answer ClientError Json
unfolding graphql_json
graphql_body lib (failure e) = failure e
graphql_body lib (value body) = graphql_json (lib.from_slice body)

graphql_response : Libs → Option Response → Answer ClientError Json
unfolding graphql_body
graphql_response lib none = failure (ClientError.request graphql_url)
graphql_response lib (some r) =
    if not (is_success r.status)
    then failure (ClientError.unexpected_status operation r.status)
    else graphql_body lib (body_of operation r)

graphql_leased : Libs → Net → Json → Answer AuthError ℕ → Traced Json
unfolding graphql_response
graphql_leased lib net variables (failure e) = (failure (ClientError.auth e), Action.acquire ∷ [])
graphql_leased lib net variables (value generation) = (
  graphql_response lib (net.post 0 graphql_url (payload variables)),
  Action.acquire ∷ Action.send graphql_url ∷ [],
)

-- `fetch_post_comments_graphql`
unfoldable pub fetch_post_comments_graphql : Libs → Net → Json → Traced Json
unfolding graphql_leased
fetch_post_comments_graphql lib net variables = graphql_leased lib net variables (net.acquire 0)

-- `post_comments_graphql`, with the cache
unfoldable pub post_comments_graphql :
    Libs → Net → Store → (Json → Str) → Bool → Json → Db → Answer ClientError Json × Db
unfolding cached fetch_post_comments_graphql
post_comments_graphql lib net s to_text in_time variables db =
    cached lib s in_time (codes "reddit-graphql-v1:" ++ lib.fingerprint (to_text variables)) 60
      (fetch_post_comments_graphql lib net variables).0 db
