-- ===== src/Client/Fetch/Accepted.antt =====
-- What is known of JSON that was fetched: crates/api/src/client.rs.
use neddit.Prelude.{
  ℕ, ◌≤◌, ◌<◌, ◌≡◌, refl, subst, ◌∙◌, false, List, [], ◌∷◌, ◌++◌, length, length-append, Option,
  none, some, Option-cases, inl, inr, Str, arith, codes,
}
use neddit.Storage.Cache.Json.{Answer, value, failure}
use neddit.Client.{ClientError, Json, get, at, Traced, and_then, Response, Libs, Net}
use neddit.Client.Request.{UpstreamResponse, reddit_get}
use neddit.Client.Fetch.{
  body_of, read_body, append_body_chunk, max_upstream_bytes, is_integer, is_text_error, has_errors,
  is_true, is_bad_envelope, enveloped, decoded, read_json, with_body, fetch_json,
}

-- JSON that a response accepts: the body is not empty and within the limit, the status is one of
-- success, and there is neither an error, nor a suspended account.
pub record IsAccepted (lib : Libs) (path : Str) (u : UpstreamResponse) (json : Json) (body : List ℕ)
    : Type 0 where
  pub received : body_of path u.response ≡ value body
  pub decoded : lib.from_slice body ≡ some json
  pub not_empty : 0 < length body
  pub bounded : length body ≤ max_upstream_bytes
  pub success : (200 ≤ u.response.status) × (u.response.status < 300)
  pub no_code : is_integer (get json (codes "error")) ≡ false
  pub no_error : is_text_error (get json (codes "error")) ≡ false
  pub no_errors : has_errors (get json (codes "errors")) ≡ false
  pub not_suspended : is_true (at (at json (codes "data")) (codes "is_suspended")) ≡ false

read_body_bounds :
    (path : Str) (chunks : List (Option (List ℕ))) (body whole : List ℕ)
    → length body ≤ max_upstream_bytes
    → read_body path chunks body ≡ value whole
    → length whole ≤ max_upstream_bytes
unfolding read_body append_body_chunk
read_body_bounds path [] body whole le e = ground arith
read_body_bounds path (none ∷ chunks) body whole le e = ground arith
read_body_bounds path (some chunk ∷ chunks) body whole le e =
    ground (arith, length-append body chunk, read_body_bounds path chunks (body ++ chunk) whole)

body_of_bounds :
    (path : Str) (r : Response) (whole : List ℕ)
    → body_of path r ≡ value whole
    → length whole ≤ max_upstream_bytes
unfolding body_of
body_of_bounds path r whole e = ground (arith, read_body_bounds path r.chunks [] whole)

-- The accepted value of an operation is one that its last step accepts.
and_then-value :
    {A B : Type 0} (t : Traced A) (k : A → Traced B) (y : B)
    → (and_then t k).0 ≡ value y
    → (x : A) × (t.0 ≡ value x) × ((k x).0 ≡ value y)
and_then-value (failure e, actions) k y h = absurd (cc)
and_then-value (value x, actions) k y h = (x, refl, h)

integer_get :
    (json : Json)
    → is_integer (get json (codes "error")) ≡ is_integer (some (at json (codes "error")))
unfolding at
integer_get json = elim (Option-cases (get json (codes "error"))) [
  | inl missing ↦ rw missing refl
  | inr (v, found) ↦ rw found refl
]

enveloped-value :
    (path : Str) (generation : ℕ) (json v y : Json)
    → (enveloped path generation json v).0 ≡ value y
    → (json ≡ y) × (is_integer (some v) ≡ false)
unfolding enveloped
enveloped-value path generation json (Json.integer code) y h = ground arith
enveloped-value path generation json Json.null y h = ground arith
enveloped-value path generation json Json.number y h = ground arith
enveloped-value path generation json (Json.boolean b) y h = ground arith
enveloped-value path generation json (Json.string b) y h = ground arith
enveloped-value path generation json (Json.array b) y h = ground arith
enveloped-value path generation json (Json.object b) y h = ground arith

decoded-value :
    (path : Str) (status generation : ℕ) (json y : Json)
    → (decoded path status generation (some json)).0 ≡ value y
    → (is_true (at (at json (codes "data")) (codes "is_suspended")) ≡ false)
      × (is_bad_envelope status json ≡ false)
      × ((enveloped path generation json (at json (codes "error"))).0 ≡ value y)
unfolding decoded
decoded-value path status generation json y h = ground arith

good_envelope :
    (status : ℕ) (json : Json)
    → is_bad_envelope status json ≡ false
    → is_integer (get json (codes "error")) ≡ false
    → ((200 ≤ status) × (status < 300))
      × (is_text_error (get json (codes "error")) ≡ false)
      × (has_errors (get json (codes "errors")) ≡ false)
unfolding is_bad_envelope
good_envelope status json h k = ground arith

read_json-value :
    (lib : Libs) (path : Str) (u : UpstreamResponse) (body : List ℕ) (y : Json)
    → (read_json lib path u body).0 ≡ value y
    → (0 < length body)
      × ((decoded path u.response.status u.generation (lib.from_slice body)).0 ≡ value y)
unfolding read_json
read_json-value lib path u body y h = ground arith

module _ (lib : Libs) (path : Str) (u : UpstreamResponse) (body : List ℕ) (y : Json)
    (got : body_of path u.response ≡ value body) (not_empty : 0 < length body) where
  decoded-IsAccepted :
      (o : Option Json)
      → lib.from_slice body ≡ o
      → (decoded path u.response.status u.generation o).0 ≡ value y
      → IsAccepted lib path u y body
  decoded-IsAccepted none e h = absurd (unfold decoded in ground arith)
  decoded-IsAccepted (some json) e h =
      let (safe, envelope, rest) = decoded-value path u.response.status u.generation json y h in
      let (same, no_code) =
        enveloped-value path u.generation json (at json (codes "error")) y rest in
      let code : is_integer (get json (codes "error")) ≡ false = integer_get json ∙ no_code in
      let (success, no_error, no_errors) = good_envelope u.response.status json envelope code in
      subst (λ v. IsAccepted lib path u v body) same
        (record {
          received = got;
          decoded = e;
          not_empty = not_empty;
          bounded = body_of_bounds path u.response body got;
          success = success;
          no_code = code;
          no_error = no_error;
          no_errors = no_errors;
          not_suspended = safe;
        })

with_body-IsAccepted :
    (lib : Libs) (path : Str) (u : UpstreamResponse) (b : Answer ClientError (List ℕ)) (y : Json)
    → body_of path u.response ≡ b
    → (with_body (read_json lib path u) b).0 ≡ value y
    → (body : List ℕ) × IsAccepted lib path u y body
unfolding with_body
with_body-IsAccepted lib path u (failure e) y got h = absurd (cc)
with_body-IsAccepted lib path u (value body) y got h =
    let (not_empty, rest) = read_json-value lib path u body y h in
    (body, decoded-IsAccepted lib path u body y got not_empty (lib.from_slice body) refl rest)

-- JSON that is fetched is the decoded body of the last response, which is not empty and within
-- 8 MiB, has a status of success, and tells neither of an error nor of a suspended account.
pub fetch_json-IsAccepted :
    (lib : Libs) (net : Net) (path : Str) (json : Json)
    → (fetch_json lib net path).0 ≡ value json
    → (u : UpstreamResponse) × ((reddit_get lib net path).0 ≡ value u)
      × ((body : List ℕ) × IsAccepted lib path u json body)
unfolding fetch_json
fetch_json-IsAccepted lib net path json h =
    let (u, got, rest) = and_then-value (reddit_get lib net path) _ json h in
    (u, got, with_body-IsAccepted lib path u (body_of path u.response) json refl rest)
