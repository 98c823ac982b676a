-- ===== src/Client/Fetch/Rejected.antt =====
-- When a fetch gives up its credentials, and how often it asks: crates/api/src/client.rs.
use neddit.Prelude.{
  ℕ, zero, suc, ◌+◌, ◌≤◌, ◌≡◌, refl, sym, Bool, true, false, not, ◌&&◌, ◌||◌, ◌==◌, leb, ltb,
  if_intro, List, [], ◌∷◌, ◌++◌, length, Option, none, some, Option-cases, inl, inr, Str, arith,
  codes, str_eq,
}
use neddit.Prelude.Int.{ℤ}
use neddit.Storage.Cache.Json.{Answer, value, failure}
use neddit.Oauth.{AuthError}
use neddit.Client.{ClientError, Json, at, Action, Traced, and_then, Response, Libs, Net}
use neddit.Client.Path.{with_raw_json, parse_rate_limit_remaining}
use neddit.Client.Request.{
  UpstreamResponse, observe_rate_limit_headers, observed, reported, text_header, redirected,
  redirect_path, is_alternative, answered, leased, request, reddit_get, reddit_html_get,
  is_redirection, is_success, alternative_url_base, reddit_url_base, max_reddit_redirects,
}
use neddit.Client.Fetch.{
  body_of, read_body, append_body_chunk, is_true, is_bad_envelope, text_of, named_error, enveloped,
  decoded, read_json, with_body, fetch_json, html, read_html,
}

pub sends : List Action → ℕ
sends [] = 0
sends (Action.send url ∷ l) = suc (sends l)
sends (Action.acquire ∷ l) = sends l
sends (Action.observe g n r ∷ l) = sends l
sends (Action.invalidate g ∷ l) = sends l

pub invalidations : List Action → ℕ
invalidations [] = 0
invalidations (Action.invalidate g ∷ l) = suc (invalidations l)
invalidations (Action.acquire ∷ l) = invalidations l
invalidations (Action.observe g n r ∷ l) = invalidations l
invalidations (Action.send url ∷ l) = invalidations l

-- One for the results that blame the credentials.
abbrev pub blame_of : ClientError → ℕ
blame_of ClientError.unauthorized = 1
blame_of (ClientError.rate_limited reset) = 1
blame_of e = 0

abbrev pub blames : {A : Type 0} → Answer ClientError A → ℕ
blames (failure e) = blame_of e
blames (value x) = 0

sends-append : (l m : List Action) → sends (l ++ m) ≡ sends l + sends m
unfolding sends
sends-append [] m = omega arith
sends-append (Action.send url ∷ l) m = omega (arith, sends-append l m)
sends-append (Action.acquire ∷ l) m = sends-append l m
sends-append (Action.observe g n r ∷ l) m = sends-append l m
sends-append (Action.invalidate g ∷ l) m = sends-append l m

invalidations-append :
    (l m : List Action) → invalidations (l ++ m) ≡ invalidations l + invalidations m
unfolding invalidations
invalidations-append [] m = omega arith
invalidations-append (Action.invalidate g ∷ l) m = omega (arith, invalidations-append l m)
invalidations-append (Action.acquire ∷ l) m = invalidations-append l m
invalidations-append (Action.observe g n r ∷ l) m = invalidations-append l m
invalidations-append (Action.send url ∷ l) m = invalidations-append l m

-- At most `n` requests; the credentials are given up once if the result blames them, or not at all.
pub record Gives {A : Type 0} (n : ℕ) (t : Traced A) : Type 0 where
  pub few : sends t.1 ≤ n
  pub blamed : invalidations t.1 ≡ blames t.0

-- The reports on the limit are neither requests nor invalidations.
abbrev Quiet : List Action → Type 0
Quiet l = (sends l ≡ 0) × (invalidations l ≡ 0)

observed-Quiet : (lib : Libs) (g : ℕ) (a b c : Option Str) → Quiet (observed lib g a b c).0
unfolding observed reported sends invalidations
observed-Quiet lib g (some a) (some b) (some c) =
    elim (Option-cases (parse_rate_limit_remaining lib a)) [
      | inl bad ↦ rw bad (refl, refl)
      | inr (n, good) ↦ rw good (refl, refl)
    ]
observed-Quiet lib g (some a) (some b) none = (refl, refl)
observed-Quiet lib g (some a) none c = (refl, refl)
observed-Quiet lib g none b c = (refl, refl)

observe-Quiet : (lib : Libs) (g : ℕ) (r : Response) → Quiet (observe_rate_limit_headers lib g r).0
unfolding observe_rate_limit_headers
observe-Quiet lib g r =
    observed-Quiet lib g (text_header lib r (codes "x-ratelimit-remaining"))
      (text_header lib r (codes "x-ratelimit-reset")) (text_header lib r (codes "x-ratelimit-used"))

module _ (lib : Libs) (net : Net) (redirect : Bool) (n : ℕ) where
  redirected-Gives :
      (left : ℕ) (path : Str) (again : Str → Traced UpstreamResponse) (location : Option (List ℕ))
      → ((p : Str) → Gives n (again p))
      → Gives n (redirected lib left path again location)
  unfolding redirected sends invalidations
  redirected-Gives left path again none h = record { few = omega arith; blamed = refl }
  redirected-Gives left path again (some location) h =
      if_intro (Gives n) (is_alternative (lib.to_str location)) _ _
        (λ e. record { few = omega arith; blamed = refl })
        (λ e.
          if_intro (Gives n) (left == 0) _ _ (λ e. record { few = omega arith; blamed = refl })
            (λ e. h (redirect_path lib location)))

  answered-Gives :
      (left generation : ℕ) (path url : Str) (again : Str → Traced UpstreamResponse)
      (r : Option Response)
      → ((p : Str) → Gives n (again p))
      → Gives n (answered lib redirect left generation path url again r)
  unfolding answered sends invalidations
  answered-Gives left generation path url again none h = record { few = omega arith; blamed = refl }
  answered-Gives left generation path url again (some r) h =
      let quiet = observe-Quiet lib generation r in
      let g = redirected-Gives left path again (r.headers (codes "location")) h in
      let actions = (observe_rate_limit_headers lib generation r).0 in
      let next = redirected lib left path again (r.headers (codes "location")) in
      if_intro (Gives n) (not (is_redirection r.status) || not redirect) _ _
        (λ e. record { few = omega (arith, quiet.0); blamed = quiet.1 })
        (λ e. record {
          few = omega (arith, quiet.0, g.few, sends-append actions next.1);
          blamed = omega (arith, quiet.1, g.blamed, invalidations-append actions next.1);
        })

  leased-Gives :
      (left k : ℕ) (path url : Str) (again : Str → Traced UpstreamResponse) (a : Answer AuthError ℕ)
      → ((p : Str) → Gives n (again p))
      → Gives (suc n) (leased lib net redirect left k path url again a)
  unfolding leased sends invalidations
  leased-Gives left k path url again (failure e) h = record { few = omega arith; blamed = refl }
  leased-Gives left k path url again (value generation) h =
      let g = answered-Gives left generation path url again (net.send k url) h in
      record { few = omega (arith, g.few); blamed = g.blamed }

request-Gives :
    (lib : Libs) (net : Net) (redirect : Bool) (base : Str) (left k : ℕ) (path : Str)
    → Gives (suc left) (request lib net redirect base left k path)
unfolding request sends invalidations
request-Gives lib net redirect base zero k path =
    leased-Gives lib net redirect 0 0 k path (base ++ path)
      (λ p. (failure (ClientError.too_many_redirects p), [])) (net.acquire k)
      (λ p. record { few = omega arith; blamed = refl })
request-Gives lib net redirect base (suc left) k path =
    leased-Gives lib net redirect (suc left) (suc left) k path (base ++ path)
      (λ p. request lib net redirect base left (suc k) p) (net.acquire k)
      (λ p. request-Gives lib net redirect base left (suc k) p)

named_error-blames :
    (path : Str) (code : ℤ) (reason message : Str)
    → blames {A = Json} (failure (named_error path code reason message)) ≡ 0
unfolding named_error
named_error-blames path code reason message = ground arith

-- What follows a request asks no more.
module _ (path : Str) (generation : ℕ) where
  kept : {A : Type 0} (r : Answer ClientError A) → blames r ≡ 0 → Gives 0 (r, [])
  unfolding sends invalidations
  kept r e = record { few = omega arith; blamed = sym e }

  blamed :
      {A : Type 0} (r : Answer ClientError A)
      → blames r ≡ 1
      → Gives 0 (r, Action.invalidate generation ∷ [])
  unfolding sends invalidations
  blamed r e = record { few = omega arith; blamed = sym e }

  enveloped-Gives : (json v : Json) → Gives 0 (enveloped path generation json v)
  unfolding enveloped
  enveloped-Gives json (Json.integer code) =
      let message = text_of (at json (codes "message")) in
      let reason = text_of (at json (codes "reason")) in
      if_intro (Gives 0) (str_eq message (codes "Unauthorized")) _ _
        (λ e. blamed {A = Json} (failure ClientError.unauthorized) refl)
        (λ e.
          kept {A = Json} (failure (named_error path code reason message))
            (named_error-blames path code reason message))
  enveloped-Gives json Json.null = kept {A = Json} (value json) refl
  enveloped-Gives json Json.number = kept {A = Json} (value json) refl
  enveloped-Gives json (Json.boolean b) = kept {A = Json} (value json) refl
  enveloped-Gives json (Json.string b) = kept {A = Json} (value json) refl
  enveloped-Gives json (Json.array b) = kept {A = Json} (value json) refl
  enveloped-Gives json (Json.object b) = kept {A = Json} (value json) refl

  decoded-Gives : (status : ℕ) (o : Option Json) → Gives 0 (decoded path status generation o)
  unfolding decoded
  decoded-Gives status none =
      if_intro (Gives 0) (leb 500 status && ltb status 600) _ _
        (λ e. kept {A = Json} (failure (ClientError.upstream_unavailable status)) refl)
        (λ e. kept {A = Json} (failure (ClientError.decode path)) refl)
  decoded-Gives status (some json) =
      if_intro (Gives 0) (is_true (at (at json (codes "data")) (codes "is_suspended"))) _ _
        (λ e. kept {A = Json} (failure ClientError.suspended) refl)
        (λ e.
          if_intro (Gives 0) (is_bad_envelope status json) _ _
            (λ e. kept {A = Json} (failure ClientError.invalid_envelope) refl)
            (λ e. enveloped-Gives json (at json (codes "error"))))

module _ (lib : Libs) (path : Str) where
  read_json-Gives : (u : UpstreamResponse) (body : List ℕ) → Gives 0 (read_json lib path u body)
  unfolding read_json
  read_json-Gives u body =
      let limited =
        blamed path u.generation {A = Json} (failure (ClientError.rate_limited u.rate_limit_reset))
          refl in
      if_intro (Gives 0) (length body == 0) _ _ (λ e. limited)
        (λ e.
          if_intro (Gives 0) (u.response.status == 429) _ _ (λ e. limited)
            (λ e.
              if_intro (Gives 0) (u.response.status == 401) _ _
                (λ e. blamed path u.generation {A = Json} (failure ClientError.unauthorized) refl)
                (λ e. decoded-Gives path u.generation u.response.status (lib.from_slice body))))

  -- The errors of a body do not blame the credentials.
  read_body-blames :
      (chunks : List (Option (List ℕ))) (body : List ℕ) → blames (read_body path chunks body) ≡ 0
  unfolding read_body append_body_chunk
  read_body-blames [] body = refl
  read_body-blames (none ∷ chunks) body = refl
  read_body-blames (some chunk ∷ chunks) body =
      ground (arith, read_body-blames chunks (body ++ chunk))

  body_of-blames : (r : Response) → blames (body_of path r) ≡ 0
  unfolding body_of
  body_of-blames r = ground (arith, read_body-blames r.chunks [])

  with_body-Gives :
      (u : UpstreamResponse) (b : Answer ClientError (List ℕ))
      → blames b ≡ 0
      → Gives 0 (with_body (read_json lib path u) b)
  unfolding with_body
  with_body-Gives u (failure e) h = ground (arith, kept path u.generation {A = Json} (failure e))
  with_body-Gives u (value body) h = read_json-Gives u body

and_then-Gives :
    {A B : Type 0} (n : ℕ) (t : Traced A) (k : A → Traced B)
    → Gives n t
    → ((x : A) → Gives 0 (k x))
    → Gives n (and_then t k)
and_then-Gives n (failure e, actions) k g h = record { few = g.few; blamed = g.blamed }
and_then-Gives n (value x, actions) k g h =
    let g' = h x in
    record {
      few = omega (arith, g.few, g'.few, sends-append actions (k x).1);
      blamed = omega (arith, g.blamed, g'.blamed, invalidations-append actions (k x).1);
    }

read_html-Gives :
    (lib : Libs) (path : Str) (u : UpstreamResponse) (b : Answer ClientError (List ℕ))
    → blames b ≡ 0
    → Gives 0 (read_html lib path u b)
unfolding read_html
read_html-Gives lib path u (failure e) h = kept path u.generation {A = Str} (failure e) h
read_html-Gives lib path u (value body) h =
    if_intro (Gives 0) (u.response.status == 429 || length body == 0) _ _
      (λ e.
        blamed path u.generation {A = Str} (failure (ClientError.rate_limited u.rate_limit_reset))
          refl)
      (λ e.
        if_intro (Gives 0) (u.response.status == 401) _ _
          (λ e. blamed path u.generation {A = Str} (failure ClientError.unauthorized) refl)
          (λ e.
            if_intro (Gives 0) (not (is_success u.response.status)) _ _
              (λ e.
                kept path u.generation {A = Str}
                  (failure (ClientError.unexpected_status path u.response.status)) refl)
              (λ e. kept path u.generation {A = Str} (value (lib.from_utf8 body)) refl)))

-- Fetching JSON makes at most five requests, and so does fetching HTML; the credentials of a lease
-- are given up once if the result is that they are not authorized or beyond their limit, and not
-- at all otherwise.
pub fetch_gives :
    (lib : Libs) (net : Net) (path : Str)
    → Gives 5 (fetch_json lib net path) × Gives 5 (html lib net path)
unfolding fetch_json reddit_get html reddit_html_get
fetch_gives lib net path = (
  and_then-Gives 5 (reddit_get lib net path)
      (λ u. with_body (read_json lib path u) (body_of path u.response))
      (request-Gives lib net true reddit_url_base max_reddit_redirects 0 (with_raw_json lib path))
      (λ u.
        with_body-Gives lib path u (body_of path u.response) (body_of-blames lib path u.response)),
  and_then-Gives 5 (reddit_html_get lib net path)
      (λ u. read_html lib path u (body_of path u.response))
      (request-Gives lib net false alternative_url_base max_reddit_redirects 0 path)
      (λ u.
        read_html-Gives lib path u (body_of path u.response) (body_of-blames lib path u.response)),
)
