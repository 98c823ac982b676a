-- ===== src/Search/Session/Sound.antt =====
-- A session between two calls, and that a call leaves it so: `Sessions::execute_before` of
-- crates/api/src/search/engine/session.rs, from where it holds the lock.
use neddit.Prelude.{
  ℕ, ◌+◌, ◌-◌, ◌*◌, ◌≤◌, ◌<◌, ◌≡◌, refl, sym, subst, ◌∙◌, Bool, true, false, not, ◌&&◌, ◌||◌, leb,
  if◌then◌else◌, List, [], ◌∷◌, ◌++◌, length, get_elem?, Option, none, Str, contains, arith,
  if_intro, Bool-cases, Option-cases, inl, inr, All, All-append,
}
use neddit.Search.Syntax.{Result, ok, err, Diagnostic, diagnostic, execution_timeout}
use neddit.Search.Request.{Request}
use neddit.Search.Page.{Page}
use neddit.Search.Session.{
  is_none, Collection, Job, Ran, done, failed, given_up, page_limit, is_top,
}
use neddit.Search.Session.Advance.{advance}
use neddit.Search.Session.Store.{
  Call, expired, pushed, concluded, needs_io, is_next, flying, next_page, page_at, ttl,
}
use neddit.Search.Session.Outcome.{Post, one, occ}
use neddit.Prelude.Int.{ℤ}
use neddit.Search.Thing.{F64, PublicThing}
use neddit.Search.Session.Kept.{Kept, AllowedAt, PageAllowedAt, in_page, in_pages}
use neddit.Search.Session.Hydrating.{Live}
use neddit.Search.Session.Advancing.{Given, advance-Given}

module _ (ns : F64 → ℤ) (r : Request) where
  pub record IsSound (c : Collection) : Type 0 where
    pub candidates : c.candidates ≤ 400
    pub pages : c.source_pages ≤ (if is_top r then 4 else 16)
    pub calls : c.source_calls ≤ 2 * c.source_pages
    pub bytes : (leb c.bytes (2 * 1024 * 1024) || not (is_none c.end)) ≡ true
    pub parents : c.parent_bytes ≤ 512 * 1024
    pub seen : length c.seen ≤ c.candidates
    pub once :
        (id : Str) → in_pages id c.pages + occ id c.ready + occ id c.tie ≤ one (contains c.seen id)
    pub ready : All (AllowedAt ns r c.frozen) c.ready
    pub tie : All (AllowedAt ns r c.frozen) c.tie
    pub served : All (PageAllowedAt ns r c.frozen) c.pages
    pub may_fetch : c.in_flight ≡ false → c.end ≡ none → c.source_pages < page_limit (is_top r)

module _ (j : Job) (r : Request) where
  abbrev Sound : Collection → Type 0
  Sound = IsSound j.to_nanoseconds r

  in_pages-append :
      (id : Str) (l : List (Result Page)) (p : Result Page)
      → in_pages id (l ++ (p ∷ [])) ≡ in_pages id l + in_page id p
  in_pages-append id [] p = omega arith
  in_pages-append id (q ∷ l) p = omega (arith, in_pages-append id l p)

  pub Sound-flying :
      (c : Collection)
      → Sound c
      → c.in_flight ≡ false
      → (id : Str) → Live j r (flying c) id 0 0 (flying c)
  Sound-flying c s e id = let o = s.may_fetch e in let once = s.once id in ground arith

  -- What stays allowed at the time of the start.
  allowed_at :
      (z z' : ℤ) (l : List PublicThing)
      → z' ≡ z
      → All (AllowedAt j.to_nanoseconds r z) l
      → All (AllowedAt j.to_nanoseconds r z') l
  allowed_at z z' l e h = subst (λ t. All (AllowedAt j.to_nanoseconds r t) l) (sym e) h

  served_at :
      (z z' : ℤ) (l : List (Result Page))
      → z' ≡ z
      → All (PageAllowedAt j.to_nanoseconds r z) l
      → All (PageAllowedAt j.to_nanoseconds r z') l
  served_at z z' l e h = subst (λ t. All (PageAllowedAt j.to_nanoseconds r t) l) (sym e) h

  module _ (start c : Collection) where
    -- An operation that was dropped leaves the session in flight.
    dropped-Sound : start.in_flight ≡ true → ((id : Str) → Kept j r start id 0 0 c) → Sound c
    dropped-Sound e k =
        let h = k [] in
        record {
          candidates = h.candidates;
          pages = h.pages;
          calls = omega (arith, h.calls);
          bytes = h.bytes;
          parents = h.parents;
          seen = h.seen;
          once = λ id. omega (arith, (k id).once);
          ready = allowed_at start.frozen c.frozen c.ready h.frozen_at h.ready;
          tie = allowed_at start.frozen c.frozen c.tie h.frozen_at h.tie;
          served = served_at start.frozen c.frozen c.pages h.frozen_at h.served;
          may_fetch = λ f. absurd (false_of (h.flight ∙ e) f);
        }
      where
        false_of : {b : Bool} → b ≡ true → b ≡ false → ⊥
        false_of p q = cc

    failed-Sound :
        (d : Diagnostic) → ((id : Str) → Kept j r start id 0 0 c) → Sound (pushed (err d) c).1
    unfolding occ
    failed-Sound d k =
        let h = k [] in
        record {
          candidates = h.candidates;
          pages = h.pages;
          calls = omega (arith, h.calls);
          bytes = ground arith;
          parents = h.parents;
          seen = h.seen;
          once = λ id. omega (arith, (k id).once, in_pages-append id c.pages (err d));
          ready = tt;
          tie = tt;
          served =
              All-append (PageAllowedAt j.to_nanoseconds r c.frozen) c.pages (err d ∷ [])
                (served_at start.frozen c.frozen c.pages h.frozen_at h.served) (tt, tt);
          may_fetch = λ f e. absurd (cc);
        }

    Given-Sound : (p : Page) → ((id : Str) → Given j r start id p c) → Sound (pushed (ok p) c).1
    Given-Sound p g =
        let h = (g []).0.0 in
        record {
          candidates = h.candidates;
          pages = h.pages;
          calls = omega (arith, h.calls);
          bytes = h.bytes;
          parents = h.parents;
          seen = h.seen;
          once = λ id. omega (arith, (g id).0.0.once, in_pages-append id c.pages (ok p));
          ready = allowed_at start.frozen c.frozen c.ready h.frozen_at h.ready;
          tie = allowed_at start.frozen c.frozen c.tie h.frozen_at h.tie;
          served =
              All-append (PageAllowedAt j.to_nanoseconds r c.frozen) c.pages (ok p ∷ [])
                (served_at start.frozen c.frozen c.pages h.frozen_at h.served)
                (allowed_at start.frozen c.frozen p.items h.frozen_at (g []).1, tt);
          may_fetch = λ f. (g []).0.1;
        }

  concluded-Sound :
      (dropped : Bool) (start : Collection) (m : Ran Page)
      → start.in_flight ≡ true
      → ((id : Str) → Post (Given j r start id) (Kept j r start id 0 0) m)
      → Sound (concluded dropped m).1
  unfolding concluded
  concluded-Sound dropped start (done p c) e h = Given-Sound start c p h
  concluded-Sound dropped start (failed d c) e h = failed-Sound start c d h
  concluded-Sound true start (given_up c) e h = dropped-Sound start c e h
  concluded-Sound false start (given_up c) e h =
      failed-Sound start c (diagnostic execution_timeout (0, 0)) h

  refused-Sound : (d : Diagnostic) (c : Collection) → Sound c → Sound (pushed (err d) c).1
  unfolding occ
  refused-Sound d c s = record {
    candidates = s.candidates;
    pages = s.pages;
    calls = s.calls;
    bytes = ground arith;
    parents = s.parents;
    seen = s.seen;
    once = λ id. omega (arith, s.once id, in_pages-append id c.pages (err d));
    ready = tt;
    tie = tt;
    served =
        All-append (PageAllowedAt j.to_nanoseconds r c.frozen) c.pages (err d ∷ []) s.served
          (tt, tt);
    may_fetch = λ f e. absurd (cc);
  }

module _ (j : Job) (call : Call) (key : Str) (index : ℕ) where
  next_page-Sound :
      (c : Collection)
      → IsSound j.to_nanoseconds call.request c
      → IsSound j.to_nanoseconds call.request (next_page j call key index c).1
  unfolding next_page
  next_page-Sound c s =
      let P =
        λ (q : Option (Result Page) × Collection). IsSound j.to_nanoseconds call.request q.1 in
      if_intro P (not (is_next index c)) _ _ (λ e. s)
        (λ next.
          if_intro P c.in_flight _ _ (λ busy. refused-Sound j call.request expired c s)
            (λ free.
              if_intro P (needs_io call.request c && not call.permit) _ _ (λ full. s)
                (λ permitted.
                  concluded-Sound j call.request call.dropped (flying c)
                    (advance j call.request key index (flying c)) refl
                    (λ id.
                      advance-Given j call.request (flying c) id key index (flying c)
                        (Sound-flying j call.request c s free id)))))

  pub page_at-Sound :
      (created : ℕ) (c : Collection)
      → IsSound j.to_nanoseconds call.request c
      → IsSound j.to_nanoseconds call.request (page_at j call key index created c).1
  unfolding page_at
  page_at-Sound created c s = elim (Bool-cases call.in_time) [
    | inr late ↦ rw late s
    | inl in_time ↦ elim (Bool-cases (leb ttl (call.locked - created))) [
      | inl old ↦ rw (in_time, old) s
      | inr young ↦ elim (Option-cases (get_elem? c.pages index)) [
        | inl missing ↦ rw (in_time, young, missing) (next_page-Sound c s)
        | inr (page, found) ↦ rw (in_time, young, found) s
      ]
    ]
  ]
