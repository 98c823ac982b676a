-- ===== src/Search/Session/Replay.antt =====
-- The pages of a session do not change: a call for a page that is there gives it again. This is
-- `Sessions::execute_before` of crates/api/src/search/engine/session.rs under the lock.
use neddit.Prelude.{
  ℕ, zero, suc, ◌-◌, ◌≡◌, refl, ◌∙◌, Bool, true, false, not, ◌&&◌, leb, if_intro, List, [], ◌∷◌,
  ◌++◌, ◌⊎◌, inl, inr, length, get_elem?, Option, some, Str, arith, Option-cases,
}
use neddit.Search.Syntax.{Result, ok, err, diagnostic, execution_busy, execution_timeout}
use neddit.Search.Request.{Request}
use neddit.Search.Page.{Page}
use neddit.Search.Session.{Collection, Job, Ran, done, failed, given_up}
use neddit.Search.Session.Advance.{advance}
use neddit.Search.Session.Store.{
  Call, expired, pushed, concluded, needs_io, is_next, flying, next_page, page_at, ttl,
}
use neddit.Search.Session.Outcome.{Post}
use neddit.Search.Session.Kept.{Kept}
use neddit.Search.Session.Advancing.{Given, advance-Given}
use neddit.Search.Session.Sound.{IsSound, Sound-flying}

get_elem?-append {ℓ} :
    {A : Type ℓ} (xs ys : List A) (n : ℕ) (x : A)
    → get_elem? xs n ≡ some x
    → get_elem? (xs ++ ys) n ≡ some x
get_elem?-append [] ys n x h = cc
get_elem?-append (y ∷ xs) ys zero x h = h
get_elem?-append (y ∷ xs) ys (suc n) x h = get_elem?-append xs ys n x h

get_elem?-last {ℓ} :
    {A : Type ℓ} (xs : List A) (x : A) → get_elem? (xs ++ (x ∷ [])) (length xs) ≡ some x
get_elem?-last [] x = refl
get_elem?-last (y ∷ xs) x = get_elem?-last xs x

-- A refusal that leaves the session as it is, and may be over at the next call.
abbrev pub Refused : Result Page → Type 0
Refused p =
    (p ≡ err expired)
    ⊎ (p ≡ err (diagnostic execution_timeout (0, 0)))
    ⊎ (p ≡ err (diagnostic execution_busy (0, 0)))

module _ (index : ℕ) (c : Collection) where
  -- The pages of `c` stay, and a result is a refusal or the page of the index.
  pub record Stays (q : Option (Result Page) × Collection) : Type 0 where
    pub pages :
        (n : ℕ) (p : Result Page) → get_elem? c.pages n ≡ some p → get_elem? q.1.pages n ≡ some p
    pub result :
        (p : Result Page)
        → q.0 ≡ some p
        → ((q.1 ≡ c) × Refused p) ⊎ (get_elem? q.1.pages index ≡ some p)

  some_inj {ℓ} : {A : Type ℓ} {x y : A} → some x ≡ some y → x ≡ y
  some_inj e = cc

  Refused-Stays : (p : Result Page) → Refused p → Stays (some p, c)
  Refused-Stays p refused = record {
    pages = λ n q h. h;
    result = λ q e. inl (refl, rw (← some_inj e) refused);
  }

  pushed-Stays :
      (p : Result Page) (d : Collection)
      → index ≡ length c.pages
      → d.pages ≡ c.pages
      → Stays (pushed p d)
  pushed-Stays p d at same = record {
    pages = λ n q h. rw same (get_elem?-append c.pages (p ∷ []) n q h);
    result = λ q e. inr (rw (← some_inj e) (rw (same, at) (get_elem?-last c.pages p)));
  }

  concluded-Stays :
      (j : Job) (r : Request) (dropped : Bool) (m : Ran Page)
      → index ≡ length c.pages
      → Post (Given j r (flying c) []) (Kept j r (flying c) [] 0 0) m
      → Stays (concluded dropped m)
  unfolding concluded
  concluded-Stays j r dropped (done p d) at h = pushed-Stays (ok p) d at h.0.0.same_pages
  concluded-Stays j r dropped (failed e d) at h = pushed-Stays (err e) d at h.same_pages
  concluded-Stays j r true (given_up d) at h = record {
    pages = λ n q e. rw h.same_pages e;
    result = λ q e. absurd (cc);
  }
  concluded-Stays j r false (given_up d) at h =
      pushed-Stays (err (diagnostic execution_timeout (0, 0))) d at h.same_pages

module _ (j : Job) (call : Call) (key : Str) (index : ℕ) where
  next_page-Stays :
      (c : Collection)
      → IsSound j.to_nanoseconds call.request c
      → Stays index c (next_page j call key index c)
  unfolding next_page
  next_page-Stays c s =
      if_intro (Stays index c) (not (is_next index c)) _ _
        (λ e. Refused-Stays index c (err expired) (inl refl))
        (λ next.
          let at : index ≡ length c.pages = ground arith in
          if_intro (Stays index c) c.in_flight _ _
            (λ busy. pushed-Stays index c (err expired) c at refl)
            (λ free.
              if_intro (Stays index c) (needs_io call.request c && not call.permit) _ _
                (λ full.
                  Refused-Stays index c (err (diagnostic execution_busy (0, 0))) (inr (inr refl)))
                (λ permitted.
                  concluded-Stays index c j call.request call.dropped
                    (advance j call.request key index (flying c)) at
                    (advance-Given j call.request (flying c) [] key index (flying c)
                      (Sound-flying j call.request c s free [])))))

  pub page_at-Stays :
      (created : ℕ) (c : Collection)
      → IsSound j.to_nanoseconds call.request c
      → Stays index c (page_at j call key index created c)
  unfolding page_at
  page_at-Stays created c s =
      if_intro (Stays index c) (not call.in_time) _ _
        (λ late. Refused-Stays index c (err (diagnostic execution_timeout (0, 0))) (inr (inl refl)))
        (λ in_time.
          if_intro (Stays index c) (leb ttl (call.locked - created)) _ _
            (λ old. Refused-Stays index c (err expired) (inl refl))
            (λ young. elim (Option-cases (get_elem? c.pages index)) [
              | inl missing ↦ rw missing (next_page-Stays c s)
              | inr (page, found) ↦ rw found (there page found)
            ]))
    where
      there :
          (page : Result Page) → get_elem? c.pages index ≡ some page → Stays index c (some page, c)
      there page found = record { pages = λ n q h. h; result = λ q e. inr (found ∙ e) }

  -- A call on a sound session that gives a result has been refused, because the session is over,
  -- busy or too slow, and left it as it was; or its result is the page of the index from then on:
  -- every call for it that is in time gives it, and changes nothing. The pages that were there
  -- before are still there.
  pub page_at_again :
      (created : ℕ) (c c' : Collection) (p : Result Page)
      → IsSound j.to_nanoseconds call.request c
      → page_at j call key index created c ≡ (some p, c')
      → (((c' ≡ c) × Refused p)
          ⊎ ((later : Call) (service : Job) (key' : Str) (created' : ℕ)
              → later.in_time ≡ true
              → leb ttl (later.locked - created') ≡ false
              → page_at service later key' index created' c' ≡ (some p, c')))
        × ((n : ℕ) (q : Result Page) → get_elem? c.pages n ≡ some q → get_elem? c'.pages n ≡ some q)
  page_at_again created c c' p s e =
      let st : Stays index c (some p, c') = rw (← e) (page_at-Stays created c s) in
      (again (st.result p refl), st.pages)
    where
      again :
          (((c' ≡ c) × Refused p) ⊎ (get_elem? c'.pages index ≡ some p))
          → ((c' ≡ c) × Refused p)
            ⊎ ((later : Call) (service : Job) (key' : Str) (created' : ℕ)
                → later.in_time ≡ true
                → leb ttl (later.locked - created') ≡ false
                → page_at service later key' index created' c' ≡ (some p, c'))
      again (inl refused) = inl refused
      again (inr found) =
          inr (λ later service key' created' t y. unfold page_at in rw (t, y, found))
