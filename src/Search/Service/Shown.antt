-- ===== src/Search/Service/Shown.antt =====
-- The pages of the sessions of the service: what `RedditService::search_ql` of
-- crates/api/src/search/engine.rs shows.
use neddit.Prelude.{
  ℕ, zero, suc, ◌≡◌, refl, inl, inr, Bool, if_intro, if◌then◌else◌, List, [], ◌∷◌, ◌++◌, get_elem?,
  Option, none, some, Str, All,
}
use neddit.Prelude.Int.{ℤ}
use neddit.Crates.{Crates}
use neddit.Search.Syntax.{Result, ok, err}
use neddit.Search.Request.{Request, binding}
use neddit.Search.Thing.{F64, PublicThing}
use neddit.Search.Page.{Page}
use neddit.Search.Session.{Collection, Job, is_new}
use neddit.Search.Session.Store.{Call, page_at}
use neddit.Search.Session.Table.{timed_by}
use neddit.Search.Session.Budgets.{Sound-unbound}
use neddit.Search.Session.Newest.{NewestFirst, All-front, NewestFirst-front}
use neddit.Search.Session.Ordering.{all_items, items_of}
use neddit.Search.Session.Replay.{Refused, Stays, page_at-Stays}
use neddit.Search.Service.Served.{IsServed, keeps, IsVisible, pages-IsVisible}

All-back {ℓ κ} : {A : Type ℓ} (P : A → Type κ) (xs ys : List A) → All P (xs ++ ys) → All P ys
All-back P [] ys h = h
All-back P (x ∷ xs) ys h = All-back P xs ys h.1

NewestFirst-back : (xs ys : List PublicThing) → NewestFirst (xs ++ ys) → NewestFirst ys
NewestFirst-back [] ys h = h
NewestFirst-back (x ∷ xs) ys h = NewestFirst-back xs ys h.1

-- What all pages serve, one of them does.
page-All :
    (P : PublicThing → Type 0) (l : List (Result Page)) (n : ℕ) (p : Page)
    → All P (all_items l)
    → get_elem? l n ≡ some (ok p)
    → All P p.items
page-All P [] n p h e = absurd (cc)
page-All P (q ∷ l) zero p h e =
    let same : q ≡ ok p = cc in All-front P p.items (all_items l) (rw same at h)
page-All P (q ∷ l) (suc n) p h e = page-All P l n p (All-back P (items_of q) (all_items l) h) e

page-NewestFirst :
    (l : List (Result Page)) (n : ℕ) (p : Page)
    → NewestFirst (all_items l)
    → get_elem? l n ≡ some (ok p)
    → NewestFirst p.items
page-NewestFirst [] n p h e = absurd (cc)
page-NewestFirst (q ∷ l) zero p h e =
    let same : q ≡ ok p = cc in NewestFirst-front p.items (all_items l) (rw same at h)
page-NewestFirst (q ∷ l) (suc n) p h e =
    page-NewestFirst l n p (NewestFirst-back (items_of q) (all_items l) h) e

not-Refused : (p : Page) → Refused (ok p) → ⊥
not-Refused p (inl e) = cc
not-Refused p (inr (inl e)) = cc
not-Refused p (inr (inr e)) = cc

module _ (lib : Crates) (ns : F64 → ℤ) (parse_uuid : Str → Option Str) (allows_nsfw : Bool) where
  -- The policy lets all of a page be seen, which is newest first with New.
  abbrev pub Shows : Request → Option (Result Page) → Type 0
  Shows r none = Unit
  Shows r (some (err d)) = Unit
  Shows r (some (ok p)) =
      All (IsVisible lib ns parse_uuid allows_nsfw) p.items
      × NewestFirst (if is_new r then p.items else [])

  abbrev pub Served : Request → Collection → Type 0
  Served = IsServed lib ns parse_uuid allows_nsfw

  module _ (job : Job) (call : Call) (key : Str) (index created : ℕ) (c : Collection)
      (s : Served (binding call.request) c) where
    abbrev q : Option (Result Page) × Collection
    q = page_at (timed_by ns job) call key index created c

    found-Shows :
        (p : Page) → get_elem? q.1.pages index ≡ some (ok p) → Shows call.request (some (ok p))
    unfolding binding
    found-Shows p found =
        let after : Served (binding call.request) q.1 =
          keeps lib ns parse_uuid allows_nsfw job call key index created c s in
        (
          page-All (IsVisible lib ns parse_uuid allows_nsfw) q.1.pages index p
              (pages-IsVisible lib ns parse_uuid allows_nsfw (binding call.request) q.1.frozen
                q.1.pages after.policy after.sound.served)
              found,
          if_intro NewestFirst (is_new call.request) _ _
              (λ new.
                page-NewestFirst q.1.pages index p
                  (NewestFirst-front (all_items q.1.pages) q.1.ready
                    (after.in_order new).newest_first)
                  found)
              (λ other. tt),
        )

    pub page_at-Shows : Shows call.request q.0
    page_at-Shows = go q.0 refl
      where
        st : Stays index c q
        st =
            page_at-Stays (timed_by ns job) call key index created c
              (Sound-unbound ns call.request c s.sound)

        go : (o : Option (Result Page)) → q.0 ≡ o → Shows call.request o
        go none e = tt
        go (some (err d)) e = tt
        go (some (ok p)) e = elim (st.result (ok p) e) [
          | inl (same, refused) ↦ absurd (not-Refused p refused)
          | inr found ↦ found-Shows p found
        ]
