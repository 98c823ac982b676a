-- ===== src/Oauth/Stale.antt =====
-- The generations of crates/api/src/client/oauth/manager.rs, and the reports about retired ones
-- and about the active one.
use neddit.Prelude.{
  ℕ, ◌+◌, ◌≤◌, ◌<◌, ◌≡◌, refl, ap, true, false, ◌==◌, List, [], ◌∷◌, Option, none, All, arith,
  Bool-cases, inl, inr,
}
use neddit.Oauth.{
  Manager, Event, acquire, observe_rate_limit, invalidate, shutdown, closed, joined, deadline,
  Joined, refreshed, refused, crashed, Reply, lease, denied, rate_limited, silent, running, install,
  observed, reset_elapsed, start_refresh, acquired, completed, step, enabled, has_elapsed,
  with_state, set_remaining,
}
use neddit.Oauth.Trace.{Step, Trace, halt, next, Goes}
use neddit.Oauth.Invariant.{IsSound, Step-IsSound}

-- The number of the credentials that a round installs.
abbrev pub install_count : Event → ℕ
install_count (joined (refreshed c) now) = 1
install_count e = 0

abbrev pub installs : List (Event × Reply) → ℕ
installs [] = 0
installs (p ∷ es) = install_count p.0 + installs es

abbrev HasId : ℕ → Manager → Reply → Type 0
HasId n m r = m.state.active.id ≡ n

completed-HasId :
    (latest : ℕ) (r : Joined) (now : ℕ) (m : Manager)
    → IsSound m
    → Goes (HasId (m.state.active.id + install_count (joined r now))) (completed latest r now m)
unfolding completed install
completed-HasId latest (refreshed c) now m h = ground (arith, h.ids)
completed-HasId latest (refused e) now m h = ground arith
completed-HasId latest crashed now m h = ground arith

step-HasId :
    (latest : ℕ) (e : Event) (m : Manager)
    → IsSound m
    → Goes (HasId (m.state.active.id + install_count e)) (step latest e m)
unfolding step acquired start_refresh observed reset_elapsed
step-HasId latest (acquire elapsed now) m h = ground arith
step-HasId latest (observe_rate_limit g n after now) m h = ground arith
step-HasId latest (invalidate g) m h = ground arith
step-HasId latest shutdown m h = tt
step-HasId latest closed m h = tt
step-HasId latest (joined r now) m h = completed-HasId latest r now m h
step-HasId latest (deadline now) m h = ground arith

Step-HasId :
    {latest : ℕ} {m m' : Manager} {e : Event} {r : Reply}
    → IsSound m
    → Step latest m e r m'
    → m'.state.active.id ≡ m.state.active.id + install_count e
Step-HasId {latest} {m} {m'} {e} {r} h s = rw s.does at (step-HasId latest e m h)

Trace-HasId :
    (latest : ℕ) (m m' : Manager) (es : List (Event × Reply))
    → IsSound m
    → Trace latest m es m'
    → m'.state.active.id ≡ m.state.active.id + installs es
Trace-HasId latest m m' [] h halt = omega arith
Trace-HasId latest m m' (p ∷ es) h (next {m' = k} s t) =
    omega (arith, Step-HasId h s, Trace-HasId latest k m' es (Step-IsSound s h) t)

other_id : (g i : ℕ) → g < i → (g == i) ≡ false
other_id g i lt = ground arith

-- In every run, each refresh that succeeds adds one to the number of the active generation, and
-- nothing else changes it. After such a refresh, reports about a generation that was active
-- before it, of a limit or that it is rejected, change nothing.
pub retired_ignored :
    (latest : ℕ) (m m' : Manager) (es : List (Event × Reply))
    → IsSound m
    → Trace latest m es m'
    → (m'.state.active.id ≡ m.state.active.id + installs es)
      × ((g : ℕ)
          → g ≤ m.state.active.id
          → 0 < installs es
          → (step latest (invalidate g) m' ≡ running m' silent)
            × ((n : ℕ) (after : Option ℕ) (now : ℕ)
                → step latest (observe_rate_limit g n after now) m' ≡ running m' silent))
unfolding step observed
retired_ignored latest m m' es h t =
    let id = Trace-HasId latest m m' es h t in
    (
      id,
      λ g le new.
          let other = other_id g m'.state.active.id (omega arith) in
          (rw other refl, λ n after now. rw other refl),
    )

start_refresh_one : (m : Manager) → m.refreshes ≤ 1 → start_refresh m ≡ record m { refreshes = 1 }
unfolding start_refresh
start_refresh_one m le = elim (Bool-cases (m.refreshes == 0)) [
  | inl e ↦ rw e (ap (λ n. record m { refreshes = n }) (none_in_flight m.refreshes e))
  | inr e ↦ rw e (ap (λ n. record m { refreshes = n }) (one_in_flight m.refreshes le e))
]
  where
    none_in_flight : (n : ℕ) → (n == 0) ≡ true → n + 1 ≡ 1
    none_in_flight n e = ground arith

    one_in_flight : (n : ℕ) → n ≤ 1 → (n == 0) ≡ false → n ≡ 1
    one_in_flight n le e = ground arith

same_id : (n : ℕ) → (n == n) ≡ true
same_id n = ground arith

rejected : (m : Manager) → Manager
rejected m = record m { state = record m.state { remaining = 0 }; refreshes = 1 }

rejected_denied :
    (elapsed now : ℕ) (m : Manager)
    → now < m.state.active.credentials.expires_at
    → has_elapsed m.state.reset_at elapsed ≡ false
    → acquired now (with_state (reset_elapsed elapsed (rejected m).state) (rejected m))
      ≡ running (rejected m) (denied rate_limited)
unfolding acquired start_refresh reset_elapsed rejected
rejected_denied elapsed now m lt e = ground arith

rejected_leased :
    (elapsed now : ℕ) (m : Manager)
    → now < m.state.active.credentials.expires_at
    → has_elapsed m.state.reset_at elapsed ≡ true
    → (k : Manager) × (acquired now
          (with_state (reset_elapsed elapsed (rejected m).state) (rejected m))
        ≡ running k (lease m.state.active))
unfolding acquired start_refresh reset_elapsed rejected
rejected_leased elapsed now m lt e = (
  record m { state = record m.state { remaining = 98; reset_at = none }; refreshes = 1 },
  ground arith,
)

-- An acquisition before the limit is reset and before the credentials expire.
abbrev pub Early : Manager → ℕ × ℕ → Type 0
Early m (elapsed, now) =
    (elapsed ≤ now)
    × (now < m.state.active.credentials.expires_at)
    × (has_elapsed m.state.reset_at elapsed ≡ false)

-- The acquisitions, each refused as rate limited.
abbrev pub refusals : List (ℕ × ℕ) → List (Event × Reply)
refusals [] = []
refusals ((elapsed, now) ∷ calls) = (acquire elapsed now, denied rate_limited) ∷ refusals calls

refusals-Trace :
    (latest : ℕ) (m : Manager) (calls : List (ℕ × ℕ))
    → All (Early m) calls
    → Trace latest (rejected m) (refusals calls) (rejected m)
unfolding enabled step
refusals-Trace latest m [] early = halt
refusals-Trace latest m ((elapsed, now) ∷ calls) early =
    let (can, lt, e) = early.0 in
    next (record { can = ground arith; does = rejected_denied elapsed now m lt e })
      (refusals-Trace latest m calls early.1)

-- For a manager as in the invariant: when the active generation is reported as rejected, and after
-- that there are only acquisitions, before the credentials expire and before the window of the
-- limit that was reported last has passed, each of them is refused as rate limited, with one
-- refresh in flight. The first acquisition after that which finds that the window has passed, and
-- comes before the credentials expire, leases the rejected generation again. A refresh that ends or
-- a report of a limit in between is not covered.
pub invalidate_until_reset :
    (latest : ℕ) (m : Manager) (calls : List (ℕ × ℕ)) (elapsed now : ℕ)
    → IsSound m
    → All (Early m) calls
    → now < m.state.active.credentials.expires_at
    → has_elapsed m.state.reset_at elapsed ≡ true
    → (m' k : Manager) × Trace latest m ((invalidate m.state.active.id, silent) ∷ refusals calls) m'
      × (m'.refreshes ≡ 1)
      × (step latest (acquire elapsed now) m' ≡ running k (lease m.state.active))
unfolding step enabled rejected
invalidate_until_reset latest m calls elapsed now h early lt passed =
    let (k, leased) = rejected_leased elapsed now m lt passed in
    let starts = start_refresh_one (with_state (set_remaining 0 m.state) m) h.one_refresh in
    let reported : step latest (invalidate m.state.active.id) m ≡ running (rejected m) silent =
      rw (same_id m.state.active.id) (ap (λ n. running n silent) starts) in
    (
      rejected m,
      k,
      next (record { can = refl; does = reported }) (refusals-Trace latest m calls early),
      refl,
      leased,
    )
