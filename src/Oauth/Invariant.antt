-- ===== src/Oauth/Invariant.antt =====
-- The invariant of the task of crates/api/src/client/oauth/manager.rs.
use neddit.Prelude.{
  ℕ, ◌+◌, ◌-◌, ◌^◌, ◌≤◌, ◌<◌, ◌≡◌, refl, true, ◌==◌, ltb, leb, List, Option, none, some, arith,
  Bool-cases, inl, inr,
}
use neddit.Oauth.{
  Credentials, Manager, Event, acquire, observe_rate_limit, invalidate, shutdown, closed, joined,
  deadline, Joined, refreshed, refused, crashed, Reply, new, start, install, observed,
  reset_elapsed, start_refresh, acquired, completed, step, enabled, has_elapsed, with_state,
  set_remaining, checked_add, seconds, retried,
}
use neddit.Oauth.Trace.{Step, Trace, halt, next, Goes}

pub record IsSound (m : Manager) : Type 0 where
  pub ids : m.state.active.id + 1 ≡ m.state.next_generation
  pub next_is_u64 : m.state.next_generation < 2 ^ 64
  pub remaining_is_u16 : m.state.remaining < 2 ^ 16
  pub one_refresh : m.refreshes ≤ 1
  pub published : m.published ≡ m.state.active.credentials

pub start-IsSound : (c : Credentials) (now : ℕ) → IsSound (start c now)
unfolding start new
start-IsSound c now = record {
  ids = refl;
  next_is_u64 = omega arith;
  remaining_is_u16 = omega arith;
  one_refresh = omega arith;
  published = refl;
}

pub start_refresh-IsSound : (m : Manager) → IsSound m → IsSound (start_refresh m)
unfolding start_refresh
start_refresh-IsSound m h = elim (Bool-cases (m.refreshes == 0)) [
  | inl e ↦ rw e (record {
    ids = h.ids;
    next_is_u64 = h.next_is_u64;
    remaining_is_u16 = h.remaining_is_u16;
    one_refresh = ground (arith, h.one_refresh);
    published = h.published;
  })
  | inr e ↦ rw e h
]

set_remaining-IsSound :
    (n : ℕ) (m : Manager)
    → n < 2 ^ 16
    → IsSound m
    → IsSound (with_state (set_remaining n m.state) m)
set_remaining-IsSound n m lt h = record {
  ids = h.ids;
  next_is_u64 = h.next_is_u64;
  remaining_is_u16 = lt;
  one_refresh = h.one_refresh;
  published = h.published;
}

reset_elapsed-IsSound :
    (now : ℕ) (m : Manager) → IsSound m → IsSound (with_state (reset_elapsed now m.state) m)
unfolding reset_elapsed
reset_elapsed-IsSound now m h = elim (Bool-cases (has_elapsed m.state.reset_at now)) [
  | inl e ↦ rw e (record {
    ids = h.ids;
    next_is_u64 = h.next_is_u64;
    remaining_is_u16 = omega arith;
    one_refresh = h.one_refresh;
    published = h.published;
  })
  | inr e ↦ rw e h
]

abbrev Sound : Manager → Reply → Type 0
Sound m r = IsSound m

acquired-IsSound : (now : ℕ) (m : Manager) → IsSound m → Goes Sound (acquired now m)
unfolding acquired
acquired-IsSound now m h =
    let left = m.state.remaining - 1 in
    let m' = with_state (set_remaining left m.state) m in
    let h' = set_remaining-IsSound left m (omega (arith, h.remaining_is_u16)) h in
    elim (Bool-cases (leb m.state.active.credentials.expires_at now)) [
      | inl e ↦ rw e (start_refresh-IsSound m h)
      | inr e ↦ elim (Bool-cases (m.state.remaining == 0)) [
        | inl z ↦ rw (e, z) (start_refresh-IsSound m h)
        | inr z ↦ elim (Bool-cases (ltb left 10)) [
          | inl low ↦ rw (e, z, low) (start_refresh-IsSound m' h')
          | inr high ↦ rw (e, z, high) h'
        ]
      ]
    ]

observed-IsSound :
    (latest g n : ℕ) (after : Option ℕ) (now : ℕ) (m : Manager)
    → n < 2 ^ 16
    → IsSound m
    → IsSound (with_state (observed latest g n after now m.state) m)
unfolding observed
observed-IsSound latest g n after now m lt h = elim (Bool-cases (g == m.state.active.id)) [
  | inl e ↦ rw e (record {
    ids = h.ids;
    next_is_u64 = h.next_is_u64;
    remaining_is_u16 = ground (arith, h.remaining_is_u16);
    one_refresh = h.one_refresh;
    published = h.published;
  })
  | inr e ↦ rw e h
]

retried-IsSound :
    (at : Option ℕ) (m : Manager) → IsSound m → Goes Sound (retried (m.refreshes - 1) m at)
retried-IsSound none m h = tt
retried-IsSound (some at) m h = record {
  ids = h.ids;
  next_is_u64 = h.next_is_u64;
  remaining_is_u16 = h.remaining_is_u16;
  one_refresh = omega (arith, h.one_refresh);
  published = h.published;
}

completed-IsSound :
    (latest : ℕ) (now : ℕ) (r : Joined) (m : Manager)
    → IsSound m
    → Goes Sound (completed latest r now m)
unfolding completed install
completed-IsSound latest now (refreshed c) m h =
    elim (Bool-cases (ltb (m.state.next_generation + 1) (2 ^ 64))) [
      | inl e ↦ rw e (record {
        ids = refl;
        next_is_u64 = ground arith;
        remaining_is_u16 = omega arith;
        one_refresh = omega (arith, h.one_refresh);
        published = refl;
      })
      | inr e ↦ rw e tt
    ]
completed-IsSound latest now (refused _) m h =
    retried-IsSound (checked_add latest now (seconds 5)) m h
completed-IsSound latest now crashed m h = retried-IsSound (checked_add latest now (seconds 5)) m h

invalidated-IsSound :
    (latest g : ℕ) (m : Manager) → IsSound m → Goes Sound (step latest (invalidate g) m)
unfolding step
invalidated-IsSound latest g m h = elim (Bool-cases (g == m.state.active.id)) [
  | inl e ↦ rw e (
      start_refresh-IsSound (with_state (set_remaining 0 m.state) m)
        (set_remaining-IsSound 0 m (omega arith) h))
  | inr e ↦ rw e h
]

-- For every event, a round that is enabled keeps the invariant: the generation that is active is
-- the last one that was numbered, the numbers and the limit are of their types, at most one
-- refresh is in flight, and the published credentials are the active ones.
pub step-IsSound :
    (latest : ℕ) (e : Event) (m : Manager)
    → IsSound m
    → enabled e m ≡ true
    → Goes Sound (step latest e m)
unfolding step enabled
step-IsSound latest (acquire elapsed now) m h can =
    acquired-IsSound now (with_state (reset_elapsed elapsed m.state) m)
      (reset_elapsed-IsSound elapsed m h)
step-IsSound latest (observe_rate_limit g n after now) m h can =
    observed-IsSound latest g n after now m (ground arith) h
step-IsSound latest (invalidate g) m h can = invalidated-IsSound latest g m h
step-IsSound latest shutdown m h can = tt
step-IsSound latest closed m h can = tt
step-IsSound latest (joined r now) m h can = completed-IsSound latest now r m h
step-IsSound latest (deadline now) m h can = start_refresh-IsSound m h

pub Step-IsSound :
    {latest : ℕ} {m m' : Manager} {e : Event} {r : Reply}
    → Step latest m e r m'
    → IsSound m
    → IsSound m'
Step-IsSound {latest} {m} {m'} {e} {r} s h = rw s.does at (step-IsSound latest e m h s.can)

-- In every run, from the first credentials on, the invariant holds.
pub Trace-IsSound :
    {latest : ℕ} {m m' : Manager} {es : List (Event × Reply)}
    → IsSound m
    → Trace latest m es m'
    → IsSound m'
Trace-IsSound h halt = h
Trace-IsSound h (next s t) = Trace-IsSound (Step-IsSound s h) t

-- In every run of the manager, whatever the events, their order and the clock: the active
-- generation is the last one that was numbered, its number and the limit are of their types, at
-- most one refresh is in flight, and the published credentials are the active ones.
pub started-IsSound :
    (latest : ℕ) (c : Credentials) (now : ℕ) (es : List (Event × Reply)) (m : Manager)
    → Trace latest (start c now) es m
    → IsSound m
started-IsSound latest c now es m t = Trace-IsSound (start-IsSound c now) t
