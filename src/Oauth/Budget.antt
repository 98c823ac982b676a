-- ===== src/Oauth/Budget.antt =====
-- The leases of crates/api/src/client/oauth/manager.rs: when one is given, and how many.
use neddit.Prelude.{
  ℕ, ◌+◌, ◌-◌, ◌≤◌, ◌<◌, ◌≡◌, refl, ap, ◌&&◌, ◌==◌, ltb, leb, if◌then◌else◌, List, [], ◌∷◌, none,
  arith, Bool-cases, inl, inr,
}
use neddit.Oauth.{
  State, Manager, expired, rate_limited, Event, acquire, observe_rate_limit, invalidate, shutdown,
  closed, joined, deadline, Joined, refreshed, refused, crashed, Reply, lease, denied, Phase,
  running, install, observed, reset_elapsed, start_refresh, acquired, completed, step, has_elapsed,
  with_state, set_remaining,
}
use neddit.Oauth.Trace.{Step, Trace, halt, next, Goes}
use neddit.Oauth.Invariant.{IsSound}

-- The number of a reply's leases.
abbrev pub lease_count : Reply → ℕ
lease_count (lease g) = 1
lease_count r = 0

abbrev pub leases : List (Event × Reply) → ℕ
leases [] = 0
leases (p ∷ es) = lease_count p.1 + leases es

-- What a round may add to the limit: a new generation, or a window of the limit that has passed.
abbrev pub credit : Event → Manager → ℕ
credit (acquire elapsed now) m = if has_elapsed m.state.reset_at elapsed then 99 else 0
credit (observe_rate_limit g n after now) m =
    if g == m.state.active.id && has_elapsed m.state.reset_at now then n else 0
credit (joined (refreshed c) now) m = 99
credit e m = 0

abbrev pub credits :
    {latest : ℕ} {m m' : Manager} {es : List (Event × Reply)} → Trace latest m es m' → ℕ
credits halt = 0
credits (next {m} {m'} {m''} {e} {r} {es} s t) = credit e m + credits t

abbrev Within : ℕ → Manager → Reply → Type 0
Within n m r = lease_count r + m.state.remaining ≤ n

start_refresh-remaining : (m : Manager) → (start_refresh m).state ≡ m.state
unfolding start_refresh
start_refresh-remaining m = ground arith

acquired-Within :
    (n now : ℕ) (m : Manager) → m.state.remaining ≤ n → Goes (Within n) (acquired now m)
unfolding acquired start_refresh
acquired-Within n now m le = ground arith

reset_elapsed-remaining :
    (now : ℕ) (s : State)
    → (reset_elapsed now s).remaining ≤ s.remaining + (if has_elapsed s.reset_at now then 99 else 0)
unfolding reset_elapsed
reset_elapsed-remaining now s = ground arith

completed-Within :
    (latest : ℕ) (r : Joined) (now : ℕ) (m : Manager)
    → Goes (Within (m.state.remaining + credit (joined r now) m)) (completed latest r now m)
unfolding completed install
completed-Within latest (refreshed c) now m = ground arith
completed-Within latest (refused e) now m = ground arith
completed-Within latest crashed now m = ground arith

step-Within :
    (latest : ℕ) (e : Event) (m : Manager)
    → Goes (Within (m.state.remaining + credit e m)) (step latest e m)
unfolding step observed start_refresh
step-Within latest (acquire elapsed now) m =
    acquired-Within (m.state.remaining + credit (acquire elapsed now) m) now
      (with_state (reset_elapsed elapsed m.state) m) (reset_elapsed-remaining elapsed m.state)
step-Within latest (observe_rate_limit g n after now) m = ground arith
step-Within latest (invalidate g) m = ground arith
step-Within latest shutdown m = tt
step-Within latest closed m = tt
step-Within latest (joined r now) m = completed-Within latest r now m
step-Within latest (deadline now) m = rw start_refresh-remaining (omega arith)

Step-Within :
    {latest : ℕ} {m m' : Manager} {e : Event} {r : Reply}
    → Step latest m e r m'
    → lease_count r + m'.state.remaining ≤ m.state.remaining + credit e m
Step-Within {latest} {m} {m'} {e} {r} s = rw s.does at (step-Within latest e m)

-- In every run, the leases that are given and the limit that is left at the end are at most the
-- limit at the start and what was added: 99 for each new generation and for each window of the
-- limit that an acquisition finds to have passed, and what Reddit reports for a report about the
-- active generation that finds it so. The limit is never passed.
pub leases_within :
    (latest : ℕ) (m m' : Manager) (es : List (Event × Reply))
    → (t : Trace latest m es m') → leases es + m'.state.remaining ≤ m.state.remaining + credits t
leases_within latest m m' [] halt = omega arith
leases_within latest m m' (p ∷ es) (next {m' = k} s t) =
    omega (arith, Step-Within s, leases_within latest k m' es t)

-- The limit that an acquisition finds.
abbrev pub available : ℕ → Manager → ℕ
available elapsed m = if has_elapsed m.state.reset_at elapsed then 99 else m.state.remaining

-- The replies to an acquisition that finds a limit, each with its reason and what it leaves.
abbrev pub Served : (limit now : ℕ) → Manager → Manager → Reply → Type 0
Served limit now m m' (lease g) =
    (g ≡ m.state.active)
    × (now < g.credentials.expires_at)
    × (m'.state.remaining + 1 ≡ limit)
    × (m'.state.remaining < 10 → m'.refreshes ≡ 1)
Served limit now m m' (denied expired) =
    (m.state.active.credentials.expires_at ≤ now) × (m'.refreshes ≡ 1)
Served limit now m m' (denied rate_limited) =
    (now < m.state.active.credentials.expires_at) × (limit ≡ 0) × (m'.refreshes ≡ 1)
Served limit now m m' r = ⊥

abbrev pub Acquired : (limit now : ℕ) → Manager → Phase → Type 0
Acquired limit now m p =
    (m' : Manager) × (r : Reply) × (p ≡ running m' r)
    × (m'.state.active ≡ m.state.active)
    × Served limit now m m' r

start_refresh-refreshes : (m : Manager) → m.refreshes ≤ 1 → (start_refresh m).refreshes ≡ 1
unfolding start_refresh
start_refresh-refreshes m le = ground arith

acquired-Acquired :
    (now : ℕ) (m : Manager) → m.refreshes ≤ 1 → Acquired m.state.remaining now m (acquired now m)
unfolding acquired
acquired-Acquired now m le =
    let left = m.state.remaining - 1 in
    let m' = with_state (set_remaining left m.state) m in
    let active = λ (k : Manager). ap (λ (s : State). s.active) (start_refresh-remaining k) in
    elim (Bool-cases (leb m.state.active.credentials.expires_at now)) [
      | inl e ↦ (
        start_refresh m,
        denied expired,
        rw e refl,
        active m,
        (ground arith, start_refresh-refreshes m le),
      )
      | inr e ↦ elim (Bool-cases (m.state.remaining == 0)) [
        | inl z ↦ (
          start_refresh m,
          denied rate_limited,
          rw (e, z) refl,
          active m,
          (ground arith, ground arith, start_refresh-refreshes m le),
        )
        | inr z ↦ elim (Bool-cases (ltb left 10)) [
          | inl low ↦ (
            start_refresh m',
            lease m.state.active,
            rw (e, z, low) refl,
            active m',
            (
              refl,
              ground arith,
              rw start_refresh-remaining (ground arith),
              λ few. start_refresh-refreshes m' le,
            ),
          )
          | inr high ↦ (
            m',
            lease m.state.active,
            rw (e, z, high) refl,
            refl,
            (refl, ground arith, ground arith, λ few. absurd (ground arith)),
          )
        ]
      ]
    ]

-- For a manager as in the invariant, an acquisition has one of three replies, and the loop goes on
-- with the same generation. The lease is of the active generation, which has not expired, and the
-- limit goes down by one from what the acquisition finds, 99 if the window of the limit has
-- passed; if fewer than 10 are left, a refresh is in flight. It is refused as expired or as rate
-- limited, where nothing is left, and then a refresh is in flight.
pub acquire_correct :
    (latest elapsed now : ℕ) (m : Manager)
    → IsSound m
    → Acquired (available elapsed m) now m (step latest (acquire elapsed now) m)
unfolding step reset_elapsed
acquire_correct latest elapsed now m h = elim (Bool-cases (has_elapsed m.state.reset_at elapsed)) [
  | inl e ↦
      let m0 = with_state (record m.state { remaining = 99; reset_at = none }) m in
      rw e (acquired-Acquired now m0 h.one_refresh)
  | inr e ↦ rw e (acquired-Acquired now m h.one_refresh)
]
