-- ===== src/Oauth/Examples.antt =====
-- The theorems on crates/api/src/client/oauth/manager.rs, at short runs.
use neddit.Prelude.{
  ℕ, ◌+◌, ◌^◌, ◌≤◌, ◌<◌, ◌≡◌, refl, ◌⊎◌, List, [], ◌∷◌, Option, none, some, All, arith, codes,
}
use neddit.Oauth.{
  Credentials, Manager, Event, acquire, observe_rate_limit, invalidate, joined, deadline, refreshed,
  Reply, lease, silent, running, start, new, step, enabled, start_refresh, completed, install,
  seconds,
}
use neddit.Oauth.Trace.{Trace, halt, next}
use neddit.Oauth.Invariant.{IsSound, started-IsSound, start-IsSound}
use neddit.Oauth.Budget.{leases, credits, available, Acquired, leases_within, acquire_correct}
use neddit.Oauth.Stale.{installs, retired_ignored, Early, refusals, invalidate_until_reset}
use neddit.Oauth.Recovery.{refresh_and_lease, recovers}

abbrev latest : ℕ
latest = 2 ^ 90

abbrev credentials : Credentials
credentials = record { headers = []; user_agent = codes "app"; expires_at = seconds 3600 }

abbrev first : Manager
first = record {
  state = record {
    active = record { id = 0; credentials = credentials };
    next_generation = 1;
    remaining = 99;
    reset_at = none;
    next_refresh_at = seconds 3480;
  };
  refreshes = 0;
  published = credentials;
}

started : start credentials 0 ≡ first
unfolding start new
started = refl

-- The timer starts a refresh, which gives the credentials again.
abbrev refreshing : Manager
refreshing = record first { refreshes = 1 }

abbrev second : Manager
second = record {
  state = record {
    active = record { id = 1; credentials = credentials };
    next_generation = 2;
    remaining = 99;
    reset_at = none;
    next_refresh_at = seconds 3480;
  };
  refreshes = 0;
  published = credentials;
}

abbrev events : List (Event × Reply)
events =
    (deadline (seconds 3480), silent) ∷ (joined (refreshed credentials) (seconds 3481), silent) ∷ []

renewal : Trace latest first events second
unfolding step enabled start_refresh completed install
renewal =
    next {m' = refreshing} (record { can = refl; does = refl })
      (next {m' = second} (record { can = refl; does = refl }) halt)

renewal_of_start : Trace latest (start credentials 0) events second
unfolding start new
renewal_of_start = renewal

first-IsSound : IsSound first
unfolding start new
first-IsSound = start-IsSound credentials 0

started_example : IsSound second
started_example = started-IsSound latest credentials 0 events second renewal_of_start

leases_example : leases events + 99 ≤ 99 + credits renewal
leases_example = leases_within latest first second events renewal

acquire_example : Acquired (available 5 first) 5 first (step latest (acquire 5 5) first)
acquire_example = acquire_correct latest 5 5 first first-IsSound

retired_example :
    (1 ≡ 0 + installs events)
    × ((g : ℕ)
        → g ≤ 0
        → 0 < installs events
        → (step latest (invalidate g) second ≡ running second silent)
          × ((n : ℕ) (after : Option ℕ) (now : ℕ)
              → step latest (observe_rate_limit g n after now) second ≡ running second silent))
retired_example = retired_ignored latest first second events first-IsSound renewal

-- A manager with 20 left, and a window that ends in an hour.
abbrev limited : Manager
limited = record first {
  state = record first.state { remaining = 20; reset_at = some (seconds 600) };
}

limited-IsSound : IsSound limited
limited-IsSound = record {
  ids = refl;
  next_is_u64 = omega arith;
  remaining_is_u16 = omega arith;
  one_refresh = omega arith;
  published = refl;
}

-- Two acquisitions, the second a second after the first.
abbrev acquisitions : List (ℕ × ℕ)
acquisitions = (5, 6) ∷ (seconds 1, seconds 1) ∷ []

acquisitions-Early : All (Early limited) acquisitions
acquisitions-Early = ((omega arith, omega arith, refl), ((omega arith, omega arith, refl), tt))

invalidate_example :
    (m' k : Manager) × Trace latest limited ((invalidate 0, silent) ∷ refusals acquisitions) m'
    × (m'.refreshes ≡ 1)
    × (step latest (acquire (seconds 600) (seconds 601)) m'
        ≡ running k (lease limited.state.active))
invalidate_example =
    invalidate_until_reset latest limited acquisitions (seconds 600) (seconds 601) limited-IsSound
      acquisitions-Early (omega arith) refl

recovers_example :
    ((first.refreshes ≡ 1)
      × ((m' : Manager) × Trace latest first
            (refresh_and_lease latest credentials (seconds 3500) 1)
            m'))
    ⊎ ((first.refreshes ≡ 0)
        × ((m' : Manager) × Trace latest first
              ((deadline (seconds 3500), silent)
                ∷ refresh_and_lease latest credentials (seconds 3500) 1)
              m'))
recovers_example =
    recovers latest credentials (seconds 3500) first first-IsSound (omega arith) (omega arith)
      (omega arith)
