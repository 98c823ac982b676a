-- ===== src/Oauth.antt =====
-- The OAuth manager of crates/api/src/client/oauth/manager.rs: its `State`, and the task
-- `run_manager` as one step per event of its loop. An `Instant` is the number of nanoseconds from
-- the smallest one, and `latest` is the largest one. Each reading of the clock is an argument of
-- the event.
pub mod Trace
pub mod Invariant
pub mod Budget
pub mod Stale
pub mod Recovery
mod Examples
use neddit.Prelude.{
  ℕ, zero, suc, ◌+◌, ◌-◌, ◌*◌, ◌^◌, Bool, true, false, not, ◌&&◌, ◌==◌, ltb, leb, if◌then◌else◌,
  min, List, Option, none, some, Str,
}

pub record Credentials : Type 0 where
  pub headers : List (Str × Str)
  pub user_agent : Str
  pub expires_at : ℕ

-- The errors of `AuthError` that the manager makes, and those of an authentication.
pub data AuthError : Type 0 where
  expired rate_limited manager_stopped failed : AuthError

pub record Generation : Type 0 where
  pub id : ℕ
  pub credentials : Credentials

pub record State : Type 0 where
  pub active : Generation
  pub next_generation : ℕ
  pub remaining : ℕ
  pub reset_at : Option ℕ
  pub next_refresh_at : ℕ

abbrev pub initial_rate_limit : ℕ
initial_rate_limit = 99

abbrev pub refresh_threshold : ℕ
refresh_threshold = 10

abbrev pub seconds : ℕ → ℕ
seconds n = n * 1_000_000_000

-- The state of the task: the number of refreshes in flight, and the credentials that the
-- `watch` channel has.
pub record Manager : Type 0 where
  pub state : State
  pub refreshes : ℕ
  pub published : Credentials

-- What `join_next` gives.
pub data Joined : Type 0 where
  refreshed : Credentials → Joined
  refused : AuthError → Joined
  crashed : Joined

-- The branches of `select!`. A fresh reading of the clock is where the code makes one.
pub data Event : Type 0 where
  acquire : (elapsed now : ℕ) → Event
  observe_rate_limit : (generation remaining : ℕ) → (reset_after : Option ℕ) → (now : ℕ) → Event
  invalidate : (generation : ℕ) → Event
  shutdown : Event
  closed : Event
  joined : Joined → (now : ℕ) → Event
  deadline : (now : ℕ) → Event

pub data Reply : Type 0 where
  silent : Reply
  lease : Generation → Reply
  denied : AuthError → Reply
  stopped : Reply

-- The loop goes on, it ends, or an `expect` or an overflow panics.
pub data Phase : Type 0 where
  running : Manager → Reply → Phase
  ended : Reply → Phase
  panicked : Phase

-- `refresh_deadline`, with `Instant::now()` for what `checked_sub` refuses
abbrev pub refresh_deadline : ℕ → ℕ → ℕ
refresh_deadline expires_at now =
    if ltb expires_at (seconds 120) then now else expires_at - seconds 120

-- `reset_at.is_some_and(|deadline| deadline <= now)`
abbrev pub has_elapsed : Option ℕ → ℕ → Bool
has_elapsed none now = false
has_elapsed (some at) now = leb at now

-- `Instant::checked_add`
abbrev pub checked_add : ℕ → ℕ → ℕ → Option ℕ
checked_add latest now duration =
    if leb (now + duration) latest then some (now + duration) else none

-- `State::new`
unfoldable pub new : Credentials → ℕ → State
new credentials now = record {
  active = record { id = 0; credentials = credentials };
  next_generation = 1;
  remaining = initial_rate_limit;
  reset_at = none;
  next_refresh_at = refresh_deadline credentials.expires_at now;
}

-- `OAuthHandle::start_with_authenticator`, after the authentication
unfoldable pub start : Credentials → ℕ → Manager
unfolding new
start credentials now = record {
  state = new credentials now;
  refreshes = 0;
  published = credentials;
}

-- `State::install`, which panics where the next generation is no `u64`
unfoldable pub install : Credentials → ℕ → State → Option State
install credentials now s =
    if ltb (s.next_generation + 1) (2 ^ 64)
    then some (record {
      active = record { id = s.next_generation; credentials = credentials };
      next_generation = s.next_generation + 1;
      remaining = initial_rate_limit;
      reset_at = none;
      next_refresh_at = refresh_deadline credentials.expires_at now;
    })
    else none

abbrev reset_from : ℕ → ℕ → Option ℕ → Option ℕ
reset_from latest now none = none
reset_from latest now (some duration) = checked_add latest now duration

-- `State::observe_rate_limit`
unfoldable pub observed : ℕ → ℕ → ℕ → Option ℕ → ℕ → State → State
observed latest generation remaining reset_after now s =
    if not (generation == s.active.id) then s else record s {
      remaining = if has_elapsed s.reset_at now then remaining else min s.remaining remaining;
      reset_at = reset_from latest now reset_after;
    }

-- `state.remaining = n`
abbrev pub set_remaining : ℕ → State → State
set_remaining n s = record s { remaining = n }

-- `State::reset_elapsed_rate_limit`
unfoldable pub reset_elapsed : ℕ → State → State
reset_elapsed now s =
    if has_elapsed s.reset_at now
    then record s { remaining = initial_rate_limit; reset_at = none }
    else s

abbrev pub with_state : State → Manager → Manager
with_state s m = record m { state = s }

-- `start_refresh`
unfoldable pub start_refresh : Manager → Manager
start_refresh m = if not (m.refreshes == 0) then m else record m { refreshes = m.refreshes + 1 }

-- The rest of the branch `Acquire`, after `reset_elapsed_rate_limit`.
unfoldable pub acquired : ℕ → Manager → Phase
acquired now m =
    if leb m.state.active.credentials.expires_at now
    then running (start_refresh m) (denied expired)
    else if m.state.remaining == 0
    then running (start_refresh m) (denied rate_limited)
    else let left = m.state.remaining - 1 in
      let m' = with_state (set_remaining left m.state) m in
      running (if ltb left refresh_threshold then start_refresh m' else m') (lease m.state.active)

abbrev installed : ℕ → Manager → Option State → Phase
installed n m none = panicked
installed n m (some s) =
    running (record { state = s; refreshes = n; published = s.active.credentials }) silent

abbrev retried : ℕ → Manager → Option ℕ → Phase
retried n m none = panicked
retried n m (some at) =
    running
      (record {
        state = record m.state { next_refresh_at = at };
        refreshes = n;
        published = m.published;
      })
      silent

-- The branch of `join_next`. A refresh that has ended is no longer in the set.
unfoldable pub completed : ℕ → Joined → ℕ → Manager → Phase
completed latest (refreshed credentials) now m =
    installed (m.refreshes - 1) m (install credentials now m.state)
completed latest (refused e) now m =
    retried (m.refreshes - 1) m (checked_add latest now (seconds 5))
completed latest crashed now m = retried (m.refreshes - 1) m (checked_add latest now (seconds 5))

-- One round of the loop of `run_manager`.
unfoldable pub step : ℕ → Event → Manager → Phase
step latest (acquire elapsed now) m = acquired now (with_state (reset_elapsed elapsed m.state) m)
step latest (observe_rate_limit generation remaining reset_after now) m =
    running (with_state (observed latest generation remaining reset_after now m.state) m) silent
step latest (invalidate generation) m =
    if not (generation == m.state.active.id)
    then running m silent
    else running (start_refresh (with_state (set_remaining 0 m.state) m)) silent
step latest shutdown m = ended stopped
step latest closed m = ended silent
step latest (joined result now) m = completed latest result now m
step latest (deadline now) m = running (start_refresh m) silent

-- The guards of the branches of `select!`: the time of the last one has come, and the values
-- are of the types that they have in the code.
unfoldable pub enabled : Event → Manager → Bool
enabled (acquire elapsed now) m = leb elapsed now
enabled (observe_rate_limit generation remaining reset_after now) m = ltb remaining (2 ^ 16)
enabled (invalidate generation) m = true
enabled shutdown m = true
enabled closed m = true
enabled (joined result now) m = not (m.refreshes == 0)
enabled (deadline now) m = m.refreshes == 0 && leb m.state.next_refresh_at now
