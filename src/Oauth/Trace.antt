-- ===== src/Oauth/Trace.antt =====
-- The runs of the task `run_manager` of crates/api/src/client/oauth/manager.rs, as far as it has
-- not ended.
use neddit.Prelude.{ℕ, ◌≡◌, true, List, [], ◌∷◌}
use neddit.Oauth.{Manager, Event, Reply, Phase, running, ended, panicked, step, enabled}

-- The event is enabled, and the loop goes on after it with this reply.
pub record Step (latest : ℕ) (m : Manager) (e : Event) (r : Reply) (m' : Manager) : Type 0 where
  pub can : enabled e m ≡ true
  pub does : step latest e m ≡ running m' r

-- A run, with the events and their replies, the first one in front.
pub data Trace (latest : ℕ) : Manager → List (Event × Reply) → Manager → Type 0 where
  halt : {m : Manager} → Trace latest m [] m
  next :
      {m m' m'' : Manager} {e : Event} {r : Reply} {es : List (Event × Reply)}
      → Step latest m e r m'
      → Trace latest m' es m''
      → Trace latest m ((e, r) ∷ es) m''

-- A predicate on what a round leaves, if the loop goes on.
abbrev pub Goes : (Manager → Reply → Type 0) → Phase → Type 0
Goes P (running m r) = P m r
Goes P (ended r) = Unit
Goes P panicked = Unit
