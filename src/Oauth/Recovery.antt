-- ===== src/Oauth/Recovery.antt =====
-- The refreshes of crates/api/src/client/oauth/manager.rs: the task is never stuck without one.
use neddit.Prelude.{
  ℕ, ◌+◌, ◌-◌, ◌^◌, ◌≤◌, ◌<◌, ◌≡◌, refl, ◌⊎◌, true, false, ◌==◌, List, [], ◌∷◌, none, arith,
  Bool-cases, inl, inr,
}
use neddit.Oauth.{
  Credentials, Manager, State, Event, acquire, joined, deadline, refreshed, Reply, lease, silent,
  install, reset_elapsed, start_refresh, acquired, completed, step, enabled, refresh_deadline,
}
use neddit.Oauth.Trace.{Trace, halt, next}
use neddit.Oauth.Invariant.{IsSound}

module _ (latest : ℕ) (c : Credentials) (now : ℕ) where
  -- A refresh that succeeds, and the next acquisition.
  abbrev pub refresh_and_lease : ℕ → List (Event × Reply)
  refresh_and_lease id =
      (joined (refreshed c) now, silent)
      ∷ (acquire now now, lease (record { id = id; credentials = c }))
      ∷ []

  with_refresh :
      (m : Manager)
      → m.refreshes ≡ 1
      → m.state.next_generation + 1 < 2 ^ 64
      → now < c.expires_at
      → (m' : Manager) × Trace latest m (refresh_and_lease m.state.next_generation) m'
  unfolding step enabled completed install acquired reset_elapsed start_refresh
  with_refresh m one small lt =
      let s : State = record {
        active = record { id = m.state.next_generation; credentials = c };
        next_generation = m.state.next_generation + 1;
        remaining = 99;
        reset_at = none;
        next_refresh_at = refresh_deadline c.expires_at now;
      } in
      let m1 : Manager = record { state = s; refreshes = m.refreshes - 1; published = c } in
      let m2 : Manager = record m1 { state = record s { remaining = 98 } } in
      (
        m2,
        next {m' = m1} (record { can = ground arith; does = ground arith })
            (next {m' = m2} (record { can = ground arith; does = ground arith }) halt),
      )

  -- For a manager as in the invariant, at a time when the next refresh is due, and for credentials
  -- that expire later: if a refresh is in flight, or else after the timer has started one, a
  -- refresh that gives the credentials is followed by an acquisition that leases them. So no
  -- state, one with an exhausted limit, with rejected or with expired credentials included, is
  -- stuck.
  pub recovers :
      (m : Manager)
      → IsSound m
      → m.state.next_generation + 1 < 2 ^ 64
      → m.state.next_refresh_at ≤ now
      → now < c.expires_at
      → ((m.refreshes ≡ 1)
          × ((m' : Manager) × Trace latest m (refresh_and_lease m.state.next_generation) m'))
        ⊎ ((m.refreshes ≡ 0)
            × ((m' : Manager) × Trace latest m
                  ((deadline now, silent) ∷ refresh_and_lease m.state.next_generation)
                  m'))
  unfolding step enabled start_refresh
  recovers m h small due lt = elim (Bool-cases (m.refreshes == 0)) [
    | inr e ↦
        let one = in_flight m.refreshes h.one_refresh e in inl (one, with_refresh m one small lt)
    | inl e ↦
        let zero' = idle m.refreshes e in
        let m' = record m { refreshes = 1 } in
        let (k, t) = with_refresh m' refl small lt in
        inr (zero', (k, next {m' = m'} (record { can = ground arith; does = rw zero' refl }) t))
  ]
    where
      in_flight : (n : ℕ) → n ≤ 1 → (n == 0) ≡ false → n ≡ 1
      in_flight n le e = ground arith

      idle : (n : ℕ) → (n == 0) ≡ true → n ≡ 0
      idle n e = ground arith
