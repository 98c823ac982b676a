-- ===== src/Storage/Shortlinks/Lookup.antt =====
-- `Shortlinks::get` of crates/api/src/storage.rs after `save_with`.
use neddit.Prelude.{ℕ, ◌≡◌, refl, true, false, List, none, some, Str}
use neddit.Storage.Rows.{ok}
use neddit.Storage.Shortlinks.{Link, ShortlinkConfig, save_with, is_id, get}
use neddit.Storage.Shortlinks.Save.{IsTable, Saved, save_with-Outcome}

module _ (digest : Str → Str) (config : ShortlinkConfig) (generate : ℕ → Str) (now : ℕ)
    (clock : ℕ → ℕ) where
  saved :
      (definition : Str) (rows : List Link) (id : Str) (rows' : List Link)
      → IsTable digest rows
      → save_with digest config generate now clock definition rows ≡ ok (id, rows')
      → Saved digest definition config now rows id rows'
  saved definition rows id rows' t e =
      rw e at (save_with-Outcome digest definition config generate now clock rows t)

  -- For a table as in the invariant, and an id that a save returned: if the id has 10 to 32 bytes
  -- and all are ASCII letters and digits, a lookup gives a definition of the same fingerprint. For
  -- any other id that a save returned, such as one with a dash or an underscore, a lookup gives
  -- nothing.
  pub get_saved :
      (definition : Str) (rows : List Link) (id : Str) (rows' : List Link)
      → IsTable digest rows
      → save_with digest config generate now clock definition rows ≡ ok (id, rows')
      → (is_id id ≡ true → (d : Str) × (get id rows' ≡ some d) × (digest d ≡ digest definition))
        × (is_id id ≡ false → get id rows' ≡ none)
  unfolding get
  get_saved definition rows id rows' t e =
      let s = saved definition rows id rows' t e in
      (λ good. (s.found.0, rw good s.found.1, s.found.2), λ bad. rw bad refl)
