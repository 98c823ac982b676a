-- ===== src/Storage/Shortlinks/Save.antt =====
-- `Shortlinks::save_with` of crates/api/src/storage.rs: its invariant, its limits, and a second
-- save of one definition.
use neddit.Prelude.{
  ℕ, zero, suc, ◌+◌, ◌≤◌, ◌<◌, ◌≡◌, refl, sym, ◌∙◌, subst, true, false, ◌==◌, leb, List, [], ◌∷◌,
  none, some, arith, Str, str_eq, str_eq→eq, str_eq_refl, contains, length, Bool-cases,
  Option-cases, inl, inr,
}
use neddit.Storage.Rows.{unavailable, capacity, rate_limited, Result, ok, err}
use neddit.Storage.Shortlinks.{
  Link, ShortlinkConfig, ids, fingerprints, id_of, definition_of, recent, attempts, create,
  save_with,
}

-- No two rows have one id or one fingerprint, and each fingerprint is its definition's.
abbrev pub IsTable : (Str → Str) → List Link → Type 0
IsTable digest [] = Unit
IsTable digest (r ∷ rs) =
    (contains (ids rs) r.id ≡ false)
    × (contains (fingerprints rs) r.fingerprint ≡ false)
    × (r.fingerprint ≡ digest r.definition)
    × IsTable digest rs

absent_of_none :
    (print : Str) (rs : List Link)
    → id_of print rs ≡ none
    → contains (fingerprints rs) print ≡ false
unfolding id_of
absent_of_none print [] h = refl
absent_of_none print (r ∷ rs) h = ground (arith, absent_of_none print rs)

definition_of_fresh :
    (r : Link) (rows : List Link) (j d : Str)
    → contains (ids rows) r.id ≡ false
    → contains (ids rows) j ≡ true
    → definition_of j rows ≡ some d
    → definition_of j (r ∷ rows) ≡ some d
unfolding definition_of
definition_of_fresh r rows j d free there found = elim (Bool-cases (str_eq r.id j)) [
  | inl e ↦ let same = str_eq→eq r.id j e in absurd (cc)
  | inr e ↦ ground arith
]

contains_of_definition_of :
    (rows : List Link) (j d : Str) → definition_of j rows ≡ some d → contains (ids rows) j ≡ true
unfolding definition_of
contains_of_definition_of [] j d h = cc
contains_of_definition_of (r ∷ rows) j d h = ground (arith, contains_of_definition_of rows j d)

is_same : (i j : ℕ) → (i == j) ≡ true → i ≡ j
is_same i j e = ground arith

module _ (digest : Str → Str) (definition : Str) where
  -- A row with a new id is put in front.
  pub record Added (clock : ℕ → ℕ) (rows : List Link) (id : Str) (rows' : List Link) : Type 0 where
    pub attempt : ℕ
    pub fresh : contains (ids rows) id ≡ false
    pub table :
        rows'
        ≡ record {
          id = id;
          fingerprint = digest definition;
          definition = definition;
          created = clock attempt;
        }
          ∷ rows

  -- What the attempts from `i` on give.
  abbrev Tried : (ℕ → Str) → (ℕ → ℕ) → List Link → ℕ → ℕ → Result (Str × List Link) → Type 0
  Tried generate clock rows n i (ok p) = Added clock rows p.0 p.1
  Tried generate clock rows n i (err e) =
      (e ≡ unavailable) × ((j : ℕ) → i ≤ j → j < i + n → contains (ids rows) (generate j) ≡ true)

  attempts-Tried :
      (generate : ℕ → Str) (clock : ℕ → ℕ) (rows : List Link)
      → contains (fingerprints rows) (digest definition) ≡ false
      → (n i : ℕ)
      → Tried generate clock rows n i
          (attempts n i generate clock (digest definition) definition rows)
  unfolding attempts
  attempts-Tried generate clock rows new zero i = (refl, λ j l m. absurd (omega (arith, l, m)))
  attempts-Tried generate clock rows new (suc n) i =
      let later = attempts n (suc i) generate clock (digest definition) definition rows in
      let ih = attempts-Tried generate clock rows new n (suc i) in
      elim (Bool-cases (contains (ids rows) (generate i))) [
        | inl taken ↦ rw taken (next later taken ih)
        | inr free ↦ rw (free, new) (record { attempt = i; fresh = free; table = refl })
      ]
    where
      next :
          (r : Result (Str × List Link))
          → contains (ids rows) (generate i) ≡ true
          → Tried generate clock rows n (suc i) r
          → Tried generate clock rows (suc n) i r
      next (ok p) taken h = h
      next (err e) taken h = (
        h.0,
        λ j l m. elim (Bool-cases (i == j)) [
          | inl e' ↦ rw (sym (is_same i j e')) taken
          | inr e' ↦ h.1 j (ground arith) (omega arith)
        ],
      )

  -- What a save that returns an id leaves behind, with `rows'` the table after it.
  pub record Saved (config : ShortlinkConfig) (now : ℕ) (rows : List Link) (id : Str)
      (rows' : List Link) : Type 0 where
    pub table : IsTable digest rows'
    pub count : length rows ≤ config.max_definitions → length rows' ≤ config.max_definitions
    pub rate :
        recent now rows ≤ config.creations_per_minute
        → recent now rows' ≤ config.creations_per_minute
    pub kept : (j d : Str) → definition_of j rows ≡ some d → definition_of j rows' ≡ some d
    pub found : (d : Str) × (definition_of id rows' ≡ some d) × (digest d ≡ digest definition)
    pub again :
        (config' : ShortlinkConfig) (generate' : ℕ → Str) (now' : ℕ) (clock' : ℕ → ℕ)
        → save_with digest config' generate' now' clock' definition rows' ≡ ok (id, rows')

  again_of_found :
      (id : Str) (rows' : List Link)
      → id_of (digest definition) rows' ≡ some id
      → (config' : ShortlinkConfig) (generate' : ℕ → Str) (now' : ℕ) (clock' : ℕ → ℕ)
      → save_with digest config' generate' now' clock' definition rows' ≡ ok (id, rows')
  unfolding save_with create
  again_of_found id rows' e config' generate' now' clock' = rw e refl

  contains_of_id_of :
      (rows : List Link) (id : Str)
      → id_of (digest definition) rows ≡ some id
      → contains (ids rows) id ≡ true
  unfolding id_of
  contains_of_id_of [] id h = cc
  contains_of_id_of (r ∷ rs) id h = elim (Bool-cases (str_eq r.fingerprint (digest definition))) [
    | inl e ↦ let same : r.id ≡ id = ground arith in rw same (ground (arith, str_eq_refl id))
    | inr e ↦ ground (arith, contains_of_id_of rs id)
  ]

  found_of_id_of :
      (rows : List Link) (id : Str)
      → IsTable digest rows
      → id_of (digest definition) rows ≡ some id
      → (d : Str) × (definition_of id rows ≡ some d) × (digest d ≡ digest definition)
  unfolding id_of definition_of
  found_of_id_of [] id t h = absurd (cc)
  found_of_id_of (r ∷ rs) id t h = elim (Bool-cases (str_eq r.fingerprint (digest definition))) [
    | inl e ↦
        let same : r.id ≡ id = ground arith in
        let whole = str_eq→eq r.fingerprint (digest definition) e in
        (r.definition, rw same (ground (arith, str_eq_refl id)), sym t.2 ∙ whole)
    | inr e ↦
        let below : id_of (digest definition) rs ≡ some id = ground arith in
        let there = contains_of_id_of rs id below in
        let (d, found, whole) = found_of_id_of rs id t.3 below in
        (d, definition_of_fresh r rs id d t.0 there found, whole)
  ]

  -- The outcomes: an id, or one of three errors, each with its reason.
  abbrev pub Outcome :
      ShortlinkConfig → (ℕ → Str) → ℕ → List Link → Result (Str × List Link) → Type 0
  Outcome config generate now rows (ok p) = Saved config now rows p.0 p.1
  Outcome config generate now rows (err capacity) = config.max_definitions ≤ length rows
  Outcome config generate now rows (err rate_limited) =
      config.creations_per_minute ≤ recent now rows
  Outcome config generate now rows (err unavailable) =
      (j : ℕ) → j < 8 → contains (ids rows) (generate j) ≡ true
  Outcome config generate now rows (err e) = ⊥

  Saved-before :
      (config : ShortlinkConfig) (now : ℕ) (rows : List Link) (id : Str)
      → IsTable digest rows
      → id_of (digest definition) rows ≡ some id
      → Saved config now rows id rows
  Saved-before config now rows id t e = record {
    table = t;
    count = λ h. h;
    rate = λ h. h;
    kept = λ j d h. h;
    found = found_of_id_of rows id t e;
    again = again_of_found id rows e;
  }

  Saved-now :
      (config : ShortlinkConfig) (now : ℕ) (clock : ℕ → ℕ) (rows : List Link) (id : Str)
      (rows' : List Link)
      → IsTable digest rows
      → contains (fingerprints rows) (digest definition) ≡ false
      → length rows < config.max_definitions
      → recent now rows < config.creations_per_minute
      → Added clock rows id rows'
      → Saved config now rows id rows'
  unfolding id_of definition_of
  Saved-now config now clock rows id rows' t new few slow a =
      let r : Link = record {
        id = id;
        fingerprint = digest definition;
        definition = definition;
        created = clock a.attempt;
      } in
      subst (Saved config now rows id) (sym a.table) (record {
        table = (a.fresh, new, refl, t);
        count = λ h. omega arith;
        rate = λ h. ground arith;
        kept = λ j d h.
            definition_of_fresh r rows j d a.fresh (contains_of_definition_of rows j d h) h;
        found = (definition, ground (arith, str_eq_refl id), refl);
        again = again_of_found id (r ∷ rows) (ground (arith, str_eq_refl (digest definition)));
      })

  Outcome-of_Tried :
      (config : ShortlinkConfig) (generate : ℕ → Str) (now : ℕ) (clock : ℕ → ℕ) (rows : List Link)
      (made : Result (Str × List Link))
      → IsTable digest rows
      → contains (fingerprints rows) (digest definition) ≡ false
      → Tried generate clock rows 8 0 made
      → Outcome config generate now rows (create config now none made rows)
  unfolding create
  Outcome-of_Tried config generate now clock rows made t new h =
      elim (Bool-cases (leb config.max_definitions (length rows))) [
        | inl full ↦ rw full (ground arith)
        | inr few ↦ elim (Bool-cases (leb config.creations_per_minute (recent now rows))) [
          | inl fast ↦ rw (few, fast) (ground arith)
          | inr slow ↦ rw (few, slow) (last made (ground arith) (ground arith) h)
        ]
      ]
    where
      last :
          (made : Result (Str × List Link))
          → length rows < config.max_definitions
          → recent now rows < config.creations_per_minute
          → Tried generate clock rows 8 0 made
          → Outcome config generate now rows made
      last (ok p) few slow h = Saved-now config now clock rows p.0 p.1 t new few slow h
      last (err e) few slow h =
          subst (λ e. Outcome config generate now rows (err e)) (sym h.0)
            (λ j lt. h.1 j (omega arith) (omega arith))

  -- For a table without two rows of one id or one fingerprint, in which each fingerprint is its
  -- definition's, saving a definition ends in one of four ways, and never in a failed constraint.
  -- It returns an id: then the table is so again, the limits on its size and on the rows of the
  -- last minute hold if they held, every id has the definition it had, the id has a definition of
  -- the same fingerprint, and saving the definition again returns the same id and changes nothing,
  -- whatever the limits, the generator and the clock are then. Or the table is at its capacity, or
  -- the rate is exceeded, or all eight generated ids are taken.
  pub save_with-Outcome :
      (config : ShortlinkConfig) (generate : ℕ → Str) (now : ℕ) (clock : ℕ → ℕ) (rows : List Link)
      → IsTable digest rows
      → Outcome config generate now rows
          (save_with digest config generate now clock definition rows)
  unfolding save_with create
  save_with-Outcome config generate now clock rows t =
      let print = digest definition in
      let made = attempts 8 0 generate clock print definition rows in
      elim (Option-cases (id_of print rows)) [
        | inr (id, e) ↦ rw e (Saved-before config now rows id t e)
        | inl e ↦
            let new = absent_of_none print rows e in
            rw e (
              Outcome-of_Tried config generate now clock rows made t new
                (attempts-Tried generate clock rows new 8 0))
      ]
