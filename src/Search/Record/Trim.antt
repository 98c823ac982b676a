-- ===== src/Search/Record/Trim.antt =====
-- `str::trim`, on which crates/api/src/search/mod.rs and crates/api/src/feed/mod.rs rest.
use neddit.Prelude.{◌≡◌, refl, ◌⊎◌, inl, inr, false, ℕ, [], ◌∷◌, Str, is_whitespace, Bool-cases}
use neddit.Search.Record.{trim_start, trim_end, trim}

-- A text is empty, or it has a first character.
list_cases : (s : Str) → (s ≡ []) ⊎ ((c : ℕ) × (t : Str) × (s ≡ c ∷ t))
list_cases [] = inl refl
list_cases (c ∷ t) = inr (c, t, refl)

trim_end_keeps : (c : ℕ) (s : Str) → is_whitespace c ≡ false → trim_end (c ∷ s) ≡ c ∷ trim_end s
unfolding trim_end
trim_end_keeps c s b = elim (list_cases (trim_end s)) [
  | inl e ↦ rw (e, b) refl
  | inr (d, t, e) ↦ rw e refl
]

trim_end_idem : (s : Str) → trim_end (trim_end s) ≡ trim_end s
unfolding trim_end
trim_end_idem [] = refl
trim_end_idem (c ∷ s) = elim (list_cases (trim_end s)) [
  | inl e ↦ elim (Bool-cases (is_whitespace c)) [
    | inl w ↦ rw (e, w) refl
    | inr b ↦ rw (e, b) (rw b refl)
  ]
  | inr (d, t, e) ↦
      let ih : trim_end (d ∷ t) ≡ d ∷ t = rw e at (trim_end_idem s) in rw e (rw ih refl)
]

trim_start_idle : (c : ℕ) (s : Str) → is_whitespace c ≡ false → trim_start (c ∷ s) ≡ c ∷ s
unfolding trim_start
trim_start_idle c s b = rw b refl

trim_start_cases :
    (s : Str)
    → (trim_start s ≡ [])
      ⊎ ((c : ℕ) × (t : Str) × (trim_start s ≡ c ∷ t) × (is_whitespace c ≡ false))
unfolding trim_start
trim_start_cases [] = inl refl
trim_start_cases (c ∷ s) = elim (Bool-cases (is_whitespace c)) [
  | inl w ↦ rw w (trim_start_cases s)
  | inr b ↦ inr (c, s, rw b refl, b)
]

pub trim_idem : (s : Str) → trim (trim s) ≡ trim s
unfolding trim
trim_idem s = elim (trim_start_cases s) [
  | inl e ↦ rw e refl
  | inr (c, t, e, b) ↦
      rw
        (
          e,
          trim_end_keeps c t b,
          trim_start_idle c (trim_end t) b,
          trim_end_keeps c (trim_end t) b,
          trim_end_idem t,
        )
        refl
]
