-- ===== src/Media/Domains/Matching.antt =====
-- What a domain pattern matches: crates/api/src/media.rs.
use neddit.Prelude.{
  ◌≡◌, ◌≢◌, ◌↔◌, ◌⊎◌, refl, ap, ◌∙◌, true, false, [], ◌∷◌, ◌++◌, length, length-append, some, Str,
  str_eq, str_eq→eq, str_eq_refl, eq→str_eq, arith, Bool-cases, Option-cases, inl, inr,
}
use neddit.Media.Domains.{HostPattern, strip_suffix, is_subdomain, pattern_matches}

strip_suffix-some : (suffix s p : Str) → strip_suffix suffix s ≡ some p → s ≡ p ++ suffix
unfolding strip_suffix
strip_suffix-some suffix [] p h = ground (arith, str_eq→eq suffix [])
strip_suffix-some suffix (c ∷ s) p h = elim (Bool-cases (str_eq suffix (c ∷ s))) [
  | inl whole ↦ ground (arith, str_eq→eq suffix (c ∷ s))
  | inr other ↦ elim (Option-cases (strip_suffix suffix s)) [
    | inl missing ↦ absurd (ground arith)
    | inr (q, found) ↦ ground (arith, strip_suffix-some suffix s q found)
  ]
]

strip_suffix-append : (suffix p : Str) → strip_suffix suffix (p ++ suffix) ≡ some p
unfolding strip_suffix
strip_suffix-append [] [] = unfold str_eq in refl
strip_suffix-append (d ∷ suffix) [] = rw (str_eq_refl (d ∷ suffix)) refl
strip_suffix-append suffix (c ∷ p) = elim (Bool-cases (str_eq suffix (c ∷ (p ++ suffix)))) [
  | inl whole ↦ absurd (
      omega (arith, ap length (str_eq→eq suffix (c ∷ (p ++ suffix)) whole), length-append p suffix))
  | inr other ↦ rw (other, strip_suffix-append suffix p) refl
]

-- A prefix that makes a subdomain is a text that is not empty, and a dot.
is_subdomain-dot : (p : Str) → is_subdomain p ≡ true → (q : Str) × (q ≢ []) × (p ≡ q ++ (b'.' ∷ []))
unfolding is_subdomain
is_subdomain-dot [] h = absurd (cc)
is_subdomain-dot (c ∷ []) h = absurd (cc)
is_subdomain-dot (c ∷ d ∷ []) h = (c ∷ [], λ e. cc, ground arith)
is_subdomain-dot (c ∷ d ∷ e ∷ s) h =
    let (q, ne, same) = is_subdomain-dot (d ∷ e ∷ s) h in (c ∷ q, λ e. cc, ap (λ t. c ∷ t) same)

dot-is_subdomain : (q : Str) → q ≢ [] → is_subdomain (q ++ (b'.' ∷ [])) ≡ true
unfolding is_subdomain
dot-is_subdomain [] ne = absurd (ne refl)
dot-is_subdomain (c ∷ []) ne = refl
dot-is_subdomain (c ∷ d ∷ []) ne = refl
dot-is_subdomain (c ∷ d ∷ e ∷ q) ne = dot-is_subdomain (d ∷ e ∷ q) (λ e. cc)

append_dot : (q domain : Str) → (q ++ (b'.' ∷ [])) ++ domain ≡ q ++ (b'.' ∷ domain)
append_dot [] domain = refl
append_dot (c ∷ q) domain = ap (λ t. c ∷ t) (append_dot q domain)

-- The host is the domain, or for a pattern of subdomains, a name that is not empty, a dot, and the
-- domain.
abbrev pub IsMatch : HostPattern → Str → Type 0
IsMatch p host =
    ((p.subdomains_only ≡ false) × (host ≡ p.domain))
    ⊎ ((p.subdomains_only ≡ true) × ((q : Str) × (q ≢ []) × (host ≡ q ++ (b'.' ∷ p.domain))))

matches-IsMatch : (p : HostPattern) (host : Str) → pattern_matches p host ≡ true → IsMatch p host
unfolding pattern_matches
matches-IsMatch p host h = elim (Bool-cases p.subdomains_only) [
  | inr exact ↦ inl (exact, ground (arith, str_eq→eq host p.domain))
  | inl below ↦ elim (Option-cases (strip_suffix p.domain host)) [
    | inl missing ↦ absurd (ground arith)
    | inr (prefix, found) ↦
        let sub : is_subdomain prefix ≡ true = ground arith in
        let (q, ne, same) = is_subdomain-dot prefix sub in
        inr (
          below,
          (
            q,
            ne,
            strip_suffix-some p.domain host prefix found
                ∙ (ap (λ t. t ++ p.domain) same ∙ append_dot q p.domain),
          ),
        )
  ]
]

IsMatch-matches : (p : HostPattern) (host : Str) → IsMatch p host → pattern_matches p host ≡ true
unfolding pattern_matches
IsMatch-matches p host (inl (exact, same)) = rw exact (eq→str_eq host p.domain same)
IsMatch-matches p host (inr (below, (q, ne, same))) =
    let found : strip_suffix p.domain host ≡ some (q ++ (b'.' ∷ [])) =
      rw (same, ← append_dot q p.domain) (strip_suffix-append p.domain (q ++ (b'.' ∷ []))) in
    rw (below, found) (dot-is_subdomain q ne)

-- A pattern matches a host exactly if the host is its domain, or, for a pattern of subdomains, a
-- name that is not empty, a dot, and the domain.
pub pattern_matches_iff :
    (p : HostPattern) (host : Str) → (pattern_matches p host ≡ true) ↔ IsMatch p host
pattern_matches_iff p host = (matches-IsMatch p host, IsMatch-matches p host)
