-- ===== src/Feed/Collect/Visited.antt =====
-- The invariant of the candidates of a custom feed, over the posts of one listing: `collect` of
-- crates/api/src/feed/mod.rs.
use neddit.Prelude.{
  ℕ, suc, ◌+◌, ◌≤◌, ◌<◌, ◌≡◌, refl, sym, ap, subst, true, false, not, ◌&&◌, ◌||◌, ltb, List, [],
  ◌∷◌, ◌++◌, length, length-append, Option, arith, Str, str_eq, str_eq→eq, str_eq_refl, contains,
  All, All-append, Bool-cases, inl, inr,
}
use neddit.Search.Truth.{Truth}
use neddit.Search.Record.{Post}
use neddit.Feed.Collect.{
  Candidate, Collection, Flow, go, full, posts, names_of, names, improve, bytes_of, cut, keep,
  judged, Job, verdict, visit, continue, scan, max_candidates, max_match_bytes,
}

abbrev pub Distinct : List Post → Type 0
Distinct [] = Unit
Distinct (p ∷ ps) = (contains (names_of ps) p.name ≡ false) × Distinct ps

-- The post matches the expression, and it may be shown.
abbrev pub Wanted : Job → Post → Type 0
Wanted j p = (verdict j p ≡ Truth.true) × ((j.include_nsfw || not p.over_18) ≡ true)

abbrev pub total : (Post → Option ℕ) → List Post → ℕ
total size [] = 0
total size (p ∷ ps) = bytes_of (size p) + total size ps

pub record IsCollected (j : Job) (c : Collection) : Type 0 where
  pub inspected : c.inspected ≤ max_candidates
  pub found : c.unknown + length (posts c.candidates) ≤ c.inspected
  pub distinct : Distinct (posts c.candidates)
  pub wanted : All (Wanted j) (posts c.candidates)
  pub bytes : c.matched_bytes ≡ total j.size (posts c.candidates)
  pub small : c.matched_bytes ≤ max_match_bytes
  pub flags : c.bounded ≡ not c.all_sources_exhausted

posts-improve :
    (name source : Str) (rank : ℕ) (cs : List Candidate)
    → posts (improve name source rank cs) ≡ posts cs
posts-improve name source rank [] = refl
posts-improve name source rank (c ∷ cs) = ground (arith, posts-improve name source rank cs)

posts-append :
    (cs : List Candidate) (c : Candidate) → posts (cs ++ (c ∷ [])) ≡ posts cs ++ (c.post ∷ [])
posts-append [] c = refl
posts-append (d ∷ cs) c = ap (λ t. d.post ∷ t) (posts-append cs c)

total-append :
    (size : Post → Option ℕ) (ps : List Post) (p : Post)
    → total size (ps ++ (p ∷ [])) ≡ total size ps + bytes_of (size p)
total-append size [] p = omega arith
total-append size (q ∷ ps) p = omega (arith, total-append size ps p)

str_eq_flip : (s t : Str) → str_eq s t ≡ false → str_eq t s ≡ false
str_eq_flip s t h = elim (Bool-cases (str_eq t s)) [
  | inr e ↦ e
  | inl e ↦ let same = str_eq→eq t s e in let whole = str_eq_refl s in absurd (cc)
]

contains-append :
    (ps : List Post) (p : Post) (k : Str)
    → contains (names_of ps) k ≡ false
    → str_eq p.name k ≡ false
    → contains (names_of (ps ++ (p ∷ []))) k ≡ false
contains-append [] p k h e = ground arith
contains-append (q ∷ ps) p k h e = ground (arith, contains-append ps p k)

Distinct-append :
    (ps : List Post) (p : Post)
    → Distinct ps
    → contains (names_of ps) p.name ≡ false
    → Distinct (ps ++ (p ∷ []))
Distinct-append [] p d h = (refl, tt)
Distinct-append (q ∷ ps) p d h = (
  contains-append ps p q.name d.0 (str_eq_flip q.name p.name (ground arith)),
  Distinct-append ps p d.1 (ground arith),
)

-- One more post is inspected.
abbrev counted : Collection → Collection
counted c = record c { inspected = c.inspected + 1 }

-- What a loop leaves when it goes on, with the number of the inspected posts, and when it is left.
abbrev pub Held : Job → ℕ → Flow → Type 0
Held j n (go c) = IsCollected j c × (c.inspected ≡ n)
Held j n (full c) = IsCollected j c

module _ (j : Job) (source : Str) where
  counted-IsCollected :
      (c : Collection) → IsCollected j c → c.inspected < max_candidates → IsCollected j (counted c)
  counted-IsCollected c h lt = record {
    inspected = omega arith;
    found = omega (arith, h.found);
    distinct = h.distinct;
    wanted = h.wanted;
    bytes = h.bytes;
    small = h.small;
    flags = h.flags;
  }

  improved-IsCollected :
      (rank : ℕ) (name : Str) (c : Collection)
      → IsCollected j c
      → IsCollected j (record c { candidates = improve name source rank c.candidates })
  improved-IsCollected rank name c h =
      let same = sym (posts-improve name source rank c.candidates) in
      record {
        inspected = h.inspected;
        found = subst (λ ps. c.unknown + length ps ≤ c.inspected) same h.found;
        distinct = subst Distinct same h.distinct;
        wanted = subst (All (Wanted j)) same h.wanted;
        bytes = subst (λ ps. c.matched_bytes ≡ total j.size ps) same h.bytes;
        small = h.small;
        flags = h.flags;
      }

  added-IsCollected :
      (rank : ℕ) (post : Post) (c : Collection)
      → IsCollected j c
      → c.unknown + length (posts c.candidates) < c.inspected
      → Wanted j post
      → contains (names c.candidates) post.name ≡ false
      → c.matched_bytes + bytes_of (j.size post) ≤ max_match_bytes
      → IsCollected j (record c {
        matched_bytes = c.matched_bytes + bytes_of (j.size post);
        candidates =
            c.candidates ++ ((record { post = post; source = source; source_rank = rank }) ∷ []);
      })
  added-IsCollected rank post c h lt w new le =
      let k : Candidate = record { post = post; source = source; source_rank = rank } in
      let ps = posts c.candidates in
      let same = sym (posts-append c.candidates k) in
      record {
        inspected = h.inspected;
        found =
            subst (λ qs. c.unknown + length qs ≤ c.inspected) same
              (omega (arith, length-append ps (post ∷ [])));
        distinct = subst Distinct same (Distinct-append ps post h.distinct new);
        wanted =
            subst (All (Wanted j)) same (All-append (Wanted j) ps (post ∷ []) h.wanted (w, tt));
        bytes =
            subst (λ qs. c.matched_bytes + bytes_of (j.size post) ≡ total j.size qs) same
              (omega (arith, h.bytes, total-append j.size ps post));
        small = le;
        flags = h.flags;
      }

  pub cut-IsCollected : (c : Collection) → IsCollected j c → IsCollected j (cut c)
  cut-IsCollected c h = record {
    inspected = h.inspected;
    found = h.found;
    distinct = h.distinct;
    wanted = h.wanted;
    bytes = h.bytes;
    small = h.small;
    flags = refl;
  }

  keep-Held :
      (rank : ℕ) (post : Post) (c : Collection)
      → IsCollected j c
      → c.unknown + length (posts c.candidates) < c.inspected
      → Wanted j post
      → Held j c.inspected (keep j.size source rank post c)
  unfolding keep
  keep-Held rank post c h lt w =
      let bytes = bytes_of (j.size post) in
      elim (Bool-cases (contains (names c.candidates) post.name)) [
        | inl old ↦ rw old (improved-IsCollected rank post.name c h, refl)
        | inr new ↦ elim (Bool-cases (ltb max_match_bytes (c.matched_bytes + bytes))) [
          | inl over ↦ rw (new, over) (cut-IsCollected c h)
          | inr fits ↦
              rw (new, fits) (added-IsCollected rank post c h lt w new (ground arith), refl)
        ]
      ]

  judged-Held :
      (rank : ℕ) (post : Post) (c : Collection) (t : Truth)
      → IsCollected j c
      → c.unknown + length (posts c.candidates) < c.inspected
      → verdict j post ≡ t
      → (j.include_nsfw || not post.over_18) ≡ true
      → Held j c.inspected (judged t (keep j.size source rank post c) c)
  judged-Held rank post c Truth.true h lt e allowed = keep-Held rank post c h lt (e, allowed)
  judged-Held rank post c Truth.false h lt e allowed = (h, refl)
  judged-Held rank post c Truth.unknown h lt e allowed = (
    record {
      inspected = h.inspected;
      found = omega arith;
      distinct = h.distinct;
      wanted = h.wanted;
      bytes = h.bytes;
      small = h.small;
      flags = h.flags;
    },
    refl,
  )

  visit-Held :
      (rank : ℕ) (post : Post) (c : Collection)
      → IsCollected j c
      → c.inspected < max_candidates
      → Held j (c.inspected + 1) (visit j source rank post c)
  unfolding visit
  visit-Held rank post c h lt =
      let h' = counted-IsCollected c h lt in
      elim (Bool-cases (not j.include_nsfw && post.over_18)) [
        | inl hidden ↦ rw hidden (h', refl)
        | inr shown ↦ rw shown (
            judged-Held rank post (counted c) (verdict j post) h' (omega (arith, h.found)) refl
              (ground arith))
      ]

  continue-Held :
      (n m : ℕ) (f : Flow) (k : Collection → Flow)
      → Held j n f
      → ((c : Collection) → IsCollected j c → c.inspected ≡ n → Held j m (k c))
      → Held j m (continue f k)
  continue-Held n m (go c) k h next = next c h.0 h.1
  continue-Held n m (full c) k h next = h

  pub scan-Held :
      (ps : List Post) (rank : ℕ) (c : Collection)
      → IsCollected j c
      → c.inspected + length ps ≤ max_candidates
      → Held j (c.inspected + length ps) (scan j source rank ps c)
  unfolding scan
  scan-Held [] rank c h le = (h, omega arith)
  scan-Held (p ∷ ps) rank c h le =
      continue-Held (c.inspected + 1) (c.inspected + suc (length ps))
        (visit j source (suc rank) p c) (λ c'. scan j source (suc rank) ps c')
        (visit-Held (suc rank) p c h (omega arith))
        (λ c' h' e.
          let left : c'.inspected + length ps ≤ max_candidates = omega arith in
          let same : c'.inspected + length ps ≡ c.inspected + suc (length ps) = omega arith in
          subst (λ n. Held j n (scan j source (suc rank) ps c')) same
            (scan-Held ps (suc rank) c' h' left))
