-- ===== src/Feed/Definition/Stable.antt =====
-- The definition of a saved feed, of crates/api/src/feed/shortlinks.rs, is its own definition.
use neddit.Prelude.{
  ℕ, ◌≡◌, refl, sym, List, Bool, false, not, ◌&&◌, ◌||◌, ltb, leb, Option, none, some, arith, Str,
  codes, str_eq, len, len_utf8, is_whitespace, Bool-cases, inl, inr,
}
use neddit.Crates.{Crates}
use neddit.Search.Syntax.{Mode, Expr, Span, span, ok, ◌>>=◌, >>=-eq-ok, if_err}
use neddit.Search.Record.{trim}
use neddit.Search.Record.Trim.{trim_idem}
use neddit.Search.Parser.{parse}
use neddit.Search.Request.{ListingTime, get_or}
use neddit.Feed.Sources.{Source, is_empty, plan}
use neddit.Feed.Ranking
use neddit.Feed.Ranking.{Floats}
use neddit.Feed.Ranking.Grammar.{parse_program}
use neddit.Feed.Definition.{
  Request, Definition, expand_rank_preset, rank_of, CandidatePool, new_pool, top_pool, pool_text,
  pool_named, pool_timed, pool_of, time_of, definition, request,
}

-- A rank that is kept as it is.
record IsFixed (y : Str) : Type 0 where
  rank : rank_of (some y) ≡ y
  expanded : expand_rank_preset y ≡ y
  short : ltb 512 (len y) ≡ false

expand-IsFixed :
    (x : Str)
    → trim x ≡ x
    → is_empty x ≡ false
    → ltb 512 (len x) ≡ false
    → IsFixed (expand_rank_preset x)
unfolding expand_rank_preset rank_of trim str_eq len len_utf8 is_whitespace
expand-IsFixed x t e s = elim (Bool-cases (str_eq x (codes "new"))) [
  | inl a ↦ rw a (record { rank = refl; expanded = refl; short = refl })
  | inr a ↦ elim (Bool-cases (str_eq x (codes "top"))) [
    | inl b ↦ rw (a, b) (record { rank = refl; expanded = refl; short = refl })
    | inr b ↦ elim (Bool-cases (str_eq x (codes "hot"))) [
      | inl c ↦ rw (a, b, c) (record { rank = refl; expanded = refl; short = refl })
      | inr c ↦ elim (Bool-cases (str_eq x (codes "discussion"))) [
        | inl d ↦ rw (a, b, c, d) (record { rank = refl; expanded = refl; short = refl })
        | inr d ↦ elim (Bool-cases (str_eq x (codes "divisive"))) [
          | inl g ↦ rw (a, b, c, d, g) (record { rank = refl; expanded = refl; short = refl })
          | inr g ↦
              rw (a, b, c, d, g)
                (record { rank = rw (t, e) refl; expanded = rw (a, b, c, d, g) refl; short = s })
        ]
      ]
    ]
  ]
]

rank_trimmed : (o : Option Str) → (trim (rank_of o) ≡ rank_of o) × (is_empty (rank_of o) ≡ false)
unfolding rank_of trim is_whitespace
rank_trimmed none = (refl, refl)
rank_trimmed (some r) = elim (Bool-cases (is_empty (trim r))) [
  | inl e ↦ rw e (refl, refl)
  | inr e ↦ rw e (trim_idem r, e)
]

pool_again :
    (p : CandidatePool) (t : Option ListingTime) (sp : Span)
    → (pool_named (pool_text p) sp >>= pool_timed (time_of p t) sp) ≡ ok p
unfolding str_eq
pool_again new_pool t sp = refl
pool_again top_pool t sp = refl

time_again : (p : CandidatePool) (t : Option ListingTime) → time_of p (time_of p t) ≡ time_of p t
time_again new_pool t = refl
time_again top_pool t = refl

module _ {F : Type 0} (f : Floats F) (lib : Crates) where
  again :
      (q y : Str) (t : Option ListingTime) (limit : ℕ) (nsfw : Bool) (pool : CandidatePool)
      (e : Expr) (sources : List Source) (ranking : Ranking.Expr F × ℕ)
      → trim q ≡ q
      → IsFixed y
      → ltb 4096 (len q) ≡ false
      → not (leb 1 limit && leb limit 100) ≡ false
      → parse lib q Mode.posts ≡ ok e
      → plan e ≡ ok sources
      → parse_program f lib y ≡ ok ranking
      → let d : Definition = record {
        version = 1;
        q = q;
        pool = pool_text pool;
        t = time_of pool t;
        rank = y;
        limit = limit;
        include_nsfw = nsfw;
      } in
        definition f lib (request d) ≡ ok d
  unfolding definition pool_of
  again q y t limit nsfw pool e sources ranking tq fixed short b pe ps pr =
      rw
        (
          fixed.rank,
          short,
          fixed.short,
          b,
          pe,
          pool_again pool t (span e),
          ps,
          fixed.expanded,
          pr,
          tq,
          time_again pool t,
        )
        refl

  -- For a request whose query has no white space at its ends: if it has a definition, then the
  -- request that is made of the definition has the same definition. So a saved feed that is loaded
  -- and saved again has the same fingerprint.
  pub definition_again :
      (r : Request) (d : Definition)
      → trim r.q ≡ r.q
      → definition f lib r ≡ ok d
      → definition f lib (request d) ≡ ok d
  unfolding definition pool_of
  definition_again r d t h =
      let rank = rank_of r.rank in
      let limit = get_or r.limit 25 in
      let (a, h1) = if_err (ltb 4096 (len r.q) || ltb 512 (len rank)) _ _ h in
      let (b, h2) = if_err (not (leb 1 limit && leb limit 100)) _ _ h1 in
      let (e, pe, h3) = >>=-eq-ok (parse lib r.q Mode.posts) _ h2 in
      let (pool, pp, h4) = >>=-eq-ok (pool_of r (span e)) _ h3 in
      let (sources, ps, h5) = >>=-eq-ok (plan e) _ h4 in
      let (ranking, pr, h6) = >>=-eq-ok (parse_program f lib (expand_rank_preset rank)) _ h5 in
      let (short_q, short) = no_or (ltb 4096 (len r.q)) (ltb 512 (len rank)) a in
      let (trimmed, full) = rank_trimmed r.rank in
      let fixed = expand-IsFixed rank trimmed full short in
      let is = made r d pool t (ok_inj h6) in
      rw is (
        again r.q (expand_rank_preset rank) r.t limit r.include_nsfw pool e sources ranking t fixed
          short_q b pe ps pr)
    where
      ok_inj : {x y : Definition} → ok x ≡ ok y → x ≡ y
      ok_inj e = cc

      made :
          (r : Request) (d : Definition) (pool : CandidatePool)
          → trim r.q ≡ r.q
          → record {
            version = 1;
            q = trim r.q;
            pool = pool_text pool;
            t = time_of pool r.t;
            rank = expand_rank_preset (rank_of r.rank);
            limit = get_or r.limit 25;
            include_nsfw = r.include_nsfw;
          }
            ≡ d
          → d ≡ record {
            version = 1;
            q = r.q;
            pool = pool_text pool;
            t = time_of pool r.t;
            rank = expand_rank_preset (rank_of r.rank);
            limit = get_or r.limit 25;
            include_nsfw = r.include_nsfw;
          }
      made r d pool t e = rw t at (sym e)

      no_or : (x y : Bool) → (x || y) ≡ false → (x ≡ false) × (y ≡ false)
      no_or x y e = ground arith
