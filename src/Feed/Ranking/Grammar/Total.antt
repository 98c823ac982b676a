-- ===== src/Feed/Ranking/Grammar/Total.antt =====
-- The parser of crates/api/src/feed/ranking.rs ends on every source, and keeps its limit on nodes
-- and the number of arguments of each function.
use neddit.Prelude.{
  ℕ, zero, suc, ◌+◌, ◌*◌, ◌≤◌, ◌<◌, ◌≡◌, refl, ltb, [], ◌∷◌, length, arith, Str, len,
}
use neddit.Crates.{Crates}
use neddit.Search.Syntax.{Ensures, Ensures-bind, Ensures-if}
use neddit.Feed.Ranking.{Floats, Expr}
use neddit.Feed.Ranking.Reader.{skip}
use neddit.Feed.Ranking.Reader.Lengths.{length-skip}
use neddit.Feed.Ranking.Grammar.{
  Cursor, Call, Calls, skipped, max_nodes, body, run, ended, started, parse_program,
}
use neddit.Feed.Ranking.Grammar.Got.{size, IsCallable, Got, Got-le, held_by, IsReady, rank, Serves}
use neddit.Feed.Ranking.Grammar.Operators.{sums_body-Got, products_body-Got, unary_body-Got}
use neddit.Feed.Ranking.Grammar.Operands.{arguments_body-Got, primary_body-Got}

module _ {F : Type 0} where
  module _ (total : ℕ) where
    module _ (k : Calls F) (n : ℕ) (serve : Serves k n) where
      module _ (f : Floats F) (lib : Crates) where
        body-Got :
            (call : Call F) (p : Cursor) (m : ℕ)
            → length p.rest ≤ m
            → 8 * m + rank call < suc n
            → p.nodes ≤ max_nodes
            → IsReady call
            → Ensures (Got m p.nodes (held_by call)) (body total f lib k call p)
        unfolding body
        body-Got (Call.expression depth) p m l fu b r =
            Ensures-bind (Got m p.nodes 0) (Got m p.nodes 0) (k (Call.term (depth + 1)) p) _
              (serve (Call.term (depth + 1)) p m l (omega arith) b tt)
              (λ (left, q) g.
                Got-le m m q.nodes p.nodes (size left) 0 (k (Call.sums depth left) q) (omega arith)
                  (omega (arith, g.counted))
                  (serve (Call.sums depth left) q m g.shrinks (omega arith) g.limit g.callable))
        body-Got (Call.term depth) p m l fu b r =
            Ensures-bind (Got m p.nodes 0) (Got m p.nodes 0) (k (Call.unary (depth + 1)) p) _
              (serve (Call.unary (depth + 1)) p m l (omega arith) b tt)
              (λ (left, q) g.
                Got-le m m q.nodes p.nodes (size left) 0 (k (Call.products depth left) q)
                  (omega arith) (omega (arith, g.counted))
                  (serve (Call.products depth left) q m g.shrinks (omega arith) g.limit g.callable))
        body-Got (Call.sums depth left) p m l fu b r =
            let less : length (skip p.rest p.position).0 ≤ m =
              omega (arith, length-skip p.rest p.position) in
            sums_body-Got total k n serve depth left (skip p.rest p.position).0 (skipped p) m r less
              less fu b
        body-Got (Call.products depth left) p m l fu b r =
            let less : length (skip p.rest p.position).0 ≤ m =
              omega (arith, length-skip p.rest p.position) in
            products_body-Got total k n serve depth left (skip p.rest p.position).0 (skipped p) m r
              less less fu b
        body-Got (Call.unary depth) p m l fu b r =
            let less : length (skip p.rest p.position).0 ≤ m =
              omega (arith, length-skip p.rest p.position) in
            unary_body-Got total k n serve depth (skip p.rest p.position).0 (skipped p) m less less
              fu b
        body-Got (Call.primary depth) p m l fu b r =
            let less : length (skip p.rest p.position).0 ≤ m =
              omega (arith, length-skip p.rest p.position) in
            primary_body-Got total k n serve f lib depth (skip p.rest p.position).0 (skipped p) m
              less less fu b
        body-Got (Call.arguments start depth g es) p m l fu b r =
            let less : length (skip p.rest p.position).0 ≤ m =
              omega (arith, length-skip p.rest p.position) in
            arguments_body-Got total k n serve start depth g es (skip p.rest p.position).0
              (skipped p) m r less less fu b

    module _ (f : Floats F) (lib : Crates) where
      run-Got : (fuel : ℕ) → Serves (run total f lib fuel) fuel
      unfolding run
      run-Got zero call p m l fu b r = absurd (omega arith)
      run-Got (suc fuel) call p m l fu b r =
          body-Got (run total f lib fuel) fuel (run-Got fuel) f lib call p m l fu b r

      ended_own :
          (e : Expr F) (s : Str) (i : ℕ)
          → IsCallable e
          → size e ≤ max_nodes
          → Ensures (λ e'. IsCallable e' × (size e' ≤ max_nodes)) (ended total f lib e s i)
      unfolding ended
      ended_own e [] i c l = (c, l)
      ended_own e (x ∷ s) i c l = λ y. cc

      started_own :
          (p : Cursor) (s : Str)
          → p.nodes ≡ 0
          → Ensures (λ e. IsCallable e × (size e ≤ max_nodes)) (started total f lib p s)
      unfolding started
      started_own p [] z = λ x. cc
      started_own p (c ∷ s) z =
          Ensures-bind (Got (length p.rest) p.nodes 0) (λ e. IsCallable e × (size e ≤ max_nodes))
            (run total f lib (8 * length p.rest + 7) (Call.expression 0) p) _
            (run-Got (8 * length p.rest + 7) (Call.expression 0) p (length p.rest) (omega arith)
              (omega arith) (omega arith) tt)
            (λ (e, q) g.
              let q' = skipped q in
              ended_own e q'.rest q'.position g.callable (omega (arith, g.counted, g.limit)))

-- What is accepted as a program: at most 128 nodes, and the right number of arguments everywhere.
abbrev pub IsProgram : {F : Type 0} → ℕ → Expr F × ℕ → Type 0
IsProgram n r = IsCallable r.0 × (size r.0 ≤ max_nodes) × (r.1 ≡ n)

-- Every ranking expression is parsed or refused with an error of the program. One that is parsed
-- has at most 128 nodes, each function in it has as many arguments as its arity, and the length
-- that is kept is that of the source.
pub parse_program-IsProgram :
    {F : Type 0} (f : Floats F) (lib : Crates) (source : Str)
    → Ensures (IsProgram (len source)) (parse_program f lib source)
unfolding parse_program
parse_program-IsProgram {F} f lib source =
    let n = len source in
    let p = skipped (record { rest = source; position = 0; nodes = 0 }) in
    Ensures-if (IsProgram n) (ltb 512 n) _ _ (λ e x. cc)
      (λ e.
        Ensures-bind (λ e'. IsCallable e' × (size e' ≤ max_nodes)) (IsProgram n)
          (started n f lib p p.rest) _ (started_own n f lib p p.rest refl)
          (λ e' h. (h.0, h.1, refl)))
