-- ===== src/Feed/Ranking/Grammar/Operators.antt =====
-- `expression`, `term` and `unary` of the parser of crates/api/src/feed/ranking.rs.
use neddit.Prelude.{ℕ, suc, ◌+◌, ◌*◌, ◌≤◌, ◌<◌, ◌==◌, [], ◌∷◌, length, arith, Str}
use neddit.Search.Syntax.{Ensures, Ensures-bind, Ensures-if}
use neddit.Feed.Ranking.{Binary, Expr}
use neddit.Feed.Ranking.Grammar.{
  Cursor, Call, Calls, moved, max_nodes, node, summed, sums_body, multiplied, products_body,
  negated, unary_body,
}
use neddit.Feed.Ranking.Grammar.Got.{size, IsCallable, Got, Got-le, Serves, node-Got}

module _ {F : Type 0} where
  module _ (total : ℕ) where
    module _ (k : Calls F) (n : ℕ) (serve : Serves k n) where
      summed-Got :
          (depth : ℕ) (op : Binary) (left : Expr F) (p : Cursor) (m : ℕ)
          → IsCallable left
          → length p.rest ≤ m
          → 8 * m + 5 < n
          → p.nodes ≤ max_nodes
          → Ensures (Got m p.nodes (size left)) (summed total k depth op left p)
      unfolding summed size IsCallable
      summed-Got depth op left p m c l f b =
          Ensures-bind (Got m p.nodes 0) (Got m p.nodes (size left)) (k (Call.term (depth + 1)) p) _
            (serve (Call.term (depth + 1)) p m l f b tt)
            (λ (right, p') g.
              Ensures-bind (Got m p.nodes (size left)) (Got m p.nodes (size left))
                (node total (Expr.binary op left right) depth p') _
                (node-Got total (Expr.binary op left right) depth p' m p.nodes (size left)
                  (c, g.callable) g.shrinks (omega (arith, g.counted)))
                (λ (e, p'') h.
                  Got-le m m p''.nodes p.nodes (size e) (size left) (k (Call.sums depth e) p'')
                    (omega arith) (omega (arith, h.counted))
                    (serve (Call.sums depth e) p'' m h.shrinks (omega arith) h.limit h.callable)))

      multiplied-Got :
          (depth : ℕ) (op : Binary) (left : Expr F) (p : Cursor) (m : ℕ)
          → IsCallable left
          → length p.rest ≤ m
          → 8 * m + 4 < n
          → p.nodes ≤ max_nodes
          → Ensures (Got m p.nodes (size left)) (multiplied total k depth op left p)
      unfolding multiplied size IsCallable
      multiplied-Got depth op left p m c l f b =
          Ensures-bind (Got m p.nodes 0) (Got m p.nodes (size left)) (k (Call.unary (depth + 1)) p)
            _ (serve (Call.unary (depth + 1)) p m l f b tt)
            (λ (right, p') g.
              Ensures-bind (Got m p.nodes (size left)) (Got m p.nodes (size left))
                (node total (Expr.binary op left right) depth p') _
                (node-Got total (Expr.binary op left right) depth p' m p.nodes (size left)
                  (c, g.callable) g.shrinks (omega (arith, g.counted)))
                (λ (e, p'') h.
                  Got-le m m p''.nodes p.nodes (size e) (size left) (k (Call.products depth e) p'')
                    (omega arith) (omega (arith, h.counted))
                    (serve (Call.products depth e) p'' m h.shrinks (omega arith) h.limit
                      h.callable)))

      pub sums_body-Got :
          (depth : ℕ) (left : Expr F) (s : Str) (p : Cursor) (m : ℕ)
          → IsCallable left
          → length s ≤ m
          → length p.rest ≤ m
          → 8 * m + 1 < suc n
          → p.nodes ≤ max_nodes
          → Ensures (Got m p.nodes (size left)) (sums_body total k depth left s p)
      unfolding sums_body
      sums_body-Got depth left [] p m c l l' f b = record {
        shrinks = l';
        callable = c;
        limit = b;
        counted = omega arith;
      }
      sums_body-Got depth left (x ∷ s) p m c l l' f b =
          let q = moved p s (p.position + 1) in
          let m' = length s in
          let at = λ (op : Binary).
            Got-le m' m p.nodes p.nodes (size left) (size left) (summed total k depth op left q)
              (omega arith) (omega arith)
              (summed-Got depth op left q m' c (omega arith) (omega arith) b) in
          Ensures-if (Got m p.nodes (size left)) (x == b'+') _ _ (λ e. at Binary.add)
            (λ e.
              Ensures-if (Got m p.nodes (size left)) (x == b'-') _ _ (λ e'. at Binary.subtract)
                (λ e'. record { shrinks = l'; callable = c; limit = b; counted = omega arith }))

      pub products_body-Got :
          (depth : ℕ) (left : Expr F) (s : Str) (p : Cursor) (m : ℕ)
          → IsCallable left
          → length s ≤ m
          → length p.rest ≤ m
          → 8 * m + 1 < suc n
          → p.nodes ≤ max_nodes
          → Ensures (Got m p.nodes (size left)) (products_body total k depth left s p)
      unfolding products_body
      products_body-Got depth left [] p m c l l' f b = record {
        shrinks = l';
        callable = c;
        limit = b;
        counted = omega arith;
      }
      products_body-Got depth left (x ∷ s) p m c l l' f b =
          let q = moved p s (p.position + 1) in
          let m' = length s in
          let at = λ (op : Binary).
            Got-le m' m p.nodes p.nodes (size left) (size left) (multiplied total k depth op left q)
              (omega arith) (omega arith)
              (multiplied-Got depth op left q m' c (omega arith) (omega arith) b) in
          Ensures-if (Got m p.nodes (size left)) (x == b'*') _ _ (λ e. at Binary.multiply)
            (λ e.
              Ensures-if (Got m p.nodes (size left)) (x == b'/') _ _ (λ e'. at Binary.divide)
                (λ e'. record { shrinks = l'; callable = c; limit = b; counted = omega arith }))

      negated-Got :
          (depth : ℕ) (p : Cursor) (m : ℕ)
          → length p.rest ≤ m
          → 8 * m + 4 < n
          → p.nodes ≤ max_nodes
          → Ensures (Got m p.nodes 0) (negated total k depth p)
      unfolding negated size IsCallable
      negated-Got depth p m l f b =
          Ensures-bind (Got m p.nodes 0) (Got m p.nodes 0) (k (Call.unary (depth + 1)) p) _
            (serve (Call.unary (depth + 1)) p m l f b tt)
            (λ (e, q) g.
              node-Got total (Expr.negate e) depth q m p.nodes 0 g.callable g.shrinks
                (omega (arith, g.counted)))

      pub unary_body-Got :
          (depth : ℕ) (s : Str) (p : Cursor) (m : ℕ)
          → length s ≤ m
          → length p.rest ≤ m
          → 8 * m + 4 < suc n
          → p.nodes ≤ max_nodes
          → Ensures (Got m p.nodes 0) (unary_body total k depth s p)
      unfolding unary_body
      unary_body-Got depth [] p m l l' f b =
          serve (Call.primary (depth + 1)) p m l' (omega arith) b tt
      unary_body-Got depth (x ∷ s) p m l l' f b =
          let q = moved p s (p.position + 1) in
          let m' = length s in
          Ensures-if (Got m p.nodes 0) (x == b'+') _ _
            (λ e.
              Got-le m' m p.nodes p.nodes 0 0 (k (Call.unary (depth + 1)) q) (omega arith)
                (omega arith)
                (serve (Call.unary (depth + 1)) q m' (omega arith) (omega arith) b tt))
            (λ e.
              Ensures-if (Got m p.nodes 0) (x == b'-') _ _
                (λ e'.
                  Got-le m' m p.nodes p.nodes 0 0 (negated total k depth q) (omega arith)
                    (omega arith) (negated-Got depth q m' (omega arith) (omega arith) b))
                (λ e'. serve (Call.primary (depth + 1)) p m l' (omega arith) b tt))
