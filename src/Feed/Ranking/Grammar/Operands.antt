-- ===== src/Feed/Ranking/Grammar/Operands.antt =====
-- `primary`, `identifier` and `ql` of the parser of crates/api/src/feed/ranking.rs.
use neddit.Prelude.{
  ℕ, suc, ◌+◌, ◌*◌, ◌≤◌, ◌<◌, not, ◌||◌, ◌==◌, [], ◌∷◌, length, Option, none, some, arith, Str,
  codes, str_eq, is_ascii_digit, is_ascii_alphabetic,
}
use neddit.Crates.{Crates}
use neddit.Search.Syntax
use neddit.Search.Syntax.{
  Mode, diagnostic, Result, ok, err, ◌>>=◌, Ensures, Ensures-bind, Ensures-if, Ensures-weaken,
  out_of_fuel, invalid_rank,
}
use neddit.Search.Parser.{parse}
use neddit.Feed.Ranking.{Floats, Field, Function, Expr, Exprs, arity, function_of, field_of}
use neddit.Feed.Ranking.Reader.{skip, name, number, string}
use neddit.Feed.Ranking.Reader.Lengths.{
  length-skip, length-name, Leaves, number-Leaves, string-Leaves,
}
use neddit.Feed.Ranking.Grammar.{
  Cursor, Call, Calls, count, push, skipped, moved, max_nodes, closed, group, called, separated,
  argument, arguments_body, field_node, function_call, parsed_ql, ql_closed, ql, named, identifier,
  number_node, primary_body,
}
use neddit.Feed.Ranking.Grammar.Got.{
  size, sizes, IsCallable, AreCallable, sizes-push, push-AreCallable, Got, Got-le, Serves, node-Got,
}

module _ {F : Type 0} where
  module _ (total : ℕ) where
    module _ (k : Calls F) (n : ℕ) (serve : Serves k n) where
      closed-Got :
          (start : Cursor) (e : Expr F) (s : Str) (p : Cursor) (m nodes : ℕ)
          → length s ≤ m
          → Got m nodes 0 (e, p)
          → Ensures (Got m nodes 0) (closed total start e s p)
      unfolding closed
      closed-Got start e [] p m nodes l g = λ x. cc
      closed-Got start e (x ∷ s) p m nodes l g =
          Ensures-if (Got m nodes 0) (x == b')') _ _
            (λ e'. record {
              shrinks = omega arith;
              callable = g.callable;
              limit = g.limit;
              counted = g.counted;
            })
            (λ e' y. cc)

      group-Got :
          (depth : ℕ) (start p : Cursor) (m : ℕ)
          → length p.rest ≤ m
          → 8 * m + 6 < n
          → p.nodes ≤ max_nodes
          → Ensures (Got m p.nodes 0) (group total k depth start p)
      unfolding group
      group-Got depth start p m l f b =
          Ensures-bind (Got m p.nodes 0) (Got m p.nodes 0) (k (Call.expression (depth + 1)) p) _
            (serve (Call.expression (depth + 1)) p m l f b tt)
            (λ (e, q) g.
              let less : length (skip q.rest q.position).0 ≤ m =
                omega (arith, length-skip q.rest q.position, g.shrinks) in
              closed-Got start e (skip q.rest q.position).0 (skipped q) m p.nodes less (record {
                shrinks = less;
                callable = g.callable;
                limit = g.limit;
                counted = g.counted;
              }))

      called-Got :
          (start depth : ℕ) (g : Function) (es : Exprs F) (p : Cursor) (m : ℕ)
          → AreCallable es
          → length p.rest ≤ m
          → Ensures (Got m p.nodes (sizes es)) (called total start depth g es p)
      unfolding called size IsCallable
      called-Got start depth g es p m c l =
          Ensures-if (Got m p.nodes (sizes es)) (not (count es == arity g)) _ _ (λ e x. cc)
            (λ e.
              node-Got total (Expr.call g es) depth p m p.nodes (sizes es) (ground arith, c) l
                (omega arith))

      separated-Got :
          (start depth : ℕ) (g : Function) (es : Exprs F) (s : Str) (p : Cursor) (m : ℕ)
          → AreCallable es
          → length s ≤ m
          → 8 * m < suc n
          → p.nodes ≤ max_nodes
          → Ensures (Got m p.nodes (sizes es)) (separated total k start depth g es s p)
      unfolding separated
      separated-Got start depth g es [] p m c l f b = λ x. cc
      separated-Got start depth g es (x ∷ s) p m c l f b =
          let q = moved p s (p.position + 1) in
          let m' = length s in
          Ensures-if (Got m p.nodes (sizes es)) (x == b',') _ _
            (λ e.
              Got-le m' m p.nodes p.nodes (sizes es) (sizes es)
                (k (Call.arguments start depth g es) q) (omega arith) (omega arith)
                (serve (Call.arguments start depth g es) q m' (omega arith) (omega arith) b c))
            (λ e.
              Ensures-if (Got m p.nodes (sizes es)) (x == b')') _ _
                (λ e'. called-Got start depth g es q m c (omega arith)) (λ e' y. cc))

      argument-Got :
          (start depth : ℕ) (g : Function) (es : Exprs F) (p : Cursor) (m : ℕ)
          → AreCallable es
          → length p.rest ≤ m
          → 8 * m + 6 < n
          → p.nodes ≤ max_nodes
          → Ensures (Got m p.nodes (sizes es)) (argument total k start depth g es p)
      unfolding argument
      argument-Got start depth g es p m c l f b =
          Ensures-bind (Got m p.nodes 0) (Got m p.nodes (sizes es))
            (k (Call.expression (depth + 1)) p) _ (serve (Call.expression (depth + 1)) p m l f b tt)
            (λ (e, q) h.
              let (s, i) = skip q.rest q.position in
              let all = push es e in
              Got-le m m q.nodes p.nodes (sizes all) (sizes es)
                (separated total k start depth g all s (skipped q)) (omega arith)
                (omega (arith, sizes-push es e, h.counted))
                (separated-Got start depth g all s (skipped q) m
                  (push-AreCallable es e c h.callable)
                  (omega (arith, length-skip q.rest q.position, h.shrinks)) (omega arith) h.limit))

      pub arguments_body-Got :
          (start depth : ℕ) (g : Function) (es : Exprs F) (s : Str) (p : Cursor) (m : ℕ)
          → AreCallable es
          → length s ≤ m
          → length p.rest ≤ m
          → 8 * m + 7 < suc n
          → p.nodes ≤ max_nodes
          → Ensures (Got m p.nodes (sizes es)) (arguments_body total k start depth g es s p)
      unfolding arguments_body
      arguments_body-Got start depth g es [] p m c l l' f b =
          argument-Got start depth g es p m c l' (omega arith) b
      arguments_body-Got start depth g es (x ∷ s) p m c l l' f b =
          Ensures-if (Got m p.nodes (sizes es)) (x == b')') _ _
            (λ e. called-Got start depth g es (moved p s (p.position + 1)) m c (omega arith))
            (λ e. argument-Got start depth g es p m c l' (omega arith) b)

      field_node-Got :
          (start depth : ℕ) (o : Option Field) (p : Cursor) (m : ℕ)
          → length p.rest ≤ m
          → Ensures (Got {F = F} m p.nodes 0) (field_node total start depth o p)
      unfolding field_node size IsCallable
      field_node-Got start depth none p m l = λ x. cc
      field_node-Got start depth (some g) p m l =
          node-Got total (Expr.field g) depth p m p.nodes 0 tt l (omega arith)

      function_call-Got :
          (start depth : ℕ) (o : Option Function) (i : ℕ) (p : Cursor) (m : ℕ)
          → length p.rest ≤ m
          → 8 * m + 7 < n
          → p.nodes ≤ max_nodes
          → Ensures (Got m p.nodes 0) (function_call total k start depth o i p)
      unfolding function_call sizes AreCallable
      function_call-Got start depth none i p m l f b = λ x. cc
      function_call-Got start depth (some g) i p m l f b =
          serve (Call.arguments start depth g Exprs.nil) p m l f b tt

      module _ (f : Floats F) (lib : Crates) where
        parsed_ql-Got :
            (start depth : ℕ) (r : Result Syntax.Expr) (p : Cursor) (m : ℕ)
            → length p.rest ≤ m
            → Ensures (Got m p.nodes 0) (parsed_ql total f lib start depth r p)
        unfolding parsed_ql size IsCallable
        parsed_ql-Got start depth (err d) p m l = λ x. cc
        parsed_ql-Got start depth (ok e) p m l =
            node-Got total (Expr.ql e) depth p m p.nodes 0 tt l (omega arith)

        ql_closed-Got :
            (start at depth : ℕ) (text s : Str) (p : Cursor) (m : ℕ)
            → length s ≤ m
            → Ensures (Got m p.nodes 0) (ql_closed total f lib start at depth text s p)
        unfolding ql_closed
        ql_closed-Got start at depth text [] p m l = λ x. cc
        ql_closed-Got start at depth text (x ∷ s) p m l =
            Ensures-if (Got m p.nodes 0) (x == b')') _ _
              (λ e.
                parsed_ql-Got at depth (parse lib text Mode.posts) (moved p s (p.position + 1)) m
                  (omega arith))
              (λ e y. cc)

        ql-Got :
            (start depth : ℕ) (p : Cursor) (m : ℕ)
            → length p.rest ≤ m
            → Ensures (Got m p.nodes 0) (ql total f lib start depth p)
        unfolding ql
        ql-Got start depth p m l =
            let q = skipped p in
            Ensures-bind (Leaves (length q.rest)) (Got m p.nodes 0) (string total q.rest q.position)
              _ (string-Leaves total q.rest q.position)
              (λ (text, s, i) h.
                let q' = skipped (moved q s i) in
                ql_closed-Got start q.position depth text q'.rest q' m
                  (omega (arith, length-skip s i, length-skip p.rest p.position)))

        named-Got :
            (start depth : ℕ) (word s : Str) (p : Cursor) (m : ℕ)
            → length s ≤ m
            → length p.rest ≤ m
            → 8 * m < suc n
            → p.nodes ≤ max_nodes
            → Ensures (Got m p.nodes 0) (named total f lib k start depth word s p)
        unfolding named
        named-Got start depth word [] p m l l' fu b =
            field_node-Got start depth (field_of word) p m l'
        named-Got start depth word (x ∷ s) p m l l' fu b =
            let q = moved p s (p.position + 1) in
            let m' = length s in
            Ensures-if (Got m p.nodes 0) (not (x == b'(')) _ _
              (λ e. field_node-Got start depth (field_of word) p m l')
              (λ e.
                Ensures-if (Got m p.nodes 0) (str_eq word (codes "ql")) _ _
                  (λ e'. ql-Got start depth q m (omega arith))
                  (λ e'.
                    Got-le m' m p.nodes p.nodes 0 0
                      (function_call total k start depth (function_of word) p.position q)
                      (omega arith) (omega arith)
                      (function_call-Got start depth (function_of word) p.position q m'
                        (omega arith) (omega arith) b)))

        identifier-Got :
            (depth : ℕ) (p : Cursor) (m : ℕ)
            → length p.rest ≤ m
            → 8 * m < suc n
            → p.nodes ≤ max_nodes
            → Ensures (Got m p.nodes 0) (identifier total f lib k depth p)
        unfolding identifier
        identifier-Got depth p m l fu b =
            let (word, s, i) = name p.rest p.position in
            let q = skipped (moved p s i) in
            let less : length q.rest ≤ m =
              omega (arith, length-skip s i, length-name p.rest p.position) in
            named-Got p.position depth word q.rest q m less less fu b

        number_node-Got :
            (depth : ℕ) (p : Cursor) (m : ℕ)
            → length p.rest ≤ m
            → Ensures (Got m p.nodes 0) (number_node total f lib depth p)
        unfolding number_node size IsCallable
        number_node-Got depth p m l =
            Ensures-bind (Leaves (length p.rest)) (Got m p.nodes 0) (number f p.rest p.position) _
              (number-Leaves f p.rest p.position)
              (λ (x, s, i) h.
                node-Got total (Expr.number x) depth (moved p s i) m p.nodes 0 tt (omega arith)
                  (omega arith))

        pub primary_body-Got :
            (depth : ℕ) (s : Str) (p : Cursor) (m : ℕ)
            → length s ≤ m
            → length p.rest ≤ m
            → 8 * m + 3 < suc n
            → p.nodes ≤ max_nodes
            → Ensures (Got m p.nodes 0) (primary_body total f lib k depth s p)
        unfolding primary_body
        primary_body-Got depth [] p m l l' fu b = λ x. cc
        primary_body-Got depth (c ∷ s) p m l l' fu b =
            let q = moved p s (p.position + 1) in
            let m' = length s in
            Ensures-if (Got m p.nodes 0) (c == b'(') _ _
              (λ e.
                Got-le m' m p.nodes p.nodes 0 0 (group total k depth p q) (omega arith)
                  (omega arith) (group-Got depth p q m' (omega arith) (omega arith) b))
              (λ e.
                Ensures-if (Got m p.nodes 0) (is_ascii_digit c || c == b'.') _ _
                  (λ e'. number_node-Got depth p m l')
                  (λ e'.
                    Ensures-if (Got m p.nodes 0) (is_ascii_alphabetic c || c == b'_') _ _
                      (λ e''. identifier-Got depth p m l' (omega arith) b) (λ e'' y. cc)))
