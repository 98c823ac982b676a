-- ===== src/Feed/Ranking/Grammar/Got.antt =====
-- The size of ranking expressions of crates/api/src/feed/ranking.rs, and what a call of their
-- parser promises.
use neddit.Prelude.{ℕ, suc, ◌+◌, ◌*◌, ◌≤◌, ◌<◌, ◌≡◌, refl, ltb, length, arith}
use neddit.Search.Syntax.{Result, Ensures, Ensures-if, Ensures-weaken}
use neddit.Feed.Ranking.{Expr, Exprs, arity}
use neddit.Feed.Ranking.Grammar.{Cursor, Call, Calls, count, push, max_nodes, max_depth, node}

module _ {F : Type 0} where
  unfoldable mutual
    pub size : Expr F → ℕ
    size (Expr.number x) = 1
    size (Expr.field g) = 1
    size (Expr.negate e) = suc (size e)
    size (Expr.binary op a b) = suc (size a + size b)
    size (Expr.call g es) = suc (sizes es)
    size (Expr.ql e) = 1

    pub sizes : Exprs F → ℕ
    sizes Exprs.nil = 0
    sizes (Exprs.cons e es) = size e + sizes es

  -- Each call has as many arguments as its function has.
  unfoldable mutual
    pub IsCallable : Expr F → Type 0
    IsCallable (Expr.number x) = Unit
    IsCallable (Expr.field g) = Unit
    IsCallable (Expr.negate e) = IsCallable e
    IsCallable (Expr.binary op a b) = IsCallable a × IsCallable b
    IsCallable (Expr.call g es) = (count es ≡ arity g) × AreCallable es
    IsCallable (Expr.ql e) = Unit

    pub AreCallable : Exprs F → Type 0
    AreCallable Exprs.nil = Unit
    AreCallable (Exprs.cons e es) = IsCallable e × AreCallable es

  pub count-push : (es : Exprs F) (e : Expr F) → count (push es e) ≡ suc (count es)
  count-push Exprs.nil e = refl
  count-push (Exprs.cons d es) e = omega (arith, count-push es e)

  pub sizes-push : (es : Exprs F) (e : Expr F) → sizes (push es e) ≡ sizes es + size e
  unfolding sizes
  sizes-push Exprs.nil e = omega arith
  sizes-push (Exprs.cons d es) e = omega (arith, sizes-push es e)

  pub push-AreCallable :
      (es : Exprs F) (e : Expr F) → AreCallable es → IsCallable e → AreCallable (push es e)
  unfolding AreCallable
  push-AreCallable Exprs.nil e h k = (k, tt)
  push-AreCallable (Exprs.cons d es) e h k = (h.0, push-AreCallable es e h.1 k)

  -- What a call gives: at most `m` characters are left, and the nodes of the expression are those
  -- that it held and those that were counted.
  pub record Got (m nodes held : ℕ) (r : Expr F × Cursor) : Type 0 where
    pub shrinks : length r.1.rest ≤ m
    pub callable : IsCallable r.0
    pub limit : r.1.nodes ≤ max_nodes
    pub counted : size r.0 + nodes ≤ r.1.nodes + held

  pub Got-le :
      (m m' nodes nodes' held held' : ℕ) (r : Result (Expr F × Cursor))
      → m ≤ m'
      → held + nodes' ≤ held' + nodes
      → Ensures (Got m nodes held) r
      → Ensures (Got m' nodes' held') r
  Got-le m m' nodes nodes' held held' r le e h =
      Ensures-weaken (Got m nodes held) (Got m' nodes' held') r
        (λ x t. record {
          shrinks = omega (arith, t.shrinks);
          callable = t.callable;
          limit = t.limit;
          counted = omega (arith, t.counted);
        })
        h

  abbrev pub held_by : Call F → ℕ
  held_by (Call.sums depth left) = size left
  held_by (Call.products depth left) = size left
  held_by (Call.arguments start depth g es) = sizes es
  held_by call = 0

  abbrev pub IsReady : Call F → Type 0
  IsReady (Call.sums depth left) = IsCallable left
  IsReady (Call.products depth left) = IsCallable left
  IsReady (Call.arguments start depth g es) = AreCallable es
  IsReady call = Unit

  -- The fuel that a call takes beside that for the characters.
  abbrev pub rank : Call F → ℕ
  rank (Call.expression depth) = 6
  rank (Call.sums depth left) = 1
  rank (Call.term depth) = 5
  rank (Call.products depth left) = 1
  rank (Call.unary depth) = 4
  rank (Call.primary depth) = 3
  rank (Call.arguments start depth g es) = 7

  abbrev pub Serves : Calls F → ℕ → Type 0
  Serves k n =
      (call : Call F) (p : Cursor) (m : ℕ)
      → length p.rest ≤ m
      → 8 * m + rank call < n
      → p.nodes ≤ max_nodes
      → IsReady call
      → Ensures (Got m p.nodes (held_by call)) (k call p)

  module _ (total : ℕ) where
    pub node-Got :
        (e : Expr F) (depth : ℕ) (p : Cursor) (m nodes held : ℕ)
        → IsCallable e
        → length p.rest ≤ m
        → size e + nodes ≤ suc (p.nodes + held)
        → Ensures (Got m nodes held) (node total e depth p)
    unfolding node
    node-Got e depth p m nodes held c l s =
        Ensures-if (Got m nodes held) (ltb max_nodes (p.nodes + 1)) _ _ (λ x y. cc)
          (λ few.
            Ensures-if (Got m nodes held) (ltb max_depth depth) _ _ (λ x y. cc)
              (λ shallow. record {
                shrinks = l;
                callable = c;
                limit = ground arith;
                counted = omega arith;
              }))
