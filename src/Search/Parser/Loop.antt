-- ===== src/Search/Parser/Loop.antt =====
-- `expression` and its loop, of the parser of crates/api/src/search/mod.rs.
use neddit.Prelude.{
  ℕ, suc, ◌+◌, ◌-◌, ◌≤◌, ◌<◌, ◌≡◌, refl, sym, subst, ◌∙◌, true, false, ltb, Option, arith, length,
  inl, inr, Option-cases,
}
use neddit.Crates.{Crates}
use neddit.Search.Syntax.{
  Mode, Field, Expr, ◌>>=◌, Ensures, Ensures-bind, Ensures-if, Ensures-weaken,
}
use neddit.Search.Parser.{
  Parser, Call, Calls, advance, current, node, Joint, joint_at, joint_of, join, more_at,
  expression_body, more_body,
}
use neddit.Search.Parser.Post.{
  Post, Post_after_more, Needs, fuel_for, Gives, Serves, Needs-more, join_lem, stays, node-Post,
  size, IsAvailable, IsFieldOf, get_elem?-lt,
}

module _ (lib : Crates) where
  module _ (n : ℕ) (calls : Calls) (serve : Serves lib n calls) where
    pub expression_lem :
        (least : ℕ) (field : Option Field) (depth : ℕ) (p : Parser)
        → Needs lib (Call.expression least field depth) p
        → fuel_for lib (Call.expression least field depth) p ≤ suc n
        → Ensures
            (Gives lib (Call.expression least field depth) p)
            (expression_body calls least field depth p)
    unfolding expression_body
    expression_lem least field depth p (fits, f) h =
        Ensures-bind (Gives lib (Call.primary field depth) p)
          (Gives lib (Call.expression least field depth) p) (calls (Call.primary field depth) p) _
          (serve (Call.primary field depth) p (fits, f) (omega arith))
          (λ (left, q) k.
            Ensures-weaken (Gives lib (Call.more least field depth left) q)
              (Gives lib (Call.expression least field depth) p)
              (calls (Call.more least field depth left) q)
              (λ (e, q') g. Post_after_more lib p q q' (suc p.index) p.nodes left e k g)
              (serve (Call.more least field depth left) q
                (Needs-more lib p q (suc p.index) p.nodes left least field depth k f)
                (omega arith)))

    -- Behind the right side of an operator.
    joined_lem :
        (least : ℕ) (field : Option Field) (depth : ℕ) (left : Expr) (precedence : ℕ)
        (p p' : Parser)
        → Needs lib (Call.more least field depth left) p
        → fuel_for lib (Call.more least field depth left) p ≤ suc n
        → p'.tokens ≡ p.tokens
        → length p'.tokens ≡ length p.tokens
        → p'.mode ≡ p.mode
        → p'.nodes ≡ p.nodes
        → p.index ≤ p'.index
        → p'.index ≤ length p.tokens
        → p.index < length p.tokens
        → Ensures (Gives lib (Call.more least field depth left) p) (
            calls (Call.expression (precedence + 1) field (depth + 1)) p' >>= λ (right, q).
            node (join precedence left right) q >>= λ (e, q').
            calls (Call.more least field depth e) q')
    joined_lem least field depth left precedence p p' (fits, f, s, a, c) h t l m k lo hi some_left =
        let G : Expr × Parser → Type 0 = Gives lib (Call.more least field depth left) p in
        let inner = Call.expression (precedence + 1) field (depth + 1) in
        Ensures-bind (Gives lib inner p') G (calls inner p') _
          (serve inner p'
            (
              record { inside = omega arith; nodes = omega arith },
              subst (λ (m : Mode). IsFieldOf m field) (sym m) f,
            )
            (omega arith))
          (λ (right, q) g.
            let e : Expr = join precedence left right in
            let (se, ae, ce) =
              join_lem lib p.mode precedence left right s g.scalars a
                (subst (λ (m : Mode). IsAvailable m right) m g.available) in
            Ensures-bind
              (λ (e', q').
                (e' ≡ e) × (q'.index ≡ q.index) × Post lib p p.index (p.nodes - size left) e q')
              G (node e q) _
              (node-Post lib p p.index (p.nodes - size left) e q (g.tokens ∙ t) (g.mode ∙ m)
                (omega arith) (omega arith) (omega arith) se ae)
              (λ (e', q') (same, i, k). rw same (
                Ensures-weaken (Gives lib (Call.more least field depth e) q') G
                  (calls (Call.more least field depth e) q')
                  (λ (e2, q2) g2.
                    Post_after_more lib p q' q2 p.index (p.nodes - size left) e e2 k g2)
                  (serve (Call.more least field depth e) q'
                    (Needs-more lib p q' p.index (p.nodes - size left) e least field depth k f)
                    (omega arith)))))

    more_at_lem :
        (least : ℕ) (field : Option Field) (depth : ℕ) (left : Expr) (j : Joint) (p : Parser)
        → Needs lib (Call.more least field depth left) p
        → fuel_for lib (Call.more least field depth left) p ≤ suc n
        → p.index < length p.tokens
        → Ensures
            (Gives lib (Call.more least field depth left) p)
            (more_at calls least field depth left j p)
    unfolding more_at
    more_at_lem least field depth left Joint.stops p needs h some_left =
        stays lib p left least field depth needs
    more_at_lem least field depth left (Joint.joins k true) p needs h some_left =
        Ensures-if _ (ltb k least) _ _ (λ e. stays lib p left least field depth needs)
          (λ e.
            joined_lem least field depth left k p (advance p) needs h refl refl refl refl
              (omega arith) (omega arith) some_left)
    more_at_lem least field depth left (Joint.joins k false) p needs h some_left =
        Ensures-if _ (ltb k least) _ _ (λ e. stays lib p left least field depth needs)
          (λ e.
            joined_lem least field depth left k p p needs h refl refl refl refl (omega arith)
              (omega arith) some_left)

    pub more_lem :
        (least : ℕ) (field : Option Field) (depth : ℕ) (left : Expr) (p : Parser)
        → Needs lib (Call.more least field depth left) p
        → fuel_for lib (Call.more least field depth left) p ≤ suc n
        → Ensures
            (Gives lib (Call.more least field depth left) p)
            (more_body calls least field depth left p)
    unfolding more_body joint_of more_at
    more_lem least field depth left p needs h = elim (Option-cases (current p)) [
      | inl e ↦ rw e (stays lib p left least field depth needs)
      | inr (t, e) ↦ rw e (
          more_at_lem least field depth left (joint_at t.kind t.span p) p needs h
            (get_elem?-lt p.tokens p.index t e))
    ]
