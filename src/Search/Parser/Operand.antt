-- ===== src/Search/Parser/Operand.antt =====
-- `primary` of the parser of crates/api/src/search/mod.rs.
use neddit.Prelude.{
  ℕ, suc, ◌+◌, ◌*◌, ◌≤◌, ◌<◌, ◌≡◌, refl, true, ltb, [], ◌∷◌, Option, none, some, arith, Str, length,
  len, inl, inr, ◌⊎◌,
}
use neddit.Crates.{Crates}
use neddit.Search.Syntax.{
  Mode, Field, Value, Expr, Span, span, with_span, Ensures, Ensures-bind, Ensures-if,
  Ensures-weaken, TokenKind, Token,
}
use neddit.Search.Scalars.{IsScalarExpr}
use neddit.Search.Scalar.{scalar_value, field_name, is_valid, field_name_valid}
use neddit.Search.Scalar.Values.{scalar_value-IsScalar}
use neddit.Search.Parser.{
  Parser, Call, Calls, advance, current, node, qualification, or_text, scalar_node, scalar,
  field_value, target_value, qualified, word_value, closed, primary_token, primary_at, primary_body,
  is_operator_value, max_depth,
}
use neddit.Search.Parser.Post.{
  Post, Fits, Needs, fuel_for, Gives, Serves, node-Post, size, IsAvailable, IsFieldOf, left_over,
  get_elem?-lt,
}

-- A field of a predicate that the mode allows.
abbrev IsTarget : Parser → Field → Type 0
IsTarget p f = (f ≡ Field.text) ⊎ (is_valid p.mode f ≡ true)

or_text-IsTarget : (p : Parser) (o : Option Field) → IsFieldOf p.mode o → IsTarget p (or_text o)
or_text-IsTarget p none h = inl refl
or_text-IsTarget p (some f) h = inr h

module _ (lib : Crates) where
  -- What a part of `primary` leaves, from the parser that it is given.
  abbrev Within : Parser → Expr × Parser → Type 0
  Within p (e, q) = Post lib p p.index p.nodes e q

  Within-advance :
      (p : Parser) (x : Expr × Parser)
      → p.index < length p.tokens
      → Within (advance p) x
      → Within p x
  Within-advance p (e, q) h k = record {
    tokens = k.tokens;
    count = k.count;
    mode = k.mode;
    forward = omega arith;
    inside = k.inside;
    nodes = k.nodes;
    counted = k.counted;
    scalars = k.scalars;
    available = k.available;
  }

  node-Within :
      (p : Parser) (e : Expr) (q : Parser)
      → q.tokens ≡ p.tokens
      → q.mode ≡ p.mode
      → p.index ≤ q.index
      → q.index ≤ length p.tokens
      → suc q.nodes ≡ p.nodes + size e
      → IsScalarExpr lib e
      → IsAvailable p.mode e
      → Ensures (Within p) (node e q)
  node-Within p e q t m lo hi c s a =
      Ensures-weaken (λ (e', q'). (e' ≡ e) × (q'.index ≡ q.index) × Post lib p p.index p.nodes e q')
        (Within p) (node e q) (λ (e', q') (same, i, k). rw same k)
        (node-Post lib p p.index p.nodes e q t m lo hi c s a)

  scalar_node_lem :
      (f : Field) (raw : Str) (sp : Span) (o : Option Value) (p : Parser)
      → scalar_value lib f raw ≡ o
      → p.index ≤ length p.tokens
      → IsTarget p f
      → Ensures (Within p) (scalar_node lib f raw sp o p)
  unfolding scalar_node size
  scalar_node_lem f raw sp none p h i t = λ x. cc
  scalar_node_lem f raw sp (some v) p h i t =
      node-Within p (Expr.predicate (record { field = f; raw = raw; value = v }) sp) p refl refl
        (omega arith) i (omega arith) (scalar_value-IsScalar lib f raw v h) t

  scalar_lem :
      (f : Field) (raw : Str) (sp : Span) (p : Parser)
      → p.index ≤ length p.tokens
      → IsTarget p f
      → Ensures (Within p) (scalar lib f raw sp p)
  unfolding scalar
  scalar_lem f raw sp p i t = scalar_node_lem f raw sp (scalar_value lib f raw) p refl i t

  -- A span says nothing of the nodes.
  with_span_lem :
      (m : Mode) (e : Expr) (sp : Span)
      → IsScalarExpr lib e
      → IsAvailable m e
      → IsScalarExpr lib (with_span e sp)
        × IsAvailable m (with_span e sp)
        × (size (with_span e sp) ≡ size e)
  unfolding size
  with_span_lem m (Expr.predicate p _) sp s a = (s, a, refl)
  with_span_lem m (Expr.not e _) sp s a = (s, a, refl)
  with_span_lem m (Expr.and a b _) sp s h = (s, h, refl)
  with_span_lem m (Expr.or a b _) sp s h = (s, h, refl)

  module _ (n : ℕ) (calls : Calls) (serve : Serves lib n calls) where
    -- Behind its first token a call of `primary` has this much fuel.
    abbrev HasFuel : Parser → Type 0
    HasFuel p = 2 * left_over p + 2 ≤ n

    value_token_lem :
        (target : Field) (depth : ℕ) (sp : Span) (k : TokenKind) (next : Span) (p : Parser)
        → Fits lib p
        → HasFuel p
        → p.index < length p.tokens
        → is_valid p.mode target ≡ true
        → Ensures
            (Within p)
            (field_value lib calls target depth sp (some (record { kind = k; span = next })) p)
    unfolding field_value
    value_token_lem target depth sp TokenKind.open_group next p fits h i v =
        Ensures-weaken (Gives lib (Call.primary (some target) (depth + 1)) p) (Within p)
          (calls (Call.primary (some target) (depth + 1)) p)
          (λ (e, q) k. record {
            tokens = k.tokens;
            count = k.count;
            mode = k.mode;
            forward = omega arith;
            inside = k.inside;
            nodes = k.nodes;
            counted = k.counted;
            scalars = k.scalars;
            available = k.available;
          })
          (serve (Call.primary (some target) (depth + 1)) p (fits, v) (omega arith))
    value_token_lem target depth sp (TokenKind.word w) next p fits h i v =
        Ensures-weaken (Within (advance p)) (Within p)
          (scalar lib target w (sp.0, next.1) (advance p)) (λ x. Within-advance p x i)
          (scalar_lem target w (sp.0, next.1) (advance p) (omega arith) (inr v))
    value_token_lem target depth sp (TokenKind.phrase w) next p fits h i v =
        Ensures-weaken (Within (advance p)) (Within p)
          (scalar lib target w (sp.0, next.1) (advance p)) (λ x. Within-advance p x i)
          (scalar_lem target w (sp.0, next.1) (advance p) (omega arith) (inr v))
    value_token_lem target depth sp _ next p fits h i v = λ x. cc

    field_value_lem :
        (target : Field) (depth : ℕ) (sp : Span) (o : Option Token) (p : Parser)
        → current p ≡ o
        → Fits lib p
        → HasFuel p
        → is_valid p.mode target ≡ true
        → Ensures (Within p) (field_value lib calls target depth sp o p)
    field_value_lem target depth sp none p c fits h v = unfold field_value in λ x. cc
    field_value_lem target depth sp (some t) p c fits h v =
        value_token_lem target depth sp t.kind t.span p fits h (get_elem?-lt p.tokens p.index t c) v

    target_value_lem :
        (target : Field) (value : Str) (depth : ℕ) (sp : Span) (p : Parser)
        → Fits lib p
        → HasFuel p
        → is_valid p.mode target ≡ true
        → Ensures (Within p) (target_value lib calls target value depth sp p)
    unfolding target_value
    target_value_lem target [] depth sp p fits h v =
        field_value_lem target depth sp (current p) p refl fits h v
    target_value_lem target (c ∷ value) depth sp p fits h v =
        Ensures-if (Within p) (is_operator_value (c ∷ value)) _ _ (λ e x. cc)
          (λ e. scalar_lem target (c ∷ value) sp p fits.inside (inr v))

    qualified_lem :
        (field : Option Field) (depth : ℕ) (sp : Span) (name value : Str) (p : Parser)
        → Fits lib p
        → HasFuel p
        → Ensures (Within p) (qualified lib calls field depth sp name value p)
    unfolding qualified
    qualified_lem (some f) depth sp name value p fits h = λ x. cc
    qualified_lem none depth sp name value p fits h =
        let at_name : Span = (sp.0, sp.0 + len name) in
        Ensures-bind (λ f. is_valid p.mode f ≡ true) (Within p) (field_name name p.mode at_name) _
          (field_name_valid name p.mode at_name)
          (λ target v. target_value_lem target value depth sp p fits h v)

    word_value_lem :
        (field : Option Field) (depth : ℕ) (sp : Span) (w : Str) (o : Option (Str × Str))
        (p : Parser)
        → Fits lib p
        → HasFuel p
        → IsFieldOf p.mode field
        → Ensures (Within p) (word_value lib calls field depth sp w o p)
    unfolding word_value
    word_value_lem field depth sp w none p fits h f =
        scalar_lem (or_text field) w sp p fits.inside (or_text-IsTarget p field f)
    word_value_lem field depth sp w (some (name, value)) p fits h f =
        qualified_lem field depth sp name value p fits h

    closed_lem :
        (e : Expr) (sp : Span) (k : TokenKind) (next : Span) (p q : Parser)
        → Post lib p p.index p.nodes e q
        → q.index < length q.tokens
        → Ensures (Within p) (closed lib e sp (some (record { kind = k; span = next })) q)
    unfolding closed
    closed_lem e sp TokenKind.close_group next p q k i =
        let (s, a, c) = with_span_lem p.mode e (sp.0, next.1) k.scalars k.available in
        record {
          tokens = k.tokens;
          count = k.count;
          mode = k.mode;
          forward = omega arith;
          inside = omega arith;
          nodes = k.nodes;
          counted = omega arith;
          scalars = s;
          available = a;
        }
    closed_lem e sp _ next p q k i = λ x. cc

    group_lem :
        (e : Expr) (sp : Span) (o : Option Token) (p q : Parser)
        → current q ≡ o
        → Post lib p p.index p.nodes e q
        → Ensures (Within p) (closed lib e sp o q)
    group_lem e sp none p q c k = unfold closed in λ x. cc
    group_lem e sp (some t) p q c k =
        closed_lem e sp t.kind t.span p q k (get_elem?-lt q.tokens q.index t c)

    primary_token_lem :
        (field : Option Field) (depth : ℕ) (k : TokenKind) (sp : Span) (p : Parser)
        → Fits lib p
        → HasFuel p
        → IsFieldOf p.mode field
        → Ensures (Within p) (primary_token lib calls field depth k sp p)
    unfolding primary_token size
    primary_token_lem field depth TokenKind.not sp p fits h f =
        let call = Call.primary field (depth + 1) in
        Ensures-bind (Gives lib call p) (Within p) (calls call p) _
          (serve call p (fits, f) (omega arith))
          (λ (e, q) k.
            node-Within p (Expr.not e (sp.0, (span e).1)) q k.tokens k.mode (omega arith) k.inside
              (omega arith) k.scalars k.available)
    primary_token_lem field depth TokenKind.open_group sp p fits h f =
        let call = Call.expression 0 field (depth + 1) in
        Ensures-bind (Gives lib call p) (Within p) (calls call p) _
          (serve call p (fits, f) (omega arith))
          (λ (e, q) k. group_lem e sp (current q) p q refl (record {
            tokens = k.tokens;
            count = k.count;
            mode = k.mode;
            forward = omega arith;
            inside = k.inside;
            nodes = k.nodes;
            counted = k.counted;
            scalars = k.scalars;
            available = k.available;
          }))
    primary_token_lem field depth (TokenKind.word w) sp p fits h f =
        word_value_lem field depth sp w (qualification w) p fits h f
    primary_token_lem field depth (TokenKind.phrase v) sp p fits h f =
        scalar_lem (or_text field) v sp p fits.inside (or_text-IsTarget p field f)
    primary_token_lem field depth _ sp p fits h f = λ x. cc

    primary_at_lem :
        (field : Option Field) (depth : ℕ) (o : Option Token) (p : Parser)
        → current p ≡ o
        → Needs lib (Call.primary field depth) p
        → fuel_for lib (Call.primary field depth) p ≤ suc n
        → Ensures (Gives lib (Call.primary field depth) p) (primary_at lib calls field depth o p)
    unfolding primary_at
    primary_at_lem field depth none p c needs h = λ x. cc
    primary_at_lem field depth (some t) p c (fits, f) h =
        let i = get_elem?-lt p.tokens p.index t c in
        let G : Expr × Parser → Type 0 = Gives lib (Call.primary field depth) p in
        Ensures-if G (ltb max_depth depth) _ _ (λ e x. cc)
          (λ e.
            Ensures-weaken (Within (advance p)) G
              (primary_token lib calls field depth t.kind t.span (advance p))
              (λ (e, q) k. record {
                tokens = k.tokens;
                count = k.count;
                mode = k.mode;
                forward = omega arith;
                inside = k.inside;
                nodes = k.nodes;
                counted = k.counted;
                scalars = k.scalars;
                available = k.available;
              })
              (primary_token_lem field depth t.kind t.span (advance p)
                (record { inside = omega arith; nodes = fits.nodes }) (omega arith) f))

    pub primary_lem :
        (field : Option Field) (depth : ℕ) (p : Parser)
        → Needs lib (Call.primary field depth) p
        → fuel_for lib (Call.primary field depth) p ≤ suc n
        → Ensures (Gives lib (Call.primary field depth) p) (primary_body lib calls field depth p)
    unfolding primary_body
    primary_lem field depth p needs h = primary_at_lem field depth (current p) p refl needs h
