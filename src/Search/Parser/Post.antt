-- ===== src/Search/Parser/Post.antt =====
-- What the functions of the parser of crates/api/src/search/mod.rs leave behind them.
use neddit.Prelude.{
  ℕ, zero, suc, ◌+◌, ◌-◌, ◌*◌, ◌≤◌, ◌<◌, ◌≡◌, refl, ap, sym, subst, ◌∙◌, true, ltb, ◌==◌, List, [],
  ◌∷◌, Option, none, some, arith, get_elem?, length, inl, inr, ◌⊎◌, Bool-cases,
}
use neddit.Crates.{Crates}
use neddit.Search.Syntax.{Mode, Field, Expr, Ensures, Ensures-if}
use neddit.Search.Scalars.{IsScalarExpr}
use neddit.Search.Scalar.{is_valid}
use neddit.Search.Parser.{Parser, Call, Calls, node, join}

-- The number of nodes.
unfoldable pub size : Expr → ℕ
size (Expr.predicate p _) = 1
size (Expr.not e _) = size e + 1
size (Expr.and a b _) = size a + size b + 1
size (Expr.or a b _) = size a + size b + 1

-- Every predicate is on the text or on a field of the mode.
abbrev pub IsAvailable : Mode → Expr → Type 0
IsAvailable m (Expr.predicate p _) = (p.field ≡ Field.text) ⊎ (is_valid m p.field ≡ true)
IsAvailable m (Expr.not e _) = IsAvailable m e
IsAvailable m (Expr.and a b _) = IsAvailable m a × IsAvailable m b
IsAvailable m (Expr.or a b _) = IsAvailable m a × IsAvailable m b

-- A field that a group gives to its values.
abbrev pub IsFieldOf : Mode → Option Field → Type 0
IsFieldOf m none = Unit
IsFieldOf m (some f) = is_valid m f ≡ true

-- The tokens that are left.
abbrev pub left_over : Parser → ℕ
left_over p = length p.tokens - p.index

pub get_elem?-lt : {A : Type 0} (l : List A) (i : ℕ) (x : A) → get_elem? l i ≡ some x → i < length l
get_elem?-lt [] i x h = cc
get_elem?-lt (y ∷ l) zero x h = omega arith
get_elem?-lt (y ∷ l) (suc i) x h = omega (arith, get_elem?-lt l i x h)

module _ (lib : Crates) where
  -- What a call that began at `p` leaves: it has read up to `low` at least, and has counted the
  -- nodes of its expression on top of `base`.
  pub record Post (p : Parser) (low base : ℕ) (e : Expr) (q : Parser) : Type 0 where
    pub tokens : q.tokens ≡ p.tokens
    pub count : length q.tokens ≡ length p.tokens
    pub mode : q.mode ≡ p.mode
    pub forward : low ≤ q.index
    pub inside : q.index ≤ length p.tokens
    pub nodes : q.nodes ≤ 256
    pub counted : q.nodes ≡ base + size e
    pub scalars : IsScalarExpr lib e
    pub available : IsAvailable p.mode e

  pub record Fits (p : Parser) : Type 0 where
    pub inside : p.index ≤ length p.tokens
    pub nodes : p.nodes ≤ 256

  -- What a call may rely on, and the expression that it starts from.
  abbrev pub Needs : Call → Parser → Type 0
  Needs (Call.expression least field depth) p = Fits p × IsFieldOf p.mode field
  Needs (Call.primary field depth) p = Fits p × IsFieldOf p.mode field
  Needs (Call.more least field depth left) p =
      Fits p
      × IsFieldOf p.mode field
      × IsScalarExpr lib left
      × IsAvailable p.mode left
      × (size left ≤ p.nodes)

  abbrev pub fuel_for : Call → Parser → ℕ
  fuel_for (Call.primary field depth) p = 2 * left_over p + 1
  fuel_for (Call.expression least field depth) p = 2 * left_over p + 2
  fuel_for (Call.more least field depth left) p = 2 * left_over p + 3

  abbrev pub Gives : Call → Parser → Expr × Parser → Type 0
  Gives (Call.primary field depth) p (e, q) = Post p (suc p.index) p.nodes e q
  Gives (Call.expression least field depth) p (e, q) = Post p (suc p.index) p.nodes e q
  Gives (Call.more least field depth left) p (e, q) = Post p p.index (p.nodes - size left) e q

  -- The calls that `n` units of fuel serve.
  abbrev pub Serves : ℕ → Calls → Type 0
  Serves n calls =
      (c : Call) (p : Parser) → Needs c p → fuel_for c p ≤ n → Ensures (Gives c p) (calls c p)

  pub node-Post :
      (p : Parser) (low base : ℕ) (e : Expr) (q : Parser)
      → q.tokens ≡ p.tokens
      → q.mode ≡ p.mode
      → low ≤ q.index
      → q.index ≤ length p.tokens
      → suc q.nodes ≡ base + size e
      → IsScalarExpr lib e
      → IsAvailable p.mode e
      → Ensures (λ (e', q'). (e' ≡ e) × (q'.index ≡ q.index) × Post p low base e q') (node e q)
  unfolding node
  node-Post p low base e q t m f i c s a =
      Ensures-if _ (ltb 256 (q.nodes + 1)) _ _ (λ h x. cc)
        (λ h. (
          refl,
          refl,
          record {
            tokens = t;
            count = ap length t;
            mode = m;
            forward = f;
            inside = i;
            nodes = ground arith;
            counted = omega arith;
            scalars = s;
            available = a;
          },
        ))

  pub Post_after_more :
      (p q q' : Parser) (low base : ℕ) (left e : Expr)
      → Post p low base left q
      → Post q q.index (q.nodes - size left) e q'
      → Post p low base e q'
  Post_after_more p q q' low base left e k g = record {
    tokens = g.tokens ∙ k.tokens;
    count = g.count ∙ k.count;
    mode = g.mode ∙ k.mode;
    forward = omega arith;
    inside = omega arith;
    nodes = g.nodes;
    counted = omega arith;
    scalars = g.scalars;
    available = subst (λ m. IsAvailable m e) k.mode g.available;
  }

  pub Needs-more :
      (p q : Parser) (low base : ℕ) (left : Expr) (least : ℕ) (field : Option Field) (depth : ℕ)
      → Post p low base left q
      → IsFieldOf p.mode field
      → Needs (Call.more least field depth left) q
  Needs-more p q low base left least field depth k f = (
    record { inside = omega arith; nodes = k.nodes },
    subst (λ m. IsFieldOf m field) (sym k.mode) f,
    k.scalars,
    subst (λ m. IsAvailable m left) (sym k.mode) k.available,
    omega arith,
  )

  pub join_lem :
      (m : Mode) (precedence : ℕ) (left right : Expr)
      → IsScalarExpr lib left
      → IsScalarExpr lib right
      → IsAvailable m left
      → IsAvailable m right
      → IsScalarExpr lib (join precedence left right)
        × IsAvailable m (join precedence left right)
        × (size (join precedence left right) ≡ size left + size right + 1)
  unfolding size
  join_lem m precedence left right s s' a a' = elim (Bool-cases (precedence == 1)) [
    | inl e ↦ rw e ((s, s'), (a, a'), refl)
    | inr e ↦ rw e ((s, s'), (a, a'), refl)
  ]

  -- The loop that stops where it stands.
  pub stays :
      (p : Parser) (left : Expr) (least : ℕ) (field : Option Field) (depth : ℕ)
      → Needs (Call.more least field depth left) p
      → Post p p.index (p.nodes - size left) left p
  stays p left least field depth (fits, f, s, a, c) = record {
    tokens = refl;
    count = refl;
    mode = refl;
    forward = omega arith;
    inside = fits.inside;
    nodes = fits.nodes;
    counted = omega arith;
    scalars = s;
    available = a;
  }
