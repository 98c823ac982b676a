-- ===== src/Search/Scope/Asked.antt =====
-- What a plan asks of Reddit, and which records are among it: `Plan` of
-- crates/api/src/search/engine.rs.
use neddit.Prelude.{◌≡◌, refl, sym, ap, ◌∙◌, subst, List, Str, ◌⊎◌}
use neddit.Prelude.Int.{ℤ}
use neddit.Crates.{Crates}
use neddit.Search.Truth.{Truth}
use neddit.Search.Syntax.{Field, Value, Expr}
use neddit.Search.Record.{Record}
use neddit.Search.Eval.{text_tokens, evaluate}
use neddit.Search.Eval.Direct.{predicate_truth}
use neddit.Search.Scalars.{IsScalar}
use neddit.Search.Request.{Plan}
use neddit.Search.Scope.{key}
use neddit.Search.Scope.Upstream.{Query, print, Meets}
use neddit.Search.Scope.Required.{Names, Holds}
use neddit.Search.Scope.Names.{Named}

-- What is asked of Reddit: a query, the history of an author or a community, the communities
-- with a text, or those with a name.
pub data Upstream : Type 0 where
  query : Query → Upstream
  history : Field → Str → Upstream
  mentioning : Str → Upstream
  communities : List Str → Upstream

-- The plan that asks it.
abbrev pub asked : Upstream → Plan
asked (Upstream.query u) = Plan.posts (print u)
asked (Upstream.history f v) = Plan.comments f v
asked (Upstream.mentioning s) = Plan.communities s
asked (Upstream.communities vs) = Plan.names vs

module _ (lib : Crates) where
  -- The words of a text are in a text of the record, in its title or in its description.
  abbrev pub Mentions : Str → Record → ℤ → Type 0
  Mentions s r frozen = In Field.text ⊎ In Field.title ⊎ In Field.description
    where
      In : Field → Type 0
      In f =
          predicate_truth lib
            (record { field = f; raw = s; value = Value.text (text_tokens lib s) }) r frozen
          ≡ Truth.true

  -- The record is among what is asked for.
  abbrev pub Reaches : Upstream → Record → ℤ → Type 0
  Reaches (Upstream.query u) r frozen = Meets lib u r frozen
  Reaches (Upstream.history f v) r frozen = Names lib r frozen f v
  Reaches (Upstream.mentioning s) r frozen = Mentions s r frozen
  Reaches (Upstream.communities vs) r frozen = Named lib r frozen vs

  -- A plan reaches all records that the expression is true of.
  pub record IsReaching (e : Expr) (p : Plan) : Type 0 where
    pub upstream : Upstream
    pub plan : asked upstream ≡ p
    pub reaches :
        (r : Record) (frozen : ℤ) → evaluate lib e r frozen ≡ Truth.true → Reaches upstream r frozen

  abbrev pub IsText : Field → Type 0
  IsText Field.text = Unit
  IsText Field.title = Unit
  IsText Field.description = Unit
  IsText _ = ⊥

  text_scalar :
      (f : Field) (raw : Str) (v : Value)
      → IsText f
      → IsScalar lib f raw v
      → (v ≡ Value.text (text_tokens lib raw))
        × (key (record { field = f; raw = raw; value = v }) ≡ raw)
  text_scalar Field.text raw v i h = (h.0, rw h.0 refl)
  text_scalar Field.title raw v i h = (h.0, rw h.0 refl)
  text_scalar Field.description raw v i h = (h.0, rw h.0 refl)
  text_scalar _ raw v i h = absurd i

  pub scalar_text :
      (f : Field) (q : Str) (r : Record) (frozen : ℤ)
      → IsText f
      → Holds lib r frozen f q
      → predicate_truth lib
          (record { field = f; raw = q; value = Value.text (text_tokens lib q) })
          r
          frozen
        ≡ Truth.true
  scalar_text f q r frozen i h =
      go h.predicate.field h.predicate.raw h.predicate.value h.at_field h.at_key h.is_scalar
        h.is_true
    where
      go :
          (g : Field) (raw : Str) (v : Value)
          → g ≡ f
          → key (record { field = g; raw = raw; value = v }) ≡ q
          → IsScalar lib g raw v
          → predicate_truth lib (record { field = g; raw = raw; value = v }) r frozen ≡ Truth.true
          → predicate_truth lib
              (record { field = f; raw = q; value = Value.text (text_tokens lib q) })
              r
              frozen
            ≡ Truth.true
      go g raw v same k sc t =
          let (is, named) = text_scalar g raw v (subst IsText (sym same) i) sc in
          let at : raw ≡ q = sym named ∙ k in
          subst (λ w. predicate_truth lib w r frozen ≡ Truth.true)
            (λ j. record {
              field = same j;
              raw = at j;
              value = (is ∙ ap (λ u. Value.text (text_tokens lib u)) at) j;
            })
            t
