-- ===== src/Search/Eval/Information.antt =====
-- More metadata never overturns a decided predicate: `Expr::evaluate` of
-- crates/api/src/search/mod.rs is monotone in what is known of the record. Hydration with parent
-- posts rests on this.
use neddit.Prelude.{◌≡◌, List, [], ◌∷◌, none, Bool-cases, inl, inr, ◌⊎◌}
use neddit.Prelude.Int.{ℤ}
use neddit.Crates.{Crates}
use neddit.Search.Truth
use neddit.Search.Truth.{Truth, ◌⊑◌, not_mono, and_mono, or_mono, ⊑-true, ⊑-false}
use neddit.Search.Syntax.{Field, Value, Predicate, Expr, field_eq}
use neddit.Search.Record.{Datum, Record, field_or_unknown}
use neddit.Search.Eval.{during, since, evaluate}
use neddit.Search.Eval.Direct.{datum_truth, some_truth, field_truth, predicate_truth, truth}
use neddit.Search.Eval.Caching.{evaluate-eq-truth}

-- The second datum says at least what the first says.
infix 40 ◌≼◌ ◌≼*◌
abbrev pub ◌≼◌ : Datum → Datum → Type 0
Datum.unknown ≼ d = Unit
Datum.absent ≼ d = d ≡ Datum.absent
Datum.text s ≼ d = d ≡ Datum.text s

abbrev pub ◌≼*◌ : List Datum → List Datum → Type 0
[] ≼* [] = Unit
[] ≼* (e ∷ es) = ⊥
(d ∷ ds) ≼* [] = ⊥
(d ∷ ds) ≼* (e ∷ es) = (d ≼ e) × (ds ≼* es)

-- The second record says at least what the first says, field by field.
pub record Informs (r r' : Record) : Type 0 where
  pub fields : (f : Field) → field_or_unknown r f ≼ field_or_unknown r' f
  pub text : r.text ≼* r'.text
  pub created : (r.created ≡ none) ⊎ (r'.created ≡ r.created)

module _ (lib : Crates) where
  datum_mono : (p : Predicate) (d e : Datum) → d ≼ e → datum_truth lib p d ⊑ datum_truth lib p e
  unfolding datum_truth
  datum_mono p Datum.unknown e h = Truth.open_value (datum_truth lib p e)
  datum_mono p Datum.absent e h = rw h (Truth.same Truth.false)
  datum_mono p (Datum.text s) e h = rw h (Truth.same (datum_truth lib p (Datum.text s)))

  some_mono :
      (p : Predicate) (ds es : List Datum) {t u : Truth}
      → ds ≼* es
      → t ⊑ u
      → some_truth lib p ds t ⊑ some_truth lib p es u
  unfolding some_truth
  some_mono p [] [] h k = k
  some_mono p [] (e ∷ es) h k = absurd h
  some_mono p (d ∷ ds) [] h k = absurd h
  some_mono p (d ∷ ds) (e ∷ es) h k = some_mono p ds es h.1 (or_mono k (datum_mono p d e h.0))

  module _ {r r' : Record} (h : Informs r r') (frozen : ℤ) where
    field_mono : (p : Predicate) → field_truth lib p r ⊑ field_truth lib p r'
    unfolding field_truth
    field_mono p = elim (Bool-cases (field_eq p.field Field.text)) [
      | inl e ↦ rw e (some_mono p r.text r'.text h.text (Truth.same Truth.false))
      | inr e ↦ rw e (
          datum_mono p (field_or_unknown r p.field) (field_or_unknown r' p.field)
            (h.fields p.field))
    ]

    during_mono : (d : ℤ) → during frozen d r.created ⊑ during frozen d r'.created
    unfolding during
    during_mono d = elim h.created [
      | inl e ↦ rw e (Truth.open_value (during frozen d r'.created))
      | inr e ↦ rw e (Truth.same (during frozen d r.created))
    ]

    since_mono : (f : Field) (t : ℤ) → since f t r.created ⊑ since f t r'.created
    unfolding since
    since_mono f t = elim h.created [
      | inl e ↦ rw e (Truth.open_value (since f t r'.created))
      | inr e ↦ rw e (Truth.same (since f t r.created))
    ]

    predicate_mono :
        (p : Predicate) → predicate_truth lib p r frozen ⊑ predicate_truth lib p r' frozen
    unfolding predicate_truth
    predicate_mono p = go p.value
      where
        go :
            (v : Value)
            → (elim v [
              | Value.duration d ↦ during frozen d r.created
              | Value.instant t ↦ since p.field t r.created
              | Value.text tokens ↦ field_truth lib p r
              | Value.exact v ↦ field_truth lib p r
            ])
              ⊑ (elim v [
                | Value.duration d ↦ during frozen d r'.created
                | Value.instant t ↦ since p.field t r'.created
                | Value.text tokens ↦ field_truth lib p r'
                | Value.exact v ↦ field_truth lib p r'
              ])
        go (Value.duration d) = during_mono d
        go (Value.instant t) = since_mono p.field t
        go (Value.text tokens) = field_mono p
        go (Value.exact v) = field_mono p

    truth_mono : (e : Expr) → truth lib e r frozen ⊑ truth lib e r' frozen
    unfolding truth
    truth_mono (Expr.predicate p _) = predicate_mono p
    truth_mono (Expr.not e _) = not_mono (truth_mono e)
    truth_mono (Expr.and a b _) = and_mono (truth_mono a) (truth_mono b)
    truth_mono (Expr.or a b _) = or_mono (truth_mono a) (truth_mono b)

    -- For records of which the second says at least what the first says, an expression that is
    -- true of the first is true of the second, and one that is false of the first is false of
    -- the second.
    pub evaluate_decided :
        (e : Expr)
        → (evaluate lib e r frozen ≡ Truth.true → evaluate lib e r' frozen ≡ Truth.true)
          × (evaluate lib e r frozen ≡ Truth.false → evaluate lib e r' frozen ≡ Truth.false)
    evaluate_decided e =
        simp evaluate-eq-truth (λ t. ⊑-true (truth_mono e) t, λ f. ⊑-false (truth_mono e) f)
