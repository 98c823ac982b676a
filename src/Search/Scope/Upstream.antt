-- ===== src/Search/Scope/Upstream.antt =====
-- Queries of Reddit's search, as they are written and what they mean. What
-- crates/api/src/search/engine.rs compiles is read as one of them.
use neddit.Prelude.{
  subst, ◌≡◌, refl, sym, ap, ◌∙◌, false, ◌||◌, ◌==◌, if◌then◌else◌, List, [], ◌∷◌, ◌++◌, some, Str,
  codes, ◌⊎◌, arith,
}
use neddit.Prelude.Int.{ℤ}
use neddit.Crates.{Crates}
use neddit.Search.Truth
use neddit.Search.Truth.{Truth}
use neddit.Search.Syntax.{Field, Value, Predicate}
use neddit.Search.Record.{Datum, Record, field_or_unknown}
use neddit.Search.Eval.{text_tokens}
use neddit.Search.Eval.Direct.{text_truth, datum_truth, some_truth, field_truth, predicate_truth}
use neddit.Search.Scalars.{IsScalar}
use neddit.Search.Scope.{escape, quote, key, cover_predicate}

-- What a text is searched in.
pub data Index : Type 0 where
  anywhere subreddit author title site flair : Index

-- A text in an index, and the queries that are joined by AND and by OR.
pub data Query : Type 0 where
  atom : Index → (text : Str) → Query
  both either : Query → Query → Query

abbrev pub prefix : Index → Str
prefix Index.anywhere = []
prefix Index.subreddit = codes "subreddit:"
prefix Index.author = codes "author:"
prefix Index.title = codes "title:"
prefix Index.site = codes "site:"
prefix Index.flair = codes "flair:"

-- A quote and a backslash are written with a backslash before them.
abbrev pub escaped : Str → Str
escaped [] = []
escaped (c ∷ s) = if c == 92 || c == b'"' then 92 ∷ c ∷ escaped s else c ∷ escaped s

unfoldable pub print : Query → Str
print (atom x text) = prefix x ++ (b'"' ∷ (escaped text ++ codes "\""))
print (both q q') = codes "(" ++ (print q ++ (codes " AND " ++ (print q' ++ codes ")")))
print (either q q') = codes "(" ++ (print q ++ (codes " OR " ++ (print q' ++ codes ")")))

abbrev pub field_of : Index → Field
field_of Index.anywhere = Field.text
field_of Index.subreddit = Field.subreddit
field_of Index.author = Field.author
field_of Index.title = Field.title
field_of Index.site = Field.domain
field_of Index.flair = Field.flair

module _ (lib : Crates) where
  -- The text itself is looked for in the names, and its words in the other texts.
  abbrev pub sought : Index → Str → Value
  sought Index.subreddit text = Value.exact text
  sought Index.author text = Value.exact text
  sought Index.site text = Value.exact text
  sought x text = Value.text (text_tokens lib text)

  -- The record has the text in the index.
  abbrev pub HasText : Index → Str → Record → ℤ → Type 0
  HasText x text r frozen =
      predicate_truth lib (record { field = field_of x; raw = text; value = sought x text }) r
        frozen
      ≡ Truth.true

  abbrev pub Meets : Query → Record → ℤ → Type 0
  Meets (atom x text) r frozen = HasText x text r frozen
  Meets (both q q') r frozen = Meets q r frozen × Meets q' r frozen
  Meets (either q q') r frozen = Meets q r frozen ⊎ Meets q' r frozen

  -- The value of a field is what its key is looked for by.
  sought_key :
      (x : Index) (raw : Str) (v : Value)
      → IsScalar lib (field_of x) raw v
      → v ≡ sought x (key (record { field = field_of x; raw = raw; value = v }))
  sought_key Index.anywhere raw v h = rw h.0 refl
  sought_key Index.subreddit raw v h = rw h refl
  sought_key Index.author raw v h = rw h refl
  sought_key Index.title raw v h = rw h.0 refl
  sought_key Index.site raw v (d, h, e) = rw h refl
  sought_key Index.flair raw v h = rw h.0 refl

  -- The source text of a predicate is not read.
  module _ (f : Field) (v : Value) (raw raw' : Str) where
    abbrev at : Str → Predicate
    at t = record { field = f; raw = t; value = v }

    datum_same : (d : Datum) → datum_truth lib (at raw) d ≡ datum_truth lib (at raw') d
    unfolding datum_truth text_truth
    datum_same Datum.absent = refl
    datum_same Datum.unknown = refl
    datum_same (Datum.text s) = refl

    some_same :
        (ds : List Datum) (acc : Truth)
        → some_truth lib (at raw) ds acc ≡ some_truth lib (at raw') ds acc
    unfolding some_truth
    some_same [] acc = refl
    some_same (d ∷ ds) acc =
        rw (datum_same d) (some_same ds (Truth.or acc (datum_truth lib (at raw') d)))

    field_same : (r : Record) → field_truth lib (at raw) r ≡ field_truth lib (at raw') r
    unfolding field_truth
    field_same r = rw (datum_same (field_or_unknown r f), some_same r.text Truth.false) refl

  predicate_same :
      (f : Field) (v : Value) (raw raw' : Str) (r : Record) (frozen : ℤ)
      → predicate_truth lib (record { field = f; raw = raw; value = v }) r frozen
        ≡ predicate_truth lib (record { field = f; raw = raw'; value = v }) r frozen
  unfolding predicate_truth
  predicate_same f (Value.duration d) raw raw' r frozen = refl
  predicate_same f (Value.instant t) raw raw' r frozen = refl
  predicate_same f (Value.text ts) raw raw' r frozen = field_same f (Value.text ts) raw raw' r
  predicate_same f (Value.exact w) raw raw' r frozen = field_same f (Value.exact w) raw raw' r

  -- A predicate of an index that holds of a record is met by its key.
  pub HasText-key :
      (x : Index) (p : Predicate) (r : Record) (frozen : ℤ)
      → p.field ≡ field_of x
      → IsScalar lib p.field p.raw p.value
      → predicate_truth lib p r frozen ≡ Truth.true
      → HasText x (key p) r frozen
  HasText-key x p r frozen e s t =
      subst
        (λ f.
          IsScalar lib f p.raw p.value
          → predicate_truth lib (record { field = f; raw = p.raw; value = p.value }) r frozen
            ≡ Truth.true
          → HasText x (key p) r frozen)
        (sym e)
        (λ s t.
          sym (
            ap
              (λ v.
                predicate_truth lib (record { field = field_of x; raw = key p; value = v }) r
                  frozen)
              (sought_key x p.raw p.value s))
          ∙ (predicate_same (field_of x) p.value (key p) p.raw r frozen ∙ t))
        s t

escape-escape : (s : Str) → escape b'"' (escape 92 s) ≡ escaped s
unfolding escape
escape-escape [] = refl
escape-escape (c ∷ s) = ground (arith, escape-escape s)

pub quote-escaped : (s : Str) → quote s ≡ b'"' ∷ (escaped s ++ codes "\"")
unfolding quote
quote-escaped s = rw (escape-escape s) refl

-- The field of a predicate that is sent has an index, with the name of the field.
pub sent_index :
    (p : Predicate) (s : Str)
    → cover_predicate p false ≡ some s
    → (x : Index) × (p.field ≡ field_of x) × (s ≡ prefix x ++ quote (key p))
unfolding cover_predicate
sent_index p s h = go p.field refl
  where
    go :
        (f : Field)
        → p.field ≡ f
        → (x : Index) × (p.field ≡ field_of x) × (s ≡ prefix x ++ quote (key p))
    go Field.text e = (Index.anywhere, e, ground arith)
    go Field.subreddit e = (Index.subreddit, e, ground arith)
    go Field.author e = (Index.author, e, ground arith)
    go Field.title e = (Index.title, e, ground arith)
    go Field.domain e = (Index.site, e, ground arith)
    go Field.flair e = (Index.flair, e, ground arith)
    go _ e = absurd (ground arith)
