-- ===== src/Feed/Ranking.antt =====
-- The ranking expressions of crates/api/src/feed/ranking.rs: `Expr`, `Field`, `Function`, and
-- `Program::evaluate`. The `f64` of the hardware is a type with the operations that the code uses.
-- An index out of bounds panics, which is `none` here.
pub mod Reader
pub mod Grammar
pub mod Values
use neddit.Prelude.{
  ℕ, zero, suc, Bool, true, false, if◌then◌else◌, List, [], ◌∷◌, get_elem?, Option, none, some, Str,
  codes, str_eq,
}
use neddit.Prelude.Int.{ℤ, pos}
use neddit.Crates.{Crates}
use neddit.Search.Truth.{Truth}
use neddit.Search.Syntax
use neddit.Search.Syntax.{Diagnostic, diagnostic, Result, ok, err, invalid_rank_result}
use neddit.Search.Record.{Record}
use neddit.Search.Eval.{evaluate}

-- The operations of `f64`, with `parse` for `str::parse`.
pub record Floats (F : Type 0) : Type 0 where
  pub add : F → F → F
  pub sub : F → F → F
  pub mul : F → F → F
  pub div : F → F → F
  pub min : F → F → F
  pub max : F → F → F
  pub neg : F → F
  pub abs : F → F
  pub signum : F → F
  pub sqrt : F → F
  pub ln : F → F
  pub ln_1p : F → F
  pub log10 : F → F
  pub one : F
  pub zero : F
  pub from_int : ℤ → F
  pub is_finite : F → Bool
  pub parse : Str → Option F

pub data Binary : Type 0 where
  add subtract multiply divide : Binary

pub data Field : Type 0 where
  score upvote_ratio comments created_utc frozen_at age_seconds age_hours source_rank : Field
  awards crossposts score_hidden is_self over_18 spoiler stickied pinned locked archived : Field

pub data Function : Type 0 where
  abs sign sqrt ln log1p log10 min max : Function

mutual
  pub data Expr (F : Type 0) : Type 0 where
    number : F → Expr F
    field : Field → Expr F
    negate : Expr F → Expr F
    binary : Binary → Expr F → Expr F → Expr F
    call : Function → Exprs F → Expr F
    ql : Syntax.Expr → Expr F

  pub data Exprs (F : Type 0) : Type 0 where
    nil : Exprs F
    cons : Expr F → Exprs F → Exprs F

pub record Signals (F : Type 0) : Type 0 where
  pub score : ℤ
  pub upvote_ratio : F
  pub created_utc : F
  pub frozen_at : F
  pub age_seconds : F
  pub age_hours : F
  pub comments : ℕ
  pub source_rank : ℕ
  pub awards : ℕ
  pub crossposts : ℕ
  pub score_hidden : Bool
  pub is_self : Bool
  pub over_18 : Bool
  pub spoiler : Bool
  pub stickied : Bool
  pub pinned : Bool
  pub locked : Bool
  pub archived : Bool

-- `Function::arity`
abbrev pub arity : Function → ℕ
arity Function.min = 2
arity Function.max = 2
arity _ = 1

-- `Function::parse`
unfoldable pub function_of : Str → Option Function
function_of value =
    if str_eq value (codes "abs")
    then some Function.abs
    else if str_eq value (codes "sign")
    then some Function.sign
    else if str_eq value (codes "sqrt")
    then some Function.sqrt
    else if str_eq value (codes "ln")
    then some Function.ln
    else if str_eq value (codes "log1p")
    then some Function.log1p
    else if str_eq value (codes "log10")
    then some Function.log10
    else if str_eq value (codes "min")
    then some Function.min
    else if str_eq value (codes "max")
    then some Function.max
    else none

abbrev named : Str → List (Str × Field) → Option Field
named value [] = none
named value (p ∷ l) = let rest = named value l in if str_eq value p.0 then some p.1 else rest

-- `Field::parse`
unfoldable pub field_of : Str → Option Field
field_of value = named value (
    (codes "score", Field.score)
    ∷ (codes "upvote_ratio", Field.upvote_ratio)
    ∷ (codes "comments", Field.comments)
    ∷ (codes "created_utc", Field.created_utc)
    ∷ (codes "frozen_at", Field.frozen_at)
    ∷ (codes "age_seconds", Field.age_seconds)
    ∷ (codes "age_hours", Field.age_hours)
    ∷ (codes "source_rank", Field.source_rank)
    ∷ (codes "awards", Field.awards)
    ∷ (codes "crossposts", Field.crossposts)
    ∷ (codes "score_hidden", Field.score_hidden)
    ∷ (codes "is_self", Field.is_self)
    ∷ (codes "over_18", Field.over_18)
    ∷ (codes "spoiler", Field.spoiler)
    ∷ (codes "stickied", Field.stickied)
    ∷ (codes "pinned", Field.pinned)
    ∷ (codes "locked", Field.locked)
    ∷ (codes "archived", Field.archived)
    ∷ [])

module _ (F : Type 0) (f : Floats F) where
  -- `boolean`
  abbrev pub boolean : Bool → F
  boolean b = if b then f.one else f.zero

  -- `Field::value`
  unfoldable pub field_value : Field → Signals F → F
  field_value Field.score s = f.from_int s.score
  field_value Field.upvote_ratio s = s.upvote_ratio
  field_value Field.comments s = f.from_int (pos s.comments)
  field_value Field.created_utc s = s.created_utc
  field_value Field.frozen_at s = s.frozen_at
  field_value Field.age_seconds s = s.age_seconds
  field_value Field.age_hours s = s.age_hours
  field_value Field.source_rank s = f.from_int (pos s.source_rank)
  field_value Field.awards s = f.from_int (pos s.awards)
  field_value Field.crossposts s = f.from_int (pos s.crossposts)
  field_value Field.score_hidden s = boolean s.score_hidden
  field_value Field.is_self s = boolean s.is_self
  field_value Field.over_18 s = boolean s.over_18
  field_value Field.spoiler s = boolean s.spoiler
  field_value Field.stickied s = boolean s.stickied
  field_value Field.pinned s = boolean s.pinned
  field_value Field.locked s = boolean s.locked
  field_value Field.archived s = boolean s.archived

  abbrev pub apply : Binary → F → F → F
  apply Binary.add x y = f.add x y
  apply Binary.subtract x y = f.sub x y
  apply Binary.multiply x y = f.mul x y
  apply Binary.divide x y = f.div x y

  abbrev pub map_some : (F → F) → Option F → Option F
  map_some g none = none
  map_some g (some x) = some (g x)

  abbrev pub map_both : (F → F → F) → Option F → Option F → Option F
  map_both g (some x) (some y) = some (g x y)
  map_both g (some x) none = none
  map_both g none o = none

  -- The arms of `Self::Call`, from the values of the arguments: those of the second are asked for
  -- by `min` and `max` only.
  abbrev pub applied : Function → Option F → Option F → Option F
  applied Function.abs x y = map_some f.abs x
  applied Function.sign x y = map_some f.signum x
  applied Function.sqrt x y = map_some f.sqrt x
  applied Function.ln x y = map_some f.ln x
  applied Function.log1p x y = map_some f.ln_1p x
  applied Function.log10 x y = map_some f.log10 x
  applied Function.min x y = map_both f.min x y
  applied Function.max x y = map_both f.max x y

  -- `values[i]`
  abbrev pub at : List (Option F) → ℕ → Option F
  at [] i = none
  at (v ∷ vs) zero = v
  at (v ∷ vs) (suc i) = at vs i

  abbrev is_true : Truth → Bool
  is_true Truth.true = true
  is_true Truth.false = false
  is_true Truth.unknown = false

  -- The test on a value; a panic is passed on.
  abbrev pub checked : ℕ → Option F → Option (Result F)
  checked length none = none
  checked length (some v) =
      some (if f.is_finite v then ok v else err (diagnostic invalid_rank_result (0, length)))

  module _ (lib : Crates) (signals : Signals F) (record' : Record) (frozen : ℤ) where
    -- `Expr::evaluate`
    mutual
      pub value_of : Expr F → Option F
      value_of (Expr.number x) = some x
      value_of (Expr.field g) = some (field_value g signals)
      value_of (Expr.negate e) = map_some f.neg (value_of e)
      value_of (Expr.binary op a b) = map_both (apply op) (value_of a) (value_of b)
      value_of (Expr.call g es) = applied g (at (values_of es) 0) (at (values_of es) 1)
      value_of (Expr.ql e) = some (boolean (is_true (evaluate lib e record' frozen)))

      pub values_of : Exprs F → List (Option F)
      values_of Exprs.nil = []
      values_of (Exprs.cons e es) = value_of e ∷ values_of es

    -- `Program::evaluate`, of a program with a length; the outer option is a panic.
    unfoldable pub evaluate_program : Expr F → ℕ → Option (Result F)
    evaluate_program e length = checked length (value_of e)
