-- ===== src/Feed/Ranking/Values.antt =====
-- The evaluation of a parsed ranking expression of crates/api/src/feed/ranking.rs does not panic.
use neddit.Prelude.{ℕ, zero, suc, ◌<◌, ◌≡◌, refl, Option, none, some, arith, Str}
use neddit.Prelude.Int.{ℤ}
use neddit.Crates.{Crates}
use neddit.Search.Syntax.{Result, ok}
use neddit.Search.Record.{Record}
use neddit.Feed.Ranking.{
  Floats, Function, Expr, Exprs, Signals, arity, at, applied, map_some, map_both, apply, checked,
  value_of, values_of, evaluate_program,
}
use neddit.Feed.Ranking.Grammar.{count, parse_program}
use neddit.Feed.Ranking.Grammar.Got.{IsCallable, AreCallable}
use neddit.Feed.Ranking.Grammar.Total.{parse_program-IsProgram}

abbrev IsSome : {A : Type 0} → Option A → Type 0
IsSome none = ⊥
IsSome (some x) = Unit

module _ {F : Type 0} (f : Floats F) (lib : Crates) (s : Signals F) (r : Record) (frozen : ℤ) where
  map_both-IsSome :
      (g : F → F → F) (x y : Option F) → IsSome x → IsSome y → IsSome (map_both F f g x y)
  map_both-IsSome g (some x) (some y) h k = tt
  map_both-IsSome g (some x) none h k = k
  map_both-IsSome g none y h k = h

  map_some-IsSome : (g : F → F) (x : Option F) → IsSome x → IsSome (map_some F f g x)
  map_some-IsSome g (some x) h = tt
  map_some-IsSome g none h = h

  -- A function of the right number of arguments has the values that it asks for.
  applied-IsSome :
      (g : Function) (n : ℕ) (x y : Option F)
      → n ≡ arity g
      → (0 < n → IsSome x)
      → (1 < n → IsSome y)
      → IsSome (applied F f g x y)
  applied-IsSome Function.abs n x y e h k = map_some-IsSome f.abs x (h (omega arith))
  applied-IsSome Function.sign n x y e h k = map_some-IsSome f.signum x (h (omega arith))
  applied-IsSome Function.sqrt n x y e h k = map_some-IsSome f.sqrt x (h (omega arith))
  applied-IsSome Function.ln n x y e h k = map_some-IsSome f.ln x (h (omega arith))
  applied-IsSome Function.log1p n x y e h k = map_some-IsSome f.ln_1p x (h (omega arith))
  applied-IsSome Function.log10 n x y e h k = map_some-IsSome f.log10 x (h (omega arith))
  applied-IsSome Function.min n x y e h k =
      map_both-IsSome f.min x y (h (omega arith)) (k (omega arith))
  applied-IsSome Function.max n x y e h k =
      map_both-IsSome f.max x y (h (omega arith)) (k (omega arith))

  checked-some : (n : ℕ) (x : Option F) → IsSome x → (v : Result F) × (checked F f n x ≡ some v)
  checked-some n none h = absurd h
  checked-some n (some x) h = (_, refl)

  mutual
    unfolding value_of values_of IsCallable AreCallable

    value_of-IsSome : (e : Expr F) → IsCallable e → IsSome (value_of F f lib s r frozen e)
    value_of-IsSome (Expr.number x) c = tt
    value_of-IsSome (Expr.field g) c = tt
    value_of-IsSome (Expr.negate e) c =
        map_some-IsSome f.neg (value_of F f lib s r frozen e) (value_of-IsSome e c)
    value_of-IsSome (Expr.binary op a b) c =
        map_both-IsSome (apply F f op) (value_of F f lib s r frozen a)
          (value_of F f lib s r frozen b) (value_of-IsSome a c.0) (value_of-IsSome b c.1)
    value_of-IsSome (Expr.call g es) c =
        let vs = values_of F f lib s r frozen es in
        applied-IsSome g (count es) (at F f vs 0) (at F f vs 1) c.0 (values_of-IsSome es c.1 0)
          (values_of-IsSome es c.1 1)
    value_of-IsSome (Expr.ql e) c = tt

    values_of-IsSome :
        (es : Exprs F)
        → AreCallable es
        → (i : ℕ) → i < count es
        → IsSome (at F f (values_of F f lib s r frozen es) i)
    values_of-IsSome Exprs.nil c i lt = absurd (omega arith)
    values_of-IsSome (Exprs.cons e es) c zero lt = value_of-IsSome e c.0
    values_of-IsSome (Exprs.cons e es) c (suc i) lt = values_of-IsSome es c.1 i (omega arith)

  -- A ranking expression that is parsed can be evaluated for all signals and posts: no index into
  -- the arguments of a function is out of bounds.
  pub evaluate_program_lem :
      (source : Str) (e : Expr F) (n : ℕ)
      → parse_program f lib source ≡ ok (e, n)
      → (v : Result F) × (evaluate_program F f lib s r frozen e n ≡ some v)
  unfolding evaluate_program
  evaluate_program_lem source e n h =
      let p = rw h at (parse_program-IsProgram f lib source) in
      checked-some n (value_of F f lib s r frozen e) (value_of-IsSome e p.0)
