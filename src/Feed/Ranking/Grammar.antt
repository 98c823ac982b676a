-- ===== src/Feed/Ranking/Grammar.antt =====
-- The parser of ranking expressions of crates/api/src/feed/ranking.rs. Its functions call one
-- another, so they are one function of a `Call`, on fuel; a loop of the source is a call that
-- holds what the loop has so far.
pub mod Got
pub mod Operators
pub mod Operands
pub mod Total
use neddit.Prelude.{
  ℕ, zero, suc, ◌+◌, ◌*◌, Bool, true, false, not, ◌&&◌, ◌||◌, ◌==◌, ltb, if◌then◌else◌, List, [],
  ◌∷◌, length, Option, none, some, Str, codes, str_eq, len, len_utf8, is_ascii_digit,
  is_ascii_alphabetic,
}
use neddit.Crates.{Crates}
use neddit.Search.Syntax
use neddit.Search.Syntax.{
  Mode, Code, Diagnostic, diagnostic, Result, ok, err, ◌>>=◌, invalid_rank, rank_too_complex,
  unknown_rank_field, unknown_rank_function, invalid_rank_ql, out_of_fuel,
}
use neddit.Search.Parser.{parse}
use neddit.Feed.Ranking.{Floats, Binary, Field, Function, Expr, Exprs, arity, function_of, field_of}
use neddit.Feed.Ranking.Reader.{Rest, skip, next_end, name, number, string}

abbrev pub max_nodes : ℕ
max_nodes = 128

abbrev pub max_depth : ℕ
max_depth = 16

-- `Parser`, with the rest of the source from its position on.
pub record Cursor : Type 0 where
  pub rest : Str
  pub position : ℕ
  pub nodes : ℕ

pub data Call (F : Type 0) : Type 0 where
  expression : ℕ → Call F
  sums : ℕ → Expr F → Call F
  term : ℕ → Call F
  products : ℕ → Expr F → Call F
  unary : ℕ → Call F
  primary : ℕ → Call F
  arguments : (start depth : ℕ) → Function → Exprs F → Call F

-- `Parser::whitespace`
abbrev pub skipped : Cursor → Cursor
skipped p = let (s, i) = skip p.rest p.position in record p { rest = s; position = i }

abbrev pub moved : Cursor → Str → ℕ → Cursor
moved p s i = record p { rest = s; position = i }

abbrev pub Calls : Type 0 → Type 0
Calls F = Call F → Cursor → Result (Expr F × Cursor)

module _ {F : Type 0} where
  abbrev pub push : Exprs F → Expr F → Exprs F
  push Exprs.nil e = Exprs.cons e Exprs.nil
  push (Exprs.cons d es) e = Exprs.cons d (push es e)

  abbrev pub count : Exprs F → ℕ
  count Exprs.nil = 0
  count (Exprs.cons e es) = suc (count es)

module _ {F : Type 0} (total : ℕ) where
  -- `Parser::node`
  unfoldable pub node : Expr F → ℕ → Cursor → Result (Expr F × Cursor)
  node e depth p =
      if ltb max_nodes (p.nodes + 1)
      then err (diagnostic rank_too_complex (0, total))
      else if ltb max_depth depth
      then err (diagnostic rank_too_complex (0, total))
      else ok (e, record p { nodes = p.nodes + 1 })

  -- The body of the loop of `expression`, at an operator.
  summed : Calls F → ℕ → Binary → Expr F → Cursor → Result (Expr F × Cursor)
  unfolding node
  summed k depth op left p = do
    (right, p') ← k (Call.term (depth + 1)) p
    (e, p'') ← node (Expr.binary op left right) depth p'
    k (Call.sums depth e) p''

  pub sums_body : Calls F → ℕ → Expr F → Str → Cursor → Result (Expr F × Cursor)
  unfolding summed
  sums_body k depth left [] p = ok (left, p)
  sums_body k depth left (c ∷ s) p =
      if c == b'+'
      then summed k depth Binary.add left (moved p s (p.position + 1))
      else if c == b'-'
      then summed k depth Binary.subtract left (moved p s (p.position + 1))
      else ok (left, p)

  -- The body of the loop of `term`, at an operator.
  multiplied : Calls F → ℕ → Binary → Expr F → Cursor → Result (Expr F × Cursor)
  unfolding node
  multiplied k depth op left p = do
    (right, p') ← k (Call.unary (depth + 1)) p
    (e, p'') ← node (Expr.binary op left right) depth p'
    k (Call.products depth e) p''

  pub products_body : Calls F → ℕ → Expr F → Str → Cursor → Result (Expr F × Cursor)
  unfolding multiplied
  products_body k depth left [] p = ok (left, p)
  products_body k depth left (c ∷ s) p =
      if c == b'*'
      then multiplied k depth Binary.multiply left (moved p s (p.position + 1))
      else if c == b'/'
      then multiplied k depth Binary.divide left (moved p s (p.position + 1))
      else ok (left, p)

  negated : Calls F → ℕ → Cursor → Result (Expr F × Cursor)
  unfolding node
  negated k depth p = do
    (value, p') ← k (Call.unary (depth + 1)) p
    node (Expr.negate value) depth p'

  pub unary_body : Calls F → ℕ → Str → Cursor → Result (Expr F × Cursor)
  unfolding negated
  unary_body k depth [] p = k (Call.primary (depth + 1)) p
  unary_body k depth (c ∷ s) p =
      if c == b'+'
      then k (Call.unary (depth + 1)) (moved p s (p.position + 1))
      else if c == b'-'
      then negated k depth (moved p s (p.position + 1))
      else k (Call.primary (depth + 1)) p

  -- The end of a group that opened at a cursor.
  closed : Cursor → Expr F → Str → Cursor → Result (Expr F × Cursor)
  closed start e [] p =
      err (diagnostic invalid_rank (start.position, next_end start.rest start.position))
  closed start e (c ∷ s) p =
      if c == b')'
      then ok (e, moved p s (p.position + 1))
      else err (diagnostic invalid_rank (start.position, next_end start.rest start.position))

  group : Calls F → ℕ → Cursor → Cursor → Result (Expr F × Cursor)
  unfolding closed
  group k depth start p = do
    (e, p') ← k (Call.expression (depth + 1)) p
    (let q = skipped p' in closed start e q.rest q)

  -- The call, when its arguments are read.
  called : ℕ → ℕ → Function → Exprs F → Cursor → Result (Expr F × Cursor)
  unfolding node
  called start depth g es p =
      if not (count es == arity g)
      then err (diagnostic invalid_rank (start, p.position))
      else node (Expr.call g es) depth p

  -- The loop over the arguments, behind one.
  separated : Calls F → ℕ → ℕ → Function → Exprs F → Str → Cursor → Result (Expr F × Cursor)
  unfolding called
  separated k start depth g es [] p = err (diagnostic invalid_rank (p.position, p.position))
  separated k start depth g es (c ∷ s) p =
      if c == b','
      then k (Call.arguments start depth g es) (moved p s (p.position + 1))
      else if c == b')'
      then called start depth g es (moved p s (p.position + 1))
      else err (diagnostic invalid_rank (p.position, p.position + len_utf8 c))

  argument : Calls F → ℕ → ℕ → Function → Exprs F → Cursor → Result (Expr F × Cursor)
  unfolding separated
  argument k start depth g es p = do
    (e, p') ← k (Call.expression (depth + 1)) p
    (let q = skipped p' in separated k start depth g (push es e) q.rest q)

  pub arguments_body :
      Calls F → ℕ → ℕ → Function → Exprs F → Str → Cursor → Result (Expr F × Cursor)
  unfolding argument called
  arguments_body k start depth g es [] p = argument k start depth g es p
  arguments_body k start depth g es (c ∷ s) p =
      if c == b')'
      then called start depth g es (moved p s (p.position + 1))
      else argument k start depth g es p

  field_node : ℕ → ℕ → Option Field → Cursor → Result (Expr F × Cursor)
  unfolding node
  field_node start depth none p = err (diagnostic unknown_rank_field (start, p.position))
  field_node start depth (some g) p = node (Expr.field g) depth p

  -- Behind the opening parenthesis of a call, at the position `i`.
  function_call : Calls F → ℕ → ℕ → Option Function → ℕ → Cursor → Result (Expr F × Cursor)
  function_call k start depth none i p = err (diagnostic unknown_rank_function (start, i))
  function_call k start depth (some g) i p = k (Call.arguments start depth g Exprs.nil) p

  module _ (f : Floats F) (lib : Crates) where
    parsed_ql : ℕ → ℕ → Result Syntax.Expr → Cursor → Result (Expr F × Cursor)
    unfolding node
    parsed_ql start depth (err d) p = err (diagnostic invalid_rank_ql (start, p.position))
    parsed_ql start depth (ok e) p = node (Expr.ql e) depth p

    ql_closed : ℕ → ℕ → ℕ → Str → Str → Cursor → Result (Expr F × Cursor)
    unfolding parsed_ql
    ql_closed start at depth text [] p = err (diagnostic invalid_rank (start, p.position))
    ql_closed start at depth text (c ∷ s) p =
        if c == b')'
        then parsed_ql at depth (parse lib text Mode.posts) (moved p s (p.position + 1))
        else err (diagnostic invalid_rank (start, p.position + len_utf8 c))

    -- `Parser::ql`, behind the opening parenthesis.
    ql : ℕ → ℕ → Cursor → Result (Expr F × Cursor)
    unfolding ql_closed
    ql start depth p =
        let q = skipped p in
        do
          (text, s, i) ← string total q.rest q.position
          (let q' = skipped (moved q s i) in ql_closed start q.position depth text q'.rest q')

    -- `Parser::identifier`, behind the name, which ends before `p`.
    named : Calls F → ℕ → ℕ → Str → Str → Cursor → Result (Expr F × Cursor)
    unfolding ql function_call field_node
    named k start depth word [] p = field_node start depth (field_of word) p
    named k start depth word (c ∷ s) p =
        if not (c == b'(')
        then field_node start depth (field_of word) p
        else if str_eq word (codes "ql")
        then ql start depth (moved p s (p.position + 1))
        else function_call k start depth (function_of word) p.position (moved p s (p.position + 1))

    identifier : Calls F → ℕ → Cursor → Result (Expr F × Cursor)
    unfolding named
    identifier k depth p =
        let (word, s, i) = name p.rest p.position in
        let q = skipped (moved p s i) in named k p.position depth word q.rest q

    number_node : ℕ → Cursor → Result (Expr F × Cursor)
    unfolding node
    number_node depth p = do
      (x, s, i) ← number f p.rest p.position
      node (Expr.number x) depth (moved p s i)

    pub primary_body : Calls F → ℕ → Str → Cursor → Result (Expr F × Cursor)
    unfolding group number_node identifier
    primary_body k depth [] p = err (diagnostic invalid_rank (p.position, p.position))
    primary_body k depth (c ∷ s) p =
        if c == b'('
        then group k depth p (moved p s (p.position + 1))
        else if is_ascii_digit c || c == b'.'
        then number_node depth p
        else if is_ascii_alphabetic c || c == b'_'
        then identifier k depth p
        else err (diagnostic invalid_rank (p.position, p.position + len_utf8 c))

    -- The functions of `Parser`, with the calls that they make.
    pub body : Calls F → Call F → Cursor → Result (Expr F × Cursor)
    unfolding sums_body products_body unary_body primary_body arguments_body
    body k (Call.expression depth) p = do
      (left, p') ← k (Call.term (depth + 1)) p
      k (Call.sums depth left) p'
    body k (Call.sums depth left) p = let q = skipped p in sums_body k depth left q.rest q
    body k (Call.term depth) p = do
      (left, p') ← k (Call.unary (depth + 1)) p
      k (Call.products depth left) p'
    body k (Call.products depth left) p = let q = skipped p in products_body k depth left q.rest q
    body k (Call.unary depth) p = let q = skipped p in unary_body k depth q.rest q
    body k (Call.primary depth) p = let q = skipped p in primary_body k depth q.rest q
    body k (Call.arguments start depth g es) p =
        let q = skipped p in arguments_body k start depth g es q.rest q

    unfoldable pub run : ℕ → Call F → Cursor → Result (Expr F × Cursor)
    unfolding body
    run zero call p = err (diagnostic out_of_fuel (0, 0))
    run (suc fuel) call p = body (run fuel) call p

    -- The end of the source, or an unexpected token.
    ended : Expr F → Str → ℕ → Result (Expr F)
    ended e [] i = ok e
    ended e (c ∷ s) i = err (diagnostic invalid_rank (i, i + len_utf8 c))

    started : Cursor → Str → Result (Expr F)
    unfolding run ended
    started p [] = err (diagnostic invalid_rank (0, total))
    started p (c ∷ s) = do
      (e, q) ← run (8 * length p.rest + 7) (Call.expression 0) p
      (let q' = skipped q in ended e q'.rest q'.position)

-- `Program::parse`; a program is its expression and the length of its source.
unfoldable pub parse_program : {F : Type 0} → Floats F → Crates → Str → Result (Expr F × ℕ)
unfolding started
parse_program f lib source =
    if ltb 512 (len source)
    then err (diagnostic rank_too_complex (0, len source))
    else (let p = skipped (record { rest = source; position = 0; nodes = 0 }) in
        started (len source) f lib p p.rest >>= (λ e. ok (e, len source)))
