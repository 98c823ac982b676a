-- ===== src/Search/Parser.antt =====
-- The parser of crates/api/src/search/mod.rs. `expression`, the loop of `expression` and `primary`
-- call one another; each body takes the calls that it makes as an argument, and `run` ties them
-- with fuel. `parse` gives two units for each token and two more.
pub mod Post
pub mod Loop
pub mod Operand
pub mod Total
use neddit.Prelude.{
  ℕ, zero, suc, ◌+◌, ◌-◌, ◌*◌, Bool, true, false, ◌&&◌, ◌||◌, ◌==◌, ltb, if◌then◌else◌, List, [],
  ◌∷◌, Option, none, some, Str, codes, str_eq, len, is_ascii_alphabetic, is_ascii_alphanumeric, all,
  contains, get_elem?, length, starts_with,
}
use neddit.Crates.{Crates}
use neddit.Search.Syntax.{
  Mode, Field, Value, Predicate, Expr, Span, span, with_span, diagnostic, Result, ok, err, ◌>>=◌,
  TokenKind, Token, query_too_complex, empty_query, missing_operand, unbalanced_group,
  unexpected_token, invalid_value, out_of_fuel,
}
use neddit.Search.Lexer.{lex, max_nodes}
use neddit.Search.Scalar.{scalar_value, field_name}

abbrev pub max_bytes : ℕ
max_bytes = 4096

abbrev pub max_depth : ℕ
max_depth = 32

pub record Parser : Type 0 where
  pub tokens : List Token
  pub index : ℕ
  pub mode : Mode
  pub nodes : ℕ
  pub end : ℕ

-- A result with the parser after it.
abbrev pub Parsed : Type 0
Parsed = Result (Expr × Parser)

-- The calls that the parser makes of itself: `more` is the loop of `expression`, with the
-- expression on its left.
pub data Call : Type 0 where
  expression : ℕ → Option Field → ℕ → Call
  more : ℕ → Option Field → ℕ → Expr → Call
  primary : Option Field → ℕ → Call

abbrev pub Calls : Type 0
Calls = Call → Parser → Parsed

-- `self.index += 1`
abbrev pub advance : Parser → Parser
advance p = record p { index = p.index + 1 }

-- `self.tokens.get(self.index)`
abbrev pub current : Parser → Option Token
current p = get_elem? p.tokens p.index

-- `Parser::node`
unfoldable pub node : Expr → Parser → Parsed
node e p =
    if ltb max_nodes (p.nodes + 1)
    then err (diagnostic query_too_complex (span e))
    else ok (e, record p { nodes = p.nodes + 1 })

-- `word.split_once(':')`
split_once : ℕ → Str → Option (Str × Str)
split_once c [] = none
split_once c (d ∷ s) =
    let rest : Option (Str × Str) = elim (split_once c s) [
      | none ↦ none
      | some (name, value) ↦ some (d ∷ name, value)
    ] in
    if d == c then some ([], s) else rest

abbrev is_name : Str → Bool
is_name [] = false
is_name (c ∷ s) =
    is_ascii_alphabetic c && all (λ d. is_ascii_alphanumeric d || d == b'_' || d == b'.') (c ∷ s)

abbrev if_name : Option (Str × Str) → Option (Str × Str)
if_name none = none
if_name (some (name, value)) = if is_name name then some (name, value) else none

-- `qualification`
unfoldable pub qualification : Str → Option (Str × Str)
unfolding split_once
qualification word = if_name (split_once b':' word)

-- The values that a qualified predicate wants quoted.
abbrev operators : List Str
operators =
    codes "AND"
    ∷ codes "OR"
    ∷ codes "NOT"
    ∷ codes "&"
    ∷ codes "|"
    ∷ codes "^"
    ∷ codes "="
    ∷ codes "=="
    ∷ codes ">="
    ∷ codes "<="
    ∷ codes ">"
    ∷ codes "<"
    ∷ codes "!="
    ∷ []

abbrev is_operator_value : Str → Bool
is_operator_value value = starts_with (codes "!") value || contains operators value

-- How the loop goes on at a token: the precedence of an operator, and whether it is written.
pub data Joint : Type 0 where
  stops : Joint
  joins : ℕ → Bool → Joint

-- `self.tokens[self.index - 1].span.1`; the loop only runs behind a token.
abbrev previous_end : Parser → ℕ
previous_end p = elim (get_elem? p.tokens (p.index - 1)) [ none ↦ 0 | some t ↦ t.span.1 ]

joint_at : TokenKind → Span → Parser → Joint
joint_at TokenKind.or s p = joins 1 true
joint_at TokenKind.and s p = joins 2 true
joint_at TokenKind.close_group s p = stops
joint_at _ s p = if ltb (previous_end p) s.0 then joins 2 false else stops

joint_of : Option Token → Parser → Joint
unfolding joint_at
joint_of none p = stops
joint_of (some t) p = joint_at t.kind t.span p

abbrev join : ℕ → Expr → Expr → Expr
join precedence left right =
    let sp : Span = ((span left).0, (span right).1) in
    if precedence == 1 then Expr.or left right sp else Expr.and left right sp

more_at : Calls → ℕ → Option Field → ℕ → Expr → Joint → Parser → Parsed
more_at calls least field depth left stops p = ok (left, p)
more_at calls least field depth left (joins precedence explicit) p =
    let p' : Parser = if explicit then advance p else p in
    if ltb precedence least then ok (left, p) else (do
      (right, q) ← calls (Call.expression (precedence + 1) field (depth + 1)) p'
      (e, q') ← node (join precedence left right) q
      calls (Call.more least field depth e) q')

-- `Parser::expression`
pub expression_body : Calls → ℕ → Option Field → ℕ → Parser → Parsed
expression_body calls least field depth p = do
  (left, q) ← calls (Call.primary field depth) p
  calls (Call.more least field depth left) q

-- One round of its loop.
pub more_body : Calls → ℕ → Option Field → ℕ → Expr → Parser → Parsed
unfolding joint_of
more_body calls least field depth left p =
    more_at calls least field depth left (joint_of (current p) p) p

-- `field.unwrap_or(Field::Text)`
abbrev or_text : Option Field → Field
or_text none = Field.text
or_text (some f) = f

module _ (lib : Crates) where
  scalar_node : Field → Str → Span → Option Value → Parser → Parsed
  scalar_node field raw s none p = err (diagnostic invalid_value s)
  scalar_node field raw s (some v) p =
      node (Expr.predicate (record { field = field; raw = raw; value = v }) s) p

  -- `Parser::scalar`
  scalar : Field → Str → Span → Parser → Parsed
  scalar field raw s p = scalar_node field raw s (scalar_value lib field raw) p

  -- The token behind a field name with no value.
  field_value : Calls → Field → ℕ → Span → Option Token → Parser → Parsed
  field_value calls target depth s none p = err (diagnostic missing_operand s)
  field_value calls target depth s (some next) p = elim next.kind [
    | TokenKind.open_group ↦ calls (Call.primary (some target) (depth + 1)) p
    | TokenKind.word v ↦ scalar target v (s.0, next.span.1) (advance p)
    | TokenKind.phrase v ↦ scalar target v (s.0, next.span.1) (advance p)
    | _ ↦ err (diagnostic missing_operand next.span)
  ]

  -- A field with a value, or with an empty one.
  target_value : Calls → Field → Str → ℕ → Span → Parser → Parsed
  target_value calls target [] depth s p = field_value calls target depth s (current p) p
  target_value calls target (c ∷ value) depth s p =
      if is_operator_value (c ∷ value)
      then err (diagnostic unexpected_token s)
      else scalar target (c ∷ value) s p

  qualified : Calls → Option Field → ℕ → Span → Str → Str → Parser → Parsed
  qualified calls (some f) depth s name value p = err (diagnostic unexpected_token s)
  qualified calls none depth s name value p = do
    target ← field_name name p.mode (s.0, s.0 + len name)
    target_value calls target value depth s p

  word_value : Calls → Option Field → ℕ → Span → Str → Option (Str × Str) → Parser → Parsed
  word_value calls field depth s word none p = scalar (or_text field) word s p
  word_value calls field depth s word (some (name, value)) p =
      qualified calls field depth s name value p

  closed : Expr → Span → Option Token → Parser → Parsed
  closed e s none p = err (diagnostic unbalanced_group s)
  closed e s (some t) p = elim t.kind [
    | TokenKind.close_group ↦ ok (with_span e (s.0, t.span.1), advance p)
    | _ ↦ err (diagnostic unbalanced_group s)
  ]

  -- The `match` of `primary`, behind the token.
  primary_token : Calls → Option Field → ℕ → TokenKind → Span → Parser → Parsed
  primary_token calls field depth TokenKind.not s p = do
    (value, q) ← calls (Call.primary field (depth + 1)) p
    node (Expr.not value (s.0, (span value).1)) q
  primary_token calls field depth TokenKind.open_group s p = do
    (e, q) ← calls (Call.expression 0 field (depth + 1)) p
    closed e s (current q) q
  primary_token calls field depth (TokenKind.word w) s p =
      word_value calls field depth s w (qualification w) p
  primary_token calls field depth (TokenKind.phrase v) s p = scalar (or_text field) v s p
  primary_token calls field depth _ s p = err (diagnostic unexpected_token s)

  primary_at : Calls → Option Field → ℕ → Option Token → Parser → Parsed
  primary_at calls field depth none p = err (diagnostic missing_operand (p.end, p.end))
  primary_at calls field depth (some t) p =
      if ltb max_depth depth
      then err (diagnostic query_too_complex t.span)
      else primary_token calls field depth t.kind t.span (advance p)

  -- `Parser::primary`
  pub primary_body : Calls → Option Field → ℕ → Parser → Parsed
  primary_body calls field depth p = primary_at calls field depth (current p) p

  body : Calls → Call → Parser → Parsed
  body calls (Call.expression least field depth) p = expression_body calls least field depth p
  body calls (Call.more least field depth left) p = more_body calls least field depth left p
  body calls (Call.primary field depth) p = primary_body calls field depth p

  run : ℕ → Calls
  run zero call p = err (diagnostic out_of_fuel (p.end, p.end))
  run (suc fuel) call p = body (run fuel) call p

  abbrev trailing : Option Token → Expr → Result Expr
  trailing none e = ok e
  trailing (some t) e = elim t.kind [
    | TokenKind.close_group ↦ err (diagnostic unbalanced_group t.span)
    | _ ↦ err (diagnostic unexpected_token t.span)
  ]

  parse_tokens : Str → Mode → List Token → Result Expr
  parse_tokens source mode [] = err (diagnostic empty_query (0, len source))
  parse_tokens source mode (t ∷ ts) = do
    (e, p) ←
        run (2 * length (t ∷ ts) + 2) (Call.expression 0 none 0)
          (record { tokens = t ∷ ts; index = 0; mode = mode; nodes = 0; end = len source })
    trailing (current p) e

  -- `parse`
  unfoldable pub parse : Str → Mode → Result Expr
  unfolding parse_tokens run body primary_body primary_at primary_token closed word_value qualified
      target_value field_value scalar scalar_node more_body more_at expression_body
  parse source mode =
      if ltb max_bytes (len source)
      then err (diagnostic query_too_complex (0, len source))
      else (do tokens ← lex source; parse_tokens source mode tokens)
