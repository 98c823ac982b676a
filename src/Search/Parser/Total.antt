-- ===== src/Search/Parser/Total.antt =====
-- The parser of crates/api/src/search/mod.rs ends on every source, and what it accepts is well
-- formed: the fuel that `parse` gives is enough.
use neddit.Prelude.{
  ℕ, zero, suc, ◌+◌, ◌*◌, ◌≤◌, ltb, List, [], ◌∷◌, Option, none, some, arith, Str, length, len,
}
use neddit.Crates.{Crates}
use neddit.Search.Syntax.{Mode, Expr, Span, Ensures, Ensures-bind, Ensures-if, TokenKind, Token}
use neddit.Search.Scalars.{IsScalarExpr}
use neddit.Search.Lexer.{lex}
use neddit.Search.Lexer.Spans.{InOrder, lex-InOrder}
use neddit.Search.Parser.{
  Parser, Call, current, body, run, trailing, parse_tokens, parse, max_bytes,
}
use neddit.Search.Parser.Post.{Gives, Serves, size, IsAvailable}
use neddit.Search.Parser.Loop.{expression_lem, more_lem}
use neddit.Search.Parser.Operand.{primary_lem}

module _ (lib : Crates) where
  run-Serves : (n : ℕ) → Serves lib n (run lib n)
  unfolding run body
  run-Serves zero (Call.expression least field depth) p needs h = absurd (omega arith)
  run-Serves zero (Call.more least field depth left) p needs h = absurd (omega arith)
  run-Serves zero (Call.primary field depth) p needs h = absurd (omega arith)
  run-Serves (suc n) (Call.expression least field depth) p needs h =
      expression_lem lib n (run lib n) (run-Serves n) least field depth p needs h
  run-Serves (suc n) (Call.more least field depth left) p needs h =
      more_lem lib n (run lib n) (run-Serves n) least field depth left p needs h
  run-Serves (suc n) (Call.primary field depth) p needs h =
      primary_lem lib n (run lib n) (run-Serves n) field depth p needs h

  -- What `parse` promises of an expression.
  pub record IsParsed (mode : Mode) (e : Expr) : Type 0 where
    pub scalars : IsScalarExpr lib e
    pub available : IsAvailable mode e
    pub small : size e ≤ 256

  trailing_lem :
      (mode : Mode) (o : Option Token) (e : Expr)
      → IsParsed mode e
      → Ensures (IsParsed mode) (trailing lib o e)
  trailing_lem mode none e h = h
  trailing_lem mode (some t) e h = kind t.kind t.span
    where
      kind :
          (k : TokenKind) (sp : Span)
          → Ensures (IsParsed mode) (trailing lib (some (record { kind = k; span = sp })) e)
      kind TokenKind.close_group sp = λ x. cc
      kind _ sp = λ x. cc

  parse_tokens-IsParsed :
      (source : Str) (mode : Mode) (ts : List Token)
      → Ensures (IsParsed mode) (parse_tokens lib source mode ts)
  unfolding parse_tokens
  parse_tokens-IsParsed source mode [] = λ x. cc
  parse_tokens-IsParsed source mode (t ∷ ts) =
      let start : Parser = record {
        tokens = t ∷ ts;
        index = 0;
        mode = mode;
        nodes = 0;
        end = len source;
      } in
      let call = Call.expression 0 none 0 in
      let fuel = 2 * length (t ∷ ts) + 2 in
      Ensures-bind (Gives lib call start) (IsParsed mode) (run lib fuel call start) _
        (run-Serves fuel call start (record { inside = omega arith; nodes = omega arith }, tt)
          (omega arith))
        (λ (e, p) k.
          trailing_lem mode (current p) e
            (record { scalars = k.scalars; available = k.available; small = omega arith }))

  -- Every source is parsed or refused with an error of the program, and an expression that is
  -- parsed has at most 256 nodes, only predicates on the text or on a field of its mode, and in
  -- each predicate the value that its field has of the text: its words, which are some; the name in
  -- lower case; the host; a number of minutes, hours, days or weeks; or a date or a time.
  pub parse-IsParsed :
      (source : Str) (mode : Mode) → Ensures (IsParsed mode) (parse lib source mode)
  unfolding parse
  parse-IsParsed source mode =
      Ensures-if (IsParsed mode) (ltb max_bytes (len source)) _ _ (λ e x. cc)
        (λ e.
          Ensures-bind (λ ts. InOrder 0 ts (len source) × (length ts ≤ 768)) (IsParsed mode)
            (lex source) _ (lex-InOrder source) (λ ts h. parse_tokens-IsParsed source mode ts))
