-- ===== src/Search/Syntax.antt =====
-- The data of crates/api/src/search/mod.rs: modes, fields, diagnostics, tokens and expressions.
-- An `Expr` is its node and its span in one constructor. Of a diagnostic the code and the span
-- are kept; its message is text for the reader of the page.
use neddit.Prelude.{ℕ, ◌≡◌, ◌≢◌, refl, Bool, true, false, if◌then◌else◌, ◌==◌, List, Str, arith}
use neddit.Prelude.Int.{ℤ}

pub data Mode : Type 0 where
  posts comments communities : Mode

pub data Field : Type 0 where
  text subreddit author title domain flair post_title post_domain post_flair : Field
  name description past after before : Field

abbrev tag : Field → ℕ
tag text = 0
tag subreddit = 1
tag author = 2
tag title = 3
tag domain = 4
tag flair = 5
tag post_title = 6
tag post_domain = 7
tag post_flair = 8
tag name = 9
tag description = 10
tag past = 11
tag after = 12
tag before = 13

-- `==` on fields
abbrev pub field_eq : Field → Field → Bool
field_eq f g = tag f == tag g

pub field_eq→eq : (f g : Field) → field_eq f g ≡ true → f ≡ g
field_eq→eq f g h = ground arith

pub field_eq_refl : (f : Field) → field_eq f f ≡ true
field_eq_refl f = ground arith

-- A range of bytes of the source.
abbrev pub Span : Type 0
Span = ℕ × ℕ

-- `Diagnostic.code`, by the texts that the program gives it.
pub data Code : Type 0 where
  not_found rate_limited storage_full storage_unavailable execution_busy invalid_cursor : Code
  source_failed execution_timeout content_blocked : Code
  query_too_complex invalid_escape unterminated_quote unexpected_token empty_query : Code
  unbalanced_group missing_operand invalid_value unknown_field field_not_available : Code
  scope_required unsupported_sort unsupported_capability unsupported_pool : Code
  rank_too_complex invalid_rank unknown_rank_field unknown_rank_function : Code
  invalid_rank_ql invalid_rank_result : Code
  -- The model's own: a loop that ran out of fuel. No call of the program's functions gives it.
  out_of_fuel : Code

pub record Diagnostic : Type 0 where
  pub code : Code
  pub start : ℕ
  pub end : ℕ

abbrev pub diagnostic : Code → Span → Diagnostic
diagnostic c (a, b) = record { code = c; start = a; end = b }

-- `Diagnostic::status`
pub status : Code → ℕ
status not_found = 404
status rate_limited = 429
status storage_full = 503
status storage_unavailable = 503
status execution_busy = 503
status invalid_cursor = 410
status source_failed = 502
status execution_timeout = 504
status _ = 400

pub data Result {ℓ} (A : Type ℓ) : Type ℓ where
  ok : A → Result A
  err : Diagnostic → Result A

infixl 5 ◌>>=◌
abbrev pub ◌>>=◌ {ℓ κ} : {A : Type ℓ} {B : Type κ} → Result A → (A → Result B) → Result B
ok x >>= k = k x
err d >>= k = err d

pub >>=-eq-ok {ℓ κ} :
    {X : Type ℓ} {Y : Type κ} (o : Result X) (k : X → Result Y) {y : Y}
    → (o >>= k) ≡ ok y
    → (x : X) × (o ≡ ok x) × (k x ≡ ok y)
>>=-eq-ok (err d) k e = cc
>>=-eq-ok (ok x) k e = (x, refl, e)

-- What holds of an accepted value; an error is one of the program's own.
abbrev pub Ensures {ℓ} : {A : Type ℓ} → (A → Type 0) → Result A → Type 0
Ensures P (ok x) = P x
Ensures P (err d) = d.code ≢ out_of_fuel

pub Ensures-bind {ℓ κ} :
    {A : Type ℓ} {B : Type κ} (P : A → Type 0) (Q : B → Type 0) (m : Result A) (f : A → Result B)
    → Ensures P m
    → ((x : A) → P x → Ensures Q (f x))
    → Ensures Q (m >>= f)
Ensures-bind P Q (ok x) f h k = k x h
Ensures-bind P Q (err d) f h k = h

pub Ensures-weaken {ℓ} :
    {A : Type ℓ} (P Q : A → Type 0) (m : Result A)
    → ((x : A) → P x → Q x)
    → Ensures P m
    → Ensures Q m
Ensures-weaken P Q (ok x) f h = f x h
Ensures-weaken P Q (err d) f h = h

pub Ensures-if {ℓ} :
    {A : Type ℓ} (P : A → Type 0) (b : Bool) (m n : Result A)
    → (b ≡ true → Ensures P m)
    → (b ≡ false → Ensures P n)
    → Ensures P (if b then m else n)
Ensures-if P true m n h k = h refl
Ensures-if P false m n h k = k refl

-- Inversion of a guard that an accepted value has passed.
pub if_err {ℓ} :
    {A : Type ℓ} (b : Bool) (d : Diagnostic) (m : Result A) {x : A}
    → (if b then err d else m) ≡ ok x
    → (b ≡ false) × (m ≡ ok x)
if_err true d m h = cc
if_err false d m h = (refl, h)

pub data Value : Type 0 where
  text : List Str → Value
  exact : Str → Value
  duration : ℤ → Value
  instant : ℤ → Value

pub record Predicate : Type 0 where
  pub field : Field
  pub raw : Str
  pub value : Value

pub data Expr : Type 0 where
  predicate : Predicate → Span → Expr
  not : Expr → Span → Expr
  and : Expr → Expr → Span → Expr
  or : Expr → Expr → Span → Expr

abbrev pub span : Expr → Span
span (predicate p s) = s
span (not e s) = s
span (and a b s) = s
span (or a b s) = s

-- `expr.span = s`
abbrev pub with_span : Expr → Span → Expr
with_span (predicate p _) s = predicate p s
with_span (not e _) s = not e s
with_span (and a b _) s = and a b s
with_span (or a b _) s = or a b s

pub data TokenKind : Type 0 where
  word : Str → TokenKind
  phrase : Str → TokenKind
  and or not open_group close_group : TokenKind

pub record Token : Type 0 where
  pub kind : TokenKind
  pub span : Span
