-- ===== src/Media/Signer/Authentic.antt =====
-- What a signature says: crates/api/src/media.rs.
use neddit.Prelude.{
  ℕ, ◌≡◌, ◌≢◌, refl, sym, ap, ◌∙◌, subst, true, List, [], ◌∷◌, ◌++◌, Option, none, some, Str,
  str_eq_refl, str_eq→eq, All, codes, to_ascii_lowercase, arith, Option-cases, ◌⊎◌, inl, inr,
}
use neddit.Storage.Cache.Json.{Answer, value, failure}
use neddit.Media.{MediaUrlError, Url, host_str, Libs}
use neddit.Media.Domains.{DomainPolicy, matches}
use neddit.Media.Signer.{
  MediaSigner, scope_bytes, message, authenticator, sign, is_plain, validate_host,
  validate_media_target, Signed, signed, route_text, accepted, media_url, parsed, verified,
  decoded_text, decoded_bytes, decode_signed_target, validated, decode_target,
}

-- What the crates promise: decoding undoes encoding.
pub record IsLossless (lib : Libs) : Type 0 where
  pub base64 : (bytes : List ℕ) → lib.decode (lib.encode bytes) ≡ some bytes
  pub utf8 : (s : Str) → lib.from_utf8 (lib.to_utf8 s) ≡ some s

module _ (lib : Libs) (s : MediaSigner) (lossless : IsLossless lib) (u : Url)
    (reparsed : lib.parse (lib.as_str u) ≡ some u) where
  decode_signed :
      (scope : Option Str) → decode_signed_target lib s scope (signed lib s scope u) ≡ value u
  unfolding decode_signed_target decoded_bytes decoded_text verified signed sign
  decode_signed scope =
      rw
        (
          lossless.base64 (lib.to_utf8 (lib.as_str u)),
          lossless.utf8 (lib.as_str u),
          lossless.base64 (authenticator lib s scope (lib.as_str u)),
          str_eq_refl (authenticator lib s scope (lib.as_str u)),
          reparsed,
          parsed,
        )
        refl

  -- If the crates decode what they encode, and the URL is parsed from its text: where the URL is
  -- allowed, the path that is made for it has two parts that are decoded to the URL.
  pub decode-media_url :
      validate_media_target s.domains u ≡ none
      → (t : Signed) × (media_url lib s u ≡ value (route_text (codes "/media") t))
        × (decode_target lib s t ≡ value u)
  decode-media_url ok = (
    signed lib s none u,
    unfold media_url in rw ok refl,
    unfold decode_target validated in rw (decode_signed none) (rw ok refl),
  )

abbrev NoZero : List ℕ → Type 0
NoZero = All (λ b. b ≢ 0)

-- Texts are cut at the first zero in one way.
cut_zero :
    (xs xs' ys ys' : List ℕ)
    → NoZero xs
    → NoZero xs'
    → xs ++ (0 ∷ ys) ≡ xs' ++ (0 ∷ ys')
    → (xs ≡ xs') × (ys ≡ ys')
cut_zero [] [] ys ys' h h' e = (refl, (cc))
cut_zero [] (x ∷ xs') ys ys' h h' e = let ne = h'.0 in absurd (ground arith)
cut_zero (x ∷ xs) [] ys ys' h h' e = let ne = h.0 in absurd (ground arith)
cut_zero (x ∷ xs) (x' ∷ xs') ys ys' h h' e = ground (arith, cut_zero xs xs' ys ys' h.1 h'.1)

-- The bytes of a scope, as they are signed.
abbrev pub scoped : Libs → Option Str → Option (List ℕ)
scoped lib none = none
scoped lib (some scope) = some (lib.to_utf8 scope)

zero_append : (xs ys : List ℕ) → (xs ++ (0 ∷ [])) ++ ys ≡ xs ++ (0 ∷ ys)
zero_append [] ys = refl
zero_append (x ∷ xs) ys = ap (λ t. x ∷ t) (zero_append xs ys)

abbrev pub ScopeNoZero : Option (List ℕ) → Type 0
ScopeNoZero none = Unit
ScopeNoZero (some k) = NoZero k

module _ (lib : Libs) where
  -- The target of no scope has the other scope, a zero and the other target in it.
  abbrev pub IsSpelled : Option Str → Option Str → (t t' : Str) → Type 0
  IsSpelled scope scope' t t' =
      (k : Str) × (scope ≡ none)
      × (scope' ≡ some k)
      × (lib.to_utf8 t ≡ lib.to_utf8 k ++ (0 ∷ lib.to_utf8 t'))

module _ (lib : Libs) (t t' : Str) where
  -- Scopes and targets are the same, or one target spells the other's scope.
  abbrev pub IsAlike : Option Str → Option Str → Type 0
  IsAlike scope scope' =
      ((scoped lib scope ≡ scoped lib scope') × (lib.to_utf8 t ≡ lib.to_utf8 t'))
      ⊎ IsSpelled lib scope scope' t t'
      ⊎ IsSpelled lib scope' scope t' t

  scope_cut :
      (scope scope' : Option Str)
      → ScopeNoZero (scoped lib scope)
      → ScopeNoZero (scoped lib scope')
      → scope_bytes lib scope ++ lib.to_utf8 t ≡ scope_bytes lib scope' ++ lib.to_utf8 t'
      → IsAlike scope scope'
  scope_cut none none h h' e = inl (refl, e)
  scope_cut none (some k) h h' e =
      inr (inl (k, refl, refl, e ∙ zero_append (lib.to_utf8 k) (lib.to_utf8 t')))
  scope_cut (some k) none h h' e =
      inr (inr (k, refl, refl, sym e ∙ zero_append (lib.to_utf8 k) (lib.to_utf8 t)))
  scope_cut (some k) (some k') h h' e =
      let (same, rest) =
        cut_zero (lib.to_utf8 k) (lib.to_utf8 k') (lib.to_utf8 t) (lib.to_utf8 t') h h' (
          sym (zero_append (lib.to_utf8 k) (lib.to_utf8 t))
          ∙ (e ∙ zero_append (lib.to_utf8 k') (lib.to_utf8 t'))) in
      inl (ap some same, rest)

  -- Where the bytes of the content policies and of the scopes have no zero, and whatever the
  -- targets are, two signers feed the authenticator with the same message only if the policies
  -- are the same bytes, and either the scopes and the targets are too, or one of the scopes is
  -- none and its target has the bytes of the other scope, a zero and the other target. So no
  -- signature serves under another policy, and none of one scope serves for another; one of no
  -- scope serves for a scope only where its target has a zero.
  pub message_injective :
      (s s' : MediaSigner) (scope scope' : Option Str)
      → NoZero (lib.to_utf8 s.policy_scope)
      → NoZero (lib.to_utf8 s'.policy_scope)
      → ScopeNoZero (scoped lib scope)
      → ScopeNoZero (scoped lib scope')
      → message lib s scope t ≡ message lib s' scope' t'
      → (lib.to_utf8 s.policy_scope ≡ lib.to_utf8 s'.policy_scope) × IsAlike scope scope'
  unfolding message
  message_injective s s' scope scope' p p' h h' e =
      let (same, rest) =
        cut_zero (lib.to_utf8 s.policy_scope) (lib.to_utf8 s'.policy_scope)
          (scope_bytes lib scope ++ lib.to_utf8 t) (scope_bytes lib scope' ++ lib.to_utf8 t') p p'
          e in
      (same, scope_cut scope scope' h h' rest)

module _ (lib : Libs) (s : MediaSigner) where
  -- What is known of a URL that a signed path is decoded to.
  pub record IsAuthentic (t : Signed) (u : Url) : Type 0 where
    pub target : Str
    pub bytes : List ℕ
    pub encoded : lib.decode t.encoded ≡ some bytes
    pub text : lib.from_utf8 bytes ≡ some target
    pub parsed : lib.parse target ≡ some u
    pub signature : lib.decode t.signature ≡ some (lib.hmac s.key (message lib s none target))
    pub plain : is_plain u ≡ true
    pub host : Str
    pub named : host_str u ≡ some host
    pub allowed : matches s.domains.media (to_ascii_lowercase host) ≡ true

  parsed-value : (target : Str) (u : Url) → parsed lib target ≡ value u → lib.parse target ≡ some u
  unfolding parsed
  parsed-value target u h = ground arith

  checked-value :
      (domains : DomainPolicy) (u v : Url)
      → accepted u (validate_media_target domains u) ≡ value v
      → (u ≡ v)
        × (is_plain u ≡ true)
        × ((host : Str) × (host_str u ≡ some host)
            × (matches domains.media (to_ascii_lowercase host) ≡ true))
  unfolding accepted validate_media_target validate_host
  checked-value domains u v h = elim (Option-cases (host_str u)) [
    | inl missing ↦ absurd (ground arith)
    | inr (host, named) ↦ (ground arith, ground arith, (host, named, ground arith))
  ]

  validated-value :
      (a : Answer MediaUrlError Url) (v : Url)
      → validated s.domains a ≡ value v
      → (u : Url) × (a ≡ value u) × (accepted u (validate_media_target s.domains u) ≡ value v)
  unfolding validated
  validated-value (failure e) v h = absurd (cc)
  validated-value (value u) v h = (u, refl, h)

  verified-value :
      (target : Str) (o : Option (List ℕ)) (u : Url)
      → verified lib s none target o ≡ value u
      → (o ≡ some (authenticator lib s none target)) × (parsed lib target ≡ value u)
  unfolding verified
  verified-value target none u h = absurd (cc)
  verified-value target (some supplied) u h =
      ground (arith, str_eq→eq (authenticator lib s none target) supplied)

  decoded_text-value :
      (signature : Str) (o : Option Str) (u : Url)
      → decoded_text lib s none signature o ≡ value u
      → (target : Str) × (o ≡ some target)
        × (verified lib s none target (lib.decode signature) ≡ value u)
  unfolding decoded_text
  decoded_text-value signature none u h = absurd (cc)
  decoded_text-value signature (some target) u h = (target, refl, h)

  decoded_bytes-value :
      (signature : Str) (o : Option (List ℕ)) (u : Url)
      → decoded_bytes lib s none signature o ≡ value u
      → (bytes : List ℕ) × (o ≡ some bytes)
        × (decoded_text lib s none signature (lib.from_utf8 bytes) ≡ value u)
  unfolding decoded_bytes
  decoded_bytes-value signature none u h = absurd (cc)
  decoded_bytes-value signature (some bytes) u h = (bytes, refl, h)

  -- A signed path is decoded to a URL only if its signature is the authentication code of the text
  -- that the URL is parsed from, under the key and the content policy; and then the URL is https,
  -- with no user, password or port, and its host is one that the patterns for media match.
  pub decode_target-IsAuthentic :
      (t : Signed) (u : Url) → decode_target lib s t ≡ value u → IsAuthentic t u
  unfolding decode_target decode_signed_target authenticator
  decode_target-IsAuthentic t u h =
      let (v, got, checked) = validated-value (decode_signed_target lib s none t) u h in
      let (same, plain, (host, named, allowed)) = checked-value s.domains v u checked in
      let (bytes, encoded, h') = decoded_bytes-value t.signature (lib.decode t.encoded) v got in
      let (target, text, h'') = decoded_text-value t.signature (lib.from_utf8 bytes) v h' in
      let (signature, read) = verified-value target (lib.decode t.signature) v h'' in
      subst (IsAuthentic t) same (record {
        target = target;
        bytes = bytes;
        encoded = encoded;
        text = text;
        parsed = parsed-value target v read;
        signature = signature;
        plain = plain;
        host = host;
        named = named;
        allowed = allowed;
      })
