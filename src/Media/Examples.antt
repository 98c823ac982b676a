-- ===== src/Media/Examples.antt =====
-- The theorems on crates/api/src/media.rs, at the URL of one image.
use neddit.Prelude.{◌≡◌, ◌↔◌, refl, arith, true, [], ◌∷◌, ◌++◌, none, some, Str, codes, str_eq}
use neddit.Storage.Cache.Json.{value}
use neddit.Media.{Host, Url, Cut, Libs}
use neddit.Media.Domains.{HostPattern, matches, pattern_matches}
use neddit.Media.Domains.Matching.{IsMatch, pattern_matches_iff}
use neddit.Media.Signer.{
  MediaSigner, validate_media_target, Signed, route_text, media_url, message, decode_target,
}
use neddit.Media.Signer.Authentic.{
  IsLossless, decode-media_url, IsAlike, message_injective, IsAuthentic, decode_target-IsAuthentic,
}

abbrev image : Url
image = record {
  scheme = codes "https";
  username = [];
  password = none;
  host = some (Host.domain (codes "i.redd.it"));
  port = none;
  path = codes "/a.png";
  query = none;
  fragment = none;
}

abbrev uncut : Str → Cut
uncut s = record { pieces = []; rest = s }

-- The code is what is signed, after the key.
abbrev lib : Libs
lib = record {
  parse = λ s. some image;
  as_str = λ u. codes "https://i.redd.it/a.png";
  join = λ u s. some image;
  parse_host = λ s. some (Host.domain s);
  hmac = λ key text. key ++ text;
  encode = λ bytes. bytes;
  decode = λ s. some s;
  to_utf8 = λ s. s;
  from_utf8 = λ bytes. some bytes;
  absolute_urls = uncut;
  hls_uris = uncut;
  dash_urls = uncut;
}

abbrev redd_it : HostPattern
redd_it = record { domain = codes "redd.it"; subdomains_only = true }

abbrev signer : MediaSigner
signer = record {
  key = codes "a key of thirty-two bytes or more";
  domains = record { navigation = []; shortlinks = []; media = redd_it ∷ [] };
  policy_scope = codes "nsfw-blocked";
}

matching_example :
    (pattern_matches redd_it (codes "i.redd.it") ≡ true) ↔ IsMatch redd_it (codes "i.redd.it")
matching_example = pattern_matches_iff redd_it (codes "i.redd.it")

lossless : IsLossless lib
lossless = record { base64 = λ bytes. refl; utf8 = λ s. refl }

allowed : validate_media_target signer.domains image ≡ none
unfolding validate_media_target matches str_eq
allowed = refl

media_url_example :
    (t : Signed) × (media_url lib signer image ≡ value (route_text (codes "/media") t))
    × (decode_target lib signer t ≡ value image)
media_url_example = decode-media_url lib signer lossless image refl allowed

abbrev path : Signed
path = record {
  signature =
      codes "a key of thirty-two bytes or more"
      ++ (codes "nsfw-blocked" ++ (0 ∷ codes "https://i.redd.it/a.png"));
  encoded = codes "https://i.redd.it/a.png";
}

decoded : decode_target lib signer path ≡ value image
unfolding decode_target validate_media_target matches str_eq
decoded = refl

IsAuthentic-example : IsAuthentic lib signer path image
IsAuthentic-example = decode_target-IsAuthentic lib signer path image decoded

-- The URL of the image, after a scope and a zero.
abbrev spelled : Str
spelled = codes "video" ++ (0 ∷ codes "https://i.redd.it/a.png")

-- Without a scope it is signed like the URL in the scope.
message_example :
    (lib.to_utf8 signer.policy_scope ≡ lib.to_utf8 signer.policy_scope)
    × IsAlike lib spelled (codes "https://i.redd.it/a.png") none (some (codes "video"))
unfolding message
message_example =
    message_injective lib spelled (codes "https://i.redd.it/a.png") signer signer none
      (some (codes "video")) (omega arith) (omega arith) tt (omega arith) refl
