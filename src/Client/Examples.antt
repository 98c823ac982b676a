-- ===== src/Client/Examples.antt =====
-- The theorems on crates/api/src/client.rs, at a request for the posts of a community that is
-- redirected once.
use neddit.Prelude.{
  ℕ, ◌≡◌, refl, ap, subst, arith, true, ◌==◌, if◌then◌else◌, List, [], ◌∷◌, ◌++◌, Option, none,
  some, Str, codes, str_eq,
}
use neddit.Prelude.Int.{pos}
use neddit.Storage.Cache.Json.{value}
use neddit.Client.{at, Json, Fields, Response, Libs, Net}
use neddit.Client.Path.{split_query, with_raw_json, without_raw, raw_json, cache_key}
use neddit.Client.Path.Raw.{with_raw_json_again}
use neddit.Client.Path.Key.{cache_key_swap}
use neddit.Client.Request.{UpstreamResponse, reddit_get}
use neddit.Client.Fetch.{fetch_json, html, body_of}
use neddit.Client.Fetch.Rejected.{Gives, fetch_gives}
use neddit.Client.Fetch.Accepted.{IsAccepted, fetch_json-IsAccepted}

-- A format of pairs: a character of a key stands after 1, one of a value after 2, and 0 ends a pair.
abbrev key_text : Str → Str → Str
key_text [] rest = rest
key_text (c ∷ s) rest = 1 ∷ c ∷ key_text s rest

abbrev value_text : Str → Str → Str
value_text [] rest = rest
value_text (c ∷ s) rest = 2 ∷ c ∷ value_text s rest

abbrev serialize : List (Str × Str) → Str
serialize [] = []
serialize ((k, v) ∷ pairs) = key_text k (value_text v (0 ∷ 0 ∷ serialize pairs))

abbrev push : ℕ → ℕ → List (Str × Str) → List (Str × Str)
push t c [] = ([], []) ∷ []
push t c ((k, v) ∷ pairs) =
    if t == 0
    then ([], []) ∷ (k, v) ∷ pairs
    else if t == 1
    then (c ∷ k, v) ∷ pairs
    else (k, c ∷ v) ∷ pairs

abbrev parse : Str → List (Str × Str)
parse [] = []
parse (t ∷ []) = []
parse (t ∷ c ∷ s) = push t c (parse s)

push_end : (pairs : List (Str × Str)) → push 0 0 pairs ≡ ([], []) ∷ pairs
push_end [] = refl
push_end ((k, v) ∷ pairs) = refl

parse_value :
    (v rest : Str) (w : Str) (pairs : List (Str × Str))
    → parse rest ≡ ([], w) ∷ pairs
    → parse (value_text v rest) ≡ ([], v ++ w) ∷ pairs
parse_value [] rest w pairs e = e
parse_value (c ∷ v) rest w pairs e = ap (push 2 c) (parse_value v rest w pairs e)

parse_key :
    (k rest : Str) (v : Str) (pairs : List (Str × Str))
    → parse rest ≡ ([], v) ∷ pairs
    → parse (key_text k rest) ≡ (k, v) ∷ pairs
parse_key [] rest v pairs e = e
parse_key (c ∷ k) rest v pairs e = ap (push 1 c) (parse_key k rest v pairs e)

append_nil : (s : Str) → s ++ [] ≡ s
append_nil [] = refl
append_nil (c ∷ s) = ap (λ t. c ∷ t) (append_nil s)

parse-serialize : (pairs : List (Str × Str)) → parse (serialize pairs) ≡ pairs
parse-serialize [] = refl
parse-serialize ((k, v) ∷ pairs) =
    let ends : parse (0 ∷ 0 ∷ serialize pairs) ≡ ([], []) ∷ pairs =
      rw (parse-serialize pairs) (push_end pairs) in
    let valued : parse (value_text v (0 ∷ 0 ∷ serialize pairs)) ≡ ([], v) ∷ pairs =
      subst (λ w. parse (value_text v (0 ∷ 0 ∷ serialize pairs)) ≡ ([], w) ∷ pairs) (append_nil v)
        (parse_value v (0 ∷ 0 ∷ serialize pairs) [] pairs ends) in
    parse_key k (value_text v (0 ∷ 0 ∷ serialize pairs)) v pairs valued

abbrev posts : Json
posts = Json.object (Fields.field (codes "kind") (Json.string (codes "Listing")) Fields.end)

abbrev lib : Libs
lib = record {
  to_str = λ bytes. some bytes;
  percent_encode = λ bytes. bytes;
  form_parse = parse;
  form_serialize = serialize;
  parse_floor = λ s. some (pos 0);
  to_u16 = λ v. 0;
  is_seconds = λ s. true;
  from_slice = λ bytes. some posts;
  from_utf8 = λ bytes. bytes;
  fingerprint = λ s. s;
}

abbrev location_header : Str → Option (List ℕ)
location_header name = if str_eq name (codes "location") then some (codes "/r/rust/new") else none

abbrev redirect : Response
redirect = record { status = 302; headers = location_header; content_length = none; chunks = [] }

abbrev found : Response
found = record {
  status = 200;
  headers = λ name. none;
  content_length = some 4;
  chunks = some (codes "po") ∷ some (codes "st") ∷ [];
}

-- The first request is redirected.
abbrev answer : ℕ → Option Response
answer n = if n == 0 then some redirect else some found

abbrev net : Net
net = record { acquire = λ n. value 7; send = λ n url. answer n; post = λ n url body. none }

abbrev path : Str
path = codes "/r/rust?" ++ serialize ((raw_json, codes "0") ∷ (codes "limit", codes "25") ∷ [])

fetched : (fetch_json lib net path).0 ≡ value posts
unfolding fetch_json reddit_get str_eq body_of at
fetched = refl

fetch_example : Gives 5 (fetch_json lib net path) × Gives 5 (html lib net path)
fetch_example = fetch_gives lib net path

accepted_example :
    (u : UpstreamResponse) × ((reddit_get lib net path).0 ≡ value u)
    × ((body : List ℕ) × IsAccepted lib path u posts body)
accepted_example = fetch_json-IsAccepted lib net path posts fetched

raw_example :
    (split_query (with_raw_json lib path) ≡ (
      (split_query path).0,
      lib.form_serialize
          (without_raw (lib.form_parse (split_query path).1) ++ ((raw_json, codes "1") ∷ [])),
    ))
    × (lib.form_parse (split_query (with_raw_json lib path)).1
        ≡ without_raw (lib.form_parse (split_query path).1) ++ ((raw_json, codes "1") ∷ []))
    × (with_raw_json lib (with_raw_json lib path) ≡ with_raw_json lib path)
raw_example = with_raw_json_again lib path parse-serialize

abbrev limit : Str × Str
limit = (codes "limit", codes "25")

abbrev after : Str × Str
after = (codes "after", codes "t3_a")

abbrev swapped : Str
swapped = codes "/r/rust?" ++ serialize (after ∷ limit ∷ [])

abbrev plain : Str
plain = codes "/r/rust?" ++ serialize (limit ∷ after ∷ [])

same_base : (split_query plain).0 ≡ (split_query swapped).0
unfolding split_query
same_base = refl

plain_pairs : lib.form_parse (split_query plain).1 ≡ [] ++ (limit ∷ after ∷ [])
unfolding split_query
plain_pairs = refl

swapped_pairs : lib.form_parse (split_query swapped).1 ≡ [] ++ (after ∷ limit ∷ [])
unfolding split_query
swapped_pairs = refl

abbrev first_letter : Str → ℕ
first_letter [] = 0
first_letter (c ∷ s) = c

cache_key_example : cache_key lib plain ≡ cache_key lib swapped
cache_key_example =
    cache_key_swap lib plain swapped limit after [] [] same_base plain_pairs swapped_pairs
      (λ e. let apart = ap first_letter e in omega arith)
