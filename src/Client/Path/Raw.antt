-- ===== src/Client/Path/Raw.antt =====
-- The query that asks for raw JSON: `with_raw_json` of crates/api/src/client.rs.
use neddit.Prelude.{◌≡◌, ◌≢◌, refl, ap, List, [], ◌∷◌, ◌++◌, Str, All, codes, str_eq, arith}
use neddit.Client.{Libs}
use neddit.Client.Path.{split_query, without_raw, raw_json, with_raw_json}

base_lacks : (path : Str) → All (λ c. c ≢ b'?') (split_query path).0
unfolding split_query
base_lacks [] = tt
base_lacks (c ∷ s) = ground (arith, base_lacks s)

split_query-join :
    (base query : Str)
    → All (λ c. c ≢ b'?') base
    → split_query (base ++ (b'?' ∷ query)) ≡ (base, query)
unfolding split_query
split_query-join [] query h = refl
split_query-join (c ∷ base) query h =
    let ih = split_query-join base query h.1 in let ne = h.0 in ground (arith, ih)

without_raw-append :
    (l m : List (Str × Str)) → without_raw (l ++ m) ≡ without_raw l ++ without_raw m
unfolding without_raw
without_raw-append [] m = refl
without_raw-append ((key, v) ∷ l) m = ground (arith, without_raw-append l m)

without_raw_idem : (l : List (Str × Str)) → without_raw (without_raw l) ≡ without_raw l
unfolding without_raw
without_raw_idem [] = refl
without_raw_idem ((key, v) ∷ l) = ground (arith, without_raw_idem l)

append_nil : (l : List (Str × Str)) → l ++ [] ≡ l
append_nil [] = refl
append_nil (x ∷ l) = ap (λ t. x ∷ t) (append_nil l)

-- A query that already asks for raw JSON.
raw_again :
    (lib : Libs) (path base query : Str) (pairs : List (Str × Str))
    → split_query path ≡ (base, query)
    → lib.form_parse query ≡ without_raw pairs ++ ((raw_json, codes "1") ∷ [])
    → with_raw_json lib path
      ≡ base ++ (b'?' ∷ lib.form_serialize (without_raw pairs ++ ((raw_json, codes "1") ∷ [])))
unfolding with_raw_json
raw_again lib path base query pairs e p =
    rw
      (
        e,
        p,
        without_raw-append (without_raw pairs) ((raw_json, codes "1") ∷ []),
        without_raw_idem pairs,
      )
      (kept pairs)
  where
    kept :
        (pairs : List (Str × Str))
        → base
            ++ (b'?'
                ∷ lib.form_serialize (
                    (without_raw pairs ++ without_raw ((raw_json, codes "1") ∷ []))
                    ++ ((raw_json, codes "1") ∷ [])))
          ≡ base ++ (b'?' ∷ lib.form_serialize (without_raw pairs ++ ((raw_json, codes "1") ∷ [])))
    kept pairs = unfold without_raw str_eq in rw (append_nil (without_raw pairs)) refl

-- If the crate parses what it serializes, then the path of a request for raw JSON has the pairs
-- of the query in their order, without `raw_json`, and `raw_json=1` after them; and asking again
-- changes nothing.
pub with_raw_json_again :
    (lib : Libs) (path : Str)
    → ((pairs : List (Str × Str)) → lib.form_parse (lib.form_serialize pairs) ≡ pairs)
    → (split_query (with_raw_json lib path) ≡ (
      (split_query path).0,
      lib.form_serialize
          (without_raw (lib.form_parse (split_query path).1) ++ ((raw_json, codes "1") ∷ [])),
    ))
      × (lib.form_parse (split_query (with_raw_json lib path)).1
          ≡ without_raw (lib.form_parse (split_query path).1) ++ ((raw_json, codes "1") ∷ []))
      × (with_raw_json lib (with_raw_json lib path) ≡ with_raw_json lib path)
with_raw_json_again lib path law =
    let base = (split_query path).0 in
    let kept = without_raw (lib.form_parse (split_query path).1) in
    let query = lib.form_serialize (kept ++ ((raw_json, codes "1") ∷ [])) in
    let made : split_query (with_raw_json lib path) ≡ (base, query) =
      unfold with_raw_json in split_query-join base query (base_lacks path) in
    (
      made,
      rw (made, law) refl,
      unfold with_raw_json in
          raw_again lib (with_raw_json lib path) base query (lib.form_parse (split_query path).1)
            made (law (kept ++ ((raw_json, codes "1") ∷ []))),
    )
