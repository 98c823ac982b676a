-- ===== src/Search/Session/Failing.antt =====
-- The error of a session that is not given up: what `advance` of
-- crates/api/src/search/engine/session.rs returns by `?`.
use neddit.Prelude.{
  ℕ, zero, suc, ◌==◌, ltb, ◌≡◌, refl, Bool, true, false, not, ◌||◌, if◌then◌else◌, List, [], ◌∷◌,
  ◌++◌, any, length, Str, sort_by,
}
use neddit.Search.Syntax.{source_failed}
use neddit.Search.Request.{Request}
use neddit.Search.Scope.{needs_parent}
use neddit.Search.Thing.{PublicThing, correct_kind}
use neddit.Search.Session.{
  Collection, Job, Answer, Ran, done, failed, given_up, and_then, max_pages, max_candidates,
  max_session_bytes, if_new, marked, counted, admit, received, is_bad_cursor, fetch, called, is_new,
}
use neddit.Search.Session.Hydrate.{
  Flow, going, over, cut_off, ended, hydrate, judged_item, judge_all, evaluate_batch, newest_first,
  has_no_date, is_disordered, evaluate,
}
use neddit.Search.Session.Advance.{
  is_complete, fetch_limit, wants_more, rounds, judge_pending, finish, advance,
}

-- It fails only because the source has.
abbrev pub Failing {ℓ} : {A : Type ℓ} → Ran A → Type 0
Failing (done x c) = Unit
Failing (failed d c) = d.code ≡ source_failed
Failing (given_up c) = Unit

Failing-and_then {ℓ κ} :
    {A : Type ℓ} {B : Type κ} (m : Ran A) (k : A → Collection → Ran B)
    → Failing m
    → ((x : A) (c : Collection) → Failing (k x c))
    → Failing (and_then m k)
Failing-and_then (done x c) k h f = f x c
Failing-and_then (failed d c) k h f = h
Failing-and_then (given_up c) k h f = h

Failing-if {ℓ} :
    {A : Type ℓ} (b : Bool) (m n : Ran A) → Failing m → Failing n → Failing (if b then m else n)
Failing-if true m n h k = h
Failing-if false m n h k = k

module _ (j : Job) (r : Request) where
  admit-Failing : (xs batch : List PublicThing) (c : Collection) → Failing (admit j r xs batch c)
  unfolding admit
  admit-Failing [] batch c = tt
  admit-Failing (x ∷ xs) batch c =
      let c' = counted j x c in
      Failing-if (not (correct_kind x r.kind)) _ _ refl (
        Failing-if (c.candidates == max_candidates) _ _ tt (
          Failing-if (ltb max_session_bytes c'.bytes) _ _ tt
            (admit-Failing xs (if_new x c' batch) (marked x c'))))

  received-Failing : (answer : Answer) (c : Collection) → Failing (received j r answer c)
  unfolding received
  received-Failing Answer.pending c = tt
  received-Failing Answer.failure c = Failing-if (length c.seen == 0) _ _ refl tt
  received-Failing (Answer.listing l) c =
      Failing-if (ltb 100 (length l.children) || is_bad_cursor l.after) _ _ refl (
        Failing-and_then (admit j r l.children [] c) _ (admit-Failing l.children [] c)
          (λ batch c'. tt))

  fetch-Failing : (limit : ℕ) (c : Collection) → Failing (fetch j r limit c)
  unfolding fetch
  fetch-Failing limit c = received-Failing (j.page c.source_calls c.plan r c.after limit) (called c)

  ended-Failing : (f : Flow) → Failing (ended f)
  ended-Failing (going c) = tt
  ended-Failing (over c) = tt
  ended-Failing (cut_off c) = tt

  hydrate-Failing : (batch : List PublicThing) (c : Collection) → Failing (hydrate j r batch c)
  unfolding hydrate
  hydrate-Failing batch c =
      Failing-if (c.failed || not (needs_parent c.expr)) _ _ tt (ended-Failing _)

  judge_all-Failing : (xs : List PublicThing) (c : Collection) → Failing (judge_all j r xs c)
  unfolding judge_all
  judge_all-Failing [] c = tt
  judge_all-Failing (x ∷ xs) c =
      Failing-if (j.late x) _ _ tt (judge_all-Failing xs (judged_item j r x c))

  evaluate_batch-Failing :
      (batch : List PublicThing) (c : Collection) → Failing (evaluate_batch j r batch c)
  unfolding evaluate_batch
  evaluate_batch-Failing batch c =
      Failing-and_then (hydrate j r batch c) _ (hydrate-Failing batch c) (λ u c'.
        Failing-and_then (judge_all j r batch c') _ (judge_all-Failing batch c') (λ v c''. tt))

  evaluate-Failing : (batch : List PublicThing) (c : Collection) → Failing (evaluate j r batch c)
  unfolding evaluate
  evaluate-Failing batch c =
      let sorted = sort_by newest_first batch in
      Failing-if (not (is_new r)) _ _ (evaluate_batch-Failing batch c) (
        Failing-if (any (has_no_date j) batch) _ _ refl
          (Failing-if (is_disordered c.last_time sorted) _ _ tt (evaluate_batch-Failing sorted c)))

  rounds-Failing :
      (n : ℕ) (pending : List PublicThing) (c : Collection) → Failing (rounds j r n pending c)
  unfolding rounds
  rounds-Failing zero pending c = tt
  rounds-Failing (suc n) pending c =
      Failing-if (wants_more r c) _ _
        (Failing-and_then (fetch j r (fetch_limit r c) c) _ (fetch-Failing (fetch_limit r c) c)
          (λ batch c'. Failing-if (is_complete r c') _ _ (rounds-Failing n (pending ++ batch) c') (
            Failing-and_then (evaluate j r batch c') _ (evaluate-Failing batch c')
              (λ u c''. rounds-Failing n pending c''))))
        tt

  judge_pending-Failing :
      (pending : List PublicThing) (c : Collection) → Failing (judge_pending j r pending c)
  unfolding judge_pending
  judge_pending-Failing [] c = tt
  judge_pending-Failing (x ∷ xs) c =
      Failing-and_then (evaluate j r (x ∷ xs) c) _ (evaluate-Failing (x ∷ xs) c) (λ u c'. tt)

  pub advance-Failing : (key : Str) (index : ℕ) (c : Collection) → Failing (advance j r key index c)
  unfolding advance finish
  advance-Failing key index c =
      Failing-and_then (rounds j r max_pages [] c) _ (rounds-Failing max_pages [] c) (λ pending c'.
        Failing-and_then (judge_pending j r pending c') _ (judge_pending-Failing pending c')
          (λ u c''. tt))
