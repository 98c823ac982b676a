-- ===== src/Search/Session/Ordering.antt =====
-- With New, what the pages of a session serve, one after another, stays newest first:
-- `evaluate`, `advance` and `Sessions::execute_before` of
-- crates/api/src/search/engine/session.rs.
use neddit.Prelude.{
  ℕ, zero, suc, ◌≡◌, refl, sym, ap, ◌∙◌, subst, true, false, if_intro, List, [], ◌∷◌, ◌++◌, take,
  drop, Option, none, some, All, All-append, All-weaken, sort_by, sort_by-All, Bool-cases, inl, inr,
}
use neddit.Search.Syntax.{Result, ok, err}
use neddit.Search.Thing.{F64, PublicThing, created_of}
use neddit.Search.Page.{Page}
use neddit.Search.Session.{Collection, is_none, is_names, identity_le, flush_tie}
use neddit.Search.Session.Hydrate.{timed, flushed, earlier}
use neddit.Search.Session.Newest.{
  Older, Older-trans, lt-Older, NewestFirst, NewestFirst-append, Below, IsDate, IsDateOption,
}
use neddit.Search.Session.Unmoved.{Shelf, shelf}

-- The objects that pages serve, one page after another; an error serves nothing.
abbrev pub items_of : Result Page → List PublicThing
items_of (ok p) = p.items
items_of (err d) = []

abbrev pub all_items : List (Result Page) → List PublicThing
all_items [] = []
all_items (p ∷ l) = items_of p ++ all_items l

-- An object that is not older than a time, and one of that time.
abbrev pub NotBelow : Option F64 → PublicThing → Type 0
NotBelow none x = ⊥
NotBelow (some t) x = Older t (created_of x)

abbrev pub At : Option F64 → PublicThing → Type 0
At none x = ⊥
At (some t) x = Older t (created_of x) × Older (created_of x) t

-- What is served and ready is newest first and not older than the last time, which those of the
-- tie have.
pub record IsOrdered (s : Shelf) : Type 0 where
  pub newest_first : NewestFirst (all_items s.pages ++ s.ready)
  pub before : All (NotBelow s.last_time) (all_items s.pages ++ s.ready)
  pub tied : All (At s.last_time) s.tie
  pub date : IsDateOption s.last_time
  pub not_names : is_names s.plan ≡ false

pub append_assoc {ℓ} : {A : Type ℓ} (xs ys zs : List A) → (xs ++ ys) ++ zs ≡ xs ++ (ys ++ zs)
append_assoc [] ys zs = refl
append_assoc (x ∷ xs) ys zs = ap (λ t. x ∷ t) (append_assoc xs ys zs)

pub append_nil {ℓ} : {A : Type ℓ} (xs : List A) → xs ++ [] ≡ xs
append_nil [] = refl
append_nil (x ∷ xs) = ap (λ t. x ∷ t) (append_nil xs)

pub take-drop {ℓ} : {A : Type ℓ} (n : ℕ) (xs : List A) → take n xs ++ drop n xs ≡ xs
take-drop zero xs = refl
take-drop (suc n) [] = refl
take-drop (suc n) (x ∷ xs) = ap (λ t. x ∷ t) (take-drop n xs)

pub all_items-append :
    (l : List (Result Page)) (p : Result Page)
    → all_items (l ++ (p ∷ [])) ≡ all_items l ++ items_of p
all_items-append [] p = append_nil (items_of p)
all_items-append (q ∷ l) p =
    ap (λ t. items_of q ++ t) (all_items-append l p)
    ∙ sym (append_assoc (items_of q) (all_items l) (items_of p))

At-NotBelow : (t : Option F64) (x : PublicThing) → At t x → NotBelow t x
At-NotBelow none x h = h
At-NotBelow (some t) x h = h.0

tied-NewestFirst : (t : Option F64) (xs : List PublicThing) → All (At t) xs → NewestFirst xs
tied-NewestFirst t [] h = tt
tied-NewestFirst none (x ∷ xs) h = absurd h.0
tied-NewestFirst (some t) (x ∷ xs) h = (
  All-weaken (At (some t)) (λ y. Older (created_of y) (created_of x)) xs
      (λ y k. Older-trans (created_of y) t (created_of x) k.1 h.0.0) h.1,
  tied-NewestFirst (some t) xs h.1,
)

across :
    (t : Option F64) (xs ys : List PublicThing)
    → All (NotBelow t) xs
    → All (At t) ys
    → All (λ x. All (λ y. Older (created_of y) (created_of x)) ys) xs
across none xs [] h k = All-weaken (NotBelow none) (λ x. Unit) xs (λ x e. tt) h
across none xs (y ∷ ys) h k = absurd k.0
across (some t) xs ys h k =
    All-weaken (NotBelow (some t)) (λ x. All (λ y. Older (created_of y) (created_of x)) ys) xs
      (λ x e.
        All-weaken (At (some t)) (λ y. Older (created_of y) (created_of x)) ys
          (λ y d. Older-trans (created_of y) t (created_of x) d.1 e) k)
      h

pub flush_tie-IsOrdered : (c : Collection) → IsOrdered (shelf c) → IsOrdered (shelf (flush_tie c))
unfolding flush_tie
flush_tie-IsOrdered c h =
    let tie = sort_by identity_le c.tie in
    let before = all_items c.pages ++ c.ready in
    let tied = sort_by-All identity_le (At c.last_time) c.tie h.tied in
    let joined : before ++ tie ≡ all_items c.pages ++ (c.ready ++ tie) =
      append_assoc (all_items c.pages) c.ready tie in
    record {
      newest_first = subst NewestFirst joined (
          NewestFirst-append before tie h.newest_first (tied-NewestFirst c.last_time tie tied)
            (across c.last_time before tie h.before tied));
      before = subst (All (NotBelow c.last_time)) joined (
          All-append (NotBelow c.last_time) before tie h.before (
            All-weaken (At c.last_time) (NotBelow c.last_time) tie (At-NotBelow c.last_time) tied));
      tied = tt;
      date = h.date;
      not_names = h.not_names;
    }

pub flushed-IsOrdered : (c : Collection) → IsOrdered (shelf c) → IsOrdered (shelf (flushed c))
flushed-IsOrdered c h =
    if_intro (λ c. IsOrdered (shelf c)) (is_none c.end) _ _ (λ e. h) (λ e. flush_tie-IsOrdered c h)

lower_NotBelow :
    (t : Option F64) (x y : PublicThing)
    → Below t x
    → NotBelow t y
    → NotBelow (some (created_of x)) y
lower_NotBelow none x y h k = absurd k
lower_NotBelow (some t) x y h k = Older-trans (created_of x) t (created_of y) h k

-- An object that is not earlier than the last has its time.
stays_At :
    (t : Option F64) (x : PublicThing) (xs : List PublicThing)
    → IsDateOption t
    → IsDate x
    → Below t x
    → earlier t (created_of x) ≡ false
    → All (At t) xs
    → All (At (some (created_of x))) xs
stays_At none x [] d d' h e k = tt
stays_At none x (y ∷ xs) d d' h e k = absurd k.0
stays_At (some t) x xs d d' h e k =
    All-weaken (At (some t)) (At (some (created_of x))) xs
      (λ y a. (
        Older-trans (created_of x) t (created_of y) h a.0,
        Older-trans (created_of y) t (created_of x) a.1 (lt-Older (created_of x) t d' d e),
      ))
      k

pub timed-IsOrdered :
    (x : PublicThing) (c : Collection)
    → IsDate x
    → Below c.last_time x
    → IsOrdered (shelf c)
    → IsOrdered (shelf (timed true x c)) × ((timed true x c).last_time ≡ some (created_of x))
unfolding timed flush_tie
timed-IsOrdered x c d below h = elim (Bool-cases (earlier c.last_time (created_of x))) [
  | inl newer ↦
      let f = flush_tie-IsOrdered c h in
      rw newer (
        record {
          newest_first = f.newest_first;
          before =
              All-weaken (NotBelow c.last_time) (NotBelow (some (created_of x))) _
                (λ y. lower_NotBelow c.last_time x y below) f.before;
          tied = tt;
          date = d;
          not_names = f.not_names;
        },
        refl,
      )
  | inr same ↦ rw same (
    record {
      newest_first = h.newest_first;
      before =
          All-weaken (NotBelow c.last_time) (NotBelow (some (created_of x))) _
            (λ y. lower_NotBelow c.last_time x y below) h.before;
      tied = stays_At c.last_time x c.tie h.date d below same h.tied;
      date = d;
      not_names = h.not_names;
    },
    refl,
  )
]
