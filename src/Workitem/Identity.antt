-- ===== src/Workitem/Identity.antt =====
-- internal/workitem/resolve.go: the record that an id is resolved to carries the bare id.
use macguffin.Prelude.{
  keep, sym, ◌∙◌, ◌≡◌, ◌≢◌, refl, arith, subst, List, [], ◌∷◌, Option, none, some, Bytes, same,
  is_nil, Bool-cases, Option-cases, inl, inr, All, ◌⊎◌, map,
}
use macguffin.Store.{Status, same_status, Doc, Err, Result, ok, err}
use macguffin.Workitem.Resolve.{
  Access, Match, Outcome, good, bad, Failure, resolve, resolve_unique, match_of, matches_of,
  match_of_get, qualifier, Among, candidates, keep-Among, resolve_unique-IsChosen, chosen_in,
  is_not_found, match_in,
}
use macguffin.Workitem.Modify.{match_now, rematch}

abbrev pub HasId : Bytes → Match → Type 0
HasId id m = m.id ≡ id

match_of-All : (id : Bytes) (ds : List Doc) → All (HasId id) (map (match_of id) ds)
unfolding match_of
match_of-All id [] = tt
match_of-All id (d ∷ ds) = (refl, match_of-All id ds)

All-Among : (P : Match → Type 0) (m : Match) (ms : List Match) → All P ms → Among m ms → P m
All-Among P m [] a h = absurd h
All-Among P m (x ∷ ms) a (inl e) = subst P e a.0
All-Among P m (x ∷ ms) a (inr h) = All-Among P m ms a.1 h

Among-candidates :
    (q : Option Bytes) (m : Match) (ms : List Match) → Among m (candidates q ms) → Among m ms
Among-candidates none m ms h = h
Among-candidates (some p) m ms h = (keep-Among (λ x. same x.partition p) m ms h).0

abbrev AllGood : (Match → Type 0) → Outcome (List Match) → Type 0
AllGood P (bad e) = Unit
AllGood P (good ms) = All P ms

matches_of-AllGood : (id : Bytes) (r : Result (List Doc)) → AllGood (HasId id) (matches_of id r)
unfolding matches_of
matches_of-AllGood id (ok ds) = match_of-All id ds
matches_of-AllGood id (err e) = tt

match_of_get-AllGood : (id : Bytes) (r : Result Doc) → AllGood (HasId id) (match_of_get id r)
unfolding match_of_get match_of
match_of_get-AllGood id (ok d) = (refl, tt)
match_of_get-AllGood id (err e) = elim (Bool-cases (is_not_found e)) [
  | inl q ↦ rw q tt
  | inr q ↦ rw q tt
]

pub Outcome-cases :
    {A : Type 0} (o : Outcome A) → ((a : A) × (o ≡ good a)) ⊎ ((f : Failure) × (o ≡ bad f))
Outcome-cases (good a) = inl (a, refl)
Outcome-cases (bad f) = inr (f, refl)

pub Result-cases : (r : Result (Unit {0})) → (r ≡ ok tt) ⊎ ((e : Err) × (r ≡ err e))
Result-cases (ok tt) = inl refl
Result-cases (err e) = inr (e, refl)

unresolved :
    {S : Type 0} (b : Access S) (id : Bytes) (s : S) (m : Match) (f : Failure)
    → (resolve b (qualifier id).0 s).0 ≡ bad f
    → (resolve_unique b id s).0 ≢ good m
unfolding resolve_unique chosen_in
unresolved b id s m f e h = ground (arith, e, h)

module _ {S : Type 0} (b : Access S) where
  resolve-AllGood : (id : Bytes) (s : S) → AllGood (HasId id) (resolve b id s).0
  unfolding resolve
  resolve-AllGood id s = elim (Bool-cases (is_nil id)) [
    | inl e ↦ rw e tt
    | inr e ↦ elim (Option-cases b.get_all) [
      | inl n ↦ rw (e, n) (match_of_get-AllGood id (b.backend.get id s).0)
      | inr (g, n) ↦ rw (e, n) (matches_of-AllGood id (g id s).0)
    ]
  ]

  -- the record that an id is resolved to carries the bare id
  pub match-HasId :
      (id : Bytes) (s : S) (m : Match)
      → (resolve_unique b id s).0 ≡ good m
      → m.id ≡ (qualifier id).0
  match-HasId id s m h = elim (Outcome-cases (resolve b (qualifier id).0 s).0) [
    | inl (ms, e) ↦
        All-Among (HasId (qualifier id).0) m ms
          (subst (AllGood (HasId (qualifier id).0)) e (resolve-AllGood (qualifier id).0 s))
          (Among-candidates (qualifier id).1 m ms (resolve_unique-IsChosen b id s m ms e h).0)
    | inr (f, e) ↦ absurd (unresolved b id s m f e h)
  ]

-- what an id is resolved to is among the records of the bare id
pub found-Among :
    {S : Type 0} (b : Access S) (id : Bytes) (s : S) (m : Match)
    → (resolve_unique b id s).0 ≡ good m
    → (ms : List Match) × ((resolve b (qualifier id).0 s).0 ≡ good ms) × Among m ms
found-Among b id s m h = elim (Outcome-cases (resolve b (qualifier id).0 s).0) [
  | inl (ms, e) ↦
      (ms, e, Among-candidates (qualifier id).1 m ms (resolve_unique-IsChosen b id s m ms e h).0)
  | inr (f, e) ↦ absurd (unresolved b id s m f e h)
]

match_in-Among :
    (st : Status) (ms found : List Match) (m : Match)
    → keep (λ x. same_status x.status st) ms ≡ found
    → match_in st ms ≡ good m
    → Among m ms
unfolding match_in
match_in-Among st ms [] m e h = cc
match_in-Among st ms (x ∷ y ∷ ys) m e h = cc
match_in-Among st ms (x ∷ []) m e h =
    (keep-Among (λ x. same_status x.status st) m ms (subst (Among m) (sym e) (inl (cc)))).0

abbrev pub Names : Bytes → Outcome Match → Type 0
Names id (bad f) = Unit
Names id (good m) = m.id ≡ id

match_in-Names :
    (id : Bytes) (st : Status) (ms : List Match) (o : Outcome Match)
    → All (HasId id) ms
    → match_in st ms ≡ o
    → Names id o
match_in-Names id st ms (bad f) h e = tt
match_in-Names id st ms (good m) h e =
    All-Among (HasId id) m ms h
      (match_in-Among st ms (keep (λ x. same_status x.status st) ms) m refl e)

match_now-Names :
    (id : Bytes) (st : Status) (o : Outcome (List Match))
    → AllGood (HasId id) o
    → Names id (match_now st o)
unfolding match_now
match_now-Names id st (bad f) h = tt
match_now-Names id st (good ms) h = match_in-Names id st ms (match_in st ms) h refl

-- a record that is looked up again has the id; an id without a stay names no partition
pub rematch-Names :
    {S : Type 0} (b : Access S) (id : Bytes) (stay : Option Status) (s : S)
    → (stay ≡ none → (qualifier id).0 ≡ id)
    → Names id (rematch b id stay s).0
unfolding rematch
rematch-Names b id none s h = elim (Outcome-cases (resolve_unique b id s).0) [
  | inl (m, e) ↦ rw e (match-HasId b id s m e ∙ h refl)
  | inr (f, e) ↦ rw e tt
]
rematch-Names b id (some st) s h = match_now-Names id st (resolve b id s).0 (resolve-AllGood b id s)
