-- ===== src/Workitem/Resolve.antt =====
-- internal/workitem/resolve.go, errors.go and the readers of backend.go: from an id to the one record
-- that it names. An error is its category, its code and whether it can be retried; the texts of its
-- message and hint are not modelled. `Access` is a backend with the optional GetAll (store.Twins).
use macguffin.Prelude.{
  ◌≡◌, refl, sym, ap, arith, subst, Bool, true, false, List, [], ◌∷◌, Option, none, some, Bytes,
  codes, same, is_nil, if◌then◌else◌, Bool-cases, inl, inr, keep, ◌⊎◌, length, map,
}
use macguffin.Store.{
  Status, available, claimed, pending, shelved, State, same_status, not_found, Doc, Err, Result, ok,
  err,
}
use macguffin.Store.Backend.{Backend}
use macguffin.Lines.{cut}
use macguffin.Mgerr
use macguffin.Mgerr.{Category}

-- Match, less where it is kept
pub record Match : Type 0 where
  pub id : Bytes
  pub status : Status
  pub partition : Bytes
  pub holder : Bytes
  pub doc : Doc

-- matchOf, with the id that was resolved
unfoldable pub match_of : Bytes → Doc → Match
match_of id d = record {
  id = id;
  status = d.state.status;
  partition = d.partition;
  holder = d.state.holder;
  doc = d;
}

-- Match.State
unfoldable pub match_state : Match → State
match_state m = record { status = m.status; holder = m.holder }

-- liveStates, and Match.Live
unfoldable pub live_status : Status → Bool
live_status available = true
live_status claimed = true
live_status pending = true
live_status shelved = true
live_status _ = false

abbrev pub live : Match → Bool
unfolding live_status
live m = live_status m.status

-- what a command answers instead of a result: an error of mg, one of the backend passed on, or the
-- error of Parse
pub data Failure : Type 0 where
  refusal : Category → Bytes → Bool → Failure
  backend_error : Err → Failure
  malformed : Failure

pub data Outcome (A : Type 0) : Type 0 where
  good : A → Outcome A
  bad : Failure → Outcome A

abbrev pub conflict : Bytes → Failure
conflict code = refusal Mgerr.conflict code false

-- errNoSuchItem
abbrev pub no_such_item : Failure
no_such_item = refusal Mgerr.not_found (codes "no_such_item") false

-- errAmbiguousID
abbrev pub ambiguous_id : Failure
ambiguous_id = conflict (codes "ambiguous_id")

-- errEmptyPartition
abbrev pub empty_partition : Failure
empty_partition = refusal Mgerr.usage (codes "empty_partition") false

-- errNoSuchPartition
abbrev pub no_such_partition : Failure
no_such_partition = refusal Mgerr.not_found (codes "no_such_partition") false

pub record Access (S : Type 0) : Type 0 where
  pub backend : Backend S
  pub get_all : Option (Bytes → S → Result (List Doc) × S)

-- errors.Is(err, store.ErrNotFound)
unfoldable pub is_not_found : Err → Bool
is_not_found (not_found id) = true
is_not_found _ = false

-- the records that the backend has under the id
unfoldable pub matches_of : Bytes → Result (List Doc) → Outcome (List Match)
unfolding match_of
matches_of id (ok ds) = good (map (match_of id) ds)
matches_of id (err e) = bad (backend_error e)

-- the same, by Get
unfoldable pub match_of_get : Bytes → Result Doc → Outcome (List Match)
unfolding match_of is_not_found
match_of_get id (ok d) = good (match_of id d ∷ [])
match_of_get id (err e) = if is_not_found e then good [] else bad (backend_error e)

-- Resolve
unfoldable pub resolve : {S : Type 0} → Access S → Bytes → S → Outcome (List Match) × S
unfolding matches_of match_of_get
resolve b id s = if is_nil id then (good [], s) else elim b.get_all [
  | some get_all ↦ (matches_of id (get_all id s).0, (get_all id s).1)
  | none ↦ (match_of_get id (b.backend.get id s).0, (b.backend.get id s).1)
]

-- among several records the one that is live
unfoldable pub only_live : List Match → Outcome Match
unfolding live_status
only_live ms = elim (keep live ms) [
  | [] ↦ bad ambiguous_id
  | m ∷ more ↦ if is_nil more then good m else bad ambiguous_id
]

-- the last switch of resolveUnique
unfoldable pub choose : List Match → Outcome Match
unfolding only_live
choose [] = bad no_such_item
choose (m ∷ more) = if is_nil more then good m else only_live (m ∷ more)

-- the records of the partition that the id names, if it names one
unfoldable pub in_partition : Option Bytes → List Match → Outcome (List Match)
in_partition none ms = good ms
in_partition (some p) ms = elim (keep (λ m. same m.partition p) ms) [
  | [] ↦ bad (if is_nil ms then no_such_item else no_such_partition)
  | m ∷ more ↦ good (m ∷ more)
]

-- strings.Cut(id, "@"): the bare id, and the partition of a qualified one
unfoldable pub qualifier : Bytes → Bytes × Option Bytes
unfolding cut
qualifier id = elim (cut (codes "@") id) [ none ↦ (id, none) | some (bare, p) ↦ (bare, some p) ]

unfoldable pub choose_found : Outcome (List Match) → Outcome Match
unfolding choose
choose_found (bad e) = bad e
choose_found (good found) = choose found

unfoldable pub chosen_in : Option Bytes → Outcome (List Match) → Outcome Match
unfolding in_partition choose_found
chosen_in p (bad e) = bad e
chosen_in p (good ms) = choose_found (in_partition p ms)

abbrev pub no_partition : Option Bytes → Bool
no_partition none = false
no_partition (some p) = is_nil p

-- resolveUnique; its warning about shadowed records is output only
unfoldable pub resolve_unique : {S : Type 0} → Access S → Bytes → S → Outcome Match × S
unfolding qualifier resolve chosen_in
resolve_unique b id s =
    let q = qualifier id in
    let r = resolve b q.0 s in
    if no_partition q.1 then (bad empty_partition, s) else (chosen_in q.1 r.0, r.1)

-- matchIn, on the records that were resolved
unfoldable pub match_in : Status → List Match → Outcome Match
unfolding same_status
match_in st ms = elim (keep (λ m. same_status m.status st) ms) [
  | [] ↦ bad no_such_item
  | m ∷ more ↦ if is_nil more then good m else bad ambiguous_id
]

abbrev pub Among : Match → List Match → Type 0
Among m [] = ⊥
Among m (x ∷ xs) = (x ≡ m) ⊎ Among m xs

-- the records of which one is chosen
abbrev pub candidates : Option Bytes → List Match → List Match
candidates none ms = ms
candidates (some p) ms = keep (λ m. same m.partition p) ms

-- The chosen record is one of the candidates, and the only one, or the only live one.
abbrev pub IsChosen : Match → List Match → Type 0
IsChosen m ms = Among m ms × ((length ms ≡ 1) ⊎ ((live m ≡ true) × (length (keep live ms) ≡ 1)))

pub keep-Among :
    (p : Match → Bool) (m : Match) (ms : List Match)
    → Among m (keep p ms)
    → Among m ms × (p m ≡ true)
keep-Among p m [] h = absurd h
keep-Among p m (x ∷ ms) h = elim (Bool-cases (p x)) [
  | inl e ↦ elim (subst (λ b. Among m (if b then x ∷ keep p ms else keep p ms)) e h) [
    | inl q ↦ (inl q, subst (λ y. p y ≡ true) q e)
    | inr r ↦ (inr (keep-Among p m ms r).0, (keep-Among p m ms r).1)
  ]
  | inr e ↦
      let r =
        keep-Among p m ms (subst (λ b. Among m (if b then x ∷ keep p ms else keep p ms)) e h) in
      (inr r.0, r.1)
]

only_live-IsChosen :
    (ms found : List Match) (m : Match)
    → keep live ms ≡ found
    → only_live ms ≡ good m
    → IsChosen m ms
unfolding only_live
only_live-IsChosen ms [] m k h = cc
only_live-IsChosen ms (x ∷ y ∷ ys) m k h = cc
only_live-IsChosen ms (x ∷ []) m k h =
    let a = keep-Among live m ms (subst (Among m) (sym k) (inl (cc))) in
    (a.0, inr (a.1, ap length k))

choose-IsChosen : (ms : List Match) (m : Match) → choose ms ≡ good m → IsChosen m ms
unfolding choose
choose-IsChosen [] m h = cc
choose-IsChosen (x ∷ []) m h = (inl (cc), inl refl)
choose-IsChosen (x ∷ y ∷ ys) m h = only_live-IsChosen (x ∷ y ∷ ys) (keep live (x ∷ y ∷ ys)) m refl h

in_partition-candidates :
    (q : Option Bytes) (ms found : List Match)
    → in_partition q ms ≡ good found
    → found ≡ candidates q ms
unfolding in_partition
in_partition-candidates none ms found h = cc
in_partition-candidates (some p) ms found h = go (keep (λ m. same m.partition p) ms) h
  where
    go :
        (ks : List Match)
        → elim ks as (λ x. Outcome (List Match)) [
          | [] ↦ bad (if is_nil ms then no_such_item else no_such_partition)
          | m ∷ more ↦ good (m ∷ more)
        ]
          ≡ good found
        → found ≡ ks
    go [] h' = cc
    go (k ∷ ks) h' = cc

choose_found-IsChosen :
    (q : Option Bytes) (ms : List Match) (m : Match) (o : Outcome (List Match))
    → in_partition q ms ≡ o
    → choose_found o ≡ good m
    → IsChosen m (candidates q ms)
unfolding choose_found
choose_found-IsChosen q ms m (bad e) k h = cc
choose_found-IsChosen q ms m (good found) k h =
    subst (IsChosen m) (in_partition-candidates q ms found k) (choose-IsChosen found m h)

-- If resolving an id succeeds, its record is one of those that the backend has under the bare id, of
-- the partition that the id names, if it names one; and it is the only one such, or the only live one.
pub resolve_unique-IsChosen :
    {S : Type 0} (b : Access S) (id : Bytes) (s : S) (m : Match) (ms : List Match)
    → (resolve b (qualifier id).0 s).0 ≡ good ms
    → (resolve_unique b id s).0 ≡ good m
    → IsChosen m (candidates (qualifier id).1 ms)
unfolding resolve_unique chosen_in
resolve_unique-IsChosen b id s m ms r h = elim (Bool-cases (no_partition (qualifier id).1)) [
  | inl e ↦ ground arith
  | inr e ↦
      choose_found-IsChosen (qualifier id).1 ms m (in_partition (qualifier id).1 ms) refl
        (ground (arith, e, r))
]
