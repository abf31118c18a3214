-- ===== src/Workitem/Deps.antt =====
-- internal/workitem/depends.go and allDepsMet of schedule.go: what is known of the items that an item
-- depends on, and where the item belongs. `done_ids` is the set that doneIDSet reads.
use macguffin.Prelude.{
  ◌≡◌, ◌↔◌, refl, arith, Bool, true, false, ◌||◌, not, List, [], ◌∷◌, Option, none, some, Bytes,
  is_nil, if◌then◌else◌, keep, any, all,
}
use macguffin.Store.{Status, available, done, pending, shelved, same_status}
use macguffin.Workitem.Resolve.{Access, Match, Outcome, good, bad, live, live_status, resolve}

-- DepState
pub data DepState : Type 0 where
  satisfied waiting dep_shelved unknown : DepState

unfoldable pub same_dep : DepState → DepState → Bool
same_dep satisfied satisfied = true
same_dep waiting waiting = true
same_dep dep_shelved dep_shelved = true
same_dep unknown unknown = true
same_dep _ _ = false

-- Dep; the status of an unknown item is `none`
pub record Dep : Type 0 where
  pub id : Bytes
  pub state : DepState
  pub status : Option Status

-- Dep.Reachable
unfoldable pub reachable : Dep → Bool
unfolding same_dep
reachable d = same_dep d.state satisfied || same_dep d.state waiting

-- the loop of depStateFor over the records of an id; `first` is what the loop falls through to
unfoldable pub live_state : Option Status → List Match → DepState × Option Status
unfolding same_status live_status
live_state first [] = (satisfied, first)
live_state first (m ∷ ms) =
    let rest = live_state first ms in
    if live m
    then (if same_status m.status shelved
        then (dep_shelved, some m.status)
        else (waiting, some m.status))
    else rest

-- depStateFor, from whether the id is done and what it resolves to
unfoldable pub dep_state_for : Bool → Outcome (List Match) → DepState × Option Status
unfolding live_state
dep_state_for true o = (satisfied, some done)
dep_state_for false (bad f) = (unknown, none)
dep_state_for false (good []) = (unknown, none)
dep_state_for false (good (m ∷ ms)) = live_state (some m.status) (m ∷ ms)

-- classifyDeps
unfoldable pub classify_deps :
    {S : Type 0} → Access S → (Bytes → Bool) → List Bytes → S → List Dep × S
unfolding dep_state_for resolve
classify_deps b done_ids [] s = ([], s)
classify_deps b done_ids (id ∷ ids) s =
    let r = if done_ids id then (good [], s) else resolve b id s in
    let st = dep_state_for (done_ids id) r.0 in
    let rest = classify_deps b done_ids ids r.1 in
    (record { id = id; state = st.0; status = st.1 } ∷ rest.0, rest.1)

abbrev pub is_shelved : Dep → Bool
unfolding same_dep
is_shelved d = same_dep d.state dep_shelved

abbrev pub is_satisfied : Dep → Bool
unfolding same_dep
is_satisfied d = same_dep d.state satisfied

-- placeForDeps
unfoldable pub place_for_deps : List Dep → Status × List Dep
unfolding same_dep
place_for_deps deps =
    if not (is_nil (keep is_shelved deps))
    then (shelved, keep is_shelved deps)
    else if is_nil deps || all is_satisfied deps
    then (available, [])
    else (pending, [])

abbrev pub ids_of : List Dep → List Bytes
ids_of [] = []
ids_of (d ∷ ds) = d.id ∷ ids_of ds

-- ShelvedDeps
unfoldable pub shelved_deps :
    {S : Type 0} → Access S → (Bytes → Bool) → List Bytes → S → List Bytes × S
unfolding classify_deps same_dep
shelved_deps b done_ids depends s =
    let r = classify_deps b done_ids depends s in (ids_of (keep is_shelved r.0), r.1)

-- the dependencies for which Stranded lists an item, of those that were classified
unfoldable pub stranding : List Dep → List Dep
unfolding reachable
stranding deps = keep (λ d. not (reachable d)) deps

-- allDepsMet
unfoldable pub all_deps_met : (Bytes → Bool) → List Bytes → Bool
all_deps_met done_ids [] = true
all_deps_met done_ids (d ∷ ds) =
    let rest = all_deps_met done_ids ds in if done_ids d then rest else false

shelved_kept : (deps : List Dep) → is_nil (keep is_shelved deps) ≡ not (any is_shelved deps)
shelved_kept [] = refl
shelved_kept (d ∷ deps) = ground (arith, shelved_kept deps)

keep-none : (deps : List Dep) → any is_shelved deps ≡ false → keep is_shelved deps ≡ []
keep-none [] h = refl
keep-none (d ∷ deps) h = ground (arith, keep-none deps)

satisfied_unshelved :
    (st : DepState) → same_dep st satisfied ≡ true → same_dep st dep_shelved ≡ false
unfolding same_dep
satisfied_unshelved satisfied h = refl
satisfied_unshelved waiting h = refl
satisfied_unshelved dep_shelved h = cc
satisfied_unshelved unknown h = refl

dep_unshelved : (d : Dep) → is_satisfied d ≡ true → is_shelved d ≡ false
unfolding is_satisfied is_shelved
dep_unshelved d = satisfied_unshelved d.state

all_unshelved : (deps : List Dep) → all is_satisfied deps ≡ true → any is_shelved deps ≡ false
all_unshelved [] h = refl
all_unshelved (d ∷ deps) h = ground (arith, all_unshelved deps, dep_unshelved d)

all-nil : (deps : List Dep) → is_nil deps ≡ true → all is_satisfied deps ≡ true
all-nil [] h = refl
all-nil (d ∷ deps) h = cc

live_state-satisfied :
    (first : Option Status) (ms : List Match)
    → ((live_state first ms).0 ≡ satisfied) ↔ (any live ms ≡ false)
unfolding live_state
live_state-satisfied first [] = (λ h. refl, λ h. refl)
live_state-satisfied first (m ∷ ms) = ground (arith, live_state-satisfied first ms)

-- The place of a new item: beside a shelved dependency if it has one, and it is then told which these
-- are; otherwise it is available exactly if each of its dependencies is satisfied, and pending if not.
pub place_for_deps_lem :
    (deps : List Dep)
    → (((place_for_deps deps).0 ≡ shelved) ↔ (any is_shelved deps ≡ true))
      × (((place_for_deps deps).0 ≡ available) ↔ (all is_satisfied deps ≡ true))
      × ((place_for_deps deps).1 ≡ keep is_shelved deps)
unfolding place_for_deps
place_for_deps_lem deps =
    ground (arith, shelved_kept deps, keep-none deps, all_unshelved deps, all-nil deps)

-- A dependency that is not done counts as satisfied exactly if the backend has records of it and none
-- of them is live.
pub dep_state_for-satisfied :
    (ms : List Match)
    → ((dep_state_for false (good ms)).0 ≡ satisfied)
      ↔ ((is_nil ms ≡ false) × (any live ms ≡ false))
unfolding dep_state_for
dep_state_for-satisfied [] = ground arith
dep_state_for-satisfied (m ∷ ms) = ground (arith, live_state-satisfied (some m.status) (m ∷ ms))
