-- ===== src/Workitem/Scheduled.antt =====
-- internal/workitem/schedule.go, Schedule with doneIDSet: what it returns waits for nothing any more.
use macguffin.Prelude.{
  ℕ, ◌≡◌, refl, sym, arith, subst, Bool, true, false, List, [], ◌∷◌, ◌++◌, Option, some, Bytes,
  same, any, All, All-keeps, Option-cases, inl, inr, ◌⊎◌,
}
use macguffin.Store.{
  Status, available, done, archived, pending, State, in_status, Actor, Doc, Result, ok,
}
use macguffin.Store.Backend.{Keeps}
use macguffin.Workitem.Item.{Item}
use macguffin.Workitem.Resolve.{Access, Outcome, good, bad}
use macguffin.Workitem.Moves.{IsReader}
use macguffin.Workitem.Deps.{all_deps_met}
use macguffin.Workitem.Snooze.{gate_open, snooze_holds}
use macguffin.Workitem.Schedule.{ids_in, done_id_set, promote_all, schedule_listed, schedule}
use macguffin.Workitem.Unclaim.Placed.{Answer-cases}
use macguffin.Workitem.Promoted

abbrev HasId : List Bytes → Bytes → Type 0
HasId ids i = any (same i) ids ≡ true

any-++ : (i : Bytes) (ds as_ids : List Bytes) → HasId (ds ++ as_ids) i → HasId ds i ⊎ HasId as_ids i
any-++ i [] as_ids h = inr h
any-++ i (d ∷ ds) as_ids h = ground (arith, any-++ i ds as_ids, h)

all_deps_met-All :
    (done_ids : Bytes → Bool) (deps : List Bytes)
    → all_deps_met done_ids deps ≡ true
    → All (λ i. done_ids i ≡ true) deps
unfolding all_deps_met
all_deps_met-All done_ids [] h = tt
all_deps_met-All done_ids (d ∷ deps) h =
    (ground (arith, h), all_deps_met-All done_ids deps (ground (arith, h)))

-- Every dependency is in one of the lists, and the item does not sleep.
abbrev pub IsFree : List Bytes → List Bytes → ℕ → Item → Type 0
IsFree ds as_ids clock it =
    All (λ i. HasId ds i ⊎ HasId as_ids i) it.depends × (snooze_holds clock it ≡ false)

gate_open-IsFree :
    (ds as_ids : List Bytes) (clock : ℕ) (it : Item)
    → gate_open (λ i. any (same i) (ds ++ as_ids)) clock it ≡ true
    → IsFree ds as_ids clock it
unfolding gate_open
gate_open-IsFree ds as_ids clock it h = (
  All-keeps (λ i q. any-++ i ds as_ids q) it.depends
      (all_deps_met-All (λ i. any (same i) (ds ++ as_ids)) it.depends (ground (arith, h))),
  ground (arith, h),
)

module _ {S : Type 0} (b : Access S) (digest : Bytes → Bytes) (derive : State → Actor → State)
    (IsId : Bytes → Type 0) (IsState : State → Type 0) (IsPartition : Bytes → Type 0)
    (k : Keeps b.backend digest derive IsId IsState IsPartition)
    (reads : IsReader b digest derive IsId IsState IsPartition k) (parse_time : Bytes → Option ℕ)
    (format_time : ℕ → Bytes) (others : ℕ → S → S)
    (harmless : (n : ℕ) (s : S) → k.IsHealthy s → k.IsHealthy (others n s))
    (available_held : IsState (in_status available)) (now : ℕ) (who : Actor) (j : Bytes)
    (j_held : IsId j) (away : (n : ℕ) (s : S) → k.IsHealthy s → k.view (others n s) j ≡ k.view s j)
    (list : Status → S → Result (List Doc) × S)
    (id_lister : Option (Status → S → Result (List Bytes) × S)) (clock : ℕ) where
  abbrev pub Spared : S → S → Type 0
  Spared =
      Promoted.Spared b digest derive IsId IsState IsPartition k reads parse_time format_time others
        harmless available_held now who j j_held away

  -- the ids that are listed as done, and then those as archived, after the pending items
  abbrev pub done_listed : S → Result (List Bytes) × S
  done_listed s = ids_in list id_lister done (list pending s).1

  abbrev pub archived_listed : S → Result (List Bytes) × S
  archived_listed s = ids_in list id_lister archived (done_listed s).1

  -- Each item that is returned is free, by the ids that are listed as done or as archived.
  abbrev pub Freed : S → Outcome (List Item) → Type 0
  Freed s (bad f) = Unit
  Freed s (good its) =
      (ds : List Bytes) × (as_ids : List Bytes) × ((done_listed s).0 ≡ ok ds)
      × ((archived_listed s).0 ≡ ok as_ids)
      × All (IsFree ds as_ids clock) its

  abbrev Passed : (Bytes → Bool) → Doc → Type 0
  Passed done_ids =
      Promoted.Passed b digest derive IsId IsState IsPartition k reads parse_time format_time others
        harmless available_held now who j j_held away done_ids clock

  ids_in-Spared :
      ((st : Status) (s : S) → k.IsHealthy s → Spared s (list st s).1)
      → ((ids : Status → S → Result (List Bytes) × S)
          → id_lister ≡ some ids
          → (st : Status) (s : S) → k.IsHealthy s
          → Spared s (ids st s).1)
      → (st : Status) (s : S) → k.IsHealthy s
      → Spared s (ids_in list id_lister st s).1
  unfolding ids_in
  ids_in-Spared listing naming st s h = elim (Option-cases id_lister) [
    | inl e ↦ rw e (listing st s h)
    | inr (ids, e) ↦ rw e (naming ids e st s h)
  ]

  -- No record that is listed as pending, and whose gate is open by the listed ids, is j's.
  abbrev pub AllPass : S → Type 0
  AllPass s =
      (docs : List Doc) (ds as_ids : List Bytes)
      → (list pending s).0 ≡ ok docs
      → (done_listed s).0 ≡ ok ds
      → (archived_listed s).0 ≡ ok as_ids
      → All (Passed (λ i. any (same i) (ds ++ as_ids))) docs

  Spared-trans : (s t u : S) → Spared s t → Spared t u → Spared s u
  Spared-trans =
      Promoted.Spared-trans b digest derive IsId IsState IsPartition k reads parse_time format_time
        others harmless available_held now who j j_held away

  Opened-Freed :
      (s : S) (ds as_ids : List Bytes) (o : Outcome (List Item))
      → (done_listed s).0 ≡ ok ds
      → (archived_listed s).0 ≡ ok as_ids
      → Promoted.Opened b digest derive IsId IsState IsPartition k reads parse_time format_time
          others harmless available_held now who j j_held away
          (λ i. any (same i) (ds ++ as_ids))
          clock
          o
      → Freed s o
  Opened-Freed s ds as_ids (bad f) d a h = tt
  Opened-Freed s ds as_ids (good its) d a h =
      (ds, as_ids, d, a, All-keeps (gate_open-IsFree ds as_ids clock) its h)

  -- Every item that Schedule returns is awake, and each of its dependencies is an id that is listed as done
  -- or as archived. It leaves every other item alone: if no pending record with an open gate has the
  -- valid id j, or has it in its text, the store has the same under j as before, and stays healthy.
  -- The backend keeps the contract, its listings and its GetAll change neither the store's health nor
  -- what is under j, and it accepts available items and the ids of the records with an open gate.
  -- Other processes keep the store healthy and stay away from j.
  pub schedule-Spared :
      ((st : Status) (s : S) → k.IsHealthy s → Spared s (list st s).1)
      → ((ids : Status → S → Result (List Bytes) × S)
          → id_lister ≡ some ids
          → (st : Status) (s : S) → k.IsHealthy s
          → Spared s (ids st s).1)
      → (s : S) → k.IsHealthy s
      → AllPass s
      → let out = schedule b digest parse_time format_time others now who list id_lister clock s in
        Freed s out.0 × Spared s out.1
  unfolding schedule schedule_listed done_id_set
  schedule-Spared listing naming s h pass =
      let Goal : Outcome (List Item) × S → Type 0 = λ o. Freed s o.0 × Spared s o.1 in
      let out = schedule b digest parse_time format_time others now who list id_lister clock s in
      let l = list pending s in
      let d = done_listed s in
      let a = archived_listed s in
      let sl = listing pending s h in
      let sd = Spared-trans s l.1 d.1 sl (ids_in-Spared listing naming done l.1 sl.0) in
      let sa = Spared-trans s d.1 a.1 sd (ids_in-Spared listing naming archived d.1 sd.0) in
      elim (Answer-cases l.0) [
        | inr (e, p) ↦ rw (p, schedule) (tt, sl)
        | inl (docs, p) ↦ elim (Answer-cases d.0) [
          | inr (e, q) ↦ rw (p, schedule) (rw (q, done_id_set) (tt, sd))
          | inl (ds, q) ↦ elim (Answer-cases a.0) [
            | inr (e, r) ↦ rw (p, schedule) (rw (q, done_id_set) (rw r (tt, sa)))
            | inl (as_ids, r) ↦
                let done_ids : Bytes → Bool = λ i. any (same i) (ds ++ as_ids) in
                let x =
                  promote_all b digest parse_time format_time others now who done_ids clock docs
                    a.1 in
                let v : out ≡ x = rw (p, schedule) (rw (q, done_id_set) (rw r refl)) in
                let f =
                  Promoted.promote_all-Spared b digest derive IsId IsState IsPartition k reads
                    parse_time format_time others harmless available_held now who j j_held away
                    done_ids clock docs a.1 (pass docs ds as_ids p q r) sa.0 in
                subst Goal (sym v)
                  (Opened-Freed s ds as_ids x.0 q r f.0, Spared-trans s a.1 x.1 sa f.1)
          ]
        ]
      ]
