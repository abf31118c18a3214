-- ===== src/Workitem/Shelve/Run.antt =====
-- shelveCascade (internal/workitem/shelve.go) on a backend that keeps the contract: it ends, and leaves
-- no active item that depends on one it shelved.
use macguffin.Prelude.{
  if◌then◌else◌, ◌<◌, ℕ, zero, suc, ◌≡◌, refl, sym, ap, ◌∙◌, arith, subst, true, false, List, ◌∷◌,
  Option, some, Bytes, All, Bool-cases, inl, inr,
}
use macguffin.Store.{Status, shelved, State, in_status, Actor, Doc, Result, ok}
use macguffin.Store.Spec
use macguffin.Store.Spec.{View, Entry, update}
use macguffin.Store.Listing
use macguffin.Store.Backend.{Keeps}
use macguffin.Workitem.Item.{Item, parse}
use macguffin.Workitem.Resolve.{Outcome, Access, Match, good, bad, match_state, resolve_unique}
use macguffin.Workitem.Lifecycle.{writer}
use macguffin.Workitem.Moves.{resolve_unique-Agrees}
use macguffin.Workitem.Shelve.{shelvable, Ran, not_shelvable, shelve_match, shelve_cascade}
use macguffin.Workitem.Shelve.Sunk
use macguffin.Workitem.Shelve.Sunk.{is_active, Listed, active_count}
use macguffin.Workitem.Shelve.Call
use macguffin.Workitem.Shelve.Cascade
use macguffin.Workitem.Shelve.Buried
use macguffin.Workitem.Shelve.Parts.{
  transition-shelves, status_of_match, sink-ok, shelve_match-refuses, shelve_match-sinks,
  shelve_cascade-step,
}

module _ {S : Type 0} (b : Access S) (digest : Bytes → Bytes) (derive : State → Actor → State)
    (IsId : Bytes → Type 0) (IsState : State → Type 0) (IsPartition : Bytes → Type 0)
    (k : Keeps b.backend digest derive IsId IsState IsPartition)
    (list : Status → S → Result (List Doc) × S)
    (l : Listing.Lists b.backend digest derive IsId IsState IsPartition k list)
    (parse_time : Bytes → Option ℕ) (now : ℕ) (who : Actor)
    (buried : shelvable (derive (in_status shelved) (writer who 0)).status ≡ false)
    (is_state : IsState (in_status shelved))
    (sole : Call.IsSole b digest derive IsId IsState IsPartition k) where
  abbrev SettledBetween : S → S → Type 0
  SettledBetween =
      Cascade.SettledBetween b digest derive IsId IsState IsPartition k list l parse_time now who
        buried is_state sole

  abbrev SunkBetween : S → S → Type 0
  SunkBetween =
      Cascade.SunkBetween b digest derive IsId IsState IsPartition k list l parse_time now who
        buried is_state sole

  abbrev IsTidyStore : S → Type 0
  IsTidyStore =
      Cascade.IsTidyStore b digest derive IsId IsState IsPartition k list l parse_time now who
        buried is_state sole

  abbrev Readable : Bytes → S → Type 0
  Readable =
      Cascade.Readable b digest derive IsId IsState IsPartition k list l parse_time now who buried
        is_state sole

  abbrev dependents : Bytes → S → List Item × S
  dependents =
      Cascade.dependents b digest derive IsId IsState IsPartition k list l parse_time now who buried
        is_state sole

  abbrev SweptWell : S → S → Type 0
  SweptWell =
      Cascade.SweptWell b digest derive IsId IsState IsPartition k list l parse_time now who buried
        is_state sole

  abbrev Ends : (id : Bytes) (s : S) → Readable id s → Ran S → Type 0
  Ends =
      Cascade.Ends b digest derive IsId IsState IsPartition k list l parse_time now who buried
        is_state sole

  abbrev Ready : List Bytes → ℕ → S → Type 0
  Ready =
      Cascade.Ready b digest derive IsId IsState IsPartition k list l parse_time now who buried
        is_state sole

  abbrev CallEnds : List Bytes → ℕ → (Bytes → S → Ran S) → Type 0
  CallEnds =
      Cascade.CallEnds b digest derive IsId IsState IsPartition k list l parse_time now who buried
        is_state sole

  abbrev BuriedAt : Bytes → Entry → S → S → Type 0
  BuriedAt =
      Buried.Buried b digest derive IsId IsState IsPartition k list l parse_time now who buried
        is_state sole

  reads :
      (g : Bytes → S → Result (List Doc) × S)
      → b.get_all ≡ some g
      → (id : Bytes) (s : S) → IsId id
      → k.IsHealthy s
      → Listing.Alike b.backend digest derive IsId IsState IsPartition k s (g id s).1
  reads g h id s i q = (sole g h id s i q).0

  -- the transition of an item that is in the state that is expected
  transition-Buried :
      (id : Bytes) (m : Match) (e : Entry) (s : S)
      → IsId id
      → k.IsHealthy s
      → k.view s id ≡ some e
      → shelvable e.state.status ≡ true
      → m.id ≡ id
      → match_state m ≡ e.state
      → ((b.backend.transition now m.id (match_state m) (in_status shelved) (writer who 0) s).0
          ≡ ok tt)
        × BuriedAt id e s
            (b.backend.transition now m.id (match_state m) (in_status shelved) (writer who 0) s).1
  transition-Buried id m e s i h v a p q =
      let f =
        k.transition_law now m.id (match_state m) (in_status shelved) (writer who 0) s
          (subst IsId (sym p) i) is_state h in
      let eq =
        ap
          (λ x.
            Spec.transition derive x (match_state m) (in_status shelved) (writer who 0) (k.view s))
          p
        ∙ ap (λ x. Spec.transition derive id x (in_status shelved) (writer who 0) (k.view s)) q
        ∙ transition-shelves derive id (writer who 0) (k.view s) e v a in
      (
        f.answer ∙ ap (λ x. x.0) eq,
        record { healthy = f.healthy; viewed = λ j ij. f.viewed j ij ∙ ap (λ x. x.1 j) eq },
      )

  shelve_match-Ends :
      (ids : List Bytes) (fuel : ℕ) (call : Bytes → S → Ran S) (id : Bytes) (m : Match) (s : S)
      (q : Readable id s)
      → All IsId ids
      → CallEnds ids fuel call
      → IsId id
      → m.id ≡ id
      → match_state m ≡ q.0.state
      → m.doc.content ≡ q.0.content
      → Ready ids (suc fuel) s
      → Ends id s q (shelve_match b list parse_time now who call id m s)
  unfolding shelve_match
  shelve_match-Ends ids fuel call id m s q is ends i p st c r =
      elim (Bool-cases (shelvable q.0.state.status)) [
        | inr n ↦ (
          bad not_shelvable,
          s,
          shelve_match-refuses b list parse_time now who call id m s
              (ap shelvable (status_of_match m q.0.state st) ∙ n),
          Cascade.SweptWell-Alike b digest derive IsId IsState IsPartition k list l parse_time now
              who buried is_state sole s s (r.healthy, λ j x. refl),
          ap is_active q.2 ∙ n,
          rw n refl,
        )
        | inl y ↦
            let t = transition-Buried id m q.0 s i r.healthy q.2 y p st in
            let e =
              Buried.spread-Ends b digest derive IsId IsState IsPartition k list l parse_time now
                who buried is_state sole id q.0 s
                (b.backend.transition now m.id (match_state m) (in_status shelved) (writer who 0)
                  s).1
                i q.2 y t.1 ids fuel call q.1 is ends r in
            (
              good (q.1 ∷ e.0),
              e.1,
              shelve_match-sinks b list parse_time now who call id m s q.1
                    (ap shelvable (status_of_match m q.0.state st) ∙ y)
                    (ap (parse parse_time) c ∙ q.3)
                  ∙ sink-ok b list parse_time now who call id m q.1 s t.0
                  ∙ e.2,
              e.3,
              e.4,
              rw y (e.0, refl),
            )
      ]

  Ends-later :
      (id : Bytes) (s t : S) (i : IsId id) (q : Readable id s) (ran : Ran S)
      → (a : Listing.Alike b.backend digest derive IsId IsState IsPartition k s t)
      → Ends id t (q.0, q.1, a.1 id i ∙ q.2, q.3) ran
      → Ends id s q ran
  Ends-later id s t i q ran a e = (
    e.0,
    e.1,
    e.2,
    Cascade.SweptWell-trans b digest derive IsId IsState IsPartition k list l parse_time now who
        buried is_state sole s t e.1
        (Cascade.SweptWell-Alike b digest derive IsId IsState IsPartition k list l parse_time now
          who buried is_state sole s t a)
        e.3,
    e.4,
    e.5,
  )

  pub shelve_cascade-Ends :
      (ids : List Bytes)
      → All IsId ids
      → (fuel : ℕ) → CallEnds ids fuel (shelve_cascade b list parse_time now who fuel)
  unfolding shelve_cascade
  shelve_cascade-Ends ids is zero id s i q r = absurd (omega (arith, r.enough))
  shelve_cascade-Ends ids is (suc fuel) id s i q r =
      let ti = r.tidy id i q.0 q.2 in
      let f =
        Call.resolve_unique-finds b digest derive IsId IsState IsPartition k s id q.0 sole r.healthy
          i q.2 ti.0 ti.1 in
      let a =
        resolve_unique-Agrees b digest derive IsId IsState IsPartition k reads id s
          (subst IsId (sym (ap (λ x. x.0) ti.1)) i) r.healthy in
      let s1 = (resolve_unique b id s).1 in
      Ends-later id s s1 i q (shelve_cascade b list parse_time now who (suc fuel) id s) a (
        subst (Ends id s1 (q.0, q.1, a.1 id i ∙ q.2, q.3))
          (sym (shelve_cascade-step b list parse_time now who fuel id f.0 s f.1))
          (shelve_match-Ends ids fuel (shelve_cascade b list parse_time now who fuel) id f.0 s1
            (q.0, q.1, a.1 id i ∙ q.2, q.3) is (shelve_cascade-Ends ids is fuel) i f.2 f.3 f.4
            (Cascade.Ready-later b digest derive IsId IsState IsPartition k list l parse_time now
              who buried is_state sole ids (suc fuel) s s1 is
              (Cascade.SweptWell-Alike b digest derive IsId IsState IsPartition k list l parse_time
                now who buried is_state sole s s1 a)
              r)))

  -- Shelving an item whose text can be read ends, on a backend that keeps the contract and that of List, and has one
  -- record of each id that it knows, if the fuel exceeds the number of items that can be shelved, the ids that the store knows are plain
  -- ones, the ids of their texts, and the backend's derivation leaves a shelved item shelved. Then the
  -- store is healthy, an id is as it was or its item could be shelved and is shelved now with its text as
  -- it was, no item that can be shelved depends on one that the run shelved, the named item cannot be
  -- shelved any more, and the answer is the item and more, or the refusal if it could not be shelved.
  pub shelve_cascade-Run :
      (ids : List Bytes) (fuel : ℕ) (id : Bytes) (s : S) (e : Entry) (it : Item)
      → All IsId ids
      → IsId id
      → k.IsHealthy s
      → IsTidyStore s
      → Sunk.Covers derive (writer who 0) IsId parse_time buried ids (k.view s)
      → active_count ids (k.view s) < fuel
      → k.view s id ≡ some e
      → parse parse_time e.content ≡ some it
      → (o : Outcome (List Item)) × (t : S) × (shelve_cascade b list parse_time now who fuel id s
          ≡ some (o, t))
        × SweptWell s t
        × (is_active (k.view t id) ≡ false)
        × (if shelvable e.state.status
            then ((more : List Item) × (o ≡ good (it ∷ more)))
            else (o ≡ bad not_shelvable))
  shelve_cascade-Run ids fuel id s e it is i h t c n v p =
      shelve_cascade-Ends ids is fuel id s i (e, it, v, p)
        (record { healthy = h; tidy = t; covers = c; enough = n })
