-- ===== src/Workitem/Unclaim/Placed.antt =====
-- internal/workitem/unclaim.go, up to its move: no item's state has changed, and the place is the one that
-- the gates ask for.
use macguffin.Workitem.Done.Asked
use macguffin.Prelude.{
  ℕ, ◌≡◌, refl, Bool, List, [], ◌∷◌, Option, some, Bytes, same, any, is_nil, Bool-cases,
  Option-cases, inl, inr, ◌⊎◌,
}
use macguffin.Store.{Status, done, archived, State, Actor, Doc, Err, Result, ok, err}
use macguffin.Store.Backend.{Keeps}
use macguffin.Workitem.Item.{Item}
use macguffin.Workitem.Resolve.{Access, resolve}
use macguffin.Workitem.Identity.{Outcome-cases}
use macguffin.Workitem.Moves.{IsReader}
use macguffin.Workitem.Deps.{classify_deps}
use macguffin.Workitem.Schedule.{ids_in, done_id_set}
use macguffin.Workitem.Done.Held
use macguffin.Workitem.Done.Kept
use macguffin.Workitem.Unclaim.{classified, hold_for}

pub Answer-cases : {A : Type 0} (r : Result A) → ((a : A) × (r ≡ ok a)) ⊎ ((e : Err) × (r ≡ err e))
Answer-cases (ok a) = inl (a, refl)
Answer-cases (err e) = inr (e, refl)

module _ {S : Type 0} (b : Access S) (digest : Bytes → Bytes) (derive : State → Actor → State)
    (IsId : Bytes → Type 0) (IsState : State → Type 0) (IsPartition : Bytes → Type 0)
    (k : Keeps b.backend digest derive IsId IsState IsPartition)
    (reads : IsReader b digest derive IsId IsState IsPartition k) (parse_time : Bytes → Option ℕ)
    (format_time : ℕ → Bytes) (others : ℕ → S → S)
    (holding : (n : ℕ) (s : S)
      → k.IsHealthy s
      → Held.Held b digest derive IsId IsState IsPartition k reads s (others n s))
    (vacant : (j : Bytes) → Asked.IsAsked b digest derive IsId IsState IsPartition k j) (now : ℕ)
    (who : Actor) (list : Status → S → Result (List Doc) × S)
    (listing_holds : (st : Status) (s : S)
      → k.IsHealthy s
      → Held.Held b digest derive IsId IsState IsPartition k reads s (list st s).1)
    (id_lister : Option (Status → S → Result (List Bytes) × S))
    (ids_hold : (ids : Status → S → Result (List Bytes) × S)
      → id_lister ≡ some ids
      → (st : Status) (s : S) → k.IsHealthy s
      → Held.Held b digest derive IsId IsState IsPartition k reads s (ids st s).1)
    (clock : ℕ) where
  abbrev pub Same : S → S → Type 0
  Same = Held.Held b digest derive IsId IsState IsPartition k reads

  pub Same-trans : (s t u : S) → Same s t → Same t u → Same s u
  Same-trans = Held.Held-trans b digest derive IsId IsState IsPartition k reads

  pub Same-refl : (s : S) → k.IsHealthy s → Same s s
  Same-refl = Held.Held-refl b digest derive IsId IsState IsPartition k reads

  ids_in-Same : (st : Status) (s : S) → k.IsHealthy s → Same s (ids_in list id_lister st s).1
  unfolding ids_in
  ids_in-Same st s h = elim (Option-cases id_lister) [
    | inl n ↦ rw n (listing_holds st s h)
    | inr (ids, n) ↦ rw n (ids_hold ids n st s h)
  ]

  pub done_id_set-Same : (s : S) → k.IsHealthy s → Same s (done_id_set list id_lister s).1
  unfolding done_id_set
  done_id_set-Same s h =
      let d = ids_in list id_lister done s in
      let a = ids_in list id_lister archived d.1 in
      let p = ids_in-Same done s h in
      let q = Same-trans s d.1 a.1 p (ids_in-Same archived d.1 p.0) in
      elim (Answer-cases d.0) [
        | inr (e, n) ↦ rw (n, done_id_set) p
        | inl (ds, n) ↦ elim (Answer-cases a.0) [
          | inr (e, m) ↦ rw (n, done_id_set) (rw m q)
          | inl (more, m) ↦ rw (n, done_id_set) (rw m q)
        ]
      ]

  classify_deps-Same :
      (done_ids : Bytes → Bool) (ids : List Bytes) (s : S)
      → k.IsHealthy s
      → Same s (classify_deps b done_ids ids s).1
  unfolding classify_deps
  classify_deps-Same done_ids [] s h = Same-refl s h
  classify_deps-Same done_ids (id ∷ ids) s h =
      let r = resolve b id s in
      let p =
        Kept.resolve-Same b digest derive IsId IsState IsPartition k reads parse_time format_time
          others holding vacant now who id s h in
      elim (Bool-cases (done_ids id)) [
        | inl y ↦ rw y (classify_deps-Same done_ids ids s h)
        | inr y ↦ rw y (
            Same-trans s r.1 (classify_deps b done_ids ids r.1).1 p
              (classify_deps-Same done_ids ids r.1 p.0))
      ]

  classified-Same :
      (ids : List Bytes) (s : S)
      → k.IsHealthy s
      → Same s
          (classified b digest parse_time format_time others now who list id_lister clock ids s).1
  unfolding classified
  classified-Same ids s h =
      let d = done_id_set list id_lister s in
      let p = done_id_set-Same s h in
      elim (Bool-cases (is_nil ids)) [
        | inl y ↦ rw y (Same-refl s h)
        | inr y ↦ elim (Answer-cases d.0) [
          | inr (e, n) ↦ rw (y, classified) (rw n p)
          | inl (ds, n) ↦
              rw (y, classified)
                (rw n (
                  Same-trans s d.1 (classify_deps b (λ id. any (same id) ds) ids d.1).1 p
                    (classify_deps-Same (λ id. any (same id) ds) ids d.1 p.0)))
        ]
      ]

  pub hold_for-Same :
      (it : Item) (s : S)
      → k.IsHealthy s
      → Same s (hold_for b digest parse_time format_time others now who list id_lister clock it s).1
  unfolding hold_for
  hold_for-Same it s h =
      let d =
        classified b digest parse_time format_time others now who list id_lister clock it.depends
          s in
      let p = classified-Same it.depends s h in
      elim (Outcome-cases d.0) [ inl (x, n) ↦ rw (n, hold_for) p | inr (f, n) ↦ rw (n, hold_for) p ]
