-- ===== src/Workitem/Unclaim/Freed.antt =====
-- internal/workitem/unclaim.go: releasing a claim answers an error and changes no item's state, or it moves
-- the claimed item to the place that its gates ask for.
use macguffin.Workitem.Done.Asked
use macguffin.Prelude.{
  ℕ, ◌≡◌, refl, sym, ap, ◌∙◌, subst, Bool, true, false, List, Option, some, Bytes, same, any,
  Bool-cases, inl, inr, ◌⊎◌, if◌then◌else◌,
}
use macguffin.Store.{Status, available, pending, State, Actor, Doc, Err, Result, ok}
use macguffin.Store.Backend.{Keeps}
use macguffin.Workitem.Resolve.{Access, Outcome, good, bad}
use macguffin.Workitem.Identity.{Outcome-cases}
use macguffin.Workitem.Lifecycle.{explained, status_of}
use macguffin.Workitem.Explain.{explain_unclaim_failure}
use macguffin.Workitem.Moves.{IsReader}
use macguffin.Workitem.Snooze.{gate_open}
use macguffin.Workitem.Done.Held
use macguffin.Workitem.Done.Kept
use macguffin.Workitem.Unclaim.{Release, released}
use macguffin.Workitem.Unclaim.Placed
use macguffin.Workitem.Unclaim.Placed.{Answer-cases}
use macguffin.Workitem.Unclaim.{UnclaimResult, unclaim_result, put_back, unclaim}
use macguffin.Workitem.Unclaim.Readied
use macguffin.Store.Spec
use macguffin.Store.Steps.{transition-err}
use macguffin.Workitem.Lifecycle.{not_moved, writer, is_lost, io_error}
use macguffin.Workitem.Identity.{Result-cases}
use macguffin.Workitem.Resolve.{Failure, match_state}
use macguffin.Store.{in_status}

module _ {S : Type 0} (b : Access S) (digest : Bytes → Bytes) (derive : State → Actor → State)
    (IsId : Bytes → Type 0) (IsState : State → Type 0) (IsPartition : Bytes → Type 0)
    (k : Keeps b.backend digest derive IsId IsState IsPartition)
    (reads : IsReader b digest derive IsId IsState IsPartition k) (parse_time : Bytes → Option ℕ)
    (format_time : ℕ → Bytes) (others : ℕ → S → S)
    (holding : (n : ℕ) (s : S)
      → k.IsHealthy s
      → Held.Held b digest derive IsId IsState IsPartition k reads s (others n s))
    (vacant : (j : Bytes) → Asked.IsAsked b digest derive IsId IsState IsPartition k j) (now : ℕ)
    (who : Actor) (list : Status → S → Result (List Doc) × S)
    (listing_holds : (st : Status) (s : S)
      → k.IsHealthy s
      → Held.Held b digest derive IsId IsState IsPartition k reads s (list st s).1)
    (id_lister : Option (Status → S → Result (List Bytes) × S))
    (ids_hold : (ids : Status → S → Result (List Bytes) × S)
      → id_lister ≡ some ids
      → (st : Status) (s : S) → k.IsHealthy s
      → Held.Held b digest derive IsId IsState IsPartition k reads s (ids st s).1)
    (clock : ℕ) (available_held : IsState (in_status available))
    (pending_held : IsState (in_status pending)) where
  abbrev Same : S → S → Type 0
  Same = Held.Held b digest derive IsId IsState IsPartition k reads

  abbrev ReadiedFor : Bytes → Option Bytes → S → Release → S → Type 0
  ReadiedFor =
      Readied.Readied b digest derive IsId IsState IsPartition k reads parse_time format_time others
        holding vacant now who list listing_holds id_lister ids_hold clock

  -- The item is at its place, by a move that the contract allows, and nothing else has changed.
  pub record Freed (r : Release) (t u : S) : Type 0 where
    pub healthy : k.IsHealthy u
    pub allowed :
        (Spec.transition derive r.match.id
          (match_state r.match)
          (in_status r.landing)
          (writer who 0)
          (k.view t)).0
        ≡ ok tt
    pub viewed :
        (j : Bytes)
        → IsId j
        → k.view u j
          ≡ (Spec.transition derive r.match.id
                (match_state r.match)
                (in_status r.landing)
                (writer who 0)
                (k.view t)).1
              j

  -- An error, with every item in its state; or the move, and the answer that tells of it.
  abbrev pub UnclaimEnds : Bytes → Option Bytes → S → Outcome UnclaimResult × S → Type 0
  UnclaimEnds id name s out =
      ((f : Failure) × (out.0 ≡ bad f) × Same s out.1)
      ⊎ ((r : Release) × (t : S) × ReadiedFor id name s r t
          × Freed r t out.1
          × (out.0 ≡ good (unclaim_result id r)))

  landing_held :
      (r : Release) (open_gate : Bool)
      → r.landing ≡ (if open_gate then available else pending)
      → IsState (in_status r.landing)
  landing_held r true e = subst (λ st. IsState (in_status st)) (sym e) available_held
  landing_held r false e = subst (λ st. IsState (in_status st)) (sym e) pending_held

  not_moved-Ends :
      (id : Bytes) (name : Option Bytes) (s t : S) (e : Err)
      → Same s t
      → UnclaimEnds id name s (not_moved b {A = UnclaimResult} explain_unclaim_failure id e t)
  unfolding not_moved status_of
  not_moved-Ends id name s t e a = elim (Bool-cases (is_lost e)) [
    | inl y ↦
        let x = explained b {A = UnclaimResult} explain_unclaim_failure id t in
        rw y (
          inl (
            explain_unclaim_failure (status_of b id t).0,
            refl,
            Placed.Same-trans b digest derive IsId IsState IsPartition k reads parse_time
                format_time others holding vacant now who list listing_holds id_lister ids_hold
                clock s t x.1 a
                (Kept.resolve_unique-Same b digest derive IsId IsState IsPartition k reads
                  parse_time format_time others holding vacant now who id t a.0),
          ))
    | inr y ↦ rw y (inl (io_error, refl, a))
  ]

  put_back-Ends :
      (id : Bytes) (name : Option Bytes) (s : S) (r : Release) (t : S)
      → ReadiedFor id name s r t
      → UnclaimEnds id name s
          (put_back b digest parse_time format_time others now who list id_lister clock id r t)
  unfolding put_back
  put_back-Ends id name s r t q =
      let out =
        put_back b digest parse_time format_time others now who list id_lister clock id r t in
      let by = writer who 0 in
      let w =
        b.backend.transition now r.match.id (match_state r.match) (in_status r.landing) by t in
      let f =
        k.transition_law now r.match.id (match_state r.match) (in_status r.landing) by t
          (subst IsId (sym q.same_id) q.takes)
          (landing_held r (gate_open (λ x. any (same x) q.done_ids) clock r.item) q.lands)
          q.still.0 in
      elim (Result-cases w.0) [
        | inl o ↦
            let v : out ≡ (good (unclaim_result id r), w.1) = rw (o, put_back) refl in
            subst (UnclaimEnds id name s) (sym v) (
              inr (
                r,
                t,
                q,
                record { healthy = f.healthy; allowed = sym f.answer ∙ o; viewed = f.viewed },
                refl,
              ))
        | inr (e, o) ↦
            let x = not_moved b {A = UnclaimResult} explain_unclaim_failure id e w.1 in
            let v : out ≡ x = rw (o, put_back) refl in
            let same_view =
              transition-err derive r.match.id (match_state r.match) (in_status r.landing) by
                (k.view t) e (sym f.answer ∙ o) in
            subst (UnclaimEnds id name s) (sym v) (
              not_moved-Ends id name s w.1 e (
                Placed.Same-trans b digest derive IsId IsState IsPartition k reads parse_time
                  format_time others holding vacant now who list listing_holds id_lister ids_hold
                  clock s t w.1 q.still
                  (f.healthy, λ j i. ap Held.state_at (f.viewed j i ∙ ap (λ y. y j) same_view))))
      ]

  -- On a backend that keeps the contract, whose GetAll changes nothing, and which takes available
  -- and pending items and has no record under a text that it does not take as an id, while other
  -- processes and the listings leave every item in its state, so that none but this operation
  -- moves an item: releasing a claim either answers an error and leaves every item in its state;
  -- or the id named a claimed item, which carries the assignee that was given, if one was, and is
  -- moved to available if its gates are open, and to pending if not, going by the done items that
  -- were read; no other item changes in the move, and the answer tells the place.
  pub unclaim-Ends :
      (id : Bytes) (name : Option Bytes) (s : S)
      → k.IsHealthy s
      → UnclaimEnds id name s
          (unclaim b digest parse_time format_time others now who list id_lister clock id name s)
  unfolding unclaim
  unclaim-Ends id name s h =
      let out =
        unclaim b digest parse_time format_time others now who list id_lister clock id name s in
      let r =
        released b digest parse_time format_time others now who list id_lister clock id name s in
      let q =
        Readied.released-Ends b digest derive IsId IsState IsPartition k reads parse_time
          format_time others holding vacant now who list listing_holds id_lister ids_hold clock id
          name s h in
      elim (Outcome-cases r.0) [
        | inr (f, e) ↦
            let v : out ≡ (bad f, r.1) = rw (e, unclaim) refl in
            subst (UnclaimEnds id name s) (sym v) (
              inl (
                f,
                refl,
                subst
                    (λ o.
                      Readied.ReleaseEnds b digest derive IsId IsState IsPartition k reads
                        parse_time format_time others holding vacant now who list listing_holds
                        id_lister ids_hold clock id name s o r.1)
                    e q,
              ))
        | inl (x, e) ↦
            let v : out
                ≡ put_back b digest parse_time format_time others now who list id_lister clock id x
                    r.1 =
              rw (e, unclaim) refl in
            subst (UnclaimEnds id name s) (sym v) (
              put_back-Ends id name s x r.1 (
                subst
                  (λ o.
                    Readied.ReleaseEnds b digest derive IsId IsState IsPartition k reads parse_time
                      format_time others holding vacant now who list listing_holds id_lister
                      ids_hold clock id name s o r.1)
                  e q))
      ]
