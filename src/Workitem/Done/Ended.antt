-- ===== src/Workitem/Done/Ended.antt =====
-- internal/workitem/done.go: completing an item answers an error and changes no item's state, or it moves
-- a claimed item whose remainder is tracked.
use macguffin.Workitem.Done.Asked
use macguffin.Prelude.{
  ℕ, ◌≡◌, refl, sym, ap, ◌∙◌, subst, List, Option, none, Bytes, Bool-cases, inl, inr, ◌⊎◌, some, [],
}
use macguffin.Store.{Status, done, State, in_status, Actor, Ref, Doc, Err, Result, ok}
use macguffin.Store.Spec
use macguffin.Store.Spec.{View, is_archived}
use macguffin.Store.Steps.{transition-err}
use macguffin.Store.Backend.{Keeps}
use macguffin.Workitem.Item.{Item}
use macguffin.Workitem.Resolve.{Access, Match, Outcome, bad, Failure, match_state}
use macguffin.Workitem.Identity.{Outcome-cases, Result-cases}
use macguffin.Workitem.Lifecycle.{io_error, writer, explained, not_moved, is_lost, status_of}
use macguffin.Workitem.Explain.{explain_done_failure}
use macguffin.Workitem.Moves.{IsReader}
use macguffin.Workitem.Done.{Results, prepared, settle, complete, mark_done}
use macguffin.Workitem.Done.Held
use macguffin.Workitem.Done.Prepared

module _ {S : Type 0} (b : Access S) (digest : Bytes → Bytes) (derive : State → Actor → State)
    (IsId : Bytes → Type 0) (IsState : State → Type 0) (IsPartition : Bytes → Type 0)
    (k : Keeps b.backend digest derive IsId IsState IsPartition)
    (reads : IsReader b digest derive IsId IsState IsPartition k) (parse_time : Bytes → Option ℕ)
    (format_time : ℕ → Bytes) (others : ℕ → S → S)
    (holding : (n : ℕ) (s : S)
      → k.IsHealthy s
      → Held.Held b digest derive IsId IsState IsPartition k reads s (others n s))
    (vacant : (j : Bytes) → Asked.IsAsked b digest derive IsId IsState IsPartition k j) (now : ℕ)
    (who : Actor)
    (absent : (g : Bytes → S → Result (List Doc) × S)
      → b.get_all ≡ some g
      → (id : Bytes) (s : S) → IsId id
      → k.IsHealthy s
      → k.view s id ≡ none
      → (ds : List Doc) → (g id s).0 ≡ ok ds
      → ds ≡ [])
    (c : Results S)
    (reading_holds : (ref : Ref) (s : S)
      → k.IsHealthy s
      → Held.Held b digest derive IsId IsState IsPartition k reads s (c.read_result ref s).1)
    (writing_holds : (ref : Ref) (payload : Bytes) (s : S)
      → k.IsHealthy s
      → Held.Held b digest derive IsId IsState IsPartition k reads s
          (c.write_result ref payload s).1)
    (is_state : IsState (in_status done)) (list : Status → S → Result (List Doc) × S)
    (id_lister : Option (Status → S → Result (List Bytes) × S)) (clock : ℕ) where
  abbrev Same : S → S → Type 0
  Same =
      Prepared.Same b digest derive IsId IsState IsPartition k reads parse_time format_time others
        holding vacant now who absent c reading_holds writing_holds

  abbrev Cleared : Bytes → Bytes → S → Match → S → Type 0
  Cleared =
      Prepared.Cleared b digest derive IsId IsState IsPartition k reads parse_time format_time
        others holding vacant now who absent c reading_holds writing_holds

  -- The record is done in the one, by a move that the contract allows, and nothing else has changed.
  pub record Moved (m : Match) (t u : S) : Type 0 where
    pub healthy : k.IsHealthy u
    pub allowed :
        (Spec.transition derive m.id (match_state m) (in_status done) (writer who 0) (k.view t)).0
        ≡ ok tt
    pub viewed :
        (j : Bytes)
        → IsId j
        → k.view u j
          ≡ (Spec.transition derive m.id
                (match_state m)
                (in_status done)
                (writer who 0)
                (k.view t)).1
              j

  abbrev settled : Match → S → Outcome (Item × List Item) × S
  settled = settle b digest parse_time format_time others now who c list id_lister clock

  -- An error, with every item in its state; or the move, and what comes after it.
  abbrev pub DoneEnds : Bytes → Bytes → S → Outcome (Item × List Item) × S → Type 0
  DoneEnds id successor s out =
      ((f : Failure) × (out.0 ≡ bad f) × Same s out.1)
      ⊎ ((m : Match) × (t : S) × (u : S) × Cleared id successor s m t
          × Moved m t u
          × (out ≡ settled m u))

  not_moved-Ends :
      (id successor : Bytes) (s t : S) (e : Err)
      → Same s t
      → DoneEnds id successor s (not_moved b {A = Item × List Item} explain_done_failure id e t)
  unfolding not_moved status_of
  not_moved-Ends id successor s t e a = elim (Bool-cases (is_lost e)) [
    | inl y ↦ rw y (
        inl (
          explain_done_failure (status_of b id t).0,
          refl,
          Prepared.Same-trans b digest derive IsId IsState IsPartition k reads parse_time
              format_time others holding vacant now who absent c reading_holds writing_holds s t
              (explained b {A = Item × List Item} explain_done_failure id t).1 a
              (Prepared.explained-Same b digest derive IsId IsState IsPartition k reads parse_time
                format_time others holding vacant now who absent c reading_holds writing_holds
                (Item × List Item) explain_done_failure id t a.0),
        ))
    | inr y ↦ rw y (inl (io_error, refl, a))
  ]

  complete-Ends :
      (id successor : Bytes) (s : S) (m : Match) (t : S)
      → Cleared id successor s m t
      → DoneEnds id successor s
          (complete b digest parse_time format_time others now who c list id_lister clock id m t)
  unfolding complete
  complete-Ends id successor s m t cl =
      let out =
        complete b digest parse_time format_time others now who c list id_lister clock id m t in
      let by = writer who 0 in
      let w = b.backend.transition now m.id (match_state m) (in_status done) by t in
      let f =
        k.transition_law now m.id (match_state m) (in_status done) by t cl.takes is_state
          cl.still.0 in
      elim (Result-cases w.0) [
        | inl o ↦
            let v : out ≡ settled m w.1 = rw (o, complete) refl in
            inr (
              m,
              t,
              w.1,
              cl,
              record { healthy = f.healthy; allowed = sym f.answer ∙ o; viewed = f.viewed },
              v,
            )
        | inr (e, o) ↦
            let x = not_moved b {A = Item × List Item} explain_done_failure id e w.1 in
            let v : out ≡ x = rw (o, complete) refl in
            let same_view =
              transition-err derive m.id (match_state m) (in_status done) by (k.view t) e
                (sym f.answer ∙ o) in
            subst (DoneEnds id successor s) (sym v) (
              not_moved-Ends id successor s w.1 e (
                Prepared.Same-trans b digest derive IsId IsState IsPartition k reads parse_time
                  format_time others holding vacant now who absent c reading_holds writing_holds s t
                  w.1 cl.still
                  (f.healthy, λ j i. ap Held.state_at (f.viewed j i ∙ ap (λ y. y j) same_view))))
      ]

  -- On a backend that keeps the contract, whose GetAll changes nothing, and which takes done items
  -- and has no record under a text that it does not take as an id, nor under an id that it does
  -- not know, while other processes and the companions leave every item in its state, so that none
  -- but this operation moves an item: completing an item either answers an error and leaves every
  -- item in its state; or the id named a claimed item, which declares no remainder once it is
  -- linked, or names a successor that the store knows, the item is done by a move that the
  -- contract allows, and what follows is the reading of it and the scheduling.
  pub mark_done-Ends :
      (id result successor : Bytes) (s : S)
      → k.IsHealthy s
      → DoneEnds id successor s (
          mark_done b digest parse_time format_time others now who c list id_lister clock id result
            successor s)
  unfolding mark_done
  mark_done-Ends id result successor s h =
      let out =
        mark_done b digest parse_time format_time others now who c list id_lister clock id result
          successor s in
      let p = prepared b digest parse_time format_time others now who c id result successor s in
      let q =
        Prepared.prepared-Ends b digest derive IsId IsState IsPartition k reads parse_time
          format_time others holding vacant now who absent c reading_holds writing_holds id result
          successor s h in
      elim (Outcome-cases p.0) [
        | inr (f, e) ↦
            let v : out ≡ (bad f, p.1) = rw (e, mark_done) refl in
            subst (DoneEnds id successor s) (sym v) (
              inl (
                f,
                refl,
                subst
                    (λ o.
                      Prepared.PreparedEnds b digest derive IsId IsState IsPartition k reads
                        parse_time format_time others holding vacant now who absent c reading_holds
                        writing_holds id successor s o p.1)
                    e q,
              ))
        | inl (m, e) ↦
            let x =
              complete b digest parse_time format_time others now who c list id_lister clock id m
                p.1 in
            let v : out ≡ x = rw (e, mark_done) refl in
            subst (DoneEnds id successor s) (sym v) (
              complete-Ends id successor s m p.1 (
                subst
                  (λ o.
                    Prepared.PreparedEnds b digest derive IsId IsState IsPartition k reads
                      parse_time format_time others holding vacant now who absent c reading_holds
                      writing_holds id successor s o p.1)
                  e q))
      ]
