-- ===== src/Workitem/Archive/Guarded.antt =====
-- internal/workitem/archive.go: the guards of archiving and the moving of saved bodies leave every item in its
-- state, if the companions do.
use macguffin.Workitem.Done.Asked
use macguffin.Prelude.{
  ℕ, List, [], ◌∷◌, Option, Bytes, codes, same, keep, is_nil, length, leb, Bool-cases, inl, inr,
}
use macguffin.Store.{State, Actor, Ref}
use macguffin.Store.Backend.{Keeps}
use macguffin.Workitem.Item.{Item}
use macguffin.Workitem.Resolve.{Access, conflict}
use macguffin.Workitem.Identity.{Outcome-cases, Result-cases}
use macguffin.Workitem.Moves.{IsReader}
use macguffin.Workitem.Guards.{
  check_archive_guards, require_not_blocked, require_remainder_discharged, require_successor,
  require_tracked, successor_ids,
}
use macguffin.Workitem.Done.Held
use macguffin.Workitem.Done.Kept
use macguffin.Workitem.Unclaim.Placed.{Answer-cases}
use macguffin.Workitem.Archive.{
  Bodies, is_backup, sort_down, drop, remove_each, body_backup_keep, prune_body_backups,
  move_body_backups,
}

module _ {S : Type 0} (b : Access S) (digest : Bytes → Bytes) (derive : State → Actor → State)
    (IsId : Bytes → Type 0) (IsState : State → Type 0) (IsPartition : Bytes → Type 0)
    (k : Keeps b.backend digest derive IsId IsState IsPartition)
    (reads : IsReader b digest derive IsId IsState IsPartition k) (parse_time : Bytes → Option ℕ)
    (format_time : ℕ → Bytes) (others : ℕ → S → S)
    (holding : (n : ℕ) (s : S)
      → k.IsHealthy s
      → Held.Held b digest derive IsId IsState IsPartition k reads s (others n s))
    (vacant : (j : Bytes) → Asked.IsAsked b digest derive IsId IsState IsPartition k j) (now : ℕ)
    (who : Actor) where
  abbrev Same : S → S → Type 0
  Same = Held.Held b digest derive IsId IsState IsPartition k reads

  Same-refl : (s : S) → k.IsHealthy s → Same s s
  Same-refl = Held.Held-refl b digest derive IsId IsState IsPartition k reads

  Same-trans : (s t u : S) → Same s t → Same t u → Same s u
  Same-trans = Held.Held-trans b digest derive IsId IsState IsPartition k reads

  require_successor-Same : (it : Item) (s : S) → k.IsHealthy s → Same s (require_successor b it s).1
  unfolding require_successor require_tracked
  require_successor-Same it s h = elim (Bool-cases (same it.kind (codes "design"))) [
    | inr n ↦ rw n (Same-refl s h)
    | inl y ↦ elim (Bool-cases (is_nil (successor_ids it))) [
      | inl n ↦ rw (y, n) (Same-refl s h)
      | inr n ↦
          rw (y, n)
            (Kept.some_resolves-Same b digest derive IsId IsState IsPartition k reads parse_time
              format_time others holding vacant now who (conflict (codes "dangling_successor"))
              (successor_ids it) s h)
    ]
  ]

  pub check_archive_guards-Same :
      (it : Item) (s : S) → k.IsHealthy s → Same s (check_archive_guards b it s).1
  unfolding check_archive_guards
  check_archive_guards-Same it s h =
      let r = require_remainder_discharged b it s in
      let p =
        Kept.require_remainder_discharged-Same b digest derive IsId IsState IsPartition k reads
          parse_time format_time others holding vacant now who it s h in
      elim (Outcome-cases (require_not_blocked it)) [
        | inr (f, e) ↦ rw (e, check_archive_guards) (Same-refl s h)
        | inl (x, e) ↦ elim (Outcome-cases r.0) [
          | inr (f, n) ↦ rw (e, check_archive_guards) (rw n p)
          | inl (y, n) ↦
              rw (e, check_archive_guards)
                (rw n (
                  Same-trans s r.1 (require_successor b it r.1).1 p
                    (require_successor-Same it r.1 p.0)))
        ]
      ]

  module _ (c : Bodies S)
      (naming_holds : (ref : Ref) (s : S) → k.IsHealthy s → Same s (c.names ref s).1)
      (removing_holds : (ref : Ref) (n : Bytes) (s : S)
        → k.IsHealthy s
        → Same s (c.remove ref n s).1)
      (moving_holds : (from to : Ref) (s : S) → k.IsHealthy s → Same s (c.move from to s).1) where
    remove_each-Same :
        (ref : Ref) (ns : List Bytes) (s : S) → k.IsHealthy s → Same s (remove_each c ref ns s).1
    unfolding remove_each
    remove_each-Same ref [] s h = Same-refl s h
    remove_each-Same ref (n ∷ ns) s h =
        let r = c.remove ref n s in
        let p = removing_holds ref n s h in
        elim (Result-cases r.0) [
          | inr (e, q) ↦ rw (q, remove_each) p
          | inl q ↦
              rw (q, remove_each)
                (Same-trans s r.1 (remove_each c ref ns r.1).1 p (remove_each-Same ref ns r.1 p.0))
        ]

    prune_body_backups-Same :
        (ref : Ref) (s : S) → k.IsHealthy s → Same s (prune_body_backups c ref s).1
    unfolding prune_body_backups
    prune_body_backups-Same ref s h =
        let ns = c.names ref s in
        let p = naming_holds ref s h in
        elim (Answer-cases ns.0) [
          | inr (e, q) ↦ rw (q, prune_body_backups) p
          | inl (all_names, q) ↦
              let names = keep (is_backup c.parse_stamp) all_names in
              let old = drop body_backup_keep (sort_down names) in
              elim (Bool-cases (leb (length names) body_backup_keep)) [
                | inl y ↦ rw (q, prune_body_backups) (rw y p)
                | inr y ↦
                    rw (q, prune_body_backups)
                      (rw y (
                        Same-trans s ns.1 (remove_each c ref old ns.1).1 p
                          (remove_each-Same ref old ns.1 p.0)))
              ]
        ]

    pub move_body_backups-Same :
        (from to : Ref) (s : S) → k.IsHealthy s → Same s (move_body_backups c from to s).1
    unfolding move_body_backups
    move_body_backups-Same from to s h =
        let r = c.move from to s in
        let p = moving_holds from to s h in
        elim (Result-cases r.0) [
          | inr (e, q) ↦ rw (q, move_body_backups) p
          | inl q ↦
              rw (q, move_body_backups)
                (Same-trans s r.1 (prune_body_backups c to r.1).1 p
                  (prune_body_backups-Same to r.1 p.0))
        ]
