-- ===== src/Workitem/Done/Kept.antt =====
-- internal/workitem/done.go: until its move, completing an item changes no item's state.
use macguffin.Workitem.Done.Asked
use macguffin.Prelude.{
  ℕ, ◌≡◌, sym, ap, ◌∙◌, List, [], ◌∷◌, Option, none, some, Bytes, codes, same, is_nil, Bool-cases,
  inl, inr,
}
use macguffin.Store.{Status, State, Actor}
use macguffin.Store.Backend.{Keeps}
use macguffin.Workitem.Item.{Item}
use macguffin.Workitem.Resolve.{
  Access, Match, Failure, conflict, qualifier, resolve, resolve_unique,
}
use macguffin.Workitem.Identity.{Outcome-cases, match-HasId}
use macguffin.Workitem.Moves.{IsReader}
use macguffin.Workitem.Modify.{modify_item}
use macguffin.Workitem.Atomic
use macguffin.Workitem.Guards.{
  some_resolves, require_tracked, require_remainder_discharged, check_successor_target,
  predecessor_tag, successor_tag, successor_ids, declares_remainder,
}
use macguffin.Workitem.Done.{
  add_tag, tag_item, link_predecessor, link_back, reconcile_backlinks, link_successor,
  link_both_ways, link,
}
use macguffin.Workitem.Done.Bare.{qualifier-qualifier}
use macguffin.Workitem.Done.Held

module _ {S : Type 0} (b : Access S) (digest : Bytes → Bytes) (derive : State → Actor → State)
    (IsId : Bytes → Type 0) (IsState : State → Type 0) (IsPartition : Bytes → Type 0)
    (k : Keeps b.backend digest derive IsId IsState IsPartition)
    (reads : IsReader b digest derive IsId IsState IsPartition k) (parse_time : Bytes → Option ℕ)
    (format_time : ℕ → Bytes) (others : ℕ → S → S)
    (holding : (n : ℕ) (s : S)
      → k.IsHealthy s
      → Held.Held b digest derive IsId IsState IsPartition k reads s (others n s))
    (vacant : (j : Bytes) → Asked.IsAsked b digest derive IsId IsState IsPartition k j) (now : ℕ)
    (who : Actor) where
  abbrev pub Same : S → S → Type 0
  Same = Held.Held b digest derive IsId IsState IsPartition k reads

  pub Same-refl : (s : S) → k.IsHealthy s → Same s s
  Same-refl = Held.Held-refl b digest derive IsId IsState IsPartition k reads

  pub Same-trans : (s t u : S) → Same s t → Same t u → Same s u
  Same-trans = Held.Held-trans b digest derive IsId IsState IsPartition k reads

  pub resolve-Same : (id : Bytes) (s : S) → k.IsHealthy s → Same s (resolve b id s).1
  resolve-Same id s h =
      Held.Held-same b digest derive IsId IsState IsPartition k reads s (resolve b id s).1
        (Asked.resolve-Agrees b digest derive IsId IsState IsPartition k reads vacant id s h)

  pub resolve_unique-Same : (id : Bytes) (s : S) → k.IsHealthy s → Same s (resolve_unique b id s).1
  resolve_unique-Same id s h =
      Held.Held-same b digest derive IsId IsState IsPartition k reads s (resolve_unique b id s).1
        (Asked.resolve_unique-Agrees b digest derive IsId IsState IsPartition k reads vacant id s h)

  tag_item-Same :
      (tag : Bytes) (stay : Option Status) (m : Match) (s : S)
      → (stay ≡ none → (qualifier m.id).0 ≡ m.id)
      → IsId m.id
      → k.IsHealthy s
      → Same s (tag_item b digest parse_time format_time others now who tag stay m s).1
  unfolding tag_item
  tag_item-Same tag stay m s p i h =
      let out = modify_item b digest parse_time format_time (add_tag tag) others now who stay m s in
      Held.Ending-Held b digest derive IsId IsState IsPartition k reads parse_time format_time
        (add_tag tag) others holding m.id s out.1 out.0 h
        (Atomic.modify_item-Ends b digest derive IsId IsState IsPartition k reads parse_time
          format_time (add_tag tag) others (λ n t q. (holding n t q).0) now who stay m s i p h)

  link_predecessor-Same :
      (successor predecessor : Bytes) (s : S)
      → k.IsHealthy s
      → Same s
          (link_predecessor b digest parse_time format_time others now who successor predecessor
            s).1
  unfolding link_predecessor
  link_predecessor-Same successor predecessor s h = elim (Bool-cases (same successor predecessor)) [
    | inl y ↦ rw y (Same-refl s h)
    | inr y ↦
        let a = resolve_unique-Same successor s h in
        elim (Outcome-cases (resolve_unique b successor s).0) [
          | inr (f, e) ↦ rw (y, e) a
          | inl (m, e) ↦
              let named = match-HasId b successor s m e in
              let t =
                tag_item b digest parse_time format_time others now who
                  (predecessor_tag predecessor) none m (resolve_unique b successor s).1 in
              let q = Same-trans s (resolve_unique b successor s).1 t.1 a (
                tag_item-Same (predecessor_tag predecessor) none m (resolve_unique b successor s).1
                  (λ x. ap (λ z. (qualifier z).0) named ∙ qualifier-qualifier successor ∙ sym named)
                  (Asked.resolve_unique-IsId b digest derive IsId IsState IsPartition k reads vacant
                    successor s m h e)
                  a.0) in
              elim (Outcome-cases t.0) [ inl (x, w) ↦ rw (y, e, w) q | inr (f, w) ↦ rw (y, e, w) q ]
        ]
  ]

  link_back-Same :
      (id : Bytes) (sids : List Bytes) (s : S)
      → k.IsHealthy s
      → Same s (link_back b digest parse_time format_time others now who id sids s)
  unfolding link_back
  link_back-Same id [] s h = Same-refl s h
  link_back-Same id (sid ∷ sids) s h =
      let t = (link_predecessor b digest parse_time format_time others now who sid id s).1 in
      let q = link_predecessor-Same sid id s h in
      Same-trans s t (link_back b digest parse_time format_time others now who id sids t) q
        (link_back-Same id sids t q.0)

  reconcile_backlinks-Same :
      (it : Item) (s : S)
      → k.IsHealthy s
      → Same s (reconcile_backlinks b digest parse_time format_time others now who it s)
  unfolding reconcile_backlinks
  reconcile_backlinks-Same it s h = link_back-Same it.id (successor_ids it) s h

  check_successor_target-Same :
      (it : Item) (successor : Bytes) (s : S)
      → k.IsHealthy s
      → Same s (check_successor_target b it successor s).1
  unfolding check_successor_target
  check_successor_target-Same it successor s h = elim (Bool-cases (same successor it.id)) [
    | inl y ↦ rw y (Same-refl s h)
    | inr y ↦
        let a = resolve-Same successor s h in
        elim (Outcome-cases (resolve b successor s).0) [
          | inl (ms, e) ↦ rw (y, e) a
          | inr (f, e) ↦ rw (y, e) a
        ]
  ]

  link_successor-Same :
      (m : Match) (it : Item) (successor : Bytes) (s : S)
      → IsId m.id
      → k.IsHealthy s
      → Same s (link_successor b digest parse_time format_time others now who m it successor s).1
  unfolding link_successor
  link_successor-Same m it successor s i h =
      let c = check_successor_target b it successor s in
      let a = check_successor_target-Same it successor s h in
      let t =
        tag_item b digest parse_time format_time others now who (successor_tag successor)
          (some m.status) m c.1 in
      elim (Outcome-cases c.0) [
        | inr (f, e) ↦ rw (e, link_successor) a
        | inl (x, e) ↦
            let q = Same-trans s c.1 t.1 a (
              tag_item-Same (successor_tag successor) (some m.status) m c.1 (λ y. absurd (cc)) i
                a.0) in
            elim (Outcome-cases t.0) [
              | inl (y, w) ↦ rw (e, link_successor) (rw w q)
              | inr (f, w) ↦ rw (e, link_successor) (rw w q)
            ]
      ]

  link_both_ways-Same :
      (m : Match) (it : Item) (successor : Bytes) (s : S)
      → IsId m.id
      → k.IsHealthy s
      → Same s (link_both_ways b digest parse_time format_time others now who m it successor s).1
  unfolding link_both_ways
  link_both_ways-Same m it successor s i h =
      let l = link_successor b digest parse_time format_time others now who m it successor s in
      let a = link_successor-Same m it successor s i h in
      elim (Outcome-cases l.0) [
        | inr (f, e) ↦ rw (e, link_both_ways) a
        | inl (it', e) ↦
            rw (e, link_both_ways)
              (Same-trans s l.1
                (reconcile_backlinks b digest parse_time format_time others now who it' l.1) a
                (reconcile_backlinks-Same it' l.1 a.0))
      ]

  pub link-Same :
      (m : Match) (it : Item) (successor : Bytes) (s : S)
      → IsId m.id
      → k.IsHealthy s
      → Same s (link b digest parse_time format_time others now who m it successor s).1
  unfolding link
  link-Same m it successor s i h = elim (Bool-cases (is_nil successor)) [
    | inl y ↦ rw y (reconcile_backlinks-Same it s h)
    | inr y ↦ rw y (link_both_ways-Same m it successor s i h)
  ]

  pub some_resolves-Same :
      (dangling : Failure) (js : List Bytes) (s : S)
      → k.IsHealthy s
      → Same s (some_resolves b dangling js s).1
  unfolding some_resolves
  some_resolves-Same dangling [] s h = Same-refl s h
  some_resolves-Same dangling (j ∷ js) s h =
      let r = resolve b j s in
      let a = resolve-Same j s h in
      let q =
        Same-trans s r.1 (some_resolves b dangling js r.1).1 a
          (some_resolves-Same dangling js r.1 a.0) in
      elim (Outcome-cases r.0) [
        | inr (f, e) ↦ rw (e, some_resolves) a
        | inl (ms, e) ↦ elim (Bool-cases (is_nil ms)) [
          | inl n ↦ rw (e, some_resolves) (rw n q)
          | inr n ↦ rw (e, some_resolves) (rw n a)
        ]
      ]

  pub require_remainder_discharged-Same :
      (it : Item) (s : S) → k.IsHealthy s → Same s (require_remainder_discharged b it s).1
  unfolding require_remainder_discharged require_tracked
  require_remainder_discharged-Same it s h = elim (Bool-cases (declares_remainder it)) [
    | inr n ↦ rw n (Same-refl s h)
    | inl y ↦ elim (Bool-cases (is_nil (successor_ids it))) [
      | inl n ↦ rw (y, n) (Same-refl s h)
      | inr n ↦
          rw (y, n)
            (some_resolves-Same (conflict (codes "remainder_dangling_successor")) (successor_ids it)
              s h)
    ]
  ]
