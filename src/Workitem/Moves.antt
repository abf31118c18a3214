-- ===== src/Workitem/Moves.antt =====
-- internal/workitem/claim.go, reopen.go and reclaim.go: what a move leaves in the store, for every
-- backend that keeps the contract.
use macguffin.Prelude.{
  ℕ, ◌≡◌, refl, sym, ◌∙◌, subst, false, List, Option, some, Bytes, same, itoa, is_nil,
  if◌then◌else◌, Bool-cases, Option-cases, inl, inr,
}
use macguffin.Store.{Status, available, claimed, done, State, same_status, Actor, Doc, Err, Result}
use macguffin.Store.Race.{any_claim}
use macguffin.Store.Steps.{transition_cong}
use macguffin.Store.Spec
use macguffin.Store.Spec.{View}
use macguffin.Store.Backend.{Keeps}
use macguffin.Workitem.Item.{Item}
use macguffin.Workitem.Resolve.{
  Access, Match, Outcome, good, bad, Failure, resolve, resolve_unique, match_state, qualifier,
  no_partition,
}
use macguffin.Workitem.Lifecycle.{
  ReclaimResult, status_of, explained, not_moved, read_in, take, claim, reopen, restamp, reclaim,
  writer, unheld, is_lost,
}
use macguffin.Workitem.Explain.{
  explain_claim_failure, explain_reopen_failure, explain_reclaim_failure,
}
use macguffin.Workitem.Identity.{Outcome-cases, Result-cases, match-HasId}

module _ {S : Type 0} (b : Access S) (digest : Bytes → Bytes) (derive : State → Actor → State)
    (IsId : Bytes → Type 0) (IsState : State → Type 0) (IsPartition : Bytes → Type 0)
    (k : Keeps b.backend digest derive IsId IsState IsPartition) where
  -- The store is healthy and, at every id, what the view says.
  abbrev pub Agrees : S → View → Type 0
  Agrees s v = k.IsHealthy s × ((j : Bytes) → IsId j → k.view s j ≡ v j)

  -- GetAll, where the backend has it, changes nothing that can be seen.
  abbrev pub IsReader : Type 0
  IsReader =
      (g : Bytes → S → Result (List Doc) × S)
      → b.get_all ≡ some g
      → (id : Bytes) (s : S) → IsId id
      → k.IsHealthy s
      → Agrees (g id s).1 (k.view s)

  pub Agrees-trans : (s t : S) (v : View) → Agrees s v → Agrees t (k.view s) → Agrees t v
  Agrees-trans s t v h q = (q.0, λ j i. q.1 j i ∙ h.1 j i)

  module _ (reads : IsReader) where
    pub resolve-Agrees :
        (id : Bytes) (s : S) → IsId id → k.IsHealthy s → Agrees (resolve b id s).1 (k.view s)
    unfolding resolve
    resolve-Agrees id s i h = elim (Bool-cases (is_nil id)) [
      | inl e ↦ rw e (h, λ j q. refl)
      | inr e ↦ elim (Option-cases b.get_all) [
        | inl n ↦ rw (e, n) ((k.get_law id s i h).1, (k.get_law id s i h).2)
        | inr (g, n) ↦ rw (e, n) (reads g n id s i h)
      ]
    ]

    pub resolve_unique-Agrees :
        (id : Bytes) (s : S)
        → IsId (qualifier id).0
        → k.IsHealthy s
        → Agrees (resolve_unique b id s).1 (k.view s)
    unfolding resolve_unique
    resolve_unique-Agrees id s i h = elim (Bool-cases (no_partition (qualifier id).1)) [
      | inl e ↦ rw e (h, λ j q. refl)
      | inr e ↦ rw e (resolve-Agrees (qualifier id).0 s i h)
    ]

    pub explained-Agrees :
        (A : Type 0) (why : Option Status → Failure) (id : Bytes) (s : S)
        → IsId (qualifier id).0
        → k.IsHealthy s
        → Agrees (explained b {A = A} why id s).1 (k.view s)
    unfolding status_of
    explained-Agrees A why id s i h = resolve_unique-Agrees id s i h

    pub not_moved-Agrees :
        (A : Type 0) (why : Option Status → Failure) (id : Bytes) (e : Err) (s : S)
        → IsId (qualifier id).0
        → k.IsHealthy s
        → Agrees (not_moved b {A = A} why id e s).1 (k.view s)
    unfolding not_moved
    not_moved-Agrees A why id e s i h = elim (Bool-cases (is_lost e)) [
      | inl q ↦ rw q (explained-Agrees A why id s i h)
      | inr q ↦ rw q (h, λ j r. refl)
    ]

    -- what a move of the match to a claim, as the actor, makes of a view
    abbrev pub moved_view : Match → Actor → View → View
    moved_view m by v = (Spec.transition derive m.id (match_state m) any_claim by v).1

    module _ (claims_held : IsState any_claim) where
      moved-Agrees :
          (now : ℕ) (m : Match) (by : Actor) (s t : S)
          → IsId m.id
          → k.IsHealthy s
          → Agrees t (k.view (b.backend.transition now m.id (match_state m) any_claim by s).1)
          → Agrees t (moved_view m by (k.view s))
      moved-Agrees now m by s t i h q =
          let f = k.transition_law now m.id (match_state m) any_claim by s i claims_held h in
          (q.0, λ j r. q.1 j r ∙ f.viewed j r)

      take-Agrees :
          (parse_time : Bytes → Option ℕ) (why : Option Status → Failure) (now : ℕ) (by : Actor)
          (id : Bytes) (m : Match) (s : S)
          → IsId (qualifier id).0
          → IsId m.id
          → k.IsHealthy s
          → Agrees (take b parse_time why now by id m s).1 (moved_view m by (k.view s))
      unfolding take read_in
      take-Agrees parse_time why now by id m s i n h =
          let t = b.backend.transition now m.id (match_state m) any_claim by s in
          let f = k.transition_law now m.id (match_state m) any_claim by s n claims_held h in
          moved-Agrees now m by s (take b parse_time why now by id m s).1 n h
            (elim (Result-cases t.0) [
              | inl e ↦ rw (e, take) (resolve-Agrees m.id t.1 n f.healthy)
              | inr (e, q) ↦ rw (q, take) (not_moved-Agrees Item why id e t.1 i f.healthy)
            ])

      -- the view that a move leaves, given what the id was resolved to
      abbrev pub view_after : Status → Actor → Outcome Match → View → View
      unfolding same_status
      view_after st by (bad f) v = v
      view_after st by (good m) v = if same_status m.status st then moved_view m by v else v

      moved_view_cong :
          (m : Match) (by : Actor) (s t : S)
          → IsId m.id
          → Agrees t (k.view s)
          → (j : Bytes) → IsId j
          → moved_view m by (k.view t) j ≡ moved_view m by (k.view s) j
      moved_view_cong m by s t n a j i =
          transition_cong derive m.id (match_state m) any_claim by (k.view t) (k.view s) j
            (a.1 m.id n) (a.1 j i)

      -- Claim changes the store exactly as one transition of the contract does, from the state in which the
      -- id was resolved to a claim by the process, if that state is available, and otherwise not at
      -- all; whatever it answers, the store stays healthy. The bare id is an id of the backend, whose
      -- GetAll changes nothing, and which accepts claimed states.
      pub claim-view_after :
          (parse_time : Bytes → Option ℕ) (now : ℕ) (who : Actor) (id : Bytes) (pid : ℕ) (s : S)
          → IsId (qualifier id).0
          → k.IsHealthy s
          → Agrees
              (claim b parse_time now who id pid s).1
              (view_after available (writer who pid) (resolve_unique b id s).0 (k.view s))
      unfolding claim
      claim-view_after parse_time now who id pid s i h =
          let r = resolve_unique b id s in
          let a = resolve_unique-Agrees id s i h in
          elim (Outcome-cases r.0) [
            | inr (f, e) ↦ rw (e, claim) a
            | inl (m, e) ↦ elim (Bool-cases (same_status m.status available)) [
              | inr q ↦
                  rw (e, q, claim)
                    (Agrees-trans r.1 _ (k.view s) a
                      (explained-Agrees Item explain_claim_failure id r.1 i a.0))
              | inl q ↦
                  let mid = subst IsId (sym (match-HasId b id s m e)) i in
                  let t =
                    take-Agrees parse_time explain_claim_failure now (writer who pid) id m r.1 i mid
                      a.0 in
                  rw (e, q, claim)
                    (t.0, λ j w. t.1 j w ∙ moved_view_cong m (writer who pid) s r.1 mid a j w)
            ]
          ]

      -- Reopen changes the store exactly as one transition of the contract does, from the state in which
      -- the id was resolved to a claim without a PID, if that state is done, and otherwise not at all;
      -- whatever it answers, the store stays healthy. The bare id is an id of the backend, whose GetAll
      -- changes nothing, and which accepts claimed states.
      pub reopen-view_after :
          (parse_time : Bytes → Option ℕ) (now : ℕ) (who : Actor) (id : Bytes) (s : S)
          → IsId (qualifier id).0
          → k.IsHealthy s
          → Agrees
              (reopen b parse_time now who id s).1
              (view_after done (unheld who) (resolve_unique b id s).0 (k.view s))
      unfolding reopen
      reopen-view_after parse_time now who id s i h =
          let r = resolve_unique b id s in
          let a = resolve_unique-Agrees id s i h in
          elim (Outcome-cases r.0) [
            | inr (f, e) ↦ rw (e, reopen) a
            | inl (m, e) ↦ elim (Bool-cases (same_status m.status done)) [
              | inr q ↦
                  rw (e, q, reopen)
                    (Agrees-trans r.1 _ (k.view s) a
                      (explained-Agrees Item explain_reopen_failure id r.1 i a.0))
              | inl q ↦
                  let mid = subst IsId (sym (match-HasId b id s m e)) i in
                  let t =
                    take-Agrees parse_time explain_reopen_failure now (unheld who) id m r.1 i mid
                      a.0 in
                  rw (e, q, reopen)
                    (t.0, λ j w. t.1 j w ∙ moved_view_cong m (unheld who) s r.1 mid a j w)
            ]
          ]

      restamp-Agrees :
          (now : ℕ) (by : Actor) (id : Bytes) (m : Match) (s : S)
          → IsId (qualifier id).0
          → IsId m.id
          → k.IsHealthy s
          → same m.holder (itoa by.pid) ≡ false
          → Agrees (restamp b now by id m s).1 (moved_view m by (k.view s))
      unfolding restamp
      restamp-Agrees now by id m s i n h d =
          let t = b.backend.transition now m.id (match_state m) any_claim by s in
          let f = k.transition_law now m.id (match_state m) any_claim by s n claims_held h in
          moved-Agrees now m by s (restamp b now by id m s).1 n h (elim (Result-cases t.0) [
            | inl e ↦ rw (d, e, restamp) (f.healthy, λ j r. refl)
            | inr (e, q) ↦
                rw (d, q, restamp)
                  (not_moved-Agrees ReclaimResult explain_reclaim_failure id e t.1 i f.healthy)
          ])

      -- the view that Reclaim leaves of a claim: one that has the PID already stays as it is
      abbrev pub restamp_view : Match → Actor → View → View
      restamp_view m by v = if same m.holder (itoa by.pid) then v else moved_view m by v

      moved_view_new :
          (m : Match) (by : Actor) (v : View)
          → same m.holder (itoa by.pid) ≡ false
          → moved_view m by v ≡ restamp_view m by v
      moved_view_new m by v d = rw d refl

      restamp_view-Agrees :
          (now : ℕ) (by : Actor) (id : Bytes) (m : Match) (s : S)
          → IsId (qualifier id).0
          → IsId m.id
          → k.IsHealthy s
          → Agrees (restamp b now by id m s).1 (restamp_view m by (k.view s))
      unfolding restamp
      restamp_view-Agrees now by id m s i n h = elim (Bool-cases (same m.holder (itoa by.pid))) [
        | inl d ↦ rw (d, restamp) (h, λ j r. refl)
        | inr d ↦
            subst (Agrees (restamp b now by id m s).1) (moved_view_new m by (k.view s) d)
              (restamp-Agrees now by id m s i n h d)
      ]

      restamp_view_cong :
          (m : Match) (by : Actor) (s t : S)
          → IsId m.id
          → Agrees t (k.view s)
          → (j : Bytes) → IsId j
          → restamp_view m by (k.view t) j ≡ restamp_view m by (k.view s) j
      restamp_view_cong m by s t n a j i = elim (Bool-cases (same m.holder (itoa by.pid))) [
        | inl d ↦ rw d (a.1 j i)
        | inr d ↦ rw d (moved_view_cong m by s t n a j i)
      ]

      -- the view that Reclaim leaves
      abbrev pub restamped_view : Actor → Outcome Match → View → View
      unfolding same_status
      restamped_view by (bad f) v = v
      restamped_view by (good m) v = if same_status m.status claimed then restamp_view m by v else v

      -- Reclaim changes the store exactly as one transition of the contract does, from the claim that the
      -- id was resolved to to a claim by the given PID, if the item is claimed and not by that PID, and
      -- otherwise not at all; whatever it answers, the store stays healthy. The bare id is an id of the
      -- backend, whose GetAll changes nothing, and which accepts claimed states.
      pub reclaim-restamped_view :
          (now : ℕ) (who : Actor) (id : Bytes) (pid : ℕ) (s : S)
          → IsId (qualifier id).0
          → k.IsHealthy s
          → Agrees
              (reclaim b now who id pid s).1
              (restamped_view (writer who pid) (resolve_unique b id s).0 (k.view s))
      unfolding reclaim
      reclaim-restamped_view now who id pid s i h =
          let r = resolve_unique b id s in
          let a = resolve_unique-Agrees id s i h in
          elim (Outcome-cases r.0) [
            | inr (f, e) ↦ rw (e, reclaim) a
            | inl (m, e) ↦ elim (Bool-cases (same_status m.status claimed)) [
              | inr q ↦
                  rw (e, q, reclaim)
                    (Agrees-trans r.1 _ (k.view s) a
                      (explained-Agrees ReclaimResult explain_reclaim_failure id r.1 i a.0))
              | inl q ↦
                  let mid = subst IsId (sym (match-HasId b id s m e)) i in
                  let t = restamp_view-Agrees now (writer who pid) id m r.1 i mid a.0 in
                  rw (e, q, reclaim)
                    (t.0, λ j w. t.1 j w ∙ restamp_view_cong m (writer who pid) s r.1 mid a j w)
            ]
          ]
