-- ===== src/Workitem/Lifecycle.antt =====
-- internal/workitem/claim.go, reopen.go, reclaim.go and the helpers of backend.go: moves of an item
-- between its states, over any backend. `who` is the actor that the process writes as, with its PID;
-- `now` is the clock's answer at each write. An event is emitted only after success and is not modelled.
use macguffin.Prelude.{
  ℕ, Bool, true, false, List, [], ◌∷◌, Option, none, some, Bytes, codes, same, is_nil, ◌==◌,
  if◌then◌else◌, itoa, atoi_digits,
}
use macguffin.Store.{
  Status, available, claimed, done, same_status, Actor, Err, lost, not_found, ok, err,
}
use macguffin.Store.Race.{any_claim}
use macguffin.Mgerr
use macguffin.Workitem.Item.{Item, parse}
use macguffin.Workitem.Resolve.{
  Access, Match, Outcome, good, bad, Failure, refusal, malformed, resolve, resolve_unique, match_in,
  match_state,
}
use macguffin.Workitem.Explain.{
  explain_claim_failure, explain_reopen_failure, explain_reclaim_failure,
}

-- isLost
unfoldable pub is_lost : Err → Bool
is_lost (lost id expect current) = true
is_lost (not_found id) = true
is_lost _ = false

-- ioErr
abbrev pub io_error : Failure
io_error = refusal Mgerr.internal (codes "io_error") false

abbrev pub last_part : Option Bytes → Bytes → Option Bytes
last_part found [] = found
last_part found (c ∷ s) = if c == b'.' then last_part (some s) s else last_part found s

-- parseClaimPID of unclaim.go, without the overflow of int: a PID has at most 64 bits
unfoldable pub parse_claim_pid : Bytes → ℕ
unfolding atoi_digits
parse_claim_pid name = elim (last_part none name) [
  | none ↦ 0
  | some digits ↦ elim (atoi_digits 0 digits) [ none ↦ 0 | some pid ↦ pid ]
]

-- holderPID
unfoldable pub holder_pid : Bytes → ℕ
unfolding parse_claim_pid
holder_pid holder = if is_nil holder then 0 else parse_claim_pid (b'.' ∷ holder)

-- writer
unfoldable pub writer : Actor → ℕ → Actor
writer who pid = if pid == 0 then who else record who { pid = pid }

-- unheld
unfoldable pub unheld : Actor → Actor
unfolding writer
unheld who = record (writer who 0) { pid = 0 }

-- ReclaimResult
pub record ReclaimResult : Type 0 where
  pub id : Bytes
  pub old_pid : ℕ
  pub new_pid : ℕ
  pub moved : Bool

module _ {S : Type 0} (b : Access S) where
  -- statusWithPID, its status
  unfoldable pub status_of : Bytes → S → Option Status × S
  unfolding resolve_unique
  status_of id s =
      let r = resolve_unique b id s in (elim r.0 [ bad e ↦ none | good m ↦ some m.status ], r.1)

  abbrev pub explained : {A : Type 0} → (Option Status → Failure) → Bytes → S → Outcome A × S
  unfolding status_of
  explained why id s = let r = status_of id s in (bad (why r.0), r.1)

  -- a refused move, in the words of the operation
  unfoldable pub not_moved :
      {A : Type 0} → (Option Status → Failure) → Bytes → Err → S → Outcome A × S
  unfolding is_lost explained
  not_moved why id e s = if is_lost e then explained why id s else (bad io_error, s)

  module _ (parse_time : Bytes → Option ℕ) where
    -- readMatch
    unfoldable pub read_match : Match → Outcome Item
    unfolding parse
    read_match m = elim (parse parse_time m.doc.content) [
      | none ↦ bad malformed
      | some it ↦ good it
    ]

    -- what matchIn and then readMatch make of the records that were resolved
    unfoldable pub read_among : Status → Outcome (List Match) → Outcome Item
    unfolding read_match match_in
    read_among st (bad e) = bad e
    read_among st (good ms) = elim (match_in st ms) [ bad e ↦ bad e | good m ↦ read_match m ]

    -- readIn
    unfoldable pub read_in : Bytes → Status → S → Outcome Item × S
    unfolding read_among resolve
    read_in id st s = let r = resolve b id s in (read_among st r.0, r.1)

    -- Claim and Reopen, once the item is resolved: the move and the reading of what it left
    unfoldable pub take :
        (Option Status → Failure) → ℕ → Actor → Bytes → Match → S → Outcome Item × S
    unfolding not_moved read_in match_state
    take why now by id m s =
        let t = b.backend.transition now m.id (match_state m) any_claim by s in
        elim t.0 [ err e ↦ not_moved why id e t.1 | ok done_now ↦ read_in m.id claimed t.1 ]

    -- Claim
    unfoldable pub claim : ℕ → Actor → Bytes → ℕ → S → Outcome Item × S
    unfolding take resolve_unique writer explain_claim_failure same_status
    claim now who id pid s =
        let r = resolve_unique b id s in
        elim r.0 [
          | bad e ↦ (bad e, r.1)
          | good m ↦
              if same_status m.status available
              then take explain_claim_failure now (writer who pid) id m r.1
              else explained explain_claim_failure id r.1
        ]

    -- Reopen
    unfoldable pub reopen : ℕ → Actor → Bytes → S → Outcome Item × S
    unfolding take resolve_unique unheld explain_reopen_failure same_status
    reopen now who id s =
        let r = resolve_unique b id s in
        elim r.0 [
          | bad e ↦ (bad e, r.1)
          | good m ↦
              if same_status m.status done
              then take explain_reopen_failure now (unheld who) id m r.1
              else explained explain_reopen_failure id r.1
        ]

  -- Reclaim, once the item is resolved
  unfoldable pub restamp : ℕ → Actor → Bytes → Match → S → Outcome ReclaimResult × S
  unfolding not_moved match_state holder_pid itoa explain_reclaim_failure
  restamp now by id m s =
      let kept : ReclaimResult = record {
        id = id;
        old_pid = holder_pid m.holder;
        new_pid = by.pid;
        moved = false;
      } in
      let t = b.backend.transition now m.id (match_state m) any_claim by s in
      if same m.holder (itoa by.pid) then (good kept, s) else elim t.0 [
        | err e ↦ not_moved explain_reclaim_failure id e t.1
        | ok done_now ↦ (good (record kept { moved = true }), t.1)
      ]

  -- Reclaim
  unfoldable pub reclaim : ℕ → Actor → Bytes → ℕ → S → Outcome ReclaimResult × S
  unfolding restamp resolve_unique writer same_status
  reclaim now who id pid s =
      let r = resolve_unique b id s in
      elim r.0 [
        | bad e ↦ (bad e, r.1)
        | good m ↦
            if same_status m.status claimed
            then restamp now (writer who pid) id m r.1
            else explained explain_reclaim_failure id r.1
      ]
