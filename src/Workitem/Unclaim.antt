-- ===== src/Workitem/Unclaim.antt =====
-- internal/workitem/unclaim.go, with holdFor of held.go: releasing a claim into the place that the item's
-- gates ask for. `list` is List of the backend, `id_lister` its optional IDs, `clock` is snoozeNow.
-- Events are left out.
pub mod Placed
pub mod Readied
pub mod Freed
use macguffin.Prelude.{
  ℕ, Bool, true, false, not, List, [], ◌∷◌, Option, none, some, Bytes, same, any, keep, is_nil,
  if◌then◌else◌,
}
use macguffin.Store.{
  Status, available, claimed, pending, same_status, in_status, Actor, Doc, Result, ok, err,
}
use macguffin.Mgerr.Utf8.{check_utf8}
use macguffin.Workitem.Item.{Item}
use macguffin.Workitem.Resolve.{
  Access, Match, Outcome, good, bad, Failure, refusal, resolve_unique, match_state,
}
use macguffin.Workitem.Lifecycle.{holder_pid, writer, read_match, explained, not_moved, status_of}
use macguffin.Workitem.Explain.{explain_unclaim_failure}
use macguffin.Workitem.Modify.{Applied, left_alone, rewritten, modify_item}
use macguffin.Workitem.Deps.{Dep, classify_deps, is_satisfied}
use macguffin.Workitem.Snooze.{gate_open, snooze_holds, snooze_malformed}
use macguffin.Workitem.Schedule.{done_id_set}
use macguffin.Workitem.Guards.{require_remainder_discharged}
use macguffin.Workitem.Assignee.{validate_assignee}
use macguffin.Workitem.Done.{plain_error}

-- Hold
pub record Hold : Type 0 where
  pub item : Item
  pub deps : List Dep
  pub snoozed : Bool
  pub bad_snooze : Bytes

-- UnclaimResult
pub record UnclaimResult : Type 0 where
  pub id : Bytes
  pub pid : ℕ
  pub assignee : Bytes
  pub remainder_owed : Bool
  pub status : Status
  pub held : Option Hold

-- the end of holdFor, with the dependencies
unfoldable pub hold_of : ℕ → Item → List Dep → Hold
unfolding snooze_malformed snooze_holds
hold_of clock it deps = record {
  item = it;
  deps = keep (λ d. not (is_satisfied d)) deps;
  snoozed = if snooze_malformed it then false else snooze_holds clock it;
  bad_snooze = if snooze_malformed it then it.snooze_raw else [];
}

-- the checks of the assignee that Unclaim is given, already trimmed
unfoldable pub check_assignee : Bytes → Outcome (Unit {0})
unfolding check_utf8 validate_assignee
check_assignee who = elim (check_utf8 who) [
  | some fault ↦ bad (refusal fault.category fault.code false)
  | none ↦ validate_assignee who
]

-- the change of Unclaim
unfoldable pub set_assignee : Bytes → Item → Applied
unfolding same
set_assignee who it =
    if same it.assignee who then left_alone it else rewritten (record it { assignee = who })

-- whether the remainder counts as owed
unfoldable pub is_owed : Outcome (Unit {0}) → Bool
is_owed (good x) = false
is_owed (bad f) = true

-- where the item goes, and what is known of it
pub record Release : Type 0 where
  pub pid : ℕ
  pub match : Match
  pub item : Item
  pub owed : Bool
  pub landing : Status
  pub held : Option Hold

-- the answer of Unclaim
abbrev pub unclaim_result : Bytes → Release → UnclaimResult
unclaim_result id r = record {
  id = id;
  pid = r.pid;
  assignee = r.item.assignee;
  remainder_owed = r.owed;
  status = r.landing;
  held = r.held;
}

module _ {S : Type 0} (b : Access S) (digest : Bytes → Bytes) (parse_time : Bytes → Option ℕ)
    (format_time : ℕ → Bytes) (others : ℕ → S → S) (now : ℕ) (who : Actor)
    (list : Status → S → Result (List Doc) × S)
    (id_lister : Option (Status → S → Result (List Bytes) × S)) (clock : ℕ) where
  -- classifyDeps, which reads the done items again
  unfoldable pub classified : List Bytes → S → Outcome (List Dep) × S
  unfolding done_id_set classify_deps same
  classified ids s =
      if is_nil ids
      then (good [], s)
      else let d = done_id_set list id_lister s in
        elim d.0 [
          | err e ↦ (bad plain_error, d.1)
          | ok done_ids ↦
              let r = classify_deps b (λ id. any (same id) done_ids) ids d.1 in (good r.0, r.1)
        ]

  -- holdFor
  unfoldable pub hold_for : Item → S → Outcome Hold × S
  unfolding classified hold_of
  hold_for it s =
      let d = classified it.depends s in
      elim d.0 [ bad f ↦ (bad f, d.1) | good deps ↦ (good (hold_of clock it deps), d.1) ]

  -- Unclaim, once the done items are read: where the item lands
  unfoldable pub landed : ℕ → Match → Item → Bool → List Bytes → S → Outcome Release × S
  unfolding gate_open hold_for same
  landed pid m it owed done_ids s =
      let h = hold_for it s in
      if gate_open (λ id. any (same id) done_ids) clock it
      then (
        good (record {
          pid = pid;
          match = m;
          item = it;
          owed = owed;
          landing = available;
          held = none;
        }),
        s,
      )
      else elim h.0 [
        | bad f ↦ (bad plain_error, h.1)
        | good hold ↦ (
          good (record {
            pid = pid;
            match = m;
            item = it;
            owed = owed;
            landing = pending;
            held = some hold;
          }),
          h.1,
        )
      ]

  -- Unclaim, once the assignee is written
  unfoldable pub place : ℕ → Match → Item → S → Outcome Release × S
  unfolding require_remainder_discharged is_owed done_id_set landed
  place pid m it s =
      let g = require_remainder_discharged b it s in
      let d = done_id_set list id_lister g.1 in
      elim d.0 [
        | err e ↦ (bad plain_error, d.1)
        | ok done_ids ↦ landed pid m it (is_owed g.0) done_ids d.1
      ]

  -- Unclaim, from the writing of the assignee, if it has one to write
  unfoldable pub assign : Option Bytes → Match → Item → S → Outcome Release × S
  unfolding check_assignee set_assignee modify_item place same holder_pid
  assign none m it s = place (holder_pid m.holder) m it s
  assign (some name) m it s = elim (check_assignee name) [
    | bad f ↦ (bad f, s)
    | good x ↦
        if same it.assignee name
        then place (holder_pid m.holder) m it s
        else let r =
            modify_item b digest parse_time format_time (set_assignee name) others now who
              (some claimed) m s in
          elim r.0 [ bad f ↦ (bad f, r.1) | good y ↦ place (holder_pid m.holder) y.1 y.0 r.1 ]
  ]

  -- Unclaim, up to its move
  unfoldable pub released : Bytes → Option Bytes → S → Outcome Release × S
  unfolding resolve_unique same_status read_match assign status_of explain_unclaim_failure
  released id name s =
      let r = resolve_unique b id s in
      elim r.0 [
        | bad f ↦ (bad f, r.1)
        | good m ↦
            if same_status m.status claimed
            then elim (read_match b parse_time m) [
              | bad f ↦ (bad f, r.1)
              | good it ↦ assign name m it r.1
            ]
            else explained b explain_unclaim_failure id r.1
      ]

  -- Unclaim, from its move
  unfoldable pub put_back : Bytes → Release → S → Outcome UnclaimResult × S
  unfolding writer match_state not_moved explain_unclaim_failure
  put_back id r s =
      let t =
        b.backend.transition now r.match.id (match_state r.match) (in_status r.landing)
          (writer who 0) s in
      elim t.0 [
        | err e ↦ not_moved b explain_unclaim_failure id e t.1
        | ok moved ↦ (good (unclaim_result id r), t.1)
      ]

  -- Unclaim
  unfoldable pub unclaim : Bytes → Option Bytes → S → Outcome UnclaimResult × S
  unfolding released put_back
  unclaim id name s =
      let r = released id name s in elim r.0 [ bad f ↦ (bad f, r.1) | good x ↦ put_back id x r.1 ]
