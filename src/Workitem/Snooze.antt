-- ===== src/Workitem/Snooze.antt =====
-- internal/workitem/snooze.go: the time gate of an item, and setting and lifting it. Times are numbers, as
-- in Item, durations are nanoseconds, and the resolved id is modified while `others` act, as in Modify.
use macguffin.Prelude.{
  ℕ, Bool, true, false, not, ◌&&◌, [], Option, none, some, Bytes, codes, is_nil, ltb, ◌==◌,
  if◌then◌else◌,
}
use macguffin.Store.{
  Status, available, claimed, pending, shelved, done, archived, same_status, in_status, Actor, ok,
  err,
}
use macguffin.Mgerr
use macguffin.Workitem.Item.{Item}
use macguffin.Workitem.Resolve.{
  Access, Match, Outcome, good, bad, Failure, refusal, conflict, no_such_item, resolve_unique,
  match_state,
}
use macguffin.Workitem.Lifecycle.{is_lost, io_error, writer}
use macguffin.Workitem.Modify.{Applied, refused_by, rewritten, modify_item}
use macguffin.Workitem.Deps.{all_deps_met}

-- snoozeHolds; a time that could not be parsed is 0
unfoldable pub snooze_holds : ℕ → Item → Bool
snooze_holds now it =
    if is_nil it.snooze_raw then false else if it.snooze == 0 then true else ltb now it.snooze

-- SnoozeMalformed
unfoldable pub snooze_malformed : Item → Bool
snooze_malformed it = not (is_nil it.snooze_raw) && it.snooze == 0

-- gateOpen
unfoldable pub gate_open : (Bytes → Bool) → ℕ → Item → Bool
unfolding all_deps_met snooze_holds
gate_open done_ids now it = all_deps_met done_ids it.depends && not (snooze_holds now it)

-- SetSnooze
unfoldable pub set_snooze : (ℕ → Bytes) → ℕ → Item → Item
set_snooze format_time t it = record it { snooze = t; snooze_raw = format_time t }

-- ClearSnooze
unfoldable pub clear_snooze : Item → Item
clear_snooze it = record it { snooze = 0; snooze_raw = [] }

-- snoozableStatuses
unfoldable pub snoozable : Status → Bool
snoozable available = true
snoozable claimed = true
snoozable pending = true
snoozable _ = false

-- explainSnoozeFailure
unfoldable pub explain_snooze_failure : Option Status → Failure
explain_snooze_failure none = no_such_item
explain_snooze_failure (some shelved) = conflict (codes "item_shelved")
explain_snooze_failure (some done) = conflict (codes "already_done")
explain_snooze_failure (some archived) = conflict (codes "item_archived")
explain_snooze_failure (some st) = conflict (codes "cannot_snooze")

abbrev pub snooze_raced : Failure
snooze_raced = refusal Mgerr.conflict (codes "snooze_raced") true

-- the change of UnsnoozeItem
unfoldable pub unsnoozed : Item → Applied
unfolding clear_snooze
unsnoozed it =
    if is_nil it.snooze_raw
    then refused_by (conflict (codes "not_snoozed"))
    else rewritten (clear_snooze it)

module _ {S : Type 0} (b : Access S) (digest : Bytes → Bytes) (parse_time : Bytes → Option ℕ)
    (format_time : ℕ → Bytes) (others : ℕ → S → S) (now : ℕ) (who : Actor) where
  -- the change of SnoozeItem
  abbrev pub snoozed : ℕ → Item → Applied
  unfolding set_snooze
  snoozed until it = rewritten (set_snooze format_time until it)

  -- SnoozeItem, once the item is written: filing it in pending/
  unfoldable pub file_pending : Status → Item × Match → S → Outcome (Item × Status) × S
  unfolding same_status writer is_lost match_state
  file_pending st (it, m) s =
      let t = b.backend.transition now m.id (match_state m) (in_status pending) (writer who 0) s in
      if same_status st pending then (good (it, st), s) else elim t.0 [
        | ok done_now ↦ (good (it, st), t.1)
        | err e ↦ (bad (if is_lost e then snooze_raced else io_error), t.1)
      ]

  unfoldable pub then_file : Status → Outcome (Item × Match) → S → Outcome (Item × Status) × S
  unfolding file_pending
  then_file st (bad f) s = (bad f, s)
  then_file st (good x) s = file_pending st x s

  -- SnoozeItem, once the id is resolved
  unfoldable pub snooze_match : ℕ → Match → S → Outcome (Item × Status) × S
  unfolding snoozable explain_snooze_failure modify_item then_file set_snooze
  snooze_match until m s =
      let r =
        modify_item b digest parse_time format_time (snoozed until) others now who (some m.status) m
          s in
      if not (snoozable m.status)
      then (bad (explain_snooze_failure (some m.status)), s)
      else then_file m.status r.0 r.1

  -- SnoozeItem
  unfoldable pub snooze_item : Bytes → ℕ → S → Outcome (Item × Status) × S
  unfolding resolve_unique snooze_match
  snooze_item id until s =
      let r = resolve_unique b id s in
      elim r.0 [ bad f ↦ (bad f, r.1) | good m ↦ snooze_match until m r.1 ]

  -- UnsnoozeItem, once the item is written; `clock` is snoozeNow
  unfoldable pub wake : (Bytes → Bool) → ℕ → Status → Item × Match → S → Outcome (Item × Status) × S
  unfolding same_status gate_open writer match_state
  wake done_ids clock st (it, m) s =
      let t =
        b.backend.transition now m.id (match_state m) (in_status available) (writer who 0) s in
      if same_status st pending && gate_open done_ids clock it
      then elim t.0 [ ok done_now ↦ (good (it, available), t.1) | err e ↦ (bad io_error, t.1) ]
      else (good (it, st), s)

  -- UnsnoozeItem, with the set of done ids that doneIDSet reads
  unfoldable pub unsnooze_item : (Bytes → Bool) → ℕ → Bytes → S → Outcome (Item × Status) × S
  unfolding resolve_unique modify_item unsnoozed wake
  unsnooze_item done_ids clock id s =
      let r = resolve_unique b id s in
      elim r.0 [
        | bad f ↦ (bad f, r.1)
        | good m ↦
            let w =
              modify_item b digest parse_time format_time unsnoozed others now who (some m.status) m
                r.1 in
            elim w.0 [ bad f ↦ (bad f, w.1) | good x ↦ wake done_ids clock m.status x w.1 ]
      ]
