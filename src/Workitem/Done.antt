-- ===== src/Workitem/Done.antt =====
-- internal/workitem/done.go, with linkSuccessor of successor.go, reconcileBacklinks of predecessor.go and
-- writeResultBeside of sidecar.go: completing an item. The result is `read_result` and
-- `write_result` of the backend; `merge_json` merges two JSON objects, and answers nothing if one of
-- them is no object. Events are left out, and what the hint says of a result that was kept.
pub mod Bare
pub mod Held
pub mod Asked
pub mod Kept
pub mod Tracked
pub mod Prepared
pub mod Ended
use macguffin.Prelude.{
  ℕ, false, List, [], ◌∷◌, ◌++◌, Option, none, some, Bytes, codes, same, any, is_nil, if◌then◌else◌,
}
use macguffin.Store.{
  Status, claimed, done, same_status, in_status, Actor, Doc, Ref, Result, ok, err,
}
use macguffin.Mgerr
use macguffin.Workitem.Item.{Item}
use macguffin.Workitem.Resolve.{
  Access, Match, Outcome, good, bad, Failure, refusal, conflict, resolve_unique, match_state,
  is_not_found,
}
use macguffin.Workitem.Lifecycle.{writer, read_match, read_in, explained, not_moved, status_of}
use macguffin.Workitem.Explain.{explain_done_failure}
use macguffin.Workitem.Modify.{Applied, left_alone, rewritten, modify_item}
use macguffin.Workitem.Guards.{
  successor_tag, predecessor_tag, successor_ids, check_successor_target,
  require_remainder_discharged,
}
use macguffin.Workitem.Schedule.{schedule}

-- the change of linkSuccessor and of linkPredecessor
unfoldable pub add_tag : Bytes → Item → Applied
unfolding same
add_tag tag it =
    if any (same tag) it.tags
    then left_alone it
    else rewritten (record it { tags = it.tags ++ (tag ∷ []) })

-- refOf
unfoldable pub ref_of_match : Match → Ref
ref_of_match m = record { id = m.id; status = m.status; partition = m.partition }

-- an error of fmt.Errorf, which mgerr.Coerce makes internal
abbrev pub plain_error : Failure
plain_error = refusal Mgerr.internal (codes "internal") false

-- Companions, as far as Done calls them
pub record Results (S : Type 0) : Type 0 where
  pub read_result : Ref → S → Result Bytes × S
  pub write_result : Ref → Bytes → S → Result (Unit {0}) × S
  pub merge_json : Bytes → Bytes → Option Bytes

-- mergeResultSidecar
unfoldable pub merged_result : (Bytes → Bytes → Option Bytes) → Result Bytes → Bytes → Outcome Bytes
unfolding is_not_found
merged_result merge (ok prior) incoming = elim (merge prior incoming) [
  | none ↦ bad (conflict (codes "sidecar_unmergeable"))
  | some both ↦ good both
]
merged_result merge (err e) incoming = if is_not_found e then good incoming else bad plain_error

-- ReadResult of the ref, or of the one in done
unfoldable pub prior_result : {S : Type 0} → Results S → Ref → S → Result Bytes × S
unfolding is_not_found
prior_result c ref s =
    let r = c.read_result ref s in
    let again = c.read_result (record { id = ref.id; status = done; partition = [] }) r.1 in
    elim r.0 [ ok prior ↦ r | err e ↦ if is_not_found e then again else r ]

-- writeResultBeside
unfoldable pub write_result_beside :
    {S : Type 0} → Results S → Ref → Bytes → S → Outcome (Unit {0}) × S
unfolding prior_result merged_result
write_result_beside c ref incoming s =
    let p = prior_result c ref s in
    elim (merged_result c.merge_json p.0 incoming) [
      | bad f ↦ (bad f, p.1)
      | good payload ↦
          let w = c.write_result ref payload p.1 in
          elim w.0 [ err e ↦ (bad plain_error, w.1) | ok written ↦ (good tt, w.1) ]
    ]

-- the write of Done, of a result that was given
unfoldable pub keep_result : {S : Type 0} → Results S → Match → Bytes → S → Outcome (Unit {0}) × S
unfolding write_result_beside ref_of_match
keep_result c m result s =
    if is_nil result then (good tt, s) else write_result_beside c (ref_of_match m) result s

module _ {S : Type 0} (b : Access S) (digest : Bytes → Bytes) (parse_time : Bytes → Option ℕ)
    (format_time : ℕ → Bytes) (others : ℕ → S → S) (now : ℕ) (who : Actor) where
  -- modifyItem with the tag
  unfoldable pub tag_item : Bytes → Option Status → Match → S → Outcome (Item × Match) × S
  unfolding add_tag modify_item
  tag_item tag stay m s =
      modify_item b digest parse_time format_time (add_tag tag) others now who stay m s

  -- linkPredecessor
  unfoldable pub link_predecessor : Bytes → Bytes → S → Outcome (Unit {0}) × S
  unfolding tag_item resolve_unique predecessor_tag same
  link_predecessor successor predecessor s =
      let r = resolve_unique b successor s in
      if same successor predecessor then (bad plain_error, s) else elim r.0 [
        | bad f ↦ (bad f, r.1)
        | good m ↦
            let t = tag_item (predecessor_tag predecessor) none m r.1 in
            elim t.0 [ bad f ↦ (bad f, t.1) | good x ↦ (good tt, t.1) ]
      ]

  -- the loop of reconcileBacklinks, which only prints an error
  unfoldable pub link_back : Bytes → List Bytes → S → S
  unfolding link_predecessor
  link_back id [] s = s
  link_back id (sid ∷ sids) s = link_back id sids (link_predecessor sid id s).1

  -- reconcileBacklinks
  unfoldable pub reconcile_backlinks : Item → S → S
  unfolding link_back successor_ids
  reconcile_backlinks it s = link_back it.id (successor_ids it) s

  -- linkSuccessor
  unfoldable pub link_successor : Match → Item → Bytes → S → Outcome Item × S
  unfolding check_successor_target tag_item successor_tag
  link_successor m it successor s =
      let c = check_successor_target b it successor s in
      elim c.0 [
        | bad f ↦ (bad f, c.1)
        | good x ↦
            let t = tag_item (successor_tag successor) (some m.status) m c.1 in
            elim t.0 [ bad f ↦ (bad f, t.1) | good y ↦ (good y.0, t.1) ]
      ]

  -- linkSuccessorBothWays
  unfoldable pub link_both_ways : Match → Item → Bytes → S → Outcome Item × S
  unfolding link_successor reconcile_backlinks
  link_both_ways m it successor s =
      let l = link_successor m it successor s in
      elim l.0 [ bad f ↦ (bad f, l.1) | good it' ↦ (good it', reconcile_backlinks it' l.1) ]

  -- what Done does about the successor, given or not
  unfoldable pub link : Match → Item → Bytes → S → Outcome Item × S
  unfolding link_both_ways reconcile_backlinks
  link m it successor s =
      if is_nil successor
      then (good it, reconcile_backlinks it s)
      else link_both_ways m it successor s

  -- the guard of Done on the item as it is stored
  unfoldable pub guard_linked : Match → Outcome Item × S → Outcome Match × S
  unfolding require_remainder_discharged
  guard_linked m (bad f, s) = (bad f, s)
  guard_linked m (good it, s) =
      let g = require_remainder_discharged b it s in
      elim g.0 [ bad f ↦ (bad f, g.1) | good x ↦ (good m, g.1) ]

  module _ (c : Results S) where
    -- Done, from the reading of the item to its guard
    unfoldable pub prepare : Match → Bytes → Bytes → S → Outcome Match × S
    unfolding read_match keep_result guard_linked link
    prepare m result successor s = elim (read_match b parse_time m) [
      | bad f ↦ (bad f, s)
      | good it ↦
          let w = keep_result c m result s in
          elim w.0 [ bad f ↦ (bad f, w.1) | good x ↦ guard_linked m (link m it successor w.1) ]
    ]

    -- Done, up to its move: the claim that is to be completed
    unfoldable pub prepared : Bytes → Bytes → Bytes → S → Outcome Match × S
    unfolding resolve_unique same_status prepare status_of explain_done_failure
    prepared id result successor s =
        let r = resolve_unique b id s in
        elim r.0 [
          | bad f ↦ (bad f, r.1)
          | good m ↦
              if same_status m.status claimed
              then prepare m result successor r.1
              else explained b explain_done_failure id r.1
        ]

    module _ (list : Status → S → Result (List Doc) × S)
        (id_lister : Option (Status → S → Result (List Bytes) × S)) (clock : ℕ) where
      -- Done, after its move
      unfoldable pub settle : Match → S → Outcome (Item × List Item) × S
      unfolding read_in schedule
      settle m s =
          let i = read_in b parse_time m.id done s in
          let p =
            schedule b digest parse_time format_time others now who list id_lister clock i.1 in
          elim i.0 [
            | bad f ↦ (bad f, i.1)
            | good it ↦ elim p.0 [ bad f ↦ (bad f, p.1) | good its ↦ (good (it, its), p.1) ]
          ]

      -- Done, from its move
      unfoldable pub complete : Bytes → Match → S → Outcome (Item × List Item) × S
      unfolding settle not_moved writer match_state explain_done_failure
      complete id m s =
          let t = b.backend.transition now m.id (match_state m) (in_status done) (writer who 0) s in
          elim t.0 [
            | err e ↦ not_moved b explain_done_failure id e t.1
            | ok done_now ↦ settle m t.1
          ]

      -- Done
      unfoldable pub mark_done : Bytes → Bytes → Bytes → S → Outcome (Item × List Item) × S
      unfolding prepared complete
      mark_done id result successor s =
          let p = prepared id result successor s in
          elim p.0 [ bad f ↦ (bad f, p.1) | good m ↦ complete id m p.1 ]
