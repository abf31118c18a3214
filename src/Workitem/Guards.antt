-- ===== src/Workitem/Guards.antt =====
-- internal/workitem/remainder.go, successor.go, blockedon.go and checkArchiveGuards of archive.go: what
-- an item must have before it may be completed or archived. Case is that of ASCII.
use macguffin.Prelude.{
  ℕ, ◌+◌, ◌++◌, Bool, false, not, ◌&&◌, List, [], ◌∷◌, none, some, Bytes, codes, same, any, keep,
  is_nil, map, cut_prefix, has_prefix, trim_space, leb, if◌then◌else◌,
}
use macguffin.Mgerr
use macguffin.Workitem.Item.{Item}
use macguffin.Workitem.Resolve.{Access, Outcome, good, bad, Failure, refusal, conflict, resolve}

-- the lower case of a byte
unfoldable pub lower_byte : ℕ → ℕ
lower_byte c = if leb 65 c && leb c 90 then c + 32 else c

-- strings.ToLower
unfoldable pub to_lower : Bytes → Bytes
unfolding lower_byte
to_lower s = map lower_byte s

-- strings.EqualFold
unfoldable pub equal_fold : Bytes → Bytes → Bool
unfolding to_lower same
equal_fold s t = same (to_lower s) (to_lower t)

-- SuccessorTag
unfoldable pub successor_tag : Bytes → Bytes
successor_tag id = codes "successor:" ++ id

-- PredecessorTag
unfoldable pub predecessor_tag : Bytes → Bytes
predecessor_tag id = codes "predecessor:" ++ id

-- the loop of SuccessorIDs
unfoldable pub linked_ids : Bytes → List Bytes → List Bytes
unfolding cut_prefix trim_space
linked_ids prefix [] = []
linked_ids prefix (t ∷ ts) =
    let more = linked_ids prefix ts in
    elim (cut_prefix prefix t) [
      | none ↦ more
      | some rest ↦ if is_nil (trim_space rest) then more else trim_space rest ∷ more
    ]

-- SuccessorIDs
unfoldable pub successor_ids : Item → List Bytes
unfolding linked_ids
successor_ids it = linked_ids (codes "successor:") it.tags

-- DeclaresRemainder
unfoldable pub declares_remainder : Item → Bool
unfolding equal_fold trim_space
declares_remainder it = any (λ t. equal_fold (trim_space t) (codes "declares-remainder")) it.tags

-- BlockedOnTags
unfoldable pub blocked_on_tags : Item → List Bytes
unfolding to_lower trim_space has_prefix
blocked_on_tags it = keep (λ t. has_prefix (codes "blocked-on-") (to_lower (trim_space t))) it.tags

-- requireNotBlocked
unfoldable pub require_not_blocked : Item → Outcome (Unit {0})
unfolding blocked_on_tags
require_not_blocked it =
    if is_nil (blocked_on_tags it) then good tt else bad (conflict (codes "blocked_on_tag"))

module _ {S : Type 0} (b : Access S) where
  -- the loops over the successors: one that resolves is enough
  unfoldable pub some_resolves : Failure → List Bytes → S → Outcome (Unit {0}) × S
  unfolding resolve
  some_resolves dangling [] s = (bad dangling, s)
  some_resolves dangling (sid ∷ sids) s =
      let r = resolve b sid s in
      let rest = some_resolves dangling sids r.1 in
      elim r.0 [ bad f ↦ (bad f, r.1) | good ms ↦ if is_nil ms then rest else (good tt, r.1) ]

  -- the checks after the first of requireRemainderDischarged and of requireSuccessor
  unfoldable pub require_tracked : Failure → Failure → List Bytes → S → Outcome (Unit {0}) × S
  unfolding some_resolves
  require_tracked without dangling sids s =
      if is_nil sids then (bad without, s) else some_resolves dangling sids s

  -- requireRemainderDischarged
  unfoldable pub require_remainder_discharged : Item → S → Outcome (Unit {0}) × S
  unfolding declares_remainder require_tracked successor_ids
  require_remainder_discharged it s =
      if not (declares_remainder it)
      then (good tt, s)
      else require_tracked (conflict (codes "remainder_without_successor"))
          (conflict (codes "remainder_dangling_successor")) (successor_ids it) s

  -- requireSuccessor
  unfoldable pub require_successor : Item → S → Outcome (Unit {0}) × S
  unfolding same require_tracked successor_ids
  require_successor it s =
      if not (same it.kind (codes "design"))
      then (good tt, s)
      else require_tracked (conflict (codes "design_without_successor"))
          (conflict (codes "dangling_successor")) (successor_ids it) s

  -- checkArchiveGuards
  unfoldable pub check_archive_guards : Item → S → Outcome (Unit {0}) × S
  unfolding require_not_blocked require_remainder_discharged require_successor
  check_archive_guards it s = elim (require_not_blocked it) [
    | bad f ↦ (bad f, s)
    | good x ↦
        let r = require_remainder_discharged it s in
        elim r.0 [ bad f ↦ (bad f, r.1) | good y ↦ require_successor it r.1 ]
  ]

  abbrev pub self_successor : Failure
  self_successor = refusal Mgerr.usage (codes "self_successor") false

  abbrev pub no_such_successor : Failure
  no_such_successor = refusal Mgerr.not_found (codes "no_such_successor") false

  -- checkSuccessorTarget
  unfoldable pub check_successor_target : Item → Bytes → S → Outcome (Unit {0}) × S
  unfolding resolve same
  check_successor_target it successor s =
      let r = resolve b successor s in
      if same successor it.id then (bad self_successor, s) else elim r.0 [
        | bad f ↦ (bad f, r.1)
        | good ms ↦ (if is_nil ms then bad no_such_successor else good tt, r.1)
      ]
