-- ===== src/Spend/Claims.antt =====
-- internal/spend/aggregator.go: the periods in which an agent had an item claimed, read off the event
-- log, and the item that a message is booked on. Times are seconds of the Unix epoch.
use macguffin.Prelude.{
  ℕ, Bool, ◌&&◌, ◌||◌, not, List, [], ◌∷◌, ◌++◌, Option, none, some, Bytes, codes, same,
  if◌then◌else◌, ltb, is_nil,
}

-- an entry of the log: its type, the extras "actor" and "item_id", and its time if that parses
pub record Entry : Type 0 where
  pub kind : Bytes
  pub actor : Bytes
  pub item : Bytes
  pub ts : Option ℕ

-- claimInterval
pub record ClaimInterval : Type 0 where
  pub actor : Bytes
  pub item : Bytes
  pub claim_ts : ℕ
  pub release_ts : ℕ

-- farFuture, the year 9999
abbrev pub far_future : ℕ
far_future = 253370764800

-- the map `open`
pub record Open : Type 0 where
  pub actor : Bytes
  pub item : Bytes
  pub since : ℕ

unfoldable pub same_key : Bytes → Bytes → Open → Bool
same_key actor item o = same actor o.actor && same item o.item

unfoldable pub find_open : Bytes → Bytes → List Open → Option ℕ
unfolding same_key
find_open actor item [] = none
find_open actor item (o ∷ os) =
    let rest = find_open actor item os in if same_key actor item o then some o.since else rest

unfoldable pub drop_open : Bytes → Bytes → List Open → List Open
unfolding same_key
drop_open actor item [] = []
drop_open actor item (o ∷ os) =
    let rest = drop_open actor item os in if same_key actor item o then rest else o ∷ rest

unfoldable pub releases : Bytes → Bool
releases kind =
    same kind (codes "work.done")
    || same kind (codes "work.unclaim")
    || same kind (codes "work.shelve")
    || same kind (codes "work.archive")

-- one entry of the loop of buildClaimIntervals; the intervals are kept in the order of their release
unfoldable pub absorb : Entry → List Open × List ClaimInterval → List Open × List ClaimInterval
unfolding releases find_open drop_open
absorb e (os, ivs) = if is_nil e.actor || is_nil e.item then (os, ivs) else elim e.ts [
  | none ↦ (os, ivs)
  | some t ↦
      if same e.kind (codes "work.claim")
      then (record { actor = e.actor; item = e.item; since = t } ∷ drop_open e.actor e.item os, ivs)
      else if releases e.kind
      then elim (find_open e.actor e.item os) [
        | none ↦ (os, ivs)
        | some since ↦ (
          drop_open e.actor e.item os,
          ivs ++ record { actor = e.actor; item = e.item; claim_ts = since; release_ts = t } ∷ [],
        )
      ]
      else (os, ivs)
]

unfoldable pub absorb_all :
    List Entry → List Open × List ClaimInterval → List Open × List ClaimInterval
unfolding absorb
absorb_all [] s = s
absorb_all (e ∷ es) s = absorb_all es (absorb e s)

abbrev pub still_open : List Open → List ClaimInterval
still_open [] = []
still_open (o ∷ os) =
    record { actor = o.actor; item = o.item; claim_ts = o.since; release_ts = far_future }
    ∷ still_open os

-- buildClaimIntervals; Go leaves the order in which it appends the claims that are still open
-- unspecified, here it is the last claimed first
unfoldable pub build_claim_intervals : List Entry → List ClaimInterval
unfolding absorb_all
build_claim_intervals es = let s = absorb_all es ([], []) in s.1 ++ still_open s.0

unfoldable pub covers : ClaimInterval → Bytes → ℕ → Bool
covers iv actor ts = same iv.actor actor && not (ltb ts iv.claim_ts || ltb iv.release_ts ts)

-- the loop of attribute, from the best so far and its start
unfoldable pub best_of : Bytes → ℕ → Bytes → ℕ → List ClaimInterval → Bytes
unfolding covers
best_of best start actor ts [] = best
best_of best start actor ts (iv ∷ ivs) =
    let stay = best_of best start actor ts ivs in
    let take = best_of iv.item iv.claim_ts actor ts ivs in
    if covers iv actor ts && (is_nil best || ltb start iv.claim_ts) then take else stay

-- attribute; the empty id is "overhead"
unfoldable pub attribute : List ClaimInterval → Bytes → ℕ → Bytes
unfolding best_of
attribute ivs actor ts = best_of [] 0 actor ts ivs
