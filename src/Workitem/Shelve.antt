-- ===== src/Workitem/Shelve.antt =====
-- internal/workitem/shelve.go, shelveCascade and its parts: an item is shelved, and with it the items
-- that depend on it. `list` is List of the backend. The recursion has fuel, and `none` says that it
-- ran out.
pub mod Sunk
pub mod Call
pub mod Parts
pub mod Run
pub mod Found
pub mod Buried
pub mod Cascade
use macguffin.Prelude.{
  ℕ, zero, suc, Bool, true, false, not, List, [], ◌∷◌, ◌++◌, Option, none, some, Bytes, codes, same,
  any, keep, if◌then◌else◌,
}
use macguffin.Store.{
  Status, available, claimed, pending, shelved, in_status, Actor, Doc, Result, ok, err,
}
use macguffin.Mgerr
use macguffin.Workitem.Item.{Item, parse}
use macguffin.Workitem.Resolve.{
  Access, Match, Outcome, good, bad, Failure, refusal, resolve_unique, match_state,
}
use macguffin.Workitem.Lifecycle.{io_error, writer, read_match}

-- the statuses from which checkShelveable lets an item go
unfoldable pub shelvable : Status → Bool
shelvable available = true
shelvable claimed = true
shelvable pending = true
shelvable _ = false

-- an error of fmt.Errorf, which mgerr.Coerce makes internal
abbrev pub not_shelvable : Failure
not_shelvable = refusal Mgerr.internal (codes "internal") false

-- `dep == id` for one of the item's dependencies
unfoldable pub depends_on : Bytes → Item → Bool
unfolding same
depends_on id it = any (same id) it.depends

-- the items that List gave, less the malformed
unfoldable pub items_of : (Bytes → Option ℕ) → List Doc → List Item
unfolding parse
items_of parse_time [] = []
items_of parse_time (d ∷ ds) =
    let rest = items_of parse_time ds in
    elim (parse parse_time d.content) [ none ↦ rest | some it ↦ it ∷ rest ]

abbrev pub Ran : Type 0 → Type 0
Ran S = Option (Outcome (List Item) × S)

abbrev pub Swept : Type 0 → Type 0
Swept S = Option (List Item × S)

abbrev pub with_more : {S : Type 0} → List Item → Swept S → Swept S
with_more its none = none
with_more its (some (more, s)) = some (its ++ more, s)

-- the loop of shelveCascade over the dependents; one that cannot be shelved is passed over
unfoldable pub shelve_each : {S : Type 0} → (Bytes → S → Ran S) → List Item → S → Swept S
shelve_each call [] s = some ([], s)
shelve_each call (dep ∷ deps) s = elim (call dep.id s) [
  | none ↦ none
  | some r ↦ elim r.0 [
    | bad f ↦ shelve_each call deps r.1
    | good its ↦ with_more its (shelve_each call deps r.1)
  ]
]

abbrev pub answered : {S : Type 0} → Item → Swept S → Ran S
answered it none = none
answered it (some (more, s)) = some (good (it ∷ more), s)

-- what ListByStatus answers findDependents and findShelvedDependents; an error counts as no item
unfoldable pub found_in : (Bytes → Option ℕ) → Bytes → Result (List Doc) → List Item
unfolding depends_on items_of
found_in parse_time id (ok ds) = keep (depends_on id) (items_of parse_time ds)
found_in parse_time id (err e) = []

module _ {S : Type 0} (b : Access S) (list : Status → S → Result (List Doc) × S)
    (parse_time : Bytes → Option ℕ) (now : ℕ) (who : Actor) where
  -- findDependents
  unfoldable pub find_dependents : Bytes → S → List Item × S
  unfolding found_in
  find_dependents id s =
      let a = list available s in
      let c = list claimed a.1 in
      let p = list pending c.1 in
      (
        found_in parse_time id a.0 ++ (found_in parse_time id c.0 ++ found_in parse_time id p.0),
        p.1,
      )

  -- shelveCascade, after its transition
  unfoldable pub spread : (Bytes → S → Ran S) → Bytes → Item → S → Ran S
  unfolding find_dependents shelve_each
  spread call id it s = let d = find_dependents id s in answered it (shelve_each call d.0 d.1)

  -- shelveCascade, once the item is read
  unfoldable pub sink : (Bytes → S → Ran S) → Bytes → Match → Item → S → Ran S
  unfolding spread writer match_state
  sink call id m it s =
      let t = b.backend.transition now m.id (match_state m) (in_status shelved) (writer who 0) s in
      elim t.0 [ err e ↦ some (bad io_error, t.1) | ok done_now ↦ spread call id it t.1 ]

  -- shelveCascade, once the id is resolved
  unfoldable pub shelve_match : (Bytes → S → Ran S) → Bytes → Match → S → Ran S
  unfolding shelvable read_match sink
  shelve_match call id m s =
      if not (shelvable m.status)
      then some (bad not_shelvable, s)
      else elim (read_match b parse_time m) [
        | bad f ↦ some (bad f, s)
        | good it ↦ sink call id m it s
      ]

  -- shelveCascade
  unfoldable pub shelve_cascade : ℕ → Bytes → S → Ran S
  unfolding resolve_unique shelve_match
  shelve_cascade zero id s = none
  shelve_cascade (suc fuel) id s =
      let r = resolve_unique b id s in
      elim r.0 [ bad f ↦ some (bad f, r.1) | good m ↦ shelve_match (shelve_cascade fuel) id m r.1 ]
