-- ===== src/Store/Spec.antt =====
-- The contract of store.Backend (store/store.go, the comments of the interface) as functions on an
-- abstract store: what is known of each id. It forgets how and in which order a backend keeps its
-- items. `derive` is how a backend records a claim's holder, `digest` is hex of SHA-256.
use macguffin.Prelude.{Bool, ◌||◌, [], Option, none, some, Bytes, same, is_nil, if◌then◌else◌}
use macguffin.Store.{
  archived, done, State, in_status, satisfies, same_status, Actor, Result, ok, err, not_found,
  exists, lost, changed, refused,
}

-- What the store knows of one id; `result` is the companion that travels with the item.
pub record Entry : Type 0 where
  pub state : State
  pub partition : Bytes
  pub content : Bytes
  pub result : Option Bytes

abbrev pub View : Type 0
View = Bytes → Option Entry

abbrev pub update : Bytes → Entry → View → View
update id e v j = if same id j then some e else v j

abbrev pub Step : Type 0
Step = Result (Unit {0}) × View

abbrev pub is_archived : State → Bool
unfolding same_status
is_archived s = same_status s.status archived

module _ (derive : State → Actor → State) where
  unfoldable pub create : Bytes → State → Bytes → Actor → View → Step
  create id st content by v = if is_archived st then (err (refused id), v) else elim (v id) [
    | some e ↦ (err (exists id), v)
    | none ↦ (
      ok tt,
      update id (record { state = derive st by; partition = []; content = content; result = none })
          v,
    )
  ]

  unfoldable pub transition : Bytes → State → State → Actor → View → Step
  transition id expect to by v =
      if is_archived expect || is_archived to then (err (refused id), v) else elim (v id) [
        | none ↦ (err (lost id expect none), v)
        | some e ↦
            if satisfies e.state expect
            then (ok tt, update id (record e { state = derive to by }) v)
            else (err (lost id expect (some e.state)), v)
      ]

-- An item that is gone is not found, as both backends answer; the comment of Backend.Edit says that it is
-- lost.
unfoldable pub edit : (Bytes → Bytes) → Bytes → Bytes → Bytes → View → Step
edit digest id if_unchanged content v = elim (v id) [
  | none ↦ (err (not_found id), v)
  | some e ↦
      if is_nil if_unchanged || same (digest e.content) if_unchanged
      then (ok tt, update id (record e { content = content }) v)
      else (err (changed id if_unchanged (digest e.content)), v)
]

unfoldable pub archive : Bytes → Bytes → View → Step
archive id partition v = elim (v id) [
  | none ↦ (err (lost id (in_status done) none), v)
  | some e ↦
      if satisfies e.state (in_status done)
      then (ok tt, update id (record e { state = in_status archived; partition = partition }) v)
      else (err (lost id (in_status done) (some e.state)), v)
]

abbrev pub Reading : Type 0
Reading = State × Bytes × Bytes

unfoldable pub get : Bytes → View → Result Reading
get id v = elim (v id) [ none ↦ err (not_found id) | some e ↦ ok (e.state, e.partition, e.content) ]
