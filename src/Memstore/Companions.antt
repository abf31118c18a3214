-- ===== src/Memstore/Companions.antt =====
-- internal/memstore/memstore.go: the event log, the companions and the capabilities. They are kept
-- by item id alone, so a result or a saved body travels with its item.
use macguffin.Prelude.{
  ℕ, ltb, Bool, List, [], ◌∷◌, ◌++◌, Option, none, some, Bytes, codes, lookup, insert, erase,
  length, map,
}
use macguffin.Store.{Status, Ref, not_found, Result, ok, err}
use macguffin.Memstore.{Mem, Record, count_call}

-- memLog.AppendEvent
unfoldable pub append_event : Bytes → Mem → Result (Unit {0}) × Mem
append_event line m =
    (ok tt, record (count_call (codes "AppendEvent") m) { events = m.events ++ line })

-- memLog.ReadEvents; a log that does not exist yet is Go's nil, the empty text
unfoldable pub read_events : Mem → Result Bytes
read_events m = ok m.events

-- EventsInfo of store.go
pub record EventsInfo : Type 0 where
  pub there : Bool
  pub size : ℕ
  pub place : Bytes

-- memLog.StatEvents
unfoldable pub stat_events : Mem → Result EventsInfo
stat_events m =
    ok
      (record { there = ltb 0 (length m.events); size = length m.events; place = codes "memstore" })

-- memCompanions.ReadResult
unfoldable pub read_result : Ref → Mem → Result Bytes × Mem
read_result ref m =
    let m' = count_call (codes "ReadResult") m in
    elim (lookup ref.id m.results) [ none ↦ (err (not_found ref.id), m') | some r ↦ (ok r, m') ]

-- memCompanions.WriteResult
unfoldable pub write_result : Ref → Bytes → Mem → Result (Unit {0}) × Mem
write_result ref payload m =
    let m' = count_call (codes "WriteResult") m in
    elim (lookup ref.id m.items) [
      | none ↦ (err (not_found ref.id), m')
      | some r ↦ (ok tt, record m' { results = insert ref.id payload m.results })
    ]

-- memCompanions.ResultWhere
unfoldable pub result_where : Ref → Bytes
result_where ref = codes "memstore:" ++ ref.id ++ codes "/result"

-- the Ref of a result whose item is there; Go's zero Ref has an empty status, here `none`
pub record Placed : Type 0 where
  pub id : Bytes
  pub at : Option (Status × Bytes)

placed : List (Bytes × Record) → List (Bytes × Bytes) → List Placed
placed items [] = []
placed items ((id, r) ∷ rest) =
    record {
      id = id;
      at = elim (lookup id items) [ none ↦ none | some it ↦ some (it.state.status, it.partition) ];
    }
    ∷ placed items rest

-- memCompanions.Results
unfoldable pub results : Mem → Result (List Placed) × Mem
unfolding placed
results m = (ok (placed m.items m.results), count_call (codes "Results") m)

-- m.bodies[id], a nil map being an empty one
unfoldable pub bodies_of : Bytes → Mem → List (Bytes × Bytes)
bodies_of id m = elim (lookup id m.bodies) [ none ↦ [] | some b ↦ b ]

-- memCompanions.SaveBody
unfoldable pub save_body : Ref → Bytes → Bytes → Mem → Result (Unit {0}) × Mem
save_body ref name body m = (
  ok tt,
  record (count_call (codes "SaveBody") m) {
    bodies = insert ref.id (insert name body (bodies_of ref.id m)) m.bodies;
  },
)

-- memCompanions.Bodies
unfoldable pub body_names : Ref → Mem → Result (List Bytes) × Mem
body_names ref m = (ok (map (λ b. b.0) (bodies_of ref.id m)), count_call (codes "Bodies") m)

-- memCompanions.ReadBody
unfoldable pub read_body : Ref → Bytes → Mem → Result Bytes × Mem
read_body ref name m =
    let m' = count_call (codes "ReadBody") m in
    elim (lookup name (bodies_of ref.id m)) [
      | none ↦ (err (not_found ref.id), m')
      | some b ↦ (ok b, m')
    ]

-- memCompanions.RemoveBody: delete on a nil map does nothing
unfoldable pub remove_body : Ref → Bytes → Mem → Result (Unit {0}) × Mem
remove_body ref name m =
    let m' = count_call (codes "RemoveBody") m in
    elim (lookup ref.id m.bodies) [
      | none ↦ (ok tt, m')
      | some b ↦ (ok tt, record m' { bodies = insert ref.id (erase name b) m.bodies })
    ]

-- memCompanions.MoveBodies
unfoldable pub move_bodies : Ref → Ref → Mem → Result (Unit {0}) × Mem
move_bodies from to m = (ok tt, count_call (codes "MoveBodies") m)

-- memCompanions.BodiesWhere
unfoldable pub bodies_where : Ref → Bytes
bodies_where ref = codes "memstore:" ++ ref.id ++ codes "/bodies"

-- memCompanions.ReadSweepStamp
unfoldable pub read_sweep_stamp : Mem → Result Bytes × Mem
read_sweep_stamp m =
    let m' = count_call (codes "ReadSweepStamp") m in
    elim m.stamp [ none ↦ (err (not_found []), m') | some s ↦ (ok s, m') ]

-- memCompanions.WriteSweepStamp
unfoldable pub write_sweep_stamp : Bytes → Mem → Result (Unit {0}) × Mem
write_sweep_stamp payload m =
    (ok tt, record (count_call (codes "WriteSweepStamp") m) { stamp = some payload })
