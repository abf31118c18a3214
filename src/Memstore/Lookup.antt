-- ===== src/Memstore/Lookup.antt =====
-- What the contract sees of the in-memory store, and how the operations on its maps show in it.
use macguffin.Prelude.{◌≡◌, Option, none, some, Bytes, lookup}
use macguffin.Store.Spec.{Entry, View}
use macguffin.Memstore.{Mem, Record}

abbrev pub entry_of : Option Bytes → Record → Entry
entry_of res r = record {
  state = r.state;
  partition = r.partition;
  content = r.content;
  result = res;
}

abbrev pub seen : Option Record → Option Bytes → Option Entry
seen none res = none
seen (some r) res = some (entry_of res r)

unfoldable pub view : Mem → View
view m j = seen (lookup j m.items) (lookup j m.results)

-- A result belongs to an item: `WriteResult` refuses any other, and no item is ever deleted.
pub record IsHealthy (m : Mem) : Type 0 where
  pub owned : (j : Bytes) → lookup j m.items ≡ none → lookup j m.results ≡ none
