-- ===== src/Tests/Archiving.antt =====
-- Archiving a done item by force, in the in-memory store.
use macguffin.Prelude.{
  true, List, ℕ, ◌≡◌, refl, sym, subst, [], ◌∷◌, some, Bytes, codes, lookup, insert, erase,
  Option-cases, inl, inr,
}
use macguffin.Store.{done, in_status, Ref}
use macguffin.Memstore
use macguffin.Memstore.{Mem, count_call}
use macguffin.Memstore.Companions
use macguffin.Memstore.Lookup
use macguffin.Memstore.Refines.{AnyId, keeps}
use macguffin.Workitem.Done.Held
use macguffin.Workitem.Archive
use macguffin.Workitem.Archive.Filed
use macguffin.Tests.Completing.{
  carol, plain, access, access-IsReader, no_time, print_time, idle, idle-Held, Same, counted-Held,
}

-- mg-1 is done and declares a remainder that nothing discharges
abbrev store : Mem
store = record Memstore.new {
  items =
      (
        codes "mg-1",
        record {
          state = in_status done;
          partition = [];
          content = codes "---\nid: mg-1\ntags: [declares-remainder]\n---\n# a";
          mtime = 1;
        },
      )
      ∷ [];
}

store-IsHealthy : Lookup.IsHealthy store
unfolding lookup Memstore.new
store-IsHealthy = record { owned = λ j h. refl }

abbrev bodies : Archive.Bodies Mem
bodies = record {
  names = Companions.body_names;
  remove = Companions.remove_body;
  move = Companions.move_bodies;
  parse_stamp = λ s. some 1;
}

abbrev month : ℕ → Bytes
month n = codes "2026-08"

names-Held : (ref : Ref) (s : Mem) → Lookup.IsHealthy s → Same s (Companions.body_names ref s).1
unfolding Companions.body_names
names-Held ref s h = counted-Held (codes "Bodies") s h

move-Held :
    (from to : Ref) (s : Mem) → Lookup.IsHealthy s → Same s (Companions.move_bodies from to s).1
unfolding Companions.move_bodies
move-Held from to s h = counted-Held (codes "MoveBodies") s h

with_bodies-Held :
    (bs : List (Bytes × List (Bytes × Bytes))) (s : Mem)
    → Lookup.IsHealthy s
    → Same s (record s { bodies = bs })
unfolding Lookup.view
with_bodies-Held bs s h = (record { owned = h.owned }, λ j i. refl)

remove-Held :
    (ref : Ref) (name : Bytes) (s : Mem)
    → Lookup.IsHealthy s
    → Same s (Companions.remove_body ref name s).1
unfolding Companions.remove_body
remove-Held ref name s h =
    let counted = count_call (codes "RemoveBody") s in
    let q = counted-Held (codes "RemoveBody") s h in
    elim (Option-cases (lookup ref.id s.bodies)) [
      | inl n ↦
          let v : (Companions.remove_body ref name s).1 ≡ counted =
            rw (n, Companions.remove_body) refl in
          subst (Same s) (sym v) q
      | inr (b, n) ↦
          let bs = insert ref.id (erase name b) s.bodies in
          let v : (Companions.remove_body ref name s).1 ≡ record counted { bodies = bs } =
            rw (n, Companions.remove_body) refl in
          subst (Same s) (sym v) (
            Held.Held-trans access plain Memstore.holder_for AnyId (λ _. Unit) (λ _. Unit)
              (keeps plain) access-IsReader s counted (record counted { bodies = bs }) q
              (with_bodies-Held bs counted q.0))
    ]

archive_item-Ends_example :
    Filed.ArchiveEnds access plain Memstore.holder_for AnyId
      (λ _. Unit)
      (λ _. Unit)
      (keeps plain)
      access-IsReader
      no_time
      print_time
      idle
      idle-Held
      (λ j. inl tt)
      4
      carol
      bodies
      names-Held
      remove-Held
      move-Held
      month
      (λ n. tt)
      true
      []
      (codes "mg-1")
      store
      (Archive.archive_item access plain no_time print_time idle 4 carol bodies month true []
        (codes "mg-1")
        store)
archive_item-Ends_example =
    Filed.archive_item-Ends access plain Memstore.holder_for AnyId (λ _. Unit) (λ _. Unit)
      (keeps plain) access-IsReader no_time print_time idle idle-Held (λ j. inl tt) 4 carol bodies
      names-Held remove-Held move-Held month (λ n. tt) true [] (codes "mg-1") store store-IsHealthy
