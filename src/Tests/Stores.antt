-- ===== src/Tests/Stores.antt =====
-- Concrete stores: an item in memory and one on the disk.
use macguffin.Prelude.{
  ◌≡◌, refl, arith, [], ◌∷◌, Bytes, codes, lookup, insert, itoa, same, ◌∙◌, has_prefix, trim_prefix,
  cut_prefix, none, some,
}
use macguffin.Store.{available, claimed, Actor, Ref, in_status, satisfies, ok}
use macguffin.Store.Spec
use macguffin.Store.Backend.{Follows, reading}
use macguffin.Store.Race.{claims, wins, any_claim, claims_exactly_one, create-get}
use macguffin.Memstore
use macguffin.Memstore.{Mem}
use macguffin.Memstore.Companions
use macguffin.Memstore.Lookup
use macguffin.Memstore.Refines.{
  AnyId, Mem-create, Mem-transition, Mem-edit, Mem-archive, new-IsHealthy, keeps,
}
use macguffin.Fsstore
use macguffin.Fsstore.Disk.{Disk}
use macguffin.Fsstore.Ops
use macguffin.Fsstore.Disk
use macguffin.Fsstore.Locate
use macguffin.Fsstore.Refines.Writes
use macguffin.Fsstore.Names.{IsId}
use macguffin.Fsstore.Layout.{layout}
use macguffin.Fsstore.Refines
use macguffin.Fsstore.Refines.{IsState}
use macguffin.Fsstore.Refines.Moves.{Disk-transition}
use macguffin.Fsstore.Refines.Archival.{Disk-archive}
use macguffin.Fsstore.Refines.Writes.{Disk-create, Disk-edit, Disk-get}

abbrev alice : Actor
alice = record { name = codes "alice"; host = codes "box"; pid = 82407; nonce = codes "n1" }

abbrev bob : Actor
bob = record { name = codes "bob"; host = codes "box"; pid = 7; nonce = codes "n2" }

abbrev mg_1 : Bytes
mg_1 = codes "mg-1"

abbrev plain : Bytes → Bytes
plain s = s

-- a memory store with one available item
abbrev one_item : Mem
one_item = (Memstore.create 3 mg_1 (in_status available) (codes "text") alice Memstore.new).1

one_item-IsHealthy : Lookup.IsHealthy one_item
one_item-IsHealthy =
    (Mem-create 3 mg_1 alice Memstore.new new-IsHealthy (in_status available)
      (codes "text")).healthy

Mem-create_example :
    Follows AnyId Lookup.IsHealthy Lookup.view
      (Memstore.create 3 mg_1 (in_status available) (codes "text") alice Memstore.new)
      (Spec.create Memstore.holder_for mg_1
        (in_status available)
        (codes "text")
        alice
        (Lookup.view Memstore.new))
Mem-create_example =
    Mem-create 3 mg_1 alice Memstore.new new-IsHealthy (in_status available) (codes "text")

Mem-transition_example :
    Follows AnyId Lookup.IsHealthy Lookup.view
      (Memstore.transition 4 mg_1 (in_status available) any_claim bob one_item)
      (Spec.transition Memstore.holder_for mg_1
        (in_status available)
        any_claim
        bob
        (Lookup.view one_item))
Mem-transition_example =
    Mem-transition 4 mg_1 bob one_item one_item-IsHealthy (in_status available) any_claim

Mem-edit_example :
    Follows AnyId Lookup.IsHealthy Lookup.view
      (Memstore.edit plain 4 mg_1 (codes "text") (codes "more") bob one_item)
      (Spec.edit plain mg_1 (codes "text") (codes "more") (Lookup.view one_item))
Mem-edit_example =
    Mem-edit 4 mg_1 bob one_item one_item-IsHealthy plain (codes "text") (codes "more")

Mem-archive_example :
    Follows AnyId Lookup.IsHealthy Lookup.view
      (Memstore.archive mg_1 (codes "2026-08") bob one_item)
      (Spec.archive mg_1 (codes "2026-08") (Lookup.view one_item))
Mem-archive_example = Mem-archive mg_1 one_item one_item-IsHealthy (codes "2026-08") bob

-- an empty disk, and one with an available item
nothing-IsHealthy : Refines.IsHealthy []
nothing-IsHealthy = record {
  items = [];
  is_store = record { table = tt; entries = λ id e h. absurd (unfold lookup in cc h) };
  laid = unfold layout in refl;
}

mg_1-IsId : IsId mg_1
mg_1-IsId = record { ne_nil = refl; no_dot = omega arith }

abbrev disk_1 : Disk
disk_1 = (Ops.create 3 mg_1 (in_status available) (codes "text") alice []).1

Disk-create_example :
    Follows IsId Refines.IsHealthy Refines.view
      (Ops.create 3 mg_1 (in_status available) (codes "text") alice [])
      (Spec.create Fsstore.with_holder mg_1
        (in_status available)
        (codes "text")
        alice
        (Refines.view []))
Disk-create_example =
    Disk-create [] nothing-IsHealthy 3 mg_1 (in_status available) (codes "text") alice mg_1-IsId
      (λ _. refl)

disk_1-IsHealthy : Refines.IsHealthy disk_1
disk_1-IsHealthy =
    (Disk-create [] nothing-IsHealthy 3 mg_1 (in_status available) (codes "text") alice mg_1-IsId
      (λ _. refl)).healthy

Disk-transition_example :
    Follows IsId Refines.IsHealthy Refines.view
      (Ops.transition 4 mg_1 (in_status available) any_claim bob disk_1)
      (Spec.transition Fsstore.with_holder mg_1
        (in_status available)
        any_claim
        bob
        (Refines.view disk_1))
Disk-transition_example =
    Disk-transition disk_1 disk_1-IsHealthy 4 mg_1 (in_status available) any_claim bob mg_1-IsId
      (λ _. refl)

Disk-edit_example :
    Follows IsId Refines.IsHealthy Refines.view
      (Ops.edit plain 4 mg_1 (codes "text") (codes "more") bob disk_1)
      (Spec.edit plain mg_1 (codes "text") (codes "more") (Refines.view disk_1))
Disk-edit_example =
    Disk-edit disk_1 disk_1-IsHealthy plain 4 mg_1 (codes "text") (codes "more") bob mg_1-IsId

Disk-archive_example :
    Follows IsId Refines.IsHealthy Refines.view
      (Ops.archive mg_1 (codes "2026-08") bob disk_1)
      (Spec.archive mg_1 (codes "2026-08") (Refines.view disk_1))
Disk-archive_example = Disk-archive disk_1 mg_1 (codes "2026-08") bob disk_1-IsHealthy mg_1-IsId

abbrev mem_entry : Spec.Entry
mem_entry = record {
  state = in_status available;
  partition = [];
  content = codes "text";
  result = none;
}

one_item-view : Lookup.view one_item mg_1 ≡ some mem_entry
unfolding Lookup.view Memstore.create Memstore.new Memstore.count_call Memstore.holder_for lookup
    insert same
one_item-view = refl

with_holder-claimed : (by : Actor) → (Fsstore.with_holder any_claim by).status ≡ claimed
unfolding Fsstore.with_holder
with_holder-claimed by = ground arith

holder_for-claimed : (by : Actor) → (Memstore.holder_for any_claim by).status ≡ claimed
unfolding Memstore.holder_for
holder_for-claimed by = ground arith

claims_exactly_one_example :
    (wins (claims (Memstore.backend plain) 4 mg_1 (bob ∷ alice ∷ bob ∷ []) one_item).0 ≡ 1)
    × (Lookup.view (claims (Memstore.backend plain) 4 mg_1 (bob ∷ alice ∷ bob ∷ []) one_item).1 mg_1
        ≡ some (record mem_entry { state = Memstore.holder_for any_claim bob }))
claims_exactly_one_example =
    claims_exactly_one (Memstore.backend plain) plain Memstore.holder_for AnyId (λ _. Unit)
      (λ _. Unit) (keeps plain) holder_for-claimed tt 4 mg_1 tt bob (alice ∷ bob ∷ []) one_item
      mem_entry one_item-IsHealthy one_item-view refl

disk_made : (Ops.create 3 mg_1 (in_status available) (codes "text") alice []).0 ≡ ok tt
disk_made = Disk-create_example.answer ∙ (unfold Spec.create Refines.view Locate.locate in refl)

create-get_example :
    reading (Ops.get plain mg_1 disk_1).0
    ≡ ok (Fsstore.with_holder (in_status available) alice, [], codes "text")
create-get_example =
    create-get (Ops.backend plain) plain Fsstore.with_holder IsId IsState (λ _. Unit)
      (Writes.keeps plain) with_holder-claimed (λ x. cc) 3 mg_1 mg_1-IsId (in_status available)
      (codes "text") alice [] (λ _. refl) nothing-IsHealthy disk_made

with_result : Ref
with_result = record { id = mg_1; status = available; partition = [] }

-- the claim of a pid is a rename to <id>.md.<pid>
claimed_file :
    (Ops.transition 4 mg_1 (in_status available) any_claim bob disk_1).1
    ≡ record { dir = Fsstore.in_work claimed; name = codes "mg-1.md.7"; content = codes "text" }
      ∷ []
unfolding Ops.transition Ops.create Ops.find Ops.candidate Ops.move_from Disk.move_item
    Disk.create_exclusive Disk.rename Disk.stat Disk.change Disk.same_path Disk.at
    Fsstore.with_holder Fsstore.file_name Fsstore.status_dir Fsstore.same_dir Fsstore.matches_id
    Fsstore.matches_archived_id Fsstore.holder_of Fsstore.result_sidecar_name Locate.locate
    Locate.state_of satisfies same has_prefix trim_prefix cut_prefix itoa Ops.follow
    Ops.move_sidecar
claimed_file = refl
