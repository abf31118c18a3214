-- ===== src/Tests/Workitems.antt =====
-- Items, their dependencies and their moves at concrete inputs.
use macguffin.Prelude.{
  ◌++◌, if◌then◌else◌, trim_right, ◌≢◌, ◌≡◌, ◌≢◌, refl, arith, ℕ, [], ◌∷◌, List, Bytes, codes,
  Option, none, some, Bool, true, false, any, all, keep, is_nil, ◌↔◌,
}
use macguffin.Store.{available, done, shelved, archived, in_status, Actor, Doc, ok}
use macguffin.Memstore
use macguffin.Memstore.{Mem}
use macguffin.Memstore.Lookup
use macguffin.Memstore.Refines.{AnyId, keeps, Mem-create, new-IsHealthy}
use macguffin.Workitem.Resolve
use macguffin.Workitem.Moves
use macguffin.Workitem.Lifecycle
use macguffin.Workitem.Deps

abbrev carol : Actor
carol = record { name = codes "carol"; host = codes "box"; pid = 7; nonce = codes "n2" }

abbrev stored : Mem
stored =
    (Memstore.create 3 (codes "mg-1") (in_status available) (codes "---\nid: mg-1\n---\n# a") carol
      Memstore.new).1

stored-IsHealthy : Lookup.IsHealthy stored
stored-IsHealthy =
    (Mem-create 3 (codes "mg-1") carol Memstore.new new-IsHealthy (in_status available)
      (codes "---\nid: mg-1\n---\n# a")).healthy

abbrev plain : Bytes → Bytes
plain s = s

abbrev access : Resolve.Access Mem
access = record { backend = Memstore.backend plain; get_all = none }

access-IsReader :
    Moves.IsReader access plain Memstore.holder_for AnyId (λ _. Unit) (λ _. Unit) (keeps plain)
access-IsReader g e = absurd (cc)

abbrev no_time : Bytes → Option ℕ
no_time s = none

claim-view_after_example :
    Moves.Agrees access plain Memstore.holder_for AnyId
      (λ _. Unit)
      (λ _. Unit)
      (keeps plain)
      (Lifecycle.claim access no_time 4 carol (codes "mg-1") 9 stored).1
      (Moves.view_after access plain Memstore.holder_for AnyId
        (λ _. Unit)
        (λ _. Unit)
        (keeps plain)
        access-IsReader
        tt
        available
        (Lifecycle.writer carol 9)
        (Resolve.resolve_unique access (codes "mg-1") stored).0
        (Lookup.view stored))
claim-view_after_example =
    Moves.claim-view_after access plain Memstore.holder_for AnyId (λ _. Unit) (λ _. Unit)
      (keeps plain) access-IsReader tt no_time 4 carol (codes "mg-1") 9 stored tt stored-IsHealthy

reopen-view_after_example :
    Moves.Agrees access plain Memstore.holder_for AnyId
      (λ _. Unit)
      (λ _. Unit)
      (keeps plain)
      (Lifecycle.reopen access no_time 4 carol (codes "mg-1") stored).1
      (Moves.view_after access plain Memstore.holder_for AnyId
        (λ _. Unit)
        (λ _. Unit)
        (keeps plain)
        access-IsReader
        tt
        done
        (Lifecycle.unheld carol)
        (Resolve.resolve_unique access (codes "mg-1") stored).0
        (Lookup.view stored))
reopen-view_after_example =
    Moves.reopen-view_after access plain Memstore.holder_for AnyId (λ _. Unit) (λ _. Unit)
      (keeps plain) access-IsReader tt no_time 4 carol (codes "mg-1") stored tt stored-IsHealthy

abbrev twin : Bytes → Doc
twin partition = record {
  id = codes "mg-1";
  state = in_status archived;
  partition = partition;
  content = [];
  hash = [];
  mtime = 0;
  place = [];
}

-- two archived records under one id
abbrev twins : Resolve.Access Mem
twins = record {
  backend = Memstore.backend plain;
  get_all = some (λ id s. (ok (twin (codes "2026-04") ∷ twin (codes "2026-05") ∷ []), s));
}

abbrev twin_matches : List Resolve.Match
twin_matches =
    Resolve.match_of (codes "mg-1") (twin (codes "2026-04"))
    ∷ Resolve.match_of (codes "mg-1") (twin (codes "2026-05"))
    ∷ []

twins_resolved :
    (Resolve.resolve twins (Resolve.qualifier (codes "mg-1@2026-05")).0 stored).0
    ≡ Resolve.good twin_matches
unfolding Resolve.resolve Resolve.qualifier macguffin.Prelude.cut_prefix
twins_resolved = refl

twin_chosen :
    (Resolve.resolve_unique twins (codes "mg-1@2026-05") stored).0
    ≡ Resolve.good (Resolve.match_of (codes "mg-1") (twin (codes "2026-05")))
unfolding Resolve.resolve_unique macguffin.Prelude.cut_prefix macguffin.Prelude.same
twin_chosen = refl

resolve_unique-IsChosen_example :
    Resolve.IsChosen
      (Resolve.match_of (codes "mg-1") (twin (codes "2026-05")))
      (Resolve.candidates (Resolve.qualifier (codes "mg-1@2026-05")).1 twin_matches)
resolve_unique-IsChosen_example =
    Resolve.resolve_unique-IsChosen twins (codes "mg-1@2026-05") stored
      (Resolve.match_of (codes "mg-1") (twin (codes "2026-05"))) twin_matches twins_resolved
      twin_chosen

abbrev deps : List Deps.Dep
deps =
    record { id = codes "mg-2"; state = Deps.dep_shelved; status = some shelved }
    ∷ record { id = codes "mg-3"; state = Deps.satisfied; status = some done }
    ∷ []

place_for_deps_lem_example :
    (((Deps.place_for_deps deps).0 ≡ shelved) ↔ (any Deps.is_shelved deps ≡ true))
    × (((Deps.place_for_deps deps).0 ≡ available) ↔ (all Deps.is_satisfied deps ≡ true))
    × ((Deps.place_for_deps deps).1 ≡ keep Deps.is_shelved deps)
place_for_deps_lem_example = Deps.place_for_deps_lem deps
