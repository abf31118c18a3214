-- ===== src/Tests/Gates.antt =====
-- Modifying, snoozing and scheduling an item at concrete inputs, beside a process that edits another item.
use macguffin.Prelude.{
  ℕ, ◌≡◌, ◌≢◌, refl, arith, Bool, true, false, ◌||◌, List, [], ◌∷◌, ◌++◌, Option, none, some, Bytes,
  codes, same, is_nil, All, ap, ◌∙◌, same_iff, same_refl, any, sym, subst, lookup, insert,
}
use macguffin.Store.{Status, available, pending, in_status, Actor, Doc, Result, ok, err}
use macguffin.Store.Steps.{edit-other}
use macguffin.Store.Spec.{Entry, update}
use macguffin.Memstore
use macguffin.Memstore.{Mem}
use macguffin.Memstore.Lookup
use macguffin.Memstore.Refines.{AnyId, keeps, Mem-create, Mem-edit, new-IsHealthy}
use macguffin.Workitem.Item
use macguffin.Workitem.Item.{Item}
use macguffin.Workitem.Resolve
use macguffin.Workitem.Moves
use macguffin.Workitem.Lifecycle
use macguffin.Workitem.Modify
use macguffin.Workitem.Atomic
use macguffin.Workitem.Undisturbed
use macguffin.Workitem.Snooze
use macguffin.Workitem.Snoozed
use macguffin.Workitem.Schedule
use macguffin.Workitem.Promoted
use macguffin.Workitem.Scheduled

abbrev carol : Actor
carol = record { name = codes "carol"; host = codes "box"; pid = 7; nonce = codes "n2" }

abbrev text : Bytes
text = codes "---\nid: mg-1\n---\n# a"

abbrev store_of : Status → Mem
store_of st = (Memstore.create 3 (codes "mg-1") (in_status st) text carol Memstore.new).1

available-IsHealthy : Lookup.IsHealthy (store_of available)
available-IsHealthy =
    (Mem-create 3 (codes "mg-1") carol Memstore.new new-IsHealthy (in_status available)
      text).healthy

pending-IsHealthy : Lookup.IsHealthy (store_of pending)
pending-IsHealthy =
    (Mem-create 3 (codes "mg-1") carol Memstore.new new-IsHealthy (in_status pending) text).healthy

abbrev plain : Bytes → Bytes
plain s = s

abbrev access : Resolve.Access Mem
access = record { backend = Memstore.backend plain; get_all = none }

access-IsReader :
    Moves.IsReader access plain Memstore.holder_for AnyId (λ _. Unit) (λ _. Unit) (keeps plain)
access-IsReader g e = absurd (cc)

abbrev no_time : Bytes → Option ℕ
no_time s = none

abbrev print_time : ℕ → Bytes
print_time n = codes "2026"

-- another process that edits another item
abbrev busy : ℕ → Mem → Mem
busy n s = (Memstore.edit plain 5 (codes "mg-2") [] text carol s).1

busy-IsHealthy : (n : ℕ) (s : Mem) → Lookup.IsHealthy s → Lookup.IsHealthy (busy n s)
busy-IsHealthy n s h = (Mem-edit 5 (codes "mg-2") carol s h plain [] text).healthy

abbrev match : Resolve.Match
match = Resolve.match_of (codes "mg-1") (record {
  id = codes "mg-1";
  state = in_status available;
  partition = [];
  content = text;
  hash = text;
  mtime = 3;
  place = [];
})

abbrev until_9 : Item → Modify.Applied
until_9 it = Modify.rewritten (Snooze.set_snooze print_time 9 it)

modify_item-Ends_example :
    let out =
      Modify.modify_item access plain no_time print_time until_9 busy 4 carol
        (some available)
        match
        (store_of available) in
    Atomic.Ends access plain Memstore.holder_for AnyId
      (λ _. Unit)
      (λ _. Unit)
      (keeps plain)
      access-IsReader
      no_time
      print_time
      until_9
      busy
      busy-IsHealthy
      (codes "mg-1")
      (store_of available)
      out.0
      out.1
unfolding Resolve.match_of
modify_item-Ends_example =
    Atomic.modify_item-Ends access plain Memstore.holder_for AnyId (λ _. Unit) (λ _. Unit)
      (keeps plain) access-IsReader no_time print_time until_9 busy busy-IsHealthy 4 carol
      (some available) match (store_of available) tt (λ e. absurd (cc)) available-IsHealthy

snooze_item-Filed_example :
    let out =
      Snooze.snooze_item access plain no_time print_time busy 4 carol
        (codes "mg-1")
        9
        (store_of available) in
    Snoozed.Filed access plain Memstore.holder_for AnyId
      (λ _. Unit)
      (λ _. Unit)
      (keeps plain)
      access-IsReader
      no_time
      print_time
      busy
      busy-IsHealthy
      tt
      4
      carol
      (Resolve.qualifier (codes "mg-1")).0
      9
      out.0
      out.1
snooze_item-Filed_example =
    Snoozed.snooze_item-Filed access plain Memstore.holder_for AnyId (λ _. Unit) (λ _. Unit)
      (keeps plain) access-IsReader no_time print_time busy busy-IsHealthy tt 4 carol (codes "mg-1")
      9 (store_of available) tt available-IsHealthy

abbrev item : Item
item = record (Item.blank (codes "# a")) { id = codes "mg-1"; title = codes "a" }

abbrev entry : Entry
entry = record { state = in_status available; partition = []; content = text; result = none }

modify_item-succeeds_example :
    let content = Item.render print_time (Snooze.set_snooze print_time 9 item) in
    let out =
      Modify.modify_item access plain no_time print_time until_9 busy 4 carol
        (some available)
        match
        (store_of available) in
    (out.0
      ≡ Resolve.good
          (Snooze.set_snooze print_time 9 item, Modify.rewrite_match plain content match))
    × Moves.Agrees access plain Memstore.holder_for AnyId
        (λ _. Unit)
        (λ _. Unit)
        (keeps plain)
        out.1
        (update
          (codes "mg-1")
          (record entry { content = content })
          (Lookup.view (busy 1 (store_of available))))
unfolding Resolve.match_of Lifecycle.read_match Item.parse Lookup.view Memstore.edit
    macguffin.Workitem.Title.first_from macguffin.Workitem.Title.heading same
    macguffin.Prelude.lookup Memstore.create Memstore.new macguffin.Prelude.insert
    Memstore.count_call Memstore.holder_for
modify_item-succeeds_example =
    Undisturbed.modify_item-succeeds access plain Memstore.holder_for AnyId (λ _. Unit) (λ _. Unit)
      (keeps plain) no_time print_time until_9 busy 4 carol (some available) match item
      (Snooze.set_snooze print_time 9 item) entry (store_of available) tt
      (busy-IsHealthy 1 (store_of available) available-IsHealthy) refl refl refl refl

two-apart : codes "mg-2" ≢ codes "mg-3"
unfolding same
two-apart e = cc (same_refl (codes "mg-2"), ap (same (codes "mg-2")) e)

one-apart : codes "mg-1" ≢ codes "mg-3"
unfolding same
one-apart e = cc (same_refl (codes "mg-1"), ap (same (codes "mg-1")) e)

busy-away :
    (n : ℕ) (s : Mem)
    → Lookup.IsHealthy s
    → Lookup.view (busy n s) (codes "mg-3") ≡ Lookup.view s (codes "mg-3")
busy-away n s h =
    (Mem-edit 5 (codes "mg-2") carol s h plain [] text).viewed (codes "mg-3") tt
    ∙ edit-other plain (codes "mg-2") [] text (Lookup.view s) (codes "mg-3") two-apart

abbrev doc : Doc
doc = record {
  id = codes "mg-1";
  state = in_status pending;
  partition = [];
  content = text;
  hash = text;
  mtime = 3;
  place = [];
}

abbrev id_read : Resolve.Outcome Item → Bytes
id_read (Resolve.bad f) = []
id_read (Resolve.good it) = it.id

doc_read :
    (it : Item)
    → Lifecycle.read_match access no_time (Resolve.match_of (codes "mg-1") doc) ≡ Resolve.good it
    → codes "mg-1" ≡ it.id
unfolding Lifecycle.read_match Item.parse Resolve.match_of macguffin.Workitem.Title.first_from
    macguffin.Workitem.Title.heading same
doc_read it e = ap id_read e

abbrev Spared : Mem → Mem → Type 0
Spared =
    Promoted.Spared access plain Memstore.holder_for AnyId (λ _. Unit) (λ _. Unit) (keeps plain)
      access-IsReader no_time print_time busy busy-IsHealthy tt 4 carol (codes "mg-3") tt busy-away

listing-Spared :
    (st : Status) (s : Mem) → Lookup.IsHealthy s → Spared s (Memstore.list plain st s).1
unfolding Memstore.list Memstore.count_call Lookup.view
listing-Spared st s h = (record { owned = h.owned }, refl)

no_ids :
    (ids : Status → Mem → Result (List Bytes) × Mem)
    → none ≡ some ids
    → (st : Status) (s : Mem) → Lookup.IsHealthy s
    → Spared s (ids st s).1
no_ids ids e = absurd (cc)

doc_listed : (Memstore.list plain pending (store_of pending)).0 ≡ ok (doc ∷ [])
unfolding Memstore.list Memstore.create Memstore.count_call lookup Memstore.new insert
    Memstore.holder_for Memstore.doc
doc_listed = refl

doc-AllPass :
    Scheduled.AllPass access plain Memstore.holder_for AnyId
      (λ _. Unit)
      (λ _. Unit)
      (keeps plain)
      access-IsReader
      no_time
      print_time
      busy
      busy-IsHealthy
      tt
      4
      carol
      (codes "mg-3")
      tt
      busy-away
      (Memstore.list plain)
      none
      10
      (store_of pending)
unfolding Resolve.match_of
doc-AllPass docs ds as_ids p q r =
    let e : doc ∷ [] ≡ docs = ap (λ x. elim x [ ok xs ↦ xs | err f ↦ [] ]) (sym doc_listed ∙ p) in
    subst
      (All (
        Promoted.Passed access plain Memstore.holder_for AnyId (λ _. Unit) (λ _. Unit) (keeps plain)
          access-IsReader no_time print_time busy busy-IsHealthy tt 4 carol (codes "mg-3") tt
          busy-away (λ i. any (same i) (ds ++ as_ids)) 10))
      e ((λ it e g. ((tt, one-apart), (tt, λ q. one-apart (doc_read it e ∙ q)))), tt)

schedule-Spared_example :
    let out =
      Schedule.schedule access plain no_time print_time busy 4 carol
        (Memstore.list plain)
        none
        10
        (store_of pending) in
    Scheduled.Freed access plain Memstore.holder_for AnyId
      (λ _. Unit)
      (λ _. Unit)
      (keeps plain)
      access-IsReader
      no_time
      print_time
      busy
      busy-IsHealthy
      tt
      4
      carol
      (codes "mg-3")
      tt
      busy-away
      (Memstore.list plain)
      none
      10
      (store_of pending)
      out.0
    × Spared (store_of pending) out.1
schedule-Spared_example =
    Scheduled.schedule-Spared access plain Memstore.holder_for AnyId (λ _. Unit) (λ _. Unit)
      (keeps plain) access-IsReader no_time print_time busy busy-IsHealthy tt 4 carol (codes "mg-3")
      tt busy-away (Memstore.list plain) none 10 listing-Spared no_ids (store_of pending)
      pending-IsHealthy doc-AllPass
