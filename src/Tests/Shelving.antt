-- ===== src/Tests/Shelving.antt =====
-- Shelving an item and the one that depends on it, in the in-memory store.
use macguffin.Prelude.{
  Option-cases, cut_prefix, if◌then◌else◌, ℕ, ◌≡◌, ◌<◌, refl, sym, ap, ◌∙◌, arith, false, List, [],
  ◌∷◌, Option, none, some, Bytes, codes, same, same_iff, is_nil, Bool-cases, inl, inr, subst,
  lookup, ◌⊎◌,
}
use macguffin.Store.{available, claimed, shelved, in_status, Actor}
use macguffin.Store.Spec.{Entry}
use macguffin.Memstore
use macguffin.Memstore.{Mem}
use macguffin.Memstore.Lookup
use macguffin.Memstore.Refines.{AnyId}
use macguffin.Memstore.Listing.{keeps_fit, lists, IsFit}
use macguffin.Workitem.Item
use macguffin.Workitem.Item.{Item}
use macguffin.Workitem.Resolve
use macguffin.Workitem.Lifecycle
use macguffin.Workitem.Shelve
use macguffin.Workitem.Shelve.Sunk
use macguffin.Workitem.Shelve.Sunk.{active_count}
use macguffin.Workitem.Shelve.Call
use macguffin.Workitem.Shelve.Cascade
use macguffin.Workitem.Shelve.Run

abbrev carol : Actor
carol = record { name = codes "carol"; host = codes "box"; pid = 7; nonce = codes "n2" }

abbrev mg_1 : Bytes
mg_1 = codes "mg-1"

abbrev mg_2 : Bytes
mg_2 = codes "mg-2"

abbrev text_1 : Bytes
text_1 = codes "---\nid: mg-1\n---\n# a"

abbrev text_2 : Bytes
text_2 = codes "---\nid: mg-2\ndepends: [mg-1]\n---\n# b"

-- mg-2, which is claimed, depends on mg-1
abbrev store : Mem
store = record Memstore.new {
  items =
      (mg_1, record { state = in_status available; partition = []; content = text_1; mtime = 1 })
      ∷ (mg_2, record { state = in_status claimed; partition = []; content = text_2; mtime = 2 })
      ∷ [];
}

abbrev plain : Bytes → Bytes
plain s = s

abbrev access : Resolve.Access Mem
access = record { backend = Memstore.backend plain; get_all = none }

abbrev no_time : Bytes → Option ℕ
no_time s = none

read_id : Bytes → Option Bytes
unfolding Item.parse
read_id c = elim (Item.parse no_time c) [ none ↦ none | some it ↦ some it.id ]

id_1 : read_id text_1 ≡ some mg_1
unfolding read_id Item.parse macguffin.Workitem.Title.first_from macguffin.Workitem.Title.heading
    same
id_1 = refl

id_2 : read_id text_2 ≡ some mg_2
unfolding read_id Item.parse macguffin.Workitem.Title.first_from macguffin.Workitem.Title.heading
    same
id_2 = refl

read_id-parse :
    (c x : Bytes) (it : Item) → read_id c ≡ some x → Item.parse no_time c ≡ some it → it.id ≡ x
unfolding read_id
read_id-parse c x it h p =
    ap (λ o. elim o [ none ↦ it.id | some y ↦ y ])
      (sym (ap (λ o. elim o [ none ↦ none | some y ↦ some y.id ]) p) ∙ h)

abbrev item_1 : Item
item_1 = record (Item.blank (codes "# a")) { id = mg_1; title = codes "a" }

parsed_1 : Item.parse no_time text_1 ≡ some item_1
unfolding Item.parse macguffin.Workitem.Title.first_from macguffin.Workitem.Title.heading same
parsed_1 = refl

abbrev entry_1 : Entry
entry_1 = record { state = in_status available; partition = []; content = text_1; result = none }

abbrev entry_2 : Entry
entry_2 = record { state = in_status claimed; partition = []; content = text_2; result = none }

mg_1-entry : Lookup.view store mg_1 ≡ some entry_1
unfolding Lookup.view lookup same Memstore.new
mg_1-entry = refl

-- the entries of the store
abbrev IsEntry : Bytes → Entry → Type 0
IsEntry j e = ((mg_1 ≡ j) × (text_1 ≡ e.content)) ⊎ ((mg_2 ≡ j) × (text_2 ≡ e.content))

content_of : (x e : Entry) → some x ≡ some e → x.content ≡ e.content
content_of x e h = ap (λ o. elim o [ none ↦ x.content | some y ↦ y.content ]) h

entry-IsEntry : (j : Bytes) (e : Entry) → Lookup.view store j ≡ some e → IsEntry j e
unfolding Lookup.view lookup Memstore.new
entry-IsEntry j e h = elim (Bool-cases (same mg_1 j)) [
  | inl p ↦
      let v : Lookup.view store j ≡ some entry_1 = rw p refl in
      inl ((same_iff mg_1 j).0 p, content_of entry_1 e (sym v ∙ h))
  | inr p ↦ elim (Bool-cases (same mg_2 j)) [
    | inl q ↦
        let v : Lookup.view store j ≡ some entry_2 = rw (p, q) refl in
        inr ((same_iff mg_2 j).0 q, content_of entry_2 e (sym v ∙ h))
    | inr q ↦ let v : Lookup.view store j ≡ none = rw (p, q) refl in absurd (cc (v, h))
  ]
]

store-IsFit : IsFit store
unfolding lookup same Memstore.new
store-IsFit = (record { owned = λ j h. refl }, (refl, (refl, tt)))

shelved_inactive :
    Shelve.shelvable (Memstore.holder_for (in_status shelved) (Lifecycle.writer carol 0)).status
    ≡ false
unfolding Shelve.shelvable Memstore.holder_for Lifecycle.writer
shelved_inactive = refl

plain_1 : Resolve.qualifier mg_1 ≡ (mg_1, none)
unfolding Resolve.qualifier macguffin.Lines.cut cut_prefix
plain_1 = refl

plain_2 : Resolve.qualifier mg_2 ≡ (mg_2, none)
unfolding Resolve.qualifier macguffin.Lines.cut cut_prefix
plain_2 = refl

no_twins-IsSole :
    Call.IsSole access plain Memstore.holder_for AnyId (λ _. Unit) (λ _. Unit) (keeps_fit plain)
no_twins-IsSole g e = absurd (cc)

store-IsTidy :
    Cascade.IsTidyStore access plain Memstore.holder_for AnyId
      (λ _. Unit)
      (λ _. Unit)
      (keeps_fit plain)
      (Memstore.list plain)
      (lists plain)
      no_time
      4
      carol
      shelved_inactive
      tt
      no_twins-IsSole
      store
store-IsTidy j i e h = elim (entry-IsEntry j e h) [
  | inl (q, c) ↦ (
    ap is_nil (sym q),
    subst (λ x. Resolve.qualifier x ≡ (x, none)) q plain_1,
    λ it p. read_id-parse text_1 mg_1 it id_1 (ap (Item.parse no_time) c ∙ p) ∙ q,
  )
  | inr (q, c) ↦ (
    ap is_nil (sym q),
    subst (λ x. Resolve.qualifier x ≡ (x, none)) q plain_2,
    λ it p. read_id-parse text_2 mg_2 it id_2 (ap (Item.parse no_time) c ∙ p) ∙ q,
  )
]

abbrev ids : List Bytes
ids = mg_1 ∷ mg_2 ∷ []

store-Covers :
    Sunk.Covers Memstore.holder_for
      (Lifecycle.writer carol 0)
      AnyId
      no_time
      shelved_inactive
      ids
      (Lookup.view store)
store-Covers j i a = elim (Option-cases (Lookup.view store j)) [
  | inl n ↦ absurd (cc (a, ap Sunk.is_active n))
  | inr (e, n) ↦ elim (entry-IsEntry j e n) [ inl (q, c) ↦ inl q | inr (q, c) ↦ inr (inl q) ]
]

two_active : active_count ids (Lookup.view store) < 3
unfolding Lookup.view lookup same Memstore.new Shelve.shelvable
two_active = omega arith

shelve_cascade-Run_example :
    (o : Resolve.Outcome (List Item)) × (t : Mem) × (Shelve.shelve_cascade access
        (Memstore.list plain)
        no_time
        4
        carol
        3
        mg_1
        store
      ≡ some (o, t))
    × Cascade.SweptWell access plain Memstore.holder_for AnyId
        (λ _. Unit)
        (λ _. Unit)
        (keeps_fit plain)
        (Memstore.list plain)
        (lists plain)
        no_time
        4
        carol
        shelved_inactive
        tt
        no_twins-IsSole
        store
        t
    × (Sunk.is_active (Lookup.view t mg_1) ≡ false)
    × (if Shelve.shelvable available
        then ((more : List Item) × (o ≡ Resolve.good (item_1 ∷ more)))
        else (o ≡ Resolve.bad Shelve.not_shelvable))
shelve_cascade-Run_example =
    Run.shelve_cascade-Run access plain Memstore.holder_for AnyId (λ _. Unit) (λ _. Unit)
      (keeps_fit plain) (Memstore.list plain) (lists plain) no_time 4 carol shelved_inactive tt
      no_twins-IsSole ids 3 mg_1 store entry_1 item_1 (tt, (tt, tt)) tt store-IsFit store-IsTidy
      store-Covers two_active mg_1-entry parsed_1
