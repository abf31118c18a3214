-- ===== src/Tests/Completing.antt =====
-- Completing an item that declares a remainder, in the in-memory store.
use macguffin.Prelude.{
  trim_space, List, ℕ, ◌≡◌, ◌↔◌, refl, sym, subst, ap, arith, [], ◌∷◌, Option, none, some, Bytes,
  codes, same_iff, lookup, insert, lookup-insert, Option-cases, inl, inr,
}
use macguffin.Store.{Status, Doc, Result, ok, available, claimed, in_status, Actor, Ref}
use macguffin.Memstore
use macguffin.Memstore.{Mem, count_call}
use macguffin.Memstore.Companions
use macguffin.Memstore.Lookup
use macguffin.Memstore.Refines.{AnyId, keeps}
use macguffin.Workitem.Resolve
use macguffin.Workitem.Moves
use macguffin.Workitem.Assignee
use macguffin.Workitem.Assignee.Exact
use macguffin.Workitem.Unclaim
use macguffin.Workitem.Unclaim.Freed
use macguffin.Workitem.Done
use macguffin.Workitem.Done.Held
use macguffin.Workitem.Done.Ended

abbrev pub carol : Actor
carol = record { name = codes "carol"; host = codes "box"; pid = 7; nonce = codes "n2" }

-- mg-1 is claimed and declares a remainder, mg-2 can be its successor
abbrev store : Mem
store = record Memstore.new {
  items =
      (
        codes "mg-1",
        record {
          state = record { status = claimed; holder = codes "h" };
          partition = [];
          content = codes "---\nid: mg-1\ntags: [declares-remainder]\n---\n# a";
          mtime = 1;
        },
      )
      ∷ (
        codes "mg-2",
        record {
          state = in_status available;
          partition = [];
          content = codes "---\nid: mg-2\n---\n# b";
          mtime = 2;
        },
      )
      ∷ [];
}

store-IsHealthy : Lookup.IsHealthy store
unfolding lookup Memstore.new
store-IsHealthy = record { owned = λ j h. refl }

abbrev pub plain : Bytes → Bytes
plain s = s

abbrev pub access : Resolve.Access Mem
access = record { backend = Memstore.backend plain; get_all = none }

pub access-IsReader :
    Moves.IsReader access plain Memstore.holder_for AnyId (λ _. Unit) (λ _. Unit) (keeps plain)
access-IsReader g e = absurd (cc)

abbrev pub no_time : Bytes → Option ℕ
no_time s = none

abbrev pub print_time : ℕ → Bytes
print_time n = codes "2026"

-- nobody else is there
abbrev pub idle : ℕ → Mem → Mem
idle n s = s

abbrev pub Same : Mem → Mem → Type 0
Same =
    Held.Held access plain Memstore.holder_for AnyId (λ _. Unit) (λ _. Unit) (keeps plain)
      access-IsReader

pub idle-Held : (n : ℕ) (s : Mem) → Lookup.IsHealthy s → Same s (idle n s)
idle-Held n s h = (h, λ j i. refl)

abbrev companions : Done.Results Mem
companions = record {
  read_result = Companions.read_result;
  write_result = Companions.write_result;
  merge_json = λ prior incoming. some incoming;
}

-- the store with a call counted
pub counted-Held : (op : Bytes) (s : Mem) → Lookup.IsHealthy s → Same s (count_call op s)
unfolding count_call Lookup.view
counted-Held op s h = (record { owned = h.owned }, λ j i. refl)

read-Held : (ref : Ref) (s : Mem) → Lookup.IsHealthy s → Same s (Companions.read_result ref s).1
unfolding Companions.read_result
read-Held ref s h =
    let counted = count_call (codes "ReadResult") s in
    let v : (Companions.read_result ref s).1 ≡ counted =
      elim (Option-cases (lookup ref.id s.results)) [
        | inl n ↦ rw (n, Companions.read_result) refl
        | inr (r, n) ↦ rw (n, Companions.read_result) refl
      ] in
    subst (Same s) (sym v) (counted-Held (codes "ReadResult") s h)

abbrev with_result : Bytes → Bytes → Mem → Mem
with_result id payload s = record s { results = insert id payload s.results }

with_result-Held :
    (id payload : Bytes) (s : Mem) (r : Memstore.Record)
    → lookup id s.items ≡ some r
    → Lookup.IsHealthy s
    → Same s (with_result id payload s)
unfolding Lookup.view
with_result-Held id payload s r e h = (
  record {
    owned = λ j n. ground (
      arith,
      lookup-insert id j payload s.results,
      same_iff id j,
      h.owned j,
      n,
      e,
      ap (λ x. lookup x s.items),
    );
  },
  λ j i. elim (Option-cases (lookup j s.items)) [ inl n ↦ rw n refl | inr (x, n) ↦ rw n refl ],
)

write-Held :
    (ref : Ref) (payload : Bytes) (s : Mem)
    → Lookup.IsHealthy s
    → Same s (Companions.write_result ref payload s).1
unfolding Companions.write_result count_call
write-Held ref payload s h =
    let counted = count_call (codes "WriteResult") s in
    let q = counted-Held (codes "WriteResult") s h in
    elim (Option-cases (lookup ref.id s.items)) [
      | inl n ↦
          let v : (Companions.write_result ref payload s).1 ≡ counted =
            rw (n, Companions.write_result) refl in
          subst (Same s) (sym v) q
      | inr (r, n) ↦
          let v : (Companions.write_result ref payload s).1 ≡ with_result ref.id payload counted =
            rw (n, Companions.write_result) refl in
          subst (Same s) (sym v) (
            Held.Held-trans access plain Memstore.holder_for AnyId (λ _. Unit) (λ _. Unit)
              (keeps plain) access-IsReader s counted (with_result ref.id payload counted) q
              (with_result-Held ref.id payload counted r n q.0))
    ]

no_twins :
    (g : Bytes → Mem → Result (List Doc) × Mem)
    → access.get_all ≡ some g
    → (id : Bytes) (s : Mem) → AnyId id
    → Lookup.IsHealthy s
    → Lookup.view s id ≡ none
    → (ds : List Doc) → (g id s).0 ≡ ok ds
    → ds ≡ []
no_twins g e = absurd (cc)

mark_done-Ends_example :
    Ended.DoneEnds access plain Memstore.holder_for AnyId
      (λ _. Unit)
      (λ _. Unit)
      (keeps plain)
      access-IsReader
      no_time
      print_time
      idle
      idle-Held
      (λ j. inl tt)
      4
      carol
      no_twins
      companions
      read-Held
      write-Held
      tt
      (Memstore.list plain)
      none
      5
      (codes "mg-1")
      (codes "mg-2")
      store
      (Done.mark_done access plain no_time print_time idle 4 carol companions
        (Memstore.list plain)
        none
        5
        (codes "mg-1")
        (codes "result")
        (codes "mg-2")
        store)
mark_done-Ends_example =
    Ended.mark_done-Ends access plain Memstore.holder_for AnyId (λ _. Unit) (λ _. Unit)
      (keeps plain) access-IsReader no_time print_time idle idle-Held (λ j. inl tt) 4 carol no_twins
      companions read-Held write-Held tt (Memstore.list plain) none 5 (codes "mg-1")
      (codes "result") (codes "mg-2") store store-IsHealthy

listing-Held : (st : Status) (s : Mem) → Lookup.IsHealthy s → Same s (Memstore.list plain st s).1
unfolding Memstore.list
listing-Held st s h = counted-Held (codes "List") s h

no_lister :
    (ids : Status → Mem → Result (List Bytes) × Mem)
    → none ≡ some ids
    → (st : Status) (s : Mem) → Lookup.IsHealthy s
    → Same s (ids st s).1
no_lister ids e = absurd (cc)

unclaim-Ends_example :
    Freed.UnclaimEnds access plain Memstore.holder_for AnyId
      (λ _. Unit)
      (λ _. Unit)
      (keeps plain)
      access-IsReader
      no_time
      print_time
      idle
      idle-Held
      (λ j. inl tt)
      4
      carol
      (Memstore.list plain)
      listing-Held
      none
      no_lister
      5
      tt
      tt
      (codes "mg-1")
      (some (codes "human"))
      store
      (Unclaim.unclaim access plain no_time print_time idle 4 carol
        (Memstore.list plain)
        none
        5
        (codes "mg-1")
        (some (codes "human"))
        store)
unclaim-Ends_example =
    Freed.unclaim-Ends access plain Memstore.holder_for AnyId (λ _. Unit) (λ _. Unit) (keeps plain)
      access-IsReader no_time print_time idle idle-Held (λ j. inl tt) 4 carol (Memstore.list plain)
      listing-Held none no_lister 5 tt tt (codes "mg-1") (some (codes "human")) store
      store-IsHealthy

validate_assignee-IsExact_example :
    (Assignee.validate_assignee (codes " human") ≡ Resolve.good tt)
    ↔ Exact.IsExact (trim_space (codes " human"))
validate_assignee-IsExact_example = Exact.validate_assignee-IsExact (codes " human") (omega arith)

-- two edits away from a sentinel, which is let through
accepted_near_sentinel : Assignee.validate_assignee (codes "parkd") ≡ Resolve.good tt
unfolding Assignee.validate_assignee macguffin.Prelude.cut_prefix
accepted_near_sentinel = refl

-- a gate that differs only in case, or is misspelled
refused_case : Assignee.validate_assignee (codes "Human") ≡ Resolve.bad Assignee.assignee_gate
unfolding Assignee.validate_assignee macguffin.Prelude.cut_prefix
refused_case = refl

refused_spelling :
    Assignee.validate_assignee (codes "bloked:pm") ≡ Resolve.bad Assignee.assignee_gate
unfolding Assignee.validate_assignee macguffin.Prelude.cut_prefix
refused_spelling = refl
