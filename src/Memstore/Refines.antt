-- ===== src/Memstore/Refines.antt =====
-- The in-memory backend keeps the contract of store.Backend.
use macguffin.Prelude.{
  ℕ, ◌≡◌, refl, arith, List, [], Bytes, same_iff, lookup, insert, lookup-insert, Option-cases, inl,
  inr,
}
use macguffin.Store.{State, Actor, same_status, in_status, archived}
use macguffin.Store.Spec
use macguffin.Store.Spec.{update}
use macguffin.Store.Backend.{Follows, Keeps, reading}
use macguffin.Memstore.{
  Mem, Record, new, count_call, holder_for, lost_at, create, get, transition, edit, archive,
  backend,
}
use macguffin.Memstore.Lookup.{view, IsHealthy, entry_of}

-- Any text is an id here.
abbrev pub AnyId : Bytes → Type 0
AnyId _ = Unit

pub new-IsHealthy : IsHealthy new
unfolding new
new-IsHealthy = record { owned = λ j h. unfold lookup in refl }

counted-IsHealthy : (op : Bytes) (m : Mem) → IsHealthy m → IsHealthy (count_call op m)
unfolding count_call
counted-IsHealthy op m h = record { owned = h.owned }

view-counted : (op : Bytes) (m : Mem) (j : Bytes) → view (count_call op m) j ≡ view m j
unfolding count_call view
view-counted op m j = refl

-- A record that is written where there was one, or where there is no result, shows at its id alone.
module _ (m : Mem) (id : Bytes) (r' : Record) (h : IsHealthy m) (calls : List (Bytes × ℕ)) where
  abbrev written : Mem
  written = record m { items = insert id r' m.items; calls = calls }

  written-IsHealthy : IsHealthy written
  written-IsHealthy = record {
    owned = λ j. ground (arith, h.owned j, same_iff id j, lookup-insert id j r' m.items);
  }

  view-written :
      (j : Bytes) → view written j ≡ update id (entry_of (lookup id m.results) r') (view m) j
  unfolding view
  view-written j = rw lookup-insert (ground (arith, same_iff id j))

module _ (now : ℕ) (id : Bytes) (by : Actor) (m : Mem) (h : IsHealthy m) where
  -- Transition on a healthy memory store answers and changes the store as the contract says, lost and
  -- refused moves included, and leaves a healthy store.
  pub Mem-transition :
      (expect to : State)
      → Follows AnyId IsHealthy view
          (transition now id expect to by m)
          (Spec.transition holder_for id expect to by (view m))
  unfolding transition Spec.transition count_call lost_at view same_status
  Mem-transition expect to = elim (Option-cases (lookup id m.items)) [
    | inl e ↦ record {
      answer = ground arith;
      healthy = record { owned = λ j. ground (arith, h.owned j) };
      viewed = λ j _. ground arith;
    }
    | inr (r, e) ↦
        let r' : Record = record r { state = holder_for to by; mtime = now } in
        record {
          answer = ground arith;
          healthy = record {
            owned = λ j. ground (arith, h.owned j, (written-IsHealthy m id r' h m.calls).owned j);
          };
          viewed = λ j _. ground (arith, view-written m id r' h m.calls j);
        }
  ]

  -- Edit on a healthy memory store answers and changes the store as Spec.edit says, and leaves a healthy
  -- store: it replaces the content if the hash is empty or that of what is stored, and otherwise refuses
  -- it as changed. An item that is gone answers ErrNotFound, where the comment of Backend.Edit says
  -- ErrLost.
  pub Mem-edit :
      (digest : Bytes → Bytes) (hash content : Bytes)
      → Follows AnyId IsHealthy view
          (edit digest now id hash content by m)
          (Spec.edit digest id hash content (view m))
  unfolding edit Spec.edit count_call view
  Mem-edit digest hash content = elim (Option-cases (lookup id m.items)) [
    | inl e ↦ record {
      answer = ground arith;
      healthy = record { owned = λ j. ground (arith, h.owned j) };
      viewed = λ j _. ground arith;
    }
    | inr (r, e) ↦
        let r' : Record = record r { content = content; mtime = now } in
        record {
          answer = ground arith;
          healthy = record {
            owned = λ j. ground (arith, h.owned j, (written-IsHealthy m id r' h m.calls).owned j);
          };
          viewed = λ j _. ground (arith, view-written m id r' h m.calls j);
        }
  ]

  -- Create on a healthy memory store answers and changes the store as the contract says, and leaves
  -- a healthy store.
  pub Mem-create :
      (st : State) (content : Bytes)
      → Follows AnyId IsHealthy view
          (create now id st content by m)
          (Spec.create holder_for id st content by (view m))
  unfolding create Spec.create count_call view same_status
  Mem-create st content = elim (Option-cases (lookup id m.items)) [
    | inl e ↦
        let r' : Record = record {
          state = holder_for st by;
          partition = [];
          content = content;
          mtime = now;
        } in
        record {
          answer = ground arith;
          healthy = record {
            owned = λ j. ground (arith, h.owned j, (written-IsHealthy m id r' h m.calls).owned j);
          };
          viewed = λ j _. ground (arith, view-written m id r' h m.calls j, h.owned id);
        }
    | inr (r, e) ↦ record {
      answer = ground arith;
      healthy = record { owned = λ j. ground (arith, h.owned j) };
      viewed = λ j _. ground arith;
    }
  ]

module _ (id : Bytes) (m : Mem) (h : IsHealthy m) where
  -- Archive on a healthy memory store answers and changes the store as the contract says, and leaves
  -- a healthy store.
  pub Mem-archive :
      (partition : Bytes) (by : Actor)
      → Follows AnyId IsHealthy view
          (archive id partition by m)
          (Spec.archive id partition (view m))
  unfolding archive Spec.archive count_call lost_at view
  Mem-archive partition by = elim (Option-cases (lookup id m.items)) [
    | inl e ↦ record {
      answer = ground arith;
      healthy = record { owned = λ j. ground (arith, h.owned j) };
      viewed = λ j _. ground arith;
    }
    | inr (r, e) ↦
        let r' : Record = record r { state = in_status archived; partition = partition } in
        record {
          answer = ground arith;
          healthy = record {
            owned = λ j. ground (arith, h.owned j, (written-IsHealthy m id r' h m.calls).owned j);
          };
          viewed = λ j _. ground (arith, view-written m id r' h m.calls j);
        }
  ]

  pub Mem-get :
      (digest : Bytes → Bytes)
      → (reading (get digest id m).0 ≡ Spec.get id (view m))
        × IsHealthy (get digest id m).1
        × ((j : Bytes) → AnyId j → view (get digest id m).1 j ≡ view m j)
  unfolding get Spec.get count_call view
  Mem-get digest =
      (ground arith, record { owned = λ j. ground (arith, h.owned j) }, λ j _. ground arith)

-- The laws together, for a client of store.Backend.
abbrev pub keeps :
    (digest : Bytes → Bytes)
    → Keeps (backend digest) digest holder_for AnyId (λ _. Unit) (λ _. Unit)
keeps digest = record {
  IsHealthy = IsHealthy;
  view = view;
  create_law = λ now id st content by s _ _ h. Mem-create now id by s h st content;
  get_law = λ id s _ h. Mem-get id s h digest;
  transition_law = λ now id expect to by s _ _ h. Mem-transition now id by s h expect to;
  edit_law = λ now id hash content by s _ h. Mem-edit now id by s h digest hash content;
  archive_law = λ id partition by s _ _ h. Mem-archive id s h partition by;
}
