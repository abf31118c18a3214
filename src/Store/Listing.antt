-- ===== src/Store/Listing.antt =====
-- The contract of List of store.Backend (store/store.go): it changes nothing that is known of the items.
use macguffin.Prelude.{◌≡◌, ◌∙◌, List, [], ◌∷◌, some, Bytes, All, ◌⊎◌}
use macguffin.Store.{Status, State, Actor, Doc, Result, ok}
use macguffin.Store.Spec.{Entry}
use macguffin.Store.Backend.{Backend, Keeps}

abbrev pub HasContent : Bytes → List Doc → Type 0
HasContent c [] = ⊥
HasContent c (d ∷ ds) = (d.content ≡ c) ⊎ HasContent c ds

module _ {S : Type 0} (b : Backend S) (digest : Bytes → Bytes) (derive : State → Actor → State)
    (IsId : Bytes → Type 0) (IsState : State → Type 0) (IsPartition : Bytes → Type 0)
    (k : Keeps b digest derive IsId IsState IsPartition) where
  -- What the store knows is the same.
  abbrev pub Alike : S → S → Type 0
  Alike s t = k.IsHealthy t × ((j : Bytes) → IsId j → k.view t j ≡ k.view s j)

  pub Alike-trans : (s t u : S) → Alike s t → Alike t u → Alike s u
  Alike-trans s t u p q = (q.0, λ j i. q.1 j i ∙ p.1 j i)

  -- A document of the listing is that of an entry.
  abbrev pub IsOwn : S → Doc → Type 0
  IsOwn s d = IsId d.id × ((e : Entry) × (k.view s d.id ≡ some e) × (e.content ≡ d.content))

  -- The contract of List: it changes nothing, and gives the entries of the status and no others.
  pub record Lists (list : Status → S → Result (List Doc) × S) : Type 0 where
    pub alike : (st : Status) (s : S) → k.IsHealthy s → Alike s (list st s).1
    pub docs : Status → S → List Doc
    pub answer : (st : Status) (s : S) → k.IsHealthy s → (list st s).0 ≡ ok (docs st s)
    pub own : (st : Status) (s : S) → k.IsHealthy s → All (IsOwn s) (docs st s)
    pub complete :
        (st : Status) (s : S) (j : Bytes) (e : Entry)
        → k.IsHealthy s
        → IsId j
        → k.view s j ≡ some e
        → e.state.status ≡ st
        → HasContent e.content (docs st s)
