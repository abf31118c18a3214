-- ===== src/Workitem/Shelve/Call.antt =====
-- What the parts of shelveCascade see of a backend that keeps the contract: the record of an id, and the
-- items that depend on one.
use macguffin.Prelude.{
  ℕ, ◌≡◌, refl, sym, ap, ◌∙◌, subst, true, false, List, [], ◌∷◌, ◌++◌, Option, none, some, Bytes,
  is_nil, All, All-append, if◌then◌else◌, inl, inr, Option-cases,
}
use macguffin.Store.{Status, available, claimed, pending, State, Actor, Doc, Result, ok}
use macguffin.Store.Spec
use macguffin.Store.Spec.{View, Entry, Reading}
use macguffin.Store.Listing
use macguffin.Store.Backend.{Keeps}
use macguffin.Workitem.Item.{Item, parse}
use macguffin.Workitem.Resolve.{
  Access, Match, Outcome, good, bad, no_partition, empty_partition, match_state, match_of,
  match_of_get, matches_of, resolve, resolve_unique, qualifier, choose, in_partition, chosen_in,
  choose_found,
}
use macguffin.Workitem.Shelve.{shelvable, depends_on, found_in, find_dependents}
use macguffin.Workitem.Shelve.Found.{
  HasItem, HasItem-left, HasItem-right, shelvable-cases, get-Match, found_in-HasItem, found_in-All,
}

module _ {S : Type 0} (b : Access S) (digest : Bytes → Bytes) (derive : State → Actor → State)
    (IsId : Bytes → Type 0) (IsState : State → Type 0) (IsPartition : Bytes → Type 0)
    (k : Keeps b.backend digest derive IsId IsState IsPartition) where
  module _ (list : Status → S → Result (List Doc) × S)
      (l : Listing.Lists b.backend digest derive IsId IsState IsPartition k list)
      (parse_time : Bytes → Option ℕ) (now : ℕ) (who : Actor) where
    abbrev pub dependents : Bytes → S → List Item × S
    dependents = find_dependents b list parse_time now who

    abbrev at_claimed : S → S
    at_claimed s = (list available s).1

    abbrev at_pending : S → S
    at_pending s = (list claimed (list available s).1).1

    at_pending-Alike :
        (s : S)
        → k.IsHealthy s
        → Listing.Alike b.backend digest derive IsId IsState IsPartition k s (at_pending s)
    at_pending-Alike s h =
        let a = l.alike available s h in
        Listing.Alike-trans b.backend digest derive IsId IsState IsPartition k s (at_claimed s)
          (at_pending s) a (l.alike claimed (at_claimed s) a.0)

    -- what holds of every item of an entry holds of the items that are found in one listing
    listed-All :
        (P : Item → Type 0) (id : Bytes) (st : Status) (s : S)
        → k.IsHealthy s
        → ((j : Bytes) (e : Entry) (it : Item)
            → IsId j
            → k.view s j ≡ some e
            → parse parse_time e.content ≡ some it
            → P it)
        → All P (found_in parse_time id (list st s).0)
    unfolding found_in
    listed-All P id st s h every =
        subst (λ r. All P (found_in parse_time id r)) (sym (l.answer st s h))
          (found_in-All parse_time id P (l.docs st s) (readable (l.docs st s) (l.own st s h)))
      where
        readable :
            (ds : List Doc)
            → All (Listing.IsOwn b.backend digest derive IsId IsState IsPartition k s) ds
            → All (λ d. (it : Item) → parse parse_time d.content ≡ some it → P it) ds
        readable [] o = tt
        readable (d ∷ ds) (o, os) = (
          λ it p. every d.id o.1.0 it o.0 o.1.1 (ap (parse parse_time) o.1.2 ∙ p),
          readable ds os,
        )

    listed-HasItem :
        (id : Bytes) (st : Status) (s : S) (j : Bytes) (e : Entry) (it : Item)
        → k.IsHealthy s
        → IsId j
        → k.view s j ≡ some e
        → e.state.status ≡ st
        → parse parse_time e.content ≡ some it
        → depends_on id it ≡ true
        → HasItem it.id (found_in parse_time id (list st s).0)
    unfolding found_in
    listed-HasItem id st s j e it h i v a p d =
        subst (λ r. HasItem it.id (found_in parse_time id r)) (sym (l.answer st s h))
          (found_in-HasItem parse_time id (l.docs st s) e.content it (l.complete st s j e h i v a) p
            d)

    pub dependents-Alike :
        (id : Bytes) (s : S)
        → k.IsHealthy s
        → Listing.Alike b.backend digest derive IsId IsState IsPartition k s (dependents id s).1
    unfolding find_dependents
    dependents-Alike id s h =
        let c = at_pending-Alike s h in
        Listing.Alike-trans b.backend digest derive IsId IsState IsPartition k s (at_pending s)
          (dependents id s).1 c (l.alike pending (at_pending s) c.0)

    -- what holds of every item of an entry holds of the dependents
    pub dependents-All :
        (P : Item → Type 0) (id : Bytes) (s : S)
        → k.IsHealthy s
        → ((j : Bytes) (e : Entry) (it : Item)
            → IsId j
            → k.view s j ≡ some e
            → parse parse_time e.content ≡ some it
            → P it)
        → All P (dependents id s).0
    unfolding find_dependents
    dependents-All P id s h every =
        let a = l.alike available s h in
        let c = at_pending-Alike s h in
        All-append P (found_in parse_time id (list available s).0)
          (found_in parse_time id (list claimed (at_claimed s)).0
            ++ found_in parse_time id (list pending (at_pending s)).0)
          (listed-All P id available s h every)
          (All-append P (found_in parse_time id (list claimed (at_claimed s)).0)
            (found_in parse_time id (list pending (at_pending s)).0)
            (listed-All P id claimed (at_claimed s) a.0
              (λ j e it i v p. every j e it i (sym (a.1 j i) ∙ v) p))
            (listed-All P id pending (at_pending s) c.0
              (λ j e it i v p. every j e it i (sym (c.1 j i) ∙ v) p)))

    -- an active item that depends on the id is among them
    pub dependents-HasItem :
        (id : Bytes) (s : S) (j : Bytes) (e : Entry) (it : Item)
        → k.IsHealthy s
        → IsId j
        → k.view s j ≡ some e
        → shelvable e.state.status ≡ true
        → parse parse_time e.content ≡ some it
        → depends_on id it ≡ true
        → HasItem it.id (dependents id s).0
    unfolding find_dependents
    dependents-HasItem id s j e it h i v a p d =
        let y = l.alike available s h in
        let c = at_pending-Alike s h in
        let xs = found_in parse_time id (list available s).0 in
        let ys = found_in parse_time id (list claimed (at_claimed s)).0 in
        let zs = found_in parse_time id (list pending (at_pending s)).0 in
        elim (shelvable-cases e.state.status a) [
          | inl q ↦
              HasItem-left it.id xs (ys ++ zs) (listed-HasItem id available s j e it h i v q p d)
          | inr (inl q) ↦ HasItem-right it.id xs (ys ++ zs) (
              HasItem-left it.id ys zs
                (listed-HasItem id claimed (at_claimed s) j e it y.0 i (y.1 j i ∙ v) q p d))
          | inr (inr q) ↦ HasItem-right it.id xs (ys ++ zs) (
              HasItem-right it.id ys zs
                (listed-HasItem id pending (at_pending s) j e it c.0 i (c.1 j i ∙ v) q p d))
        ]

  abbrev resolved_at : Bytes × Option Bytes → S → Outcome Match × S
  resolved_at p s =
      let r = resolve b p.0 s in
      if no_partition p.1 then (bad empty_partition, s) else (chosen_in p.1 r.0, r.1)

  -- GetAll, where the backend has it, changes nothing, and has exactly one record of an id that the store
  -- knows, which is the one that it knows.
  abbrev pub IsSole : Type 0
  IsSole =
      (g : Bytes → S → Result (List Doc) × S)
      → b.get_all ≡ some g
      → (id : Bytes) (s : S) → IsId id
      → k.IsHealthy s
      → Listing.Alike b.backend digest derive IsId IsState IsPartition k s (g id s).1
        × ((e : Entry)
            → k.view s id ≡ some e
            → (d : Doc) × ((g id s).0 ≡ ok (d ∷ []))
              × (◌≡◌ {A = Reading} (d.state, d.partition, d.content)
                  (e.state, e.partition, e.content)))

  resolve_unique-get_all :
      (g : Bytes → S → Result (List Doc) × S) (j : Bytes) (s : S) (d : Doc)
      → b.get_all ≡ some g
      → is_nil j ≡ false
      → qualifier j ≡ (j, none)
      → (g j s).0 ≡ ok (d ∷ [])
      → (resolve_unique b j s).0 ≡ good (match_of j d)
  unfolding resolve_unique resolve matches_of chosen_in in_partition choose_found choose
  resolve_unique-get_all g j s d h n q r =
      subst (λ p. (resolved_at p s).0 ≡ good (match_of j d)) (sym q)
        (rw (n, h, resolve) (rw (r, matches_of) refl))

  resolve_unique-get :
      (j : Bytes) (s : S) (d : Doc)
      → b.get_all ≡ none
      → is_nil j ≡ false
      → qualifier j ≡ (j, none)
      → (b.backend.get j s).0 ≡ ok d
      → (resolve_unique b j s).0 ≡ good (match_of j d)
  unfolding resolve_unique resolve match_of_get chosen_in in_partition choose_found choose
  resolve_unique-get j s d g n q r =
      subst (λ p. (resolved_at p s).0 ≡ good (match_of j d)) (sym q)
        (rw (n, g, resolve) (rw (r, match_of_get) refl))

  get-Entry :
      (j : Bytes) (v : View) (e : Entry)
      → v j ≡ some e
      → Spec.get j v ≡ ok (e.state, e.partition, e.content)
  unfolding Spec.get
  get-Entry j v e h = rw (h, Spec.get) refl

  -- an id that has an entry resolves to it
  pub resolve_unique-finds :
      (s : S) (j : Bytes) (e : Entry)
      → IsSole
      → k.IsHealthy s
      → IsId j
      → k.view s j ≡ some e
      → is_nil j ≡ false
      → qualifier j ≡ (j, none)
      → (m : Match) × ((resolve_unique b j s).0 ≡ good m)
        × (m.id ≡ j)
        × (match_state m ≡ e.state)
        × (m.doc.content ≡ e.content)
  unfolding match_of match_state
  resolve_unique-finds s j e sole h i v n q = elim (Option-cases b.get_all) [
    | inl g ↦
        let r = (k.get_law j s i h).0 ∙ get-Entry j (k.view s) e v in
        let d = get-Match j (b.backend.get j s).0 (e.state, e.partition, e.content) r in
        (
          match_of j d.0,
          resolve_unique-get j s d.0 g n q d.1,
          refl,
          ap (λ x. x.0) d.2,
          ap (λ x. x.2) d.2,
        )
    | inr (g, y) ↦
        let d = (sole g y j s i h).1 e v in
        (
          match_of j d.0,
          resolve_unique-get_all g j s d.0 y n q d.1,
          refl,
          ap (λ x. x.0) d.2,
          ap (λ x. x.2) d.2,
        )
  ]
