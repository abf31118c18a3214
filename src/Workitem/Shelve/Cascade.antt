-- ===== src/Workitem/Shelve/Cascade.antt =====
-- The loop of shelveCascade (internal/workitem/shelve.go) over the dependents, for a call that ends and
-- keeps the store as the cascade should.
use macguffin.Prelude.{
  All-keeps, ℕ, ◌≡◌, ◌<◌, refl, sym, ap, ◌∙◌, arith, true, false, List, [], ◌∷◌, ◌++◌, Option, none,
  some, Bytes, All, if◌then◌else◌, inl, inr,
}
use macguffin.Store.{Status, shelved, State, in_status, Actor, Doc, Result}
use macguffin.Store.Spec.{Entry}
use macguffin.Store.Listing
use macguffin.Store.Backend.{Keeps}
use macguffin.Workitem.Item.{Item, parse}
use macguffin.Workitem.Resolve.{Access, Outcome, good, bad}
use macguffin.Workitem.Lifecycle.{writer}
use macguffin.Workitem.Identity.{Outcome-cases}
use macguffin.Workitem.Shelve.{shelvable, depends_on, Ran, Swept, not_shelvable, shelve_each}
use macguffin.Workitem.Shelve.Sunk
use macguffin.Workitem.Shelve.Sunk.{is_active, Listed, active_count}
use macguffin.Workitem.Shelve.Call
use macguffin.Workitem.Shelve.Found.{HasItem}
use macguffin.Workitem.Shelve.Parts.{shelve_each-good, shelve_each-bad}

module _ {S : Type 0} (b : Access S) (digest : Bytes → Bytes) (derive : State → Actor → State)
    (IsId : Bytes → Type 0) (IsState : State → Type 0) (IsPartition : Bytes → Type 0)
    (k : Keeps b.backend digest derive IsId IsState IsPartition)
    (list : Status → S → Result (List Doc) × S)
    (l : Listing.Lists b.backend digest derive IsId IsState IsPartition k list)
    (parse_time : Bytes → Option ℕ) (now : ℕ) (who : Actor)
    (buried : shelvable (derive (in_status shelved) (writer who 0)).status ≡ false)
    (is_state : IsState (in_status shelved))
    (sole : Call.IsSole b digest derive IsId IsState IsPartition k) where
  abbrev pub SunkBetween : S → S → Type 0
  SunkBetween s t = Sunk.Sunk derive (writer who 0) IsId parse_time buried (k.view s) (k.view t)

  abbrev pub SettledBetween : S → S → Type 0
  SettledBetween s t =
      Sunk.IsSettled derive (writer who 0) IsId parse_time buried (k.view s) (k.view t)

  abbrev pub IsTidyStore : S → Type 0
  IsTidyStore s = Sunk.IsTidy derive (writer who 0) IsId parse_time buried (k.view s)

  abbrev pub Readable : Bytes → S → Type 0
  Readable j s =
      (e : Entry) × (it : Item) × (k.view s j ≡ some e) × (parse parse_time e.content ≡ some it)

  abbrev pub dependents : Bytes → S → List Item × S
  dependents = Call.dependents b digest derive IsId IsState IsPartition k list l parse_time now who

  pub dependents-Alike :
      (id : Bytes) (s : S)
      → k.IsHealthy s
      → Listing.Alike b.backend digest derive IsId IsState IsPartition k s (dependents id s).1
  dependents-Alike =
      Call.dependents-Alike b digest derive IsId IsState IsPartition k list l parse_time now who

  pub dependents-HasItem :
      (id : Bytes) (s : S) (j : Bytes) (e : Entry) (it : Item)
      → k.IsHealthy s
      → IsId j
      → k.view s j ≡ some e
      → shelvable e.state.status ≡ true
      → parse parse_time e.content ≡ some it
      → depends_on id it ≡ true
      → HasItem it.id (dependents id s).0
  dependents-HasItem =
      Call.dependents-HasItem b digest derive IsId IsState IsPartition k list l parse_time now who

  -- What holds between a state and a later one.
  pub record SweptWell (s t : S) : Type 0 where
    pub healthy : k.IsHealthy t
    pub sunk : SunkBetween s t
    pub settled : SettledBetween s t

  -- The call ended and left the item inactive: it answered the item and more, or that the item cannot
  -- be shelved.
  abbrev pub Ends : (id : Bytes) (s : S) → Readable id s → Ran S → Type 0
  Ends id s r ran =
      (o : Outcome (List Item)) × (t : S) × (ran ≡ some (o, t))
      × SweptWell s t
      × (is_active (k.view t id) ≡ false)
      × (if shelvable r.0.state.status
          then ((more : List Item) × (o ≡ good (r.1 ∷ more)))
          else (o ≡ bad not_shelvable))

  abbrev pub EachEnds : List Item → S → Swept S → Type 0
  EachEnds deps s r =
      (out : List Item) × (t : S) × (r ≡ some (out, t))
      × SweptWell s t
      × All (λ dep. is_active (k.view t dep.id) ≡ false) deps

  -- The states that a run starts from.
  pub record Ready (ids : List Bytes) (fuel : ℕ) (s : S) : Type 0 where
    pub healthy : k.IsHealthy s
    pub tidy : IsTidyStore s
    pub covers : Sunk.Covers derive (writer who 0) IsId parse_time buried ids (k.view s)
    pub enough : active_count ids (k.view s) < fuel

  abbrev pub CallEnds : List Bytes → ℕ → (Bytes → S → Ran S) → Type 0
  CallEnds ids fuel call =
      (j : Bytes) (s : S) → IsId j → (q : Readable j s) → Ready ids fuel s → Ends j s q (call j s)

  pub Ready-later :
      (ids : List Bytes) (fuel : ℕ) (s t : S)
      → All IsId ids
      → SweptWell s t
      → Ready ids fuel s
      → Ready ids fuel t
  Ready-later ids fuel s t i w r = record {
    healthy = w.healthy;
    tidy =
        Sunk.IsTidy-Sunk derive (writer who 0) IsId parse_time buried (k.view s) (k.view t) w.sunk
          r.tidy;
    covers =
        Sunk.Covers-Sunk derive (writer who 0) IsId parse_time buried ids (k.view s) (k.view t)
          w.sunk r.covers;
    enough = omega (
      arith,
      r.enough,
      Sunk.active_count-Sunk derive (writer who 0) IsId parse_time buried ids (k.view s) (k.view t)
          i w.sunk,
    );
  }

  pub SweptWell-trans : (s t u : S) → SweptWell s t → SweptWell t u → SweptWell s u
  SweptWell-trans s t u p q = record {
    healthy = q.healthy;
    sunk =
        Sunk.Sunk-trans derive (writer who 0) IsId parse_time buried (k.view s) (k.view t)
          (k.view u) p.sunk q.sunk;
    settled =
        Sunk.IsSettled-trans derive (writer who 0) IsId parse_time buried (k.view s) (k.view t)
          (k.view u) q.sunk p.settled q.settled;
  }

  pub SweptWell-Alike :
      (s t : S)
      → Listing.Alike b.backend digest derive IsId IsState IsPartition k s t
      → SweptWell s t
  SweptWell-Alike s t a = record {
    healthy = a.0;
    sunk = Sunk.Sunk-refl derive (writer who 0) IsId parse_time buried (k.view s) (k.view t) a.1;
    settled = λ x j ix ij p q e m sh it r. absurd (cc (p, q, ap is_active (a.1 x ix)));
  }

  Readable-later : (j : Bytes) (s t : S) → IsId j → SunkBetween s t → Readable j s → Readable j t
  Readable-later j s t i h r = elim (h j i) [
    | inl q ↦ (r.0, r.1, q ∙ r.2, r.3)
    | inr (e, p, a, q) ↦ (
      record e { state = derive (in_status shelved) (writer who 0) },
      r.1,
      q,
      ap (λ o. elim o [ none ↦ none | some x ↦ parse parse_time x.content ]) (sym p ∙ r.2) ∙ r.3,
    )
  ]

  -- the loop over the dependents, if every call ends
  pub shelve_each-Ends :
      (ids : List Bytes) (fuel : ℕ) (call : Bytes → S → Ran S)
      → All IsId ids
      → CallEnds ids fuel call
      → (deps : List Item) (s : S) → All (λ dep. IsId dep.id × Readable dep.id s) deps
      → Ready ids fuel s
      → EachEnds deps s (shelve_each call deps s)
  unfolding shelve_each
  shelve_each-Ends ids fuel call i ends [] s d r =
      ([], s, refl, SweptWell-Alike s s (r.healthy, λ j q. refl), tt)
  shelve_each-Ends ids fuel call i ends (dep ∷ deps) s d r =
      let c = ends dep.id s d.0.0 d.0.1 r in
      let rest =
        shelve_each-Ends ids fuel call i ends deps c.1
          (All-keeps (λ x q. (q.0, Readable-later x.id s c.1 q.0 c.3.sunk q.1)) deps d.1)
          (Ready-later ids fuel s c.1 i c.3 r) in
      let u = rest.1 in
      let gone =
        Sunk.SunkAt-inactive derive (writer who 0) IsId parse_time buried (k.view c.1) (k.view u)
          dep.id (rest.3.sunk dep.id d.0.0) c.4 in
      let well = SweptWell-trans s c.1 u c.3 rest.3 in
      elim (Outcome-cases c.0) [
        | inl (its, e) ↦ (
          its ++ rest.0,
          u,
          shelve_each-good call dep deps s c.1 u rest.0 rest.2 its
              (c.2 ∙ ap (λ o. some (o, c.1)) e),
          well,
          (gone, rest.4),
        )
        | inr (f, e) ↦ (
          rest.0,
          u,
          shelve_each-bad call dep deps s c.1 u rest.0 rest.2 f (c.2 ∙ ap (λ o. some (o, c.1)) e),
          well,
          (gone, rest.4),
        )
      ]
