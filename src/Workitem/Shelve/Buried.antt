-- ===== src/Workitem/Shelve/Buried.antt =====
-- The transition of shelveCascade (internal/workitem/shelve.go), and its recursion into the dependents of
-- the item that was moved.
use macguffin.Prelude.{
  ℕ, suc, ◌≡◌, ◌≢◌, refl, sym, ap, ◌∙◌, arith, subst, true, false, List, ◌∷◌, Option, some, Bytes,
  same, same_refl, same_iff, All, Bool-cases, inl, inr,
}
use macguffin.Store.{Status, shelved, State, in_status, Actor, Doc, Result}
use macguffin.Store.Spec.{Entry, update}
use macguffin.Store.Listing
use macguffin.Store.Backend.{Keeps}
use macguffin.Store.Steps.{update-other}
use macguffin.Workitem.Item.{Item}
use macguffin.Workitem.Resolve.{Access, good}
use macguffin.Workitem.Lifecycle.{writer}
use macguffin.Workitem.Shelve.{shelvable, depends_on, Ran, spread}
use macguffin.Workitem.Shelve.Sunk
use macguffin.Workitem.Shelve.Sunk.{is_active, Listed, active_count}
use macguffin.Workitem.Shelve.Call
use macguffin.Workitem.Shelve.Cascade
use macguffin.Workitem.Shelve.Parts.{All-HasItem, differs}

module _ {S : Type 0} (b : Access S) (digest : Bytes → Bytes) (derive : State → Actor → State)
    (IsId : Bytes → Type 0) (IsState : State → Type 0) (IsPartition : Bytes → Type 0)
    (k : Keeps b.backend digest derive IsId IsState IsPartition)
    (list : Status → S → Result (List Doc) × S)
    (l : Listing.Lists b.backend digest derive IsId IsState IsPartition k list)
    (parse_time : Bytes → Option ℕ) (now : ℕ) (who : Actor)
    (buried : shelvable (derive (in_status shelved) (writer who 0)).status ≡ false)
    (is_state : IsState (in_status shelved))
    (sole : Call.IsSole b digest derive IsId IsState IsPartition k) where
  abbrev SettledBetween : S → S → Type 0
  SettledBetween =
      Cascade.SettledBetween b digest derive IsId IsState IsPartition k list l parse_time now who
        buried is_state sole

  abbrev SunkBetween : S → S → Type 0
  SunkBetween =
      Cascade.SunkBetween b digest derive IsId IsState IsPartition k list l parse_time now who
        buried is_state sole

  abbrev IsTidyStore : S → Type 0
  IsTidyStore =
      Cascade.IsTidyStore b digest derive IsId IsState IsPartition k list l parse_time now who
        buried is_state sole

  abbrev Readable : Bytes → S → Type 0
  Readable =
      Cascade.Readable b digest derive IsId IsState IsPartition k list l parse_time now who buried
        is_state sole

  abbrev dependents : Bytes → S → List Item × S
  dependents =
      Cascade.dependents b digest derive IsId IsState IsPartition k list l parse_time now who buried
        is_state sole

  abbrev SweptWell : S → S → Type 0
  SweptWell =
      Cascade.SweptWell b digest derive IsId IsState IsPartition k list l parse_time now who buried
        is_state sole

  abbrev Ends : (id : Bytes) (s : S) → Readable id s → Ran S → Type 0
  Ends =
      Cascade.Ends b digest derive IsId IsState IsPartition k list l parse_time now who buried
        is_state sole

  abbrev Ready : List Bytes → ℕ → S → Type 0
  Ready =
      Cascade.Ready b digest derive IsId IsState IsPartition k list l parse_time now who buried
        is_state sole

  abbrev CallEnds : List Bytes → ℕ → (Bytes → S → Ran S) → Type 0
  CallEnds =
      Cascade.CallEnds b digest derive IsId IsState IsPartition k list l parse_time now who buried
        is_state sole

  -- What the transition makes of the store.
  pub record Buried (id : Bytes) (e : Entry) (s t : S) : Type 0 where
    pub healthy : k.IsHealthy t
    pub viewed :
        (j : Bytes)
        → IsId j
        → k.view t j
          ≡ update id (record e { state = derive (in_status shelved) (writer who 0) }) (k.view s) j

  module _ (id : Bytes) (e : Entry) (s t : S) (i : IsId id) (here : k.view s id ≡ some e)
      (active : shelvable e.state.status ≡ true) (u : Buried id e s t) where
    Buried-other : (j : Bytes) → IsId j → id ≢ j → k.view t j ≡ k.view s j
    Buried-other j q n =
        u.viewed j q
        ∙ update-other id (record e { state = derive (in_status shelved) (writer who 0) })
            (k.view s) j n

    Buried-here :
        k.view t id ≡ some (record e { state = derive (in_status shelved) (writer who 0) })
    Buried-here = u.viewed id i ∙ rw (same_refl id) refl

    Buried-inactive : is_active (k.view t id) ≡ false
    Buried-inactive = ap is_active Buried-here ∙ buried

    Buried-only :
        (x : Bytes)
        → IsId x
        → is_active (k.view s x) ≡ true
        → is_active (k.view t x) ≡ false
        → id ≡ x
    Buried-only x q p z = elim (Bool-cases (same id x)) [
      | inl y ↦ (same_iff id x).0 y
      | inr y ↦ absurd (cc (p, z, ap is_active (Buried-other x q (differs id x y))))
    ]

    Buried-Sunk : SunkBetween s t
    Buried-Sunk j q = elim (Bool-cases (same id j)) [
      | inl y ↦
          subst (Sunk.SunkAt derive (writer who 0) IsId parse_time buried (k.view s) (k.view t))
            ((same_iff id j).0 y) (inr (e, here, active, Buried-here))
      | inr y ↦ inl (Buried-other j q (differs id j y))
    ]

    Buried-Ready :
        (ids : List Bytes) (fuel : ℕ) → All IsId ids → Ready ids (suc fuel) s → Ready ids fuel t
    Buried-Ready ids fuel is r = record {
      healthy = u.healthy;
      tidy =
          Sunk.IsTidy-Sunk derive (writer who 0) IsId parse_time buried (k.view s) (k.view t)
            Buried-Sunk r.tidy;
      covers =
          Sunk.Covers-Sunk derive (writer who 0) IsId parse_time buried ids (k.view s) (k.view t)
            Buried-Sunk r.covers;
      enough = omega (
        arith,
        r.enough,
        Sunk.active_count-less derive (writer who 0) IsId parse_time buried ids (k.view s)
            (k.view t) id is Buried-Sunk (r.covers id i (ap is_active here ∙ active))
            (ap is_active here ∙ active) Buried-inactive,
      );
    }

    spread-settles :
        (z : S)
        → IsTidyStore t
        → SweptWell (dependents id t).1 z
        → All (λ dep. is_active (k.view z dep.id) ≡ false) (dependents id t).0
        → SettledBetween s z
    spread-settles z tidy w gone x j ix ij p q en m sh it r =
        let a =
          Cascade.dependents-Alike b digest derive IsId IsState IsPartition k list l parse_time now
            who buried is_state sole id t u.healthy in
        elim (Bool-cases (is_active (k.view (dependents id t).1 x))) [
          | inl y ↦ w.settled x j ix ij y q en m sh it r
          | inr y ↦ elim (Bool-cases (depends_on x it)) [
            | inr n ↦ n
            | inl n ↦
                let at_id = Buried-only x ix p (ap is_active (sym (a.1 x ix)) ∙ y) in
                let jt =
                  sym (a.1 j ij)
                  ∙ sym (
                      Sunk.SunkAt-active derive (writer who 0) IsId parse_time buried
                        (k.view (dependents id t).1) (k.view z) j (w.sunk j ij)
                        (ap is_active m ∙ sh))
                  ∙ m in
                let has =
                  Cascade.dependents-HasItem b digest derive IsId IsState IsPartition k list l
                    parse_time now who buried is_state sole id t j en it u.healthy ij jt sh r
                    (ap (λ y. depends_on y it) at_id ∙ n) in
                let none_left =
                  All-HasItem (λ y. is_active (k.view z y) ≡ false) it.id (dependents id t).0 has
                    gone in
                let it_is = (tidy j ij en jt).2 it r in
                absurd (cc (none_left, ap (λ y. is_active (k.view z y)) it_is, ap is_active m, sh))
          ]
        ]

    dependents-Readable :
        IsTidyStore t
        → All (λ dep. IsId dep.id × Readable dep.id (dependents id t).1) (dependents id t).0
    dependents-Readable tidy =
        let a =
          Cascade.dependents-Alike b digest derive IsId IsState IsPartition k list l parse_time now
            who buried is_state sole id t u.healthy in
        Call.dependents-All b digest derive IsId IsState IsPartition k list l parse_time now who
          (λ dep. IsId dep.id × Readable dep.id (dependents id t).1) id t u.healthy
          (λ j en it ij v p.
            let it_is = (tidy j ij en v).2 it p in
            (
              subst IsId (sym it_is) ij,
              (en, it, ap (k.view (dependents id t).1) it_is ∙ a.1 j ij ∙ v, p),
            ))

    pub spread-Ends :
        (ids : List Bytes) (fuel : ℕ) (call : Bytes → S → Ran S) (it : Item)
        → All IsId ids
        → CallEnds ids fuel call
        → Ready ids (suc fuel) s
        → (more : List Item) × (z : S) × (spread b list parse_time now who call id it t
            ≡ some (good (it ∷ more), z))
          × SweptWell s z
          × (is_active (k.view z id) ≡ false)
    unfolding spread
    spread-Ends ids fuel call it is ends r =
        let rt = Buried-Ready ids fuel is r in
        let a =
          Cascade.dependents-Alike b digest derive IsId IsState IsPartition k list l parse_time now
            who buried is_state sole id t u.healthy in
        let w =
          Cascade.SweptWell-Alike b digest derive IsId IsState IsPartition k list l parse_time now
            who buried is_state sole t (dependents id t).1 a in
        let c =
          Cascade.shelve_each-Ends b digest derive IsId IsState IsPartition k list l parse_time now
            who buried is_state sole ids fuel call is ends (dependents id t).0 (dependents id t).1
            (dependents-Readable rt.tidy)
            (Cascade.Ready-later b digest derive IsId IsState IsPartition k list l parse_time now
              who buried is_state sole ids fuel t (dependents id t).1 is w rt) in
        (
          c.0,
          c.1,
          rw c.2 refl,
          record {
            healthy = c.3.healthy;
            sunk =
                Sunk.Sunk-trans derive (writer who 0) IsId parse_time buried (k.view s) (k.view t)
                  (k.view c.1) Buried-Sunk
                  (Cascade.SweptWell-trans b digest derive IsId IsState IsPartition k list l
                    parse_time now who buried is_state sole t (dependents id t).1 c.1 w c.3).sunk;
            settled = spread-settles c.1 rt.tidy c.3 c.4;
          },
          Sunk.SunkAt-inactive derive (writer who 0) IsId parse_time buried (k.view t) (k.view c.1)
              id
              ((Cascade.SweptWell-trans b digest derive IsId IsState IsPartition k list l parse_time
                  now who buried is_state sole t (dependents id t).1 c.1 w c.3).sunk
                id i)
              Buried-inactive,
        )
