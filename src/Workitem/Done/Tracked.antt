-- ===== src/Workitem/Done/Tracked.antt =====
-- internal/workitem/remainder.go: an item that declares a remainder passes the guard only if an item
-- that it names as its successor is in the store.
use macguffin.Workitem.Done.Asked
use macguffin.Prelude.{
  ◌≡◌, refl, sym, ap, ◌∙◌, true, false, List, [], ◌∷◌, none, some, Bytes, codes, is_nil, is_some,
  Bool-cases, Option-cases, inl, inr, ◌⊎◌,
}
use macguffin.Store.{State, Actor, Doc, Err, Result, ok, err, not_found}
use macguffin.Store.Spec
use macguffin.Store.Spec.{View, Reading}
use macguffin.Store.Backend.{Keeps, reading}
use macguffin.Workitem.Item.{Item}
use macguffin.Workitem.Resolve.{
  Access, Match, Outcome, conflict, good, bad, Failure, resolve, matches_of, match_of_get,
  is_not_found,
}
use macguffin.Workitem.Identity.{Outcome-cases}
use macguffin.Workitem.Moves.{IsReader}
use macguffin.Workitem.Guards.{
  some_resolves, require_tracked, require_remainder_discharged, successor_ids, declares_remainder,
}

-- one of the texts is an id that has an entry
abbrev pub SomeKnown : (Bytes → Type 0) → List Bytes → View → Type 0
SomeKnown IsId [] v = ⊥
SomeKnown IsId (j ∷ js) v = (IsId j × (is_some (v j) ≡ true)) ⊎ SomeKnown IsId js v

-- The item declares no remainder, or an item that it names as its successor is known.
abbrev pub IsTracked : (Bytes → Type 0) → Item → View → Type 0
IsTracked IsId it v = (declares_remainder it ≡ false) ⊎ SomeKnown IsId (successor_ids it) v

SomeKnown-same :
    (IsId : Bytes → Type 0) (js : List Bytes) (v w : View)
    → ((j : Bytes) → IsId j → v j ≡ w j)
    → SomeKnown IsId js w
    → SomeKnown IsId js v
SomeKnown-same IsId [] v w h k = k
SomeKnown-same IsId (j ∷ js) v w h (inl (i, e)) = inl (i, ap is_some (h j i) ∙ e)
SomeKnown-same IsId (j ∷ js) v w h (inr k) = inr (SomeKnown-same IsId js v w h k)

unknown : (id : Bytes) (v : View) → v id ≡ none → Spec.get id v ≡ err (not_found id)
unfolding Spec.get
unknown id v h = rw (h, Spec.get) refl

-- Get answers that there is no such item, where the store knows none
missing :
    (id : Bytes) (r : Result Doc) → reading r ≡ err (not_found id) → match_of_get id r ≡ good []
unfolding match_of_get is_not_found
missing id (ok d) h = absurd (cc)
missing id (err e) h = rw (err_of e id h, is_not_found) refl
  where
    err_of :
        (x : Err) (j : Bytes)
        → ◌≡◌ {A = Result Reading} (err x) (err (not_found j))
        → x ≡ not_found j
    err_of x j q = ap (λ r. elim r [ ok d ↦ x | err y ↦ y ]) q

good-is_nil :
    (o : Outcome (List Match)) (ms : List Match) → o ≡ good [] → o ≡ good ms → is_nil ms ≡ true
good-is_nil o ms p q = ap (λ r. elim r [ bad f ↦ true | good xs ↦ is_nil xs ]) (sym q ∙ p)

module _ {S : Type 0} (b : Access S) (digest : Bytes → Bytes) (derive : State → Actor → State)
    (IsId : Bytes → Type 0) (IsState : State → Type 0) (IsPartition : Bytes → Type 0)
    (k : Keeps b.backend digest derive IsId IsState IsPartition)
    (reads : IsReader b digest derive IsId IsState IsPartition k)
    (vacant : (j : Bytes) → Asked.IsAsked b digest derive IsId IsState IsPartition k j)
    (absent : (g : Bytes → S → Result (List Doc) × S)
      → b.get_all ≡ some g
      → (id : Bytes) (s : S) → IsId id
      → k.IsHealthy s
      → k.view s id ≡ none
      → (ds : List Doc) → (g id s).0 ≡ ok ds
      → ds ≡ []) where
  -- GetAll finds no record
  absent-is_nil :
      (id : Bytes) (r : Result (List Doc)) (ms : List Match)
      → ((ds : List Doc) → r ≡ ok ds → ds ≡ [])
      → matches_of id r ≡ good ms
      → is_nil ms ≡ true
  unfolding matches_of
  absent-is_nil id (err e) ms h q = absurd (cc)
  absent-is_nil id (ok []) ms h q = good-is_nil (good []) ms refl q
  absent-is_nil id (ok (d ∷ ds)) ms h q = absurd (cc (h (d ∷ ds) refl))

  resolve-known :
      (id : Bytes) (s : S) (ms : List Match)
      → IsId id
      → k.IsHealthy s
      → (resolve b id s).0 ≡ good ms
      → is_nil ms ≡ false
      → is_some (k.view s id) ≡ true
  unfolding resolve Spec.get
  resolve-known id s ms i h r n = elim (Option-cases (k.view s id)) [
    | inr (e, v) ↦ ap is_some v
    | inl v ↦ elim (Bool-cases (is_nil id)) [
      | inl y ↦
          let z : (resolve b id s).0 ≡ good [] = rw y refl in
          absurd (cc (good-is_nil (resolve b id s).0 ms z r, n))
      | inr y ↦ elim (Option-cases b.get_all) [
        | inl m ↦
            let g : reading (b.backend.get id s).0 ≡ err (not_found id) =
              (k.get_law id s i h).0 ∙ unknown id (k.view s) v in
            let z : (resolve b id s).0 ≡ good [] =
              rw (y, m) (missing id (b.backend.get id s).0 g) in
            absurd (cc (good-is_nil (resolve b id s).0 ms z r, n))
        | inr (g, m) ↦
            let z : (resolve b id s).0 ≡ matches_of id (g id s).0 = rw (y, m) refl in
            absurd (cc (absent-is_nil id (g id s).0 ms (absent g m id s i h v) (sym z ∙ r), n))
      ]
    ]
  ]

  some_resolves-SomeKnown :
      (dangling : Failure) (js : List Bytes) (s : S)
      → k.IsHealthy s
      → (some_resolves b dangling js s).0 ≡ good tt
      → SomeKnown IsId js (k.view s)
  unfolding some_resolves
  some_resolves-SomeKnown dangling [] s h e = absurd (cc)
  some_resolves-SomeKnown dangling (j ∷ js) s h e =
      let r = resolve b j s in
      let a = Asked.resolve-Agrees b digest derive IsId IsState IsPartition k reads vacant j s h in
      elim (Outcome-cases r.0) [
        | inr (f, q) ↦
            let v : (some_resolves b dangling (j ∷ js) s).0 ≡ bad f = rw (q, some_resolves) refl in
            absurd (cc (v, e))
        | inl (ms, q) ↦ elim (Bool-cases (is_nil ms)) [
          | inr n ↦ elim (vacant j) [
            | inl i ↦ inl (i, resolve-known j s ms i h q n)
            | inr z ↦ absurd (cc ((z s h).1 ms q, n))
          ]
          | inl n ↦
              let v : (some_resolves b dangling (j ∷ js) s).0
                  ≡ (some_resolves b dangling js r.1).0 =
                rw (q, some_resolves) (rw n refl) in
              inr (
                SomeKnown-same IsId js (k.view s) (k.view r.1) (λ i y. sym (a.1 i y))
                  (some_resolves-SomeKnown dangling js r.1 a.0 (sym v ∙ e)))
        ]
      ]

  pub discharged-IsTracked :
      (it : Item) (s : S)
      → k.IsHealthy s
      → (require_remainder_discharged b it s).0 ≡ good tt
      → IsTracked IsId it (k.view s)
  unfolding require_remainder_discharged require_tracked
  discharged-IsTracked it s h e = elim (Bool-cases (declares_remainder it)) [
    | inr n ↦ inl n
    | inl y ↦ elim (Bool-cases (is_nil (successor_ids it))) [
      | inl n ↦
          let v : (require_remainder_discharged b it s).0
              ≡ bad (conflict (codes "remainder_without_successor")) =
            rw (y, n) refl in
          absurd (cc (v, e))
      | inr n ↦
          let v : (require_remainder_discharged b it s).0
              ≡ (some_resolves b (conflict (codes "remainder_dangling_successor"))
                  (successor_ids it) s).0 =
            rw (y, n) refl in
          inr (
            some_resolves-SomeKnown (conflict (codes "remainder_dangling_successor"))
              (successor_ids it) s h (sym v ∙ e))
    ]
  ]
