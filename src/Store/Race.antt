-- ===== src/Store/Race.antt =====
-- What a client of store.Backend may rely on, for every backend that keeps the contract: several
-- claims of one available item, one after the other in any order, and a document read back.
use macguffin.Prelude.{
  ℕ, suc, ◌≡◌, refl, sym, ◌∙◌, ap, arith, List, [], ◌∷◌, some, Bytes, same_refl, if◌then◌else◌,
}
use macguffin.Store.{
  available, claimed, State, Actor, Result, ok, err, in_status, satisfies, is_ok, lost,
}
use macguffin.Store.Spec
use macguffin.Store.Spec.{Entry, View, update}
use macguffin.Store.Backend.{Backend, Keeps, Follows, reading}

-- the claimed state whose holder the backend derives
abbrev pub any_claim : State
any_claim = record { status = claimed; holder = [] }

module _ {S : Type 0} (b : Backend S) (now : ℕ) (id : Bytes) where
  -- one Transition from available to claimed for each actor
  pub claims : List Actor → S → List (Result (Unit {0})) × S
  claims [] s = ([], s)
  claims (by ∷ more) s =
      let first = b.transition now id (in_status available) any_claim by s in
      let rest = claims more first.1 in (first.0 ∷ rest.0, rest.1)

abbrev pub wins : List (Result (Unit {0})) → ℕ
wins [] = 0
wins (r ∷ rs) = if is_ok r then suc (wins rs) else wins rs

module _ (derive : State → Actor → State) (id : Bytes) (by : Actor) (v : View) (e : Entry)
    (here : v id ≡ some e) where
  refused_claim :
      e.state.status ≡ claimed
      → Spec.transition derive id (in_status available) any_claim by v
        ≡ (err (lost id (in_status available) (some e.state)), v)
  unfolding Spec.transition satisfies
  refused_claim c = ground arith

  granted_claim :
      e.state.status ≡ available
      → Spec.transition derive id (in_status available) any_claim by v
        ≡ (ok tt, update id (record e { state = derive any_claim by }) v)
  unfolding Spec.transition satisfies
  granted_claim c = ground arith

-- What a successful create leaves to be read
created_reading :
    (derive : State → Actor → State) (id : Bytes) (st : State) (content : Bytes) (by : Actor)
    (v w : View)
    → w id ≡ (Spec.create derive id st content by v).1 id
    → (Spec.create derive id st content by v).0 ≡ ok tt
    → Spec.get id w ≡ ok (derive st by, [], content)
unfolding Spec.create Spec.get
created_reading derive id st content by v w q made = ground (arith, same_refl id)

module _ {S : Type 0} (b : Backend S) (digest : Bytes → Bytes) (derive : State → Actor → State)
    (IsId : Bytes → Type 0) (IsState : State → Type 0) (IsPartition : Bytes → Type 0)
    (k : Keeps b digest derive IsId IsState IsPartition)
    (claim_derived : (by : Actor) → (derive any_claim by).status ≡ claimed)
    (claim_state : IsState any_claim) (now : ℕ) (id : Bytes) (hid : IsId id) where
  attempt :
      (by : Actor) (s : S)
      → k.IsHealthy s
      → Follows IsId k.IsHealthy k.view
          (b.transition now id (in_status available) any_claim by s)
          (Spec.transition derive id (in_status available) any_claim by (k.view s))
  attempt by s h = k.transition_law now id (in_status available) any_claim by s hid claim_state h

  lost_claims :
      (more : List Actor) (s : S) (e : Entry)
      → k.IsHealthy s
      → k.view s id ≡ some e
      → e.state.status ≡ claimed
      → (wins (claims b now id more s).0 ≡ 0) × (k.view (claims b now id more s).1 id ≡ some e)
  unfolding claims
  lost_claims [] s e h v c = (refl, v)
  lost_claims (by ∷ more) s e h v c =
      let f = attempt by s h in
      let r = refused_claim derive id by (k.view s) e v c in
      let rest =
        lost_claims more (b.transition now id (in_status available) any_claim by s).1 e f.healthy
          (f.viewed id hid ∙ ap (λ w. w.1 id) r ∙ v) c in
      (rw (f.answer ∙ ap (λ w. w.0) r) rest.0, rest.1)

  -- However many processes claim an available item, exactly one of the claims succeeds, and the item
  -- is then held by the first of them, its content and its result untouched. The backend keeps the
  -- contract and is healthy, records a claim as claimed, and has the id and claimed states as its own.
  pub claims_exactly_one :
      (first : Actor) (more : List Actor) (s : S) (e : Entry)
      → k.IsHealthy s
      → k.view s id ≡ some e
      → e.state.status ≡ available
      → (wins (claims b now id (first ∷ more) s).0 ≡ 1)
        × (k.view (claims b now id (first ∷ more) s).1 id
            ≡ some (record e { state = derive any_claim first }))
  unfolding claims
  claims_exactly_one first more s e h v c =
      let f = attempt first s h in
      let r = granted_claim derive id first (k.view s) e v c in
      let won : Entry = record e { state = derive any_claim first } in
      let stays =
        lost_claims more (b.transition now id (in_status available) any_claim first s).1 won
          f.healthy (f.viewed id hid ∙ ap (λ w. w.1 id) r ∙ rw (same_refl id))
          (claim_derived first) in
      (rw (f.answer ∙ ap (λ w. w.0) r) (ap suc stays.0), stays.1)

  -- An item that Create stored is read back by Get: its content, in the state that the backend derived.
  -- The backend keeps the contract and is healthy, and has the id and the state as its own.
  pub create-get :
      (st : State) (content : Bytes) (by : Actor) (s : S)
      → IsState st
      → k.IsHealthy s
      → (b.create now id st content by s).0 ≡ ok tt
      → reading (b.get id (b.create now id st content by s).1).0 ≡ ok (derive st by, [], content)
  create-get st content by s hs h made =
      let f = k.create_law now id st content by s hid hs h in
      let g = k.get_law id (b.create now id st content by s).1 hid f.healthy in
      g.0
      ∙ created_reading derive id st content by (k.view s)
          (k.view (b.create now id st content by s).1) (f.viewed id hid) (sym f.answer ∙ made)
