-- ===== src/Workitem/Shelve/Parts.antt =====
-- What the parts of shelveCascade (internal/workitem/shelve.go) compute to, branch by branch.
use macguffin.Prelude.{
  ℕ, suc, ◌≡◌, ◌≢◌, refl, ap, arith, subst, true, false, List, [], ◌∷◌, ◌++◌, Option, some, Bytes,
  same, same_refl, same_iff, All, inl, inr,
}
use macguffin.Store.{
  Status, shelved, State, in_status, satisfies, same_status, Actor, Doc, Result, ok,
  same_status_iff,
}
use macguffin.Store.Spec
use macguffin.Store.Spec.{View, Entry, update}
use macguffin.Workitem.Item.{Item, parse}
use macguffin.Workitem.Resolve.{Access, Match, good, bad, Failure, match_state, resolve_unique}
use macguffin.Workitem.Lifecycle.{writer, read_match}
use macguffin.Workitem.Shelve.{
  shelvable, Ran, not_shelvable, shelve_each, spread, sink, shelve_match, shelve_cascade,
}
use macguffin.Workitem.Shelve.Found.{HasItem, shelvable-cases}

pub All-HasItem :
    (P : Bytes → Type 0) (j : Bytes) (its : List Item)
    → HasItem j its
    → All (λ it. P it.id) its
    → P j
All-HasItem P j [] h a = absurd h
All-HasItem P j (it ∷ its) (inl e) a = subst P e a.0
All-HasItem P j (it ∷ its) (inr h) a = All-HasItem P j its h a.1

pub satisfies_refl : (st : State) → satisfies st st ≡ true
unfolding satisfies
satisfies_refl st = ground (arith, same_status_iff st.status st.status, same_refl st.holder)

pub differs : (x y : Bytes) → same x y ≡ false → x ≢ y
differs x y h q = absurd (cc (h, (same_iff x y).1 q))

-- a transition of the contract to shelved, of an entry in the state that is expected
pub transition-shelves :
    (derive : State → Actor → State) (id : Bytes) (by : Actor) (v : View) (e : Entry)
    → v id ≡ some e
    → shelvable e.state.status ≡ true
    → Spec.transition derive id e.state (in_status shelved) by v
      ≡ (ok tt, update id (record e { state = derive (in_status shelved) by }) v)
unfolding Spec.transition same_status
transition-shelves derive id by v e h a =
    let q = satisfies_refl e.state in
    elim (shelvable-cases e.state.status a) [
      | inl c ↦ rw (h, q, c) refl
      | inr (inl c) ↦ rw (h, q, c) refl
      | inr (inr c) ↦ rw (h, q, c) refl
    ]

module _ {S : Type 0} (call : Bytes → S → Ran S) (dep : Item) (deps : List Item) (s t u : S)
    (out : List Item) (later : shelve_each call deps t ≡ some (out, u)) where
  pub shelve_each-good :
      (its : List Item)
      → call dep.id s ≡ some (good its, t)
      → shelve_each call (dep ∷ deps) s ≡ some (its ++ out, u)
  unfolding shelve_each
  shelve_each-good its h = rw (h, shelve_each) (rw later refl)

  pub shelve_each-bad :
      (f : Failure)
      → call dep.id s ≡ some (bad f, t)
      → shelve_each call (dep ∷ deps) s ≡ some (out, u)
  unfolding shelve_each
  shelve_each-bad f h = rw (h, shelve_each) (rw later refl)

pub status_of_match : (m : Match) (st : State) → match_state m ≡ st → m.status ≡ st.status
unfolding match_state
status_of_match m st h = ap (λ x. x.status) h

module _ {S : Type 0} (b : Access S) (list : Status → S → Result (List Doc) × S)
    (parse_time : Bytes → Option ℕ) (now : ℕ) (who : Actor) where
  pub sink-ok :
      (call : Bytes → S → Ran S) (id : Bytes) (m : Match) (it : Item) (s : S)
      → (b.backend.transition now m.id (match_state m) (in_status shelved) (writer who 0) s).0
        ≡ ok tt
      → sink b list parse_time now who call id m it s
        ≡ spread b list parse_time now who call id it
            (b.backend.transition now m.id (match_state m) (in_status shelved) (writer who 0) s).1
  unfolding sink
  sink-ok call id m it s h = rw (h, sink) refl

  module _ (call : Bytes → S → Ran S) (id : Bytes) (m : Match) (s : S) where
    pub shelve_match-refuses :
        shelvable m.status ≡ false
        → shelve_match b list parse_time now who call id m s ≡ some (bad not_shelvable, s)
    unfolding shelve_match
    shelve_match-refuses h = rw (h, shelve_match) refl

    pub shelve_match-sinks :
        (it : Item)
        → shelvable m.status ≡ true
        → parse parse_time m.doc.content ≡ some it
        → shelve_match b list parse_time now who call id m s
          ≡ sink b list parse_time now who call id m it s
    unfolding shelve_match read_match
    shelve_match-sinks it h p = rw (h, shelve_match) (rw (p, read_match) refl)

  pub shelve_cascade-step :
      (fuel : ℕ) (id : Bytes) (m : Match) (s : S)
      → (resolve_unique b id s).0 ≡ good m
      → shelve_cascade b list parse_time now who (suc fuel) id s
        ≡ shelve_match b list parse_time now who
            (shelve_cascade b list parse_time now who fuel)
            id
            m
            (resolve_unique b id s).1
  unfolding shelve_cascade
  shelve_cascade-step fuel id m s h = rw (h, shelve_cascade) refl
