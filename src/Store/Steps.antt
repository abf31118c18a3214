-- ===== src/Store/Steps.antt =====
-- What single steps of the contract of store.Backend (store/store.go) do to what the store knows of an id.
use macguffin.Prelude.{
  ◌≡◌, ◌≢◌, refl, arith, true, ◌||◌, some, Bytes, same, same_refl, same_iff, is_nil, Bool-cases,
  Option-cases, inl, inr, ◌⊎◌,
}
use macguffin.Store.{State, Actor, Err, in_status, done, satisfies, ok, err, not_found, changed}
use macguffin.Store.Spec
use macguffin.Store.Spec.{View, Entry, update, is_archived}

-- A transition of the contract looks only at the id and changes only the id.
pub transition_cong :
    (derive : State → Actor → State) (id : Bytes) (expect to : State) (by : Actor) (v w : View)
    (j : Bytes)
    → v id ≡ w id
    → v j ≡ w j
    → (Spec.transition derive id expect to by v).1 j
      ≡ (Spec.transition derive id expect to by w).1 j
unfolding Spec.transition
transition_cong derive id expect to by v w j h q = ground arith

-- a transition of the contract changes no other id
pub transition-other :
    (derive : State → Actor → State) (id : Bytes) (expect to : State) (by : Actor) (v : View)
    (j : Bytes)
    → id ≢ j
    → (Spec.transition derive id expect to by v).1 j ≡ v j
unfolding Spec.transition
transition-other derive id expect to by v j h = ground (arith, same_iff id j)

pub update-other : (id : Bytes) (e : Entry) (v : View) (j : Bytes) → id ≢ j → update id e v j ≡ v j
update-other id e v j h = ground (arith, same_iff id j)

-- a transition of the contract that succeeds gives the entry the new state
pub transition-ok :
    (derive : State → Actor → State) (id : Bytes) (expect to : State) (by : Actor) (v : View)
    (e : Entry)
    → v id ≡ some e
    → (Spec.transition derive id expect to by v).0 ≡ ok tt
    → (Spec.transition derive id expect to by v).1 id ≡ some (record e { state = derive to by })
unfolding Spec.transition
transition-ok derive id expect to by v e h =
    elim (Bool-cases (is_archived expect || is_archived to)) [
      | inl a ↦ rw a (λ q. cc)
      | inr a ↦ rw (a, h) (ground (arith, same_refl id))
    ]

-- What an Edit of the contract does
abbrev pub Edited : (Bytes → Bytes) → Bytes → Bytes → Bytes → View → Entry → Type 0
Edited digest id h content v e =
    (v id ≡ some e)
    × ((is_nil h || same (digest e.content) h) ≡ true)
    × (Spec.edit digest id h content v ≡ (ok tt, update id (record e { content = content }) v))

pub edit-cases :
    (digest : Bytes → Bytes) (id h content : Bytes) (v : View)
    → ((e : Entry) × Edited digest id h content v e)
      ⊎ ((x : Err) × (Spec.edit digest id h content v ≡ (err x, v)))
unfolding Spec.edit
edit-cases digest id h content v = elim (Option-cases (v id)) [
  | inl n ↦ inr (not_found id, rw (n, Spec.edit) refl)
  | inr (e, q) ↦ elim (Bool-cases (is_nil h || same (digest e.content) h)) [
    | inl y ↦ inl (e, (q, y, (rw (q, y, Spec.edit) refl)))
    | inr y ↦ inr (changed id h (digest e.content), (rw (q, y, Spec.edit) refl))
  ]
]

pub edit-ok :
    (digest : Bytes → Bytes) (id h content : Bytes) (v : View) (e : Entry)
    → v id ≡ some e
    → (is_nil h || same (digest e.content) h) ≡ true
    → Spec.edit digest id h content v ≡ (ok tt, update id (record e { content = content }) v)
unfolding Spec.edit
edit-ok digest id h content v e p q = ground (arith, p, q)

pub edit-other :
    (digest : Bytes → Bytes) (id h content : Bytes) (v : View) (j : Bytes)
    → id ≢ j
    → (Spec.edit digest id h content v).1 j ≡ v j
unfolding Spec.edit
edit-other digest id h content v j n = ground (arith, same_iff id j)

-- a transition of the contract that fails changes nothing
pub transition-err :
    (derive : State → Actor → State) (id : Bytes) (expect to : State) (by : Actor) (v : View)
    (e : Err)
    → (Spec.transition derive id expect to by v).0 ≡ err e
    → (Spec.transition derive id expect to by v).1 ≡ v
unfolding Spec.transition
transition-err derive id expect to by v e h =
    elim (Bool-cases (is_archived expect || is_archived to)) [
      | inl y ↦ rw y refl
      | inr y ↦ elim (Option-cases (v id)) [
        | inl n ↦ rw (y, n) refl
        | inr (x, n) ↦ elim (Bool-cases (satisfies x.state expect)) [
          | inr z ↦ rw (y, n) (rw z refl)
          | inl z ↦
              let q : (Spec.transition derive id expect to by v).0 ≡ ok tt =
                rw (y, n, Spec.transition) (rw z refl) in
              absurd (cc (q, h))
        ]
      ]
    ]

-- an Archive of the contract that fails changes nothing
pub archive-err :
    (id partition : Bytes) (v : View) (e : Err)
    → (Spec.archive id partition v).0 ≡ err e
    → (Spec.archive id partition v).1 ≡ v
unfolding Spec.archive
archive-err id partition v e h = elim (Option-cases (v id)) [
  | inl n ↦ rw (n, Spec.archive) refl
  | inr (x, n) ↦ elim (Bool-cases (satisfies x.state (in_status done))) [
    | inr z ↦ rw (n, Spec.archive) (rw z refl)
    | inl z ↦
        let q : (Spec.archive id partition v).0 ≡ ok tt = rw (n, Spec.archive) (rw z refl) in
        absurd (cc (q, h))
  ]
]
