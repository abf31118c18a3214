-- ===== src/Memstore/Listing.antt =====
-- List of the in-memory backend (internal/memstore/memstore.go) gives what the store knows. The map of
-- a store has each id once; `IsFit` says so, and every operation keeps it.
use macguffin.Prelude.{
  ℕ, ◌||◌, is_nil, ◌≡◌, refl, sym, ap, ◌∙◌, arith, List, [], ◌∷◌, none, some, Bytes, same, same_iff,
  same_refl, All-keeps, subst, lookup, insert, lookup-insert, All, Bool-cases, Option-cases, inl,
  inr, if◌then◌else◌,
}
use macguffin.Store.{
  Status, done, archived, State, in_status, satisfies, Actor, Doc, Result, same_status,
  same_status_iff,
}
use macguffin.Store.Spec
use macguffin.Store.Spec.{Entry}
use macguffin.Store.Listing.{HasContent, Lists}
use macguffin.Store.Backend.{Follows, Keeps}
use macguffin.Memstore.{
  Mem, Record, count_call, holder_for, create, get, transition, edit, archive, backend, list,
  docs_in, doc,
}
use macguffin.Memstore.Lookup.{view, IsHealthy, entry_of}
use macguffin.Memstore.Refines.{AnyId, keeps}

-- each id once
abbrev pub IsUnique : List (Bytes × Record) → Type 0
IsUnique [] = Unit
IsUnique ((id, r) ∷ rest) = (lookup id rest ≡ none) × IsUnique rest

IsUnique-insert :
    (id : Bytes) (r : Record) (rs : List (Bytes × Record)) → IsUnique rs → IsUnique (insert id r rs)
unfolding lookup insert
IsUnique-insert id r [] u = (refl, tt)
IsUnique-insert id r ((j, q) ∷ rs) u = elim (Bool-cases (same j id)) [
  | inl e ↦ rw e (ap (λ x. lookup x rs) (sym ((same_iff j id).0 e)) ∙ u.0, u.1)
  | inr e ↦ rw e (
    ground (arith, lookup-insert id j r rs, same_iff id j, same_iff j id, u.0, e),
    IsUnique-insert id r rs u.1,
  )
]

abbrev pub IsFit : Mem → Type 0
IsFit m = IsHealthy m × IsUnique m.items

module _ (m : Mem) (u : IsUnique m.items) where
  pub IsUnique-create :
      (now : ℕ) (id : Bytes) (st : State) (content : Bytes) (by : Actor)
      → IsUnique (create now id st content by m).1.items
  unfolding create count_call
  IsUnique-create now id st content by = elim (Bool-cases (same_status st.status archived)) [
    | inl e ↦ rw e u
    | inr e ↦ elim (Option-cases (lookup id m.items)) [
      | inl n ↦
          rw (e, n)
            (IsUnique-insert id
              (record { state = holder_for st by; partition = []; content = content; mtime = now })
              m.items u)
      | inr (r, n) ↦ rw (e, n) u
    ]
  ]

  pub IsUnique-transition :
      (now : ℕ) (id : Bytes) (expect to : State) (by : Actor)
      → IsUnique (transition now id expect to by m).1.items
  unfolding transition count_call
  IsUnique-transition now id expect to by =
      elim (Bool-cases (same_status expect.status archived || same_status to.status archived)) [
        | inl e ↦ rw e u
        | inr e ↦ elim (Option-cases (lookup id m.items)) [
          | inl n ↦ rw (e, n) u
          | inr (r, n) ↦ elim (Bool-cases (satisfies r.state expect)) [
            | inl y ↦
                rw (e, n, y)
                  (IsUnique-insert id (record r { state = holder_for to by; mtime = now }) m.items
                    u)
            | inr y ↦ rw (e, n, y) u
          ]
        ]
      ]

  pub IsUnique-archive :
      (id partition : Bytes) (by : Actor) → IsUnique (archive id partition by m).1.items
  unfolding archive count_call
  IsUnique-archive id partition by = elim (Option-cases (lookup id m.items)) [
    | inl n ↦ rw (n, IsUnique) u
    | inr (r, n) ↦ elim (Bool-cases (satisfies r.state (in_status done))) [
      | inl y ↦
          rw (n, y, IsUnique)
            (IsUnique-insert id (record r { state = in_status archived; partition = partition })
              m.items u)
      | inr y ↦ rw (n, y, IsUnique) u
    ]
  ]

  pub IsUnique-edit :
      (digest : Bytes → Bytes) (now : ℕ) (id h content : Bytes) (by : Actor)
      → IsUnique (edit digest now id h content by m).1.items
  unfolding edit count_call
  IsUnique-edit digest now id h content by = elim (Option-cases (lookup id m.items)) [
    | inl n ↦ rw (n, IsUnique) u
    | inr (r, n) ↦ elim (Bool-cases (is_nil h || same (digest r.content) h)) [
      | inl y ↦
          rw (n, y, IsUnique)
            (IsUnique-insert id (record r { content = content; mtime = now }) m.items u)
      | inr y ↦ rw (n, y, IsUnique) u
    ]
  ]

  pub IsUnique-get : (digest : Bytes → Bytes) (id : Bytes) → IsUnique (get digest id m).1.items
  unfolding get count_call
  IsUnique-get digest id = elim (Option-cases (lookup id m.items)) [
    | inl n ↦ rw (n, IsUnique) u
    | inr (r, n) ↦ rw (n, IsUnique) u
  ]

-- The contract, kept on the stores whose map has each id once.
abbrev pub keeps_fit :
    (digest : Bytes → Bytes)
    → Keeps (backend digest) digest holder_for AnyId (λ _. Unit) (λ _. Unit)
keeps_fit digest =
    let k = keeps digest in
    record {
      IsHealthy = IsFit;
      view = view;
      create_law = λ now id st content by s i p h.
          fit (k.create_law now id st content by s i p h.0)
            (IsUnique-create s h.1 now id st content by);
      get_law = λ id s i h.
          let g = k.get_law id s i h.0 in (g.0, (g.1, IsUnique-get s h.1 digest id), g.2);
      transition_law = λ now id expect to by s i p h.
          fit (k.transition_law now id expect to by s i p h.0)
            (IsUnique-transition s h.1 now id expect to by);
      edit_law = λ now id hash content by s i h.
          fit (k.edit_law now id hash content by s i h.0)
            (IsUnique-edit s h.1 digest now id hash content by);
      archive_law = λ id partition by s i p h.
          fit (k.archive_law id partition by s i p h.0) (IsUnique-archive s h.1 id partition by);
    }
  where
    fit :
        {got : Result (Unit {0}) × Mem} {want : Spec.Step}
        → Follows AnyId IsHealthy view got want
        → IsUnique got.1.items
        → Follows AnyId IsFit view got want
    fit f v = record { answer = f.answer; healthy = (f.healthy, v); viewed = f.viewed }

module _ (digest : Bytes → Bytes) (st : Status) where
  docs_in-HasContent :
      (rs : List (Bytes × Record)) (j : Bytes) (r : Record)
      → lookup j rs ≡ some r
      → r.state.status ≡ st
      → HasContent r.content (docs_in digest st rs)
  unfolding docs_in lookup doc
  docs_in-HasContent [] j r h s = absurd (cc)
  docs_in-HasContent ((i, q) ∷ rs) j r h s = elim (Bool-cases (same i j)) [
    | inl e ↦
        let qr : q ≡ r =
          ap (λ o. elim o [ none ↦ q | some x ↦ x ])
            (subst (λ x. (if x then some q else lookup j rs) ≡ some r) e h) in
        rw ((same_status_iff q.state.status st).1 (ap (λ x. x.state.status) qr ∙ s))
          (inl (ap (λ x. x.content) qr))
    | inr e ↦
        let later =
          docs_in-HasContent rs j r (subst (λ x. (if x then some q else lookup j rs) ≡ some r) e h)
            s in
        elim (Bool-cases (same_status q.state.status st)) [
          | inl y ↦ rw y (inr later)
          | inr y ↦ rw y later
        ]
  ]

  -- a document of the listing is that of a record
  abbrev IsRecord : List (Bytes × Record) → Doc → Type 0
  IsRecord rs d = (r : Record) × (lookup d.id rs ≡ some r) × (r.content ≡ d.content)

  IsRecord-more :
      (i : Bytes) (q : Record) (rs : List (Bytes × Record))
      → lookup i rs ≡ none
      → (d : Doc) → IsRecord rs d
      → IsRecord ((i, q) ∷ rs) d
  unfolding lookup
  IsRecord-more i q rs n d (r, h, c) = elim (Bool-cases (same i d.id)) [
    | inl e ↦ absurd (cc (n, h, ap (λ x. lookup x rs) ((same_iff i d.id).0 e)))
    | inr e ↦ (r, rw e h, c)
  ]

  docs_in-All :
      (rs : List (Bytes × Record)) → IsUnique rs → All (IsRecord rs) (docs_in digest st rs)
  unfolding docs_in lookup doc
  docs_in-All [] u = tt
  docs_in-All ((i, q) ∷ rs) u =
      let later =
        All-keeps (IsRecord-more i q rs u.0) (docs_in digest st rs) (docs_in-All rs u.1) in
      elim (Bool-cases (same_status q.state.status st)) [
        | inl e ↦ rw e ((q, rw (same_refl i) refl, refl), later)
        | inr e ↦ rw e later
      ]

shown :
    (m : Mem) (j : Bytes) (r : Record)
    → lookup j m.items ≡ some r
    → view m j ≡ some (entry_of (lookup j m.results) r)
unfolding view
shown m j r h = rw h refl

viewed :
    (m : Mem) (j : Bytes) (e : Entry)
    → view m j ≡ some e
    → (r : Record) × (lookup j m.items ≡ some r) × (entry_of (lookup j m.results) r ≡ e)
unfolding view
viewed m j e h = elim (Option-cases (lookup j m.items)) [
  | inl n ↦ absurd (cc (n, h))
  | inr (r, n) ↦ (r, n, ap (λ o. elim o [ none ↦ e | some x ↦ x ]) (sym (shown m j r n) ∙ h))
]

-- List of the in-memory backend keeps its contract.
pub lists :
    (digest : Bytes → Bytes)
    → Lists
        (backend digest)
        digest
        holder_for
        AnyId
        (λ _. Unit)
        (λ _. Unit)
        (keeps_fit digest)
        (list digest)
unfolding list count_call view
lists digest = record {
  alike = λ st s h. ((record { owned = h.0.owned }, h.1), λ j i. refl);
  docs = λ st s. docs_in digest st s.items;
  answer = λ st s h. refl;
  own = λ st s h.
      All-keeps (λ d q. (tt, (entry_of (lookup d.id s.results) q.0, shown s d.id q.0 q.1, q.2)))
        (docs_in digest st s.items) (docs_in-All digest st s.items h.1);
  complete = λ st s j e h i v a.
      let q = viewed s j e v in
      subst (λ c. HasContent c (docs_in digest st s.items)) (ap (λ x. x.content) q.2)
        (docs_in-HasContent digest st s.items j q.0 q.1 (ap (λ x. x.state.status) q.2 ∙ a));
}
