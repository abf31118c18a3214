-- ===== src/Workitem/Atomic.antt =====
-- internal/workitem/backend.go, modifyItem: a modification writes at one moment, on what it read, or not at
-- all, whatever other processes do in between.
use macguffin.Prelude.{
  ℕ, zero, suc, ◌+◌, ◌≡◌, refl, sym, ap, ◌∙◌, arith, subst, true, ◌||◌, Option, none, some, Bytes,
  same, is_nil, if◌then◌else◌, Bool-cases, inl, inr, ◌⊎◌,
}
use macguffin.Store.{Status, State, Actor, Result, Err, ok, err}
use macguffin.Store.Steps.{edit-cases}
use macguffin.Store.Spec.{View, Entry, update}
use macguffin.Store.Backend.{Keeps}
use macguffin.Workitem.Item.{Item, render}
use macguffin.Workitem.Resolve.{Access, Match, Outcome, good, bad, qualifier}
use macguffin.Workitem.Identity.{Outcome-cases, Names, rematch-Names}
use macguffin.Workitem.Lifecycle.{is_lost, io_error, writer, read_match}
use macguffin.Workitem.Moves.{Agrees, IsReader, resolve-Agrees, resolve_unique-Agrees}
use macguffin.Workitem.Modify.{
  Applied, refused_by, left_alone, rewritten, raced, is_changed, Attempt, finished, again,
  rewrite_match, rematch, write_back, attempt, modify_from, modify_item, max_edit_retries,
}

module _ {S : Type 0} (b : Access S) (digest : Bytes → Bytes) (derive : State → Actor → State)
    (IsId : Bytes → Type 0) (IsState : State → Type 0) (IsPartition : Bytes → Type 0)
    (k : Keeps b.backend digest derive IsId IsState IsPartition)
    (reads : IsReader b digest derive IsId IsState IsPartition k) (parse_time : Bytes → Option ℕ)
    (format_time : ℕ → Bytes) (apply : Item → Applied) (others : ℕ → S → S)
    (harmless : (n : ℕ) (s : S) → k.IsHealthy s → k.IsHealthy (others n s)) where
  abbrev pub Sees : S → View → Type 0
  Sees = Agrees b digest derive IsId IsState IsPartition k

  -- Only other processes have changed the store, or nobody.
  pub data Quiet (s : S) : S → Type 0 where
    still : Quiet s s
    looked : {t u : S} → Quiet s t → Sees u (k.view t) → Quiet s u
    acted : {t : S} (n : ℕ) → Quiet s t → Quiet s (others n t)

  Sees-refl : (s : S) → k.IsHealthy s → Sees s (k.view s)
  Sees-refl s h = (h, λ j i. refl)

  Quiet-IsHealthy : {s t : S} → k.IsHealthy s → Quiet s t → k.IsHealthy t
  Quiet-IsHealthy h still = h
  Quiet-IsHealthy h (looked q a) = a.0
  Quiet-IsHealthy h (acted {t} n q) = harmless n t (Quiet-IsHealthy h q)

  -- A record of the id was read as an item, from which `apply` made this.
  pub record ReadAs (id : Bytes) (r : Match) (a : Applied) : Type 0 where
    pub named : r.id ≡ id
    pub found : Item
    pub was_read : read_match b parse_time r ≡ good found
    pub applied : apply found ≡ a

  -- The item was written in place of an entry which had the hash that was read with it, and nothing else.
  pub record Wrote (id : Bytes) (it : Item) (m : Match) (u t : S) : Type 0 where
    pub match : Match
    pub kept : m ≡ rewrite_match digest (render format_time it) match
    pub made : ReadAs id match (rewritten it)
    pub before : Entry
    pub stored : k.view u id ≡ some before
    pub same_hash : (is_nil match.doc.hash || same (digest before.content) match.doc.hash) ≡ true
    pub after : Sees t (update id (record before { content = render format_time it }) (k.view u))

  -- How a modification of the item ends
  abbrev pub Ends : Bytes → S → Outcome (Item × Match) → S → Type 0
  Ends id s (bad f) t = Quiet s t
  Ends id s (good (it, m)) t =
      (Quiet s t × ReadAs id m (left_alone it)) ⊎ ((u : S) × Quiet s u × Wrote id it m u t)

  abbrev AttemptEnds : Bytes → S → Attempt S → Type 0
  AttemptEnds id s (finished o t) = Ends id s o t
  AttemptEnds id s (again t) = Quiet s t

  Quiet-trans : {s t u : S} → Quiet s t → Quiet t u → Quiet s u
  Quiet-trans q still = q
  Quiet-trans q (looked p a) = looked (Quiet-trans q p) a
  Quiet-trans q (acted n p) = acted n (Quiet-trans q p)

  Ends-trans :
      (id : Bytes) (s t : S) (o : Outcome (Item × Match)) (u : S)
      → Quiet s t
      → Ends id t o u
      → Ends id s o u
  Ends-trans id s t (bad f) u q e = Quiet-trans q e
  Ends-trans id s t (good (it, m)) u q (inl (p, r)) = inl (Quiet-trans q p, r)
  Ends-trans id s t (good (it, m)) u q (inr (v, p, w)) = inr (v, Quiet-trans q p, w)

  module _ (now : ℕ) (who : Actor) where
    abbrev write : Match → Item → S → Result (Unit {0}) × S
    write m it s = b.backend.edit now m.id m.doc.hash (render format_time it) (writer who 0) s

    write_back-ok :
        (m : Match) (it : Item) (s : S)
        → (write m it s).0 ≡ ok tt
        → write_back b digest parse_time format_time now who m it s
          ≡ finished (good (it, rewrite_match digest (render format_time it) m)) (write m it s).1
    unfolding write_back
    write_back-ok m it s e = ground (arith, e)

    write_back-err :
        (m : Match) (it : Item) (s : S) (x : Err)
        → (write m it s).0 ≡ err x
        → write_back b digest parse_time format_time now who m it s ≡ (
            if is_changed x || is_lost x
            then again (write m it s).1
            else finished (bad io_error) (write m it s).1)
    unfolding write_back
    write_back-err m it s x e = ground (arith, e)

    write_back-Ends :
        (m : Match) (it : Item) (id : Bytes) (s : S)
        → IsId id
        → k.IsHealthy s
        → ReadAs id m (rewritten it)
        → AttemptEnds id s (write_back b digest parse_time format_time now who m it s)
    write_back-Ends m it id s i h r =
        let f =
          k.edit_law now m.id m.doc.hash (render format_time it) (writer who 0) s
            (subst IsId (sym r.named) i) h in
        elim (edit-cases digest m.id m.doc.hash (render format_time it) (k.view s)) [
          | inl (e, c) ↦
              subst (AttemptEnds id s) (sym (write_back-ok m it s (f.answer ∙ ap (λ x. x.0) c.2))) (
                inr (
                  s,
                  still,
                  record {
                    match = m;
                    kept = refl;
                    made = r;
                    before = e;
                    stored = ap (k.view s) (sym r.named) ∙ c.0;
                    same_hash = c.1;
                    after = (
                      f.healthy,
                      λ j q.
                          f.viewed j q
                          ∙ ap (λ x. x.1 j) c.2
                          ∙ ap
                              (λ y.
                                update y (record e { content = render format_time it }) (k.view s)
                                  j)
                              r.named,
                    );
                  },
                ))
          | inr (x, c) ↦
              let q = looked still (f.healthy, λ j p. f.viewed j p ∙ ap (λ y. y.1 j) c) in
              subst (AttemptEnds id s) (sym (write_back-err m it s x (f.answer ∙ ap (λ y. y.0) c)))
                (elim (Bool-cases (is_changed x || is_lost x)) [ inl y ↦ rw y q | inr y ↦ rw y q ])
        ]

    abbrev round : ℕ → Match → S → Attempt S
    round n m s = attempt b digest parse_time format_time apply others now who n m s

    Quiet-write_back :
        (n : ℕ) (m : Match) (it : Item) (id : Bytes) (s : S) (a : Attempt S)
        → AttemptEnds id (others n s) a
        → AttemptEnds id s a
    Quiet-write_back n m it id s (finished o t) h =
        Ends-trans id s (others n s) o t (acted n still) h
    Quiet-write_back n m it id s (again t) h = Quiet-trans (acted n still) h

    round-Applied :
        (n : ℕ) (m : Match) (it : Item) (a : Applied) (id : Bytes) (s : S)
        → IsId id
        → k.IsHealthy s
        → m.id ≡ id
        → read_match b parse_time m ≡ good it
        → apply it ≡ a
        → AttemptEnds id s (round n m s)
    unfolding attempt
    round-Applied n m it (refused_by f) id s i h e q p = rw (q, p, attempt) still
    round-Applied n m it (left_alone it') id s i h e q p =
        rw (q, p, attempt)
          (inl (still, record { named = e; found = it; was_read = q; applied = p }))
    round-Applied n m it (rewritten it') id s i h e q p =
        rw (q, p, attempt)
          (Quiet-write_back n m it' id s
            (write_back b digest parse_time format_time now who m it' (others n s))
            (write_back-Ends m it' id (others n s) i (harmless n s h)
              (record { named = e; found = it; was_read = q; applied = p })))

    round-Ends :
        (n : ℕ) (m : Match) (id : Bytes) (s : S)
        → IsId id
        → k.IsHealthy s
        → m.id ≡ id
        → AttemptEnds id s (round n m s)
    unfolding attempt
    round-Ends n m id s i h e = elim (Outcome-cases (read_match b parse_time m)) [
      | inl (it, q) ↦ round-Applied n m it (apply it) id s i h e q refl
      | inr (f, q) ↦ rw (q, attempt) still
    ]

    abbrev run : Option Status → ℕ → ℕ → Match → S → Outcome (Item × Match) × S
    run = modify_from b digest parse_time format_time apply others now who

    -- The id names no partition if it may be looked up as it is.
    abbrev pub Plain : Option Status → Bytes → Type 0
    Plain stay id = stay ≡ none → (qualifier id).0 ≡ id

    rematch-Sees :
        (stay : Option Status) (id : Bytes) (s : S)
        → IsId id
        → Plain stay id
        → k.IsHealthy s
        → Sees (rematch b id stay s).1 (k.view s)
    unfolding rematch
    rematch-Sees none id s i p h =
        resolve_unique-Agrees b digest derive IsId IsState IsPartition k reads id s
          (subst IsId (sym (p refl)) i) h
    rematch-Sees (some st) id s i p h =
        resolve-Agrees b digest derive IsId IsState IsPartition k reads id s i h

    -- what the loop makes of looking the item up again, with rounds left
    abbrev looked_up : Option Status → ℕ → ℕ → S → Outcome Match → Outcome (Item × Match) × S
    looked_up stay left n u o = elim o [ bad f ↦ (bad raced, u) | good m' ↦ run stay left n m' u ]

    -- what it makes of a round
    abbrev onwards : Option Status → ℕ → ℕ → Bytes → Attempt S → Outcome (Item × Match) × S
    onwards stay left n id a = elim a [
      | finished o t ↦ (o, t)
      | again t ↦ let r = rematch b id stay t in looked_up stay left n r.1 r.0
    ]

    looked_up-Ends :
        (stay : Option Status) (left n : ℕ) (id : Bytes) (s u : S) (o : Outcome Match)
        → k.IsHealthy u
        → Quiet s u
        → Names id o
        → ((m' : Match) → m'.id ≡ id → Ends id u (run stay left n m' u).0 (run stay left n m' u).1)
        → Ends id s (looked_up stay left n u o).0 (looked_up stay left n u o).1
    looked_up-Ends stay left n id s u (bad f) h q e more = q
    looked_up-Ends stay left n id s u (good m') h q e more =
        let out = run stay left n m' u in Ends-trans id s u out.0 out.1 q (more m' e)

    onwards-Ends :
        (stay : Option Status) (left n : ℕ) (id : Bytes) (s : S) (a : Attempt S)
        → IsId id
        → Plain stay id
        → k.IsHealthy s
        → ((m' : Match) (u : S)
            → k.IsHealthy u
            → m'.id ≡ id
            → Ends id u (run stay left n m' u).0 (run stay left n m' u).1)
        → AttemptEnds id s a
        → Ends id s (onwards stay left n id a).0 (onwards stay left n id a).1
    onwards-Ends stay left n id s (finished o t) i p h more q = q
    onwards-Ends stay left n id s (again t) i p h more q =
        let r = rematch b id stay t in
        let sees = rematch-Sees stay id t i p (Quiet-IsHealthy h q) in
        let quiet : Quiet s r.1 = looked q sees in
        looked_up-Ends stay left n id s r.1 r.0 sees.0 quiet (rematch-Names b id stay t p)
          (λ m' e. more m' r.1 sees.0 e)

    modify_from-Ends :
        (stay : Option Status) (left n : ℕ) (m : Match) (id : Bytes) (s : S)
        → IsId id
        → Plain stay id
        → k.IsHealthy s
        → m.id ≡ id
        → let out = run stay left n m s in Ends id s out.0 out.1
    unfolding modify_from
    modify_from-Ends stay zero n m id s i p h e = ended (round n m s) (round-Ends n m id s i h e)
      where
        ended :
            (a : Attempt S)
            → AttemptEnds id s a
            → let out = elim a as (λ x. Outcome (Item × Match) × S) [
              | finished o t ↦ (o, t)
              | again t ↦ (bad raced, t)
            ] in
              Ends id s out.0 out.1
        ended (finished o t) q = q
        ended (again t) q = q
    modify_from-Ends stay (suc left) n m id s i p h e =
        subst (λ x. let out = onwards stay left (n + 1) x (round n m s) in Ends id s out.0 out.1)
          (sym e)
          (onwards-Ends stay left (n + 1) id s (round n m s) i p h
            (λ m' u g q. modify_from-Ends stay left (n + 1) m' id u i p g q)
            (round-Ends n m id s i h e))

    -- Whatever harmless things other processes do between its reads and its writes, modifyItem either writes
    -- the item once, in place of an entry whose hash is the one that it had read with the item it
    -- changed (or without a hash, if none was read), or changes nothing: if it answers an error, or
    -- if the change leaves the item alone. The backend keeps the contract, its GetAll changes
    -- nothing, and an id without a status to stay in names no partition.
    pub modify_item-Ends :
        (stay : Option Status) (m : Match) (s : S)
        → IsId m.id
        → Plain stay m.id
        → k.IsHealthy s
        → let out = modify_item b digest parse_time format_time apply others now who stay m s in
          Ends m.id s out.0 out.1
    unfolding modify_item
    modify_item-Ends stay m s i p h = modify_from-Ends stay max_edit_retries 1 m m.id s i p h refl
