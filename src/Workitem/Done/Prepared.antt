-- ===== src/Workitem/Done/Prepared.antt =====
-- internal/workitem/done.go: completing an item answers an error and changes no item's state, or it moves
-- a claimed item whose remainder is tracked.
use macguffin.Workitem.Done.Asked
use macguffin.Prelude.{
  ℕ, ◌≡◌, refl, sym, ap, subst, [], Option, none, Bytes, is_nil, Bool-cases, inl, inr, ◌⊎◌, some,
  List,
}
use macguffin.Store.{
  Status, claimed, done, State, Actor, Ref, Err, Result, ok, err, same_status, same_status_iff, Doc,
}
use macguffin.Store.Backend.{Keeps}
use macguffin.Workitem.Item.{Item}
use macguffin.Workitem.Resolve.{
  Access, Match, Outcome, good, bad, Failure, resolve_unique, is_not_found,
}
use macguffin.Workitem.Identity.{Outcome-cases, Result-cases}
use macguffin.Workitem.Lifecycle.{read_match, explained, status_of}
use macguffin.Workitem.Explain.{explain_done_failure}
use macguffin.Workitem.Moves.{IsReader}
use macguffin.Workitem.Guards.{require_remainder_discharged}
use macguffin.Workitem.Done.{
  Results, prior_result, write_result_beside, merged_result, keep_result, ref_of_match, link,
  guard_linked, prepare, prepared,
}
use macguffin.Workitem.Done.Held
use macguffin.Workitem.Done.Kept
use macguffin.Workitem.Done.Tracked
use macguffin.Workitem.Done.Tracked.{IsTracked}

Answer-cases : {A : Type 0} (r : Result A) → ((a : A) × (r ≡ ok a)) ⊎ ((e : Err) × (r ≡ err e))
Answer-cases (ok a) = inl (a, refl)
Answer-cases (err e) = inr (e, refl)

module _ {S : Type 0} (b : Access S) (digest : Bytes → Bytes) (derive : State → Actor → State)
    (IsId : Bytes → Type 0) (IsState : State → Type 0) (IsPartition : Bytes → Type 0)
    (k : Keeps b.backend digest derive IsId IsState IsPartition)
    (reads : IsReader b digest derive IsId IsState IsPartition k) (parse_time : Bytes → Option ℕ)
    (format_time : ℕ → Bytes) (others : ℕ → S → S)
    (holding : (n : ℕ) (s : S)
      → k.IsHealthy s
      → Held.Held b digest derive IsId IsState IsPartition k reads s (others n s))
    (vacant : (j : Bytes) → Asked.IsAsked b digest derive IsId IsState IsPartition k j) (now : ℕ)
    (who : Actor)
    (absent : (g : Bytes → S → Result (List Doc) × S)
      → b.get_all ≡ some g
      → (id : Bytes) (s : S) → IsId id
      → k.IsHealthy s
      → k.view s id ≡ none
      → (ds : List Doc) → (g id s).0 ≡ ok ds
      → ds ≡ [])
    (c : Results S)
    (reading_holds : (ref : Ref) (s : S)
      → k.IsHealthy s
      → Held.Held b digest derive IsId IsState IsPartition k reads s (c.read_result ref s).1)
    (writing_holds : (ref : Ref) (payload : Bytes) (s : S)
      → k.IsHealthy s
      → Held.Held b digest derive IsId IsState IsPartition k reads s
          (c.write_result ref payload s).1) where
  abbrev pub Same : S → S → Type 0
  Same = Held.Held b digest derive IsId IsState IsPartition k reads

  pub Same-trans : (s t u : S) → Same s t → Same t u → Same s u
  Same-trans = Held.Held-trans b digest derive IsId IsState IsPartition k reads

  abbrev in_done : Ref → Ref
  in_done ref = record { id = ref.id; status = done; partition = [] }

  abbrev again : Ref → S → Result Bytes × S
  again ref s = c.read_result (in_done ref) s

  prior_result-Same : (ref : Ref) (s : S) → k.IsHealthy s → Same s (prior_result c ref s).1
  unfolding prior_result
  prior_result-Same ref s h =
      let r = c.read_result ref s in
      let a = reading_holds ref s h in
      let q = Same-trans s r.1 (again ref r.1).1 a (reading_holds (in_done ref) r.1 a.0) in
      elim (Answer-cases r.0) [
        | inl (x, e) ↦ rw (e, prior_result) a
        | inr (x, e) ↦ elim (Bool-cases (is_not_found x)) [
          | inl y ↦ rw (e, prior_result) (rw y q)
          | inr y ↦ rw (e, prior_result) (rw y a)
        ]
      ]

  write_result_beside-Same :
      (ref : Ref) (incoming : Bytes) (s : S)
      → k.IsHealthy s
      → Same s (write_result_beside c ref incoming s).1
  unfolding write_result_beside
  write_result_beside-Same ref incoming s h =
      let p = prior_result c ref s in
      let a = prior_result-Same ref s h in
      elim (Outcome-cases (merged_result c.merge_json p.0 incoming)) [
        | inr (f, e) ↦ rw (e, write_result_beside) a
        | inl (payload, e) ↦
            let w = c.write_result ref payload p.1 in
            let q = Same-trans s p.1 w.1 a (writing_holds ref payload p.1 a.0) in
            elim (Result-cases w.0) [
              | inl o ↦ rw (e, write_result_beside) (rw o q)
              | inr (x, o) ↦ rw (e, write_result_beside) (rw o q)
            ]
      ]

  keep_result-Same :
      (m : Match) (result : Bytes) (s : S) → k.IsHealthy s → Same s (keep_result c m result s).1
  unfolding keep_result
  keep_result-Same m result s h = elim (Bool-cases (is_nil result)) [
    | inl y ↦ rw y (Held.Held-refl b digest derive IsId IsState IsPartition k reads s h)
    | inr y ↦ rw y (write_result_beside-Same (ref_of_match m) result s h)
  ]

  -- The claim that is to be completed: the record that the id names, and its item, which was linked to its
  -- successors and is tracked.
  pub record Cleared (id successor : Bytes) (s : S) (m : Match) (t : S) : Type 0 where
    pub named : (resolve_unique b id s).0 ≡ good m
    pub takes : IsId m.id
    pub is_claimed : m.status ≡ claimed
    pub found : Item
    pub was_read : read_match b parse_time m ≡ good found
    pub before : S
    pub after : S
    pub linked : Item
    pub links :
        link b digest parse_time format_time others now who m found successor before
        ≡ (good linked, after)
    pub untouched : Same s before
    pub still : Same s t
    pub tracked : IsTracked IsId linked (k.view after)

  abbrev pub PreparedEnds : Bytes → Bytes → S → Outcome Match → S → Type 0
  PreparedEnds id successor s (bad f) t = Same s t
  PreparedEnds id successor s (good m) t = Cleared id successor s m t

  abbrev linked_to : Match → Item → Bytes → S → Outcome Item × S
  linked_to = link b digest parse_time format_time others now who

  guard_linked-Ends :
      (id successor : Bytes) (s : S) (m : Match) (found : Item) (w : S)
      → (resolve_unique b id s).0 ≡ good m
      → m.status ≡ claimed
      → read_match b parse_time m ≡ good found
      → IsId m.id
      → Same s w
      → let out =
          guard_linked b digest parse_time format_time others now who m
            (linked_to m found successor w) in
        PreparedEnds id successor s out.0 out.1
  unfolding guard_linked
  guard_linked-Ends id successor s m found w n cl rd i a =
      let l = linked_to m found successor w in
      let al = Same-trans s w l.1 a (
        Kept.link-Same b digest derive IsId IsState IsPartition k reads parse_time format_time
          others holding vacant now who m found successor w i a.0) in
      elim (Outcome-cases l.0) [
        | inr (f, e) ↦
            let v : guard_linked b digest parse_time format_time others now who m l ≡ (bad f, l.1) =
              rw (e, guard_linked) refl in
            subst (λ o. PreparedEnds id successor s o.0 o.1) (sym v) al
        | inl (it, e) ↦
            let g = require_remainder_discharged b it l.1 in
            let ag = Same-trans s l.1 g.1 al (
              Kept.require_remainder_discharged-Same b digest derive IsId IsState IsPartition k
                reads parse_time format_time others holding vacant now who it l.1 al.0) in
            elim (Outcome-cases g.0) [
              | inr (f, d) ↦
                  let v : guard_linked b digest parse_time format_time others now who m l
                      ≡ (bad f, g.1) =
                    rw (e, guard_linked) (rw d refl) in
                  subst (λ o. PreparedEnds id successor s o.0 o.1) (sym v) ag
              | inl (x, d) ↦
                  let v : guard_linked b digest parse_time format_time others now who m l
                      ≡ (good m, g.1) =
                    rw (e, guard_linked) (rw d refl) in
                  subst (λ o. PreparedEnds id successor s o.0 o.1) (sym v)
                    (record {
                      named = n;
                      takes = i;
                      is_claimed = cl;
                      found = found;
                      was_read = rd;
                      before = w;
                      after = l.1;
                      linked = it;
                      links = ap (λ y. (y, l.1)) e;
                      untouched = a;
                      still = ag;
                      tracked =
                          Tracked.discharged-IsTracked b digest derive IsId IsState IsPartition k
                            reads vacant absent it l.1 al.0 d;
                    })
            ]
      ]

  prepare-Ends :
      (id result successor : Bytes) (s : S) (m : Match) (r : S)
      → (resolve_unique b id s).0 ≡ good m
      → m.status ≡ claimed
      → IsId m.id
      → Same s r
      → let out = prepare b digest parse_time format_time others now who c m result successor r in
        PreparedEnds id successor s out.0 out.1
  unfolding prepare
  prepare-Ends id result successor s m r n cl i a =
      let out = prepare b digest parse_time format_time others now who c m result successor r in
      let w = keep_result c m result r in
      let aw = Same-trans s r w.1 a (keep_result-Same m result r a.0) in
      elim (Outcome-cases (read_match b parse_time m)) [
        | inr (f, e) ↦
            let v : out ≡ (bad f, r) = rw (e, prepare) refl in
            subst (λ o. PreparedEnds id successor s o.0 o.1) (sym v) a
        | inl (it, e) ↦ elim (Outcome-cases w.0) [
          | inr (f, d) ↦
              let v : out ≡ (bad f, w.1) = rw (e, prepare) (rw d refl) in
              subst (λ o. PreparedEnds id successor s o.0 o.1) (sym v) aw
          | inl (x, d) ↦
              let g =
                guard_linked b digest parse_time format_time others now who m
                  (linked_to m it successor w.1) in
              let v : out ≡ g = rw (e, prepare) (rw d refl) in
              subst (λ o. PreparedEnds id successor s o.0 o.1) (sym v)
                (guard_linked-Ends id successor s m it w.1 n cl e i aw)
        ]
      ]

  pub explained-Same :
      (A : Type 0) (why : Option Status → Failure) (id : Bytes) (s : S)
      → k.IsHealthy s
      → Same s (explained b {A = A} why id s).1
  unfolding status_of
  explained-Same A why id s h =
      Kept.resolve_unique-Same b digest derive IsId IsState IsPartition k reads parse_time
        format_time others holding vacant now who id s h

  pub prepared-Ends :
      (id result successor : Bytes) (s : S)
      → k.IsHealthy s
      → let out = prepared b digest parse_time format_time others now who c id result successor s in
        PreparedEnds id successor s out.0 out.1
  unfolding prepared same_status
  prepared-Ends id result successor s h =
      let out = prepared b digest parse_time format_time others now who c id result successor s in
      let r = resolve_unique b id s in
      let a =
        Kept.resolve_unique-Same b digest derive IsId IsState IsPartition k reads parse_time
          format_time others holding vacant now who id s h in
      elim (Outcome-cases r.0) [
        | inr (f, e) ↦
            let v : out ≡ (bad f, r.1) = rw (e, prepared) refl in
            subst (λ o. PreparedEnds id successor s o.0 o.1) (sym v) a
        | inl (m, e) ↦ elim (Bool-cases (same_status m.status claimed)) [
          | inl y ↦
              let g =
                prepare b digest parse_time format_time others now who c m result successor r.1 in
              let v : out ≡ g = rw (e, prepared) (rw y refl) in
              subst (λ o. PreparedEnds id successor s o.0 o.1) (sym v)
                (prepare-Ends id result successor s m r.1 e ((same_status_iff m.status claimed).0 y)
                  (Asked.resolve_unique-IsId b digest derive IsId IsState IsPartition k reads vacant
                    id s m h e)
                  a)
          | inr y ↦
              let x = explained b {A = Match} explain_done_failure id r.1 in
              let v : out ≡ x = rw (e, prepared) (rw y refl) in
              subst (λ o. PreparedEnds id successor s o.0 o.1) (sym v)
                (Same-trans s r.1 x.1 a (explained-Same Match explain_done_failure id r.1 a.0))
        ]
      ]
