-- ===== src/Workitem/Undisturbed.antt =====
-- internal/workitem/backend.go, modifyItem: a write that nobody disturbs succeeds at once.
use macguffin.Prelude.{
  ℕ, ◌≡◌, refl, sym, ap, ◌∙◌, arith, subst, true, ◌||◌, Option, some, Bytes, same, is_nil,
}
use macguffin.Store.{Status, State, Actor, Result, ok}
use macguffin.Store.Steps.{edit-ok}
use macguffin.Store.Spec.{Entry, update}
use macguffin.Store.Backend.{Keeps}
use macguffin.Workitem.Item.{Item, render}
use macguffin.Workitem.Resolve.{Access, Match, Outcome, good}
use macguffin.Workitem.Lifecycle.{writer, read_match}
use macguffin.Workitem.Moves.{Agrees}
use macguffin.Workitem.Modify.{
  Applied, rewritten, finished, rewrite_match, write_back, attempt, modify_from, modify_item,
}

module _ {S : Type 0} (b : Access S) (digest : Bytes → Bytes) (derive : State → Actor → State)
    (IsId : Bytes → Type 0) (IsState : State → Type 0) (IsPartition : Bytes → Type 0)
    (k : Keeps b.backend digest derive IsId IsState IsPartition) (parse_time : Bytes → Option ℕ)
    (format_time : ℕ → Bytes) (apply : Item → Applied) (others : ℕ → S → S) (now : ℕ)
    (who : Actor) where
  abbrev write : Match → Item → S → Result (Unit {0}) × S
  write m it s = b.backend.edit now m.id m.doc.hash (render format_time it) (writer who 0) s

  abbrev written : Match → Item → S → Outcome (Item × Match) × S
  written m it s = (good (it, rewrite_match digest (render format_time it) m), (write m it s).1)

  attempt-written :
      (n : ℕ) (m : Match) (found it : Item) (s : S)
      → read_match b parse_time m ≡ good found
      → apply found ≡ rewritten it
      → (write m it (others n s)).0 ≡ ok tt
      → attempt b digest parse_time format_time apply others now who n m s
        ≡ finished (written m it (others n s)).0 (written m it (others n s)).1
  unfolding attempt write_back
  attempt-written n m found it s r a w = ground (arith, r, a, w)

  modify_item-written :
      (stay : Option Status) (m : Match) (it : Item) (s u : S)
      → attempt b digest parse_time format_time apply others now who 1 m s
        ≡ finished (written m it u).0 (written m it u).1
      → modify_item b digest parse_time format_time apply others now who stay m s ≡ written m it u
  unfolding modify_item modify_from
  modify_item-written stay m it s u e = ground (arith, e)

  -- If the record reads as an item, which the change rewrites, and what other processes leave under its id
  -- before the write has the hash that was read (or no hash was read), modifyItem answers the
  -- changed item at its first attempt, and the store holds its text there and is otherwise as the
  -- others left it. The backend keeps the contract, and the store is healthy after the others.
  pub modify_item-succeeds :
      (stay : Option Status) (m : Match) (found it : Item) (e : Entry) (s : S)
      → IsId m.id
      → k.IsHealthy (others 1 s)
      → read_match b parse_time m ≡ good found
      → apply found ≡ rewritten it
      → k.view (others 1 s) m.id ≡ some e
      → (is_nil m.doc.hash || same (digest e.content) m.doc.hash) ≡ true
      → let out = modify_item b digest parse_time format_time apply others now who stay m s in
        let content = render format_time it in
        (out.0 ≡ good (it, rewrite_match digest content m))
        × Agrees b digest derive IsId IsState IsPartition k out.1
            (update m.id (record e { content = content }) (k.view (others 1 s)))
  modify_item-succeeds stay m found it e s i h r a v q =
      let u = others 1 s in
      let content = render format_time it in
      let f = k.edit_law now m.id m.doc.hash content (writer who 0) u i h in
      let c = edit-ok digest m.id m.doc.hash content (k.view u) e v q in
      let w = attempt-written 1 m found it s r a (f.answer ∙ ap (λ x. x.0) c) in
      subst
        (λ out.
          (out.0 ≡ good (it, rewrite_match digest content m))
          × Agrees b digest derive IsId IsState IsPartition k out.1
              (update m.id (record e { content = content }) (k.view u)))
        (sym (modify_item-written stay m it s u w))
        (refl, (f.healthy, λ j p. f.viewed j p ∙ ap (λ x. x.1 j) c))
