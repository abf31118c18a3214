-- ===== src/Fsstore/Layout/Tables.antt =====
-- Tables with each id once, and writes into them.
use macguffin.Prelude.{
  ◌≡◌, refl, ◌∙◌, ap, arith, List, [], ◌∷◌, some, Bytes, same, same_iff, same_refl, same→eq, lookup,
  insert, lookup-insert, Bool-cases, inl, inr,
}
use macguffin.Fsstore.Names.{IsId}
use macguffin.Fsstore.Layout.{IsTable}

module _ {ℓ} {V : Type ℓ} where
  pub insert-IsTable :
      (id : Bytes) (v : V) (t : List (Bytes × V)) → IsId id → IsTable t → IsTable (insert id v t)
  unfolding insert
  insert-IsTable id v [] hid h = (hid, unfold lookup in refl, tt)
  insert-IsTable id v ((j, x) ∷ t) hid (hj, new, h) = elim (Bool-cases (same j id)) [
    | inl q ↦ rw q (hid, rw (← same→eq j id q) new, h)
    | inr q ↦ rw q (
      hj,
      lookup-insert id j v t ∙ ground (arith, same_iff id j, same_iff j id),
      insert-IsTable id v t hid h,
    )
  ]

  pub insert-insert :
      (id : Bytes) (v w : V) (t : List (Bytes × V)) → insert id v (insert id w t) ≡ insert id v t
  unfolding insert
  insert-insert id v w [] = rw (same_refl id)
  insert-insert id v w ((j, x) ∷ t) = elim (Bool-cases (same j id)) [
    | inl q ↦ rw (q, same_refl id)
    | inr q ↦ rw (q, insert) (rw q (ap (λ r. (j, x) ∷ r) (insert-insert id v w t)))
  ]

  -- Writing what is there changes nothing.
  pub insert_same :
      (id : Bytes) (v : V) (t : List (Bytes × V)) → lookup id t ≡ some v → insert id v t ≡ t
  unfolding insert lookup
  insert_same id v [] e = cc
  insert_same id v ((j, x) ∷ t) e = ground (arith, same_iff j id, insert_same id v t)
