-- ===== src/Fsstore/Refines/Archival.antt =====
-- Archive on a healthy disk.
use macguffin.Prelude.{
  ◌≡◌, refl, sym, ◌∙◌, ap₂, arith, true, false, List, [], ◌∷◌, none, some, Bytes, lookup, insert,
  Bool-cases, Option-cases, inl, inr,
}
use macguffin.Store.{
  done, archived, Actor, ok, err, in_status, satisfies, same_status, same_status_iff, lost,
}
use macguffin.Store.Spec
use macguffin.Store.Spec.{Entry}
use macguffin.Store.Backend.{Follows}
use macguffin.Fsstore.{status_dir, partition_dir, same_dir}
use macguffin.Fsstore.Disk.{Disk}
use macguffin.Fsstore.Ops.{archive, move_across}
use macguffin.Fsstore.Names.{IsId, dotted, tail_of}
use macguffin.Fsstore.Layout.{layout, dir_of}
use macguffin.Fsstore.Layout.Edits.{path}
use macguffin.Fsstore.Refines.Follow.{move_across-layout}
use macguffin.Fsstore.Refines.Moves.{find-layout, untouched, replaced}
use macguffin.Fsstore.Refines.{IsStore, IsHealthy, view, view-layout}

abbrev shelve : Bytes → Entry → Entry
shelve p e = record e { state = in_status archived; partition = p }

done-status : (e : Entry) → satisfies e.state (in_status done) ≡ true → e.state.status ≡ done
unfolding satisfies
done-status e s = ground (arith, same_status_iff e.state.status done)

tail_of-done :
    (e : Entry) (p : Bytes) → e.state.status ≡ done → tail_of e.state ≡ tail_of (shelve p e).state
unfolding tail_of
tail_of-done e p q = ground arith

dir_of-shelved : (p : Bytes) (e : Entry) → dir_of (shelve p e) ≡ partition_dir p
unfolding same_status
dir_of-shelved p e = refl

done_apart : (p : Bytes) → same_dir (status_dir done) (partition_dir p) ≡ false
unfolding same_dir status_dir partition_dir
done_apart [] = refl
done_apart (c ∷ p) = refl

dir_of-done : (e : Entry) → e.state.status ≡ done → dir_of e ≡ status_dir done
unfolding same_status
dir_of-done e q = rw q

module _ (id p : Bytes) (t : List (Bytes × Entry)) (hid : IsId id) (h : IsStore t) where
  shelved :
      (e : Entry)
      → lookup id t ≡ some e
      → satisfies e.state (in_status done) ≡ true
      → move_across
          (path (dir_of e) id (tail_of e.state))
          (record { dir = partition_dir p; name = dotted id (tail_of e.state) })
          id
          (in_status done)
          (layout t)
        ≡ (ok tt, layout (insert id (shelve p e) t))
  shelved e here s =
      let q = done-status e s in
      ap₂
        (λ d r.
          move_across (path (dir_of e) id (tail_of e.state)) (path d id r) id (in_status done)
            (layout t))
        (sym (dir_of-shelved p e)) (tail_of-done e p q)
      ∙ move_across-layout id e (shelve p e) t hid h here refl refl (in_status done)
          (ap₂ same_dir (dir_of-done e q) (dir_of-shelved p e) ∙ done_apart p)

  archive-layout :
      (by : Actor)
      → Follows IsId IsHealthy view
          (archive id p by (layout t))
          (Spec.archive id p (view (layout t)))
  unfolding archive Spec.archive same_status
  archive-layout by = elim (Option-cases (lookup id t)) [
    | inl gone ↦
        untouched id t hid h (err (lost id (in_status done) none)) _ _
          (ground (arith, find-layout id (in_status done) t hid h refl))
          (ground (arith, view-layout id t hid h))
    | inr (e, here) ↦ elim (Bool-cases (satisfies e.state (in_status done))) [
      | inl fits ↦
          replaced id t hid h (shelve p e) _ _
            (record { unheld = λ _. refl; unfiled = λ x. (unfold same_status in (cc x)) })
            (ground (arith, find-layout id (in_status done) t hid h refl, shelved e here fits))
            (ground (arith, view-layout id t hid h))
      | inr elsewhere ↦
          untouched id t hid h (err (lost id (in_status done) (some e.state))) _ _
            (ground (arith, find-layout id (in_status done) t hid h refl))
            (ground (arith, view-layout id t hid h))
    ]
  ]

-- On a healthy disk Archive answers and changes what the store holds under each id as the contract
-- says, and leaves a healthy disk. The id is not empty and has no dot.
pub Disk-archive :
    (disk : Disk) (id partition : Bytes) (by : Actor)
    → IsHealthy disk
    → IsId id
    → Follows IsId IsHealthy view
        (archive id partition by disk)
        (Spec.archive id partition (view disk))
Disk-archive disk id partition by h hid =
    rw h.laid (archive-layout id partition h.items hid h.is_store by)
