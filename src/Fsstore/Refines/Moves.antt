-- ===== src/Fsstore/Refines/Moves.antt =====
-- Transition and Archive on a healthy disk.
use macguffin.Prelude.{
  ℕ, ◌≡◌, refl, sym, ◌∙◌, ap, arith, true, false, ◌||◌, List, [], ◌∷◌, Option, none, some, Bytes,
  same, lookup, insert, lookup-insert, keep, if◌then◌else◌, Bool-cases, Option-cases, inl, inr,
}
use macguffin.Store.{
  Status, claimed, archived, State, Actor, Result, ok, err, satisfies, same_status, same_status_iff,
  lost, refused,
}
use macguffin.Store.Spec
use macguffin.Store.Spec.{Entry, View, update}
use macguffin.Store.Backend.{Follows}
use macguffin.Fsstore.{Dir, status_dir, partition_dir, same_dir, with_holder}
use macguffin.Fsstore.Disk.{Disk}
use macguffin.Fsstore.Locate.{state_of, entry_of}
use macguffin.Fsstore.Ops.{
  transition, find, candidate, move_from, Found, one, refusal, lost_at, current,
}
use macguffin.Fsstore.Names.{IsId, dotted, tail_of, holder_of-claimed, matches_id-sidecar}
use macguffin.Fsstore.Layout.{
  slot_of, layout, dir_of, files, item_file, side_files, side_of, IsEntry,
}
use macguffin.Fsstore.Layout.Files.{Skips}
use macguffin.Fsstore.Layout.Edits.{path}
use macguffin.Fsstore.Layout.Located.{
  locate-layout-none, locate-layout-some, state_of-location, found-layout, entry_of-Skips,
  entry_of-item,
}
use macguffin.Fsstore.Refines.Follow.{move_from-layout}
use macguffin.Fsstore.Refines.{
  IsStore, IsHealthy, view, view-layout, settled, insert-IsStore, IsState,
}

-- `current` on a laid out table
lost-layout :
    (id : Bytes) (expect : State) (t : List (Bytes × Entry))
    → IsId id
    → IsStore t
    → lost_at (layout t) id expect
      ≡ lost id expect (elim (lookup id t) [ none ↦ none | some e ↦ some e.state ])
unfolding lost_at current
lost-layout id expect t hid h = elim (Option-cases (lookup id t)) [
  | inl gone ↦ ground (arith, locate-layout-none id t hid h.table gone)
  | inr (e, here) ↦
      let he = h.entries id e here in
      ground (arith, locate-layout-some id t hid h.table e here he, state_of-location id e he)
]

candidate-Skips : (id : Bytes) (expect : State) → IsId id → Skips id (candidate id expect)
candidate-Skips id expect hid = record {
  others = λ id' h' ne d r c.
      unfold candidate in
      ground (arith, (entry_of-Skips id (status_dir expect.status) hid).others id' h' ne d r c);
}

-- the directory of a status that is not the archive's holds the entries of that status
same_dir-status :
    (st want : Status) (p : Bytes)
    → same_status want archived ≡ false
    → same_dir
        (if same_status st archived then partition_dir p else status_dir st)
        (status_dir want)
      ≡ same_status st want
unfolding same_dir status_dir partition_dir same_status
same_dir-status archived want [] h = ground arith
same_dir-status archived want (c ∷ p) h = ground arith
same_dir-status st want p h = ground arith

read_back :
    (id : Bytes) (e : Entry) (want : Status)
    → IsEntry e
    → e.state.status ≡ want
    → state_of
        (record {
          dir = dir_of e;
          name = dotted id (tail_of e.state);
          status = want;
          partition = [];
        })
        id
      ≡ e.state
unfolding state_of
read_back id e want he q =
    ground (arith, holder_of-claimed id e.state, same_status_iff e.state.status claimed, he.unheld)

candidate-item :
    (id : Bytes) (expect : State) (e : Entry)
    → same_status expect.status archived ≡ false
    → IsEntry e
    → candidate id expect (item_file id (slot_of e)) ≡ satisfies e.state expect
unfolding candidate
candidate-item id expect e h he = elim (Bool-cases (same_status e.state.status expect.status)) [
  | inl q ↦ ground (
    arith,
    entry_of-item id (status_dir expect.status) e,
    same_dir-status e.state.status expect.status e.partition h,
    read_back id e expect.status he ((same_status_iff e.state.status expect.status).0 q),
  )
  | inr q ↦
      unfold satisfies in
      ground (
        arith,
        entry_of-item id (status_dir expect.status) e,
        same_dir-status e.state.status expect.status e.partition h,
      )
]

candidate-side_files :
    (id : Bytes) (expect : State) (d : Dir) (r : Option Bytes)
    → keep (candidate id expect) (side_files id (side_of d r)) ≡ []
candidate-side_files id expect d none = refl
candidate-side_files id expect d (some c) =
    unfold candidate entry_of in ground (arith, matches_id-sidecar id)

candidate-files :
    (id : Bytes) (expect : State) (e : Entry)
    → same_status expect.status archived ≡ false
    → IsEntry e
    → keep (candidate id expect) (files id (slot_of e))
      ≡ (if satisfies e.state expect then item_file id (slot_of e) ∷ [] else [])
candidate-files id expect e h he =
    ground
      (arith, candidate-item id expect e h he, candidate-side_files id expect (dir_of e) e.result)

-- `find` on a laid out table: the item, if its state is the expected one
abbrev pub sought : Bytes → State → Option Entry → Found
sought id expect none = refusal (lost id expect none)
sought id expect (some e) =
    if satisfies e.state expect
    then one (path (dir_of e) id (tail_of e.state))
    else refusal (lost id expect (some e.state))

pub find-layout :
    (id : Bytes) (expect : State) (t : List (Bytes × Entry))
    → IsId id
    → IsStore t
    → same_status expect.status archived ≡ false
    → find (layout t) id expect ≡ sought id expect (lookup id t)
unfolding find
find-layout id expect t hid h active = elim (Option-cases (lookup id t)) [
  | inl gone ↦ ground (
    arith,
    found-layout id t hid h.table (candidate id expect) (candidate-Skips id expect hid),
    lost-layout id expect t hid h,
  )
  | inr (e, here) ↦ ground (
    arith,
    found-layout id t hid h.table (candidate id expect) (candidate-Skips id expect hid),
    lost-layout id expect t hid h,
    candidate-files id expect e active (h.entries id e here),
  )
]

module _ (id : Bytes) (t : List (Bytes × Entry)) (hid : IsId id) (h : IsStore t) where
  -- the disk stays as it is, and the contract's view too
  pub untouched :
      (a : Result (Unit {0})) (got : Result (Unit {0}) × Disk) (want : Spec.Step)
      → got ≡ (a, layout t)
      → want ≡ (a, view (layout t))
      → Follows IsId IsHealthy view got want
  untouched a got want g q =
      settled t got want h (ap (λ w. w.0) g ∙ ap (λ w. w.0) (sym q)) (ap (λ w. w.1) g)
        (λ j hj. sym (view-layout j t hj h) ∙ ap (λ w. w.1 j) (sym q))

  -- the entry of the item is replaced, on the disk and in the view
  pub replaced :
      (e' : Entry) (got : Result (Unit {0}) × Disk) (want : Spec.Step)
      → IsEntry e'
      → got ≡ (ok tt, layout (insert id e' t))
      → want ≡ (ok tt, update id e' (view (layout t)))
      → Follows IsId IsHealthy view got want
  replaced e' got want he g q =
      settled (insert id e' t) got want (insert-IsStore id e' t hid h he)
        (ap (λ w. w.0) g ∙ ap (λ w. w.0) (sym q)) (ap (λ w. w.1) g)
        (λ j hj.
          lookup-insert id j e' t
          ∙ ap (λ o. if same id j then some e' else o) (sym (view-layout j t hj h))
          ∙ ap (λ w. w.1 j) (sym q))

  module _ (expect to : State) (by : Actor) (now : ℕ) where
    moved_entry : Entry → Entry
    moved_entry e = record e { state = with_holder to by }

    moved_entry-IsEntry :
        (e : Entry)
        → IsEntry e
        → IsState to
        → satisfies e.state expect ≡ true
        → same_status expect.status archived ≡ false
        → IsEntry (moved_entry e)
    unfolding moved_entry with_holder satisfies
    moved_entry-IsEntry e he ht s active = record {
      unheld = ground (arith);
      unfiled = λ _. he.unfiled (ground (arith, same_status_iff e.state.status expect.status));
    }

    moved_from :
        (e : Entry)
        → lookup id t ≡ some e
        → dir_of (moved_entry e) ≡ status_dir (moved_entry e).state.status
        → move_from (path (dir_of e) id (tail_of e.state)) id expect (with_holder to by) (layout t)
          ≡ (ok tt, layout (insert id (moved_entry e) t))
    unfolding moved_entry
    moved_from e here q =
        move_from-layout id e (record e { state = with_holder to by }) t hid h here refl refl expect
          q

    dir_of-moved :
        (e : Entry)
        → same_status to.status archived ≡ false
        → dir_of (moved_entry e) ≡ status_dir (moved_entry e).state.status
    unfolding moved_entry with_holder
    dir_of-moved e active = ground arith

    is_archived-with_holder : Spec.is_archived (with_holder to by) ≡ same_status to.status archived
    unfolding with_holder
    is_archived-with_holder = ground arith

    -- the facts that each branch of a transition computes with
    transition-layout :
        IsState to
        → Follows IsId IsHealthy view
            (transition now id expect to by (layout t))
            (Spec.transition with_holder id expect to by (view (layout t)))
    unfolding transition Spec.transition
    transition-layout hs =
        elim (Bool-cases (same_status expect.status archived || same_status to.status archived)) [
          | inl bad ↦
              untouched (err (refused id)) _ _ (ground (arith, is_archived-with_holder))
                (ground arith)
          | inr good ↦ elim (Option-cases (lookup id t)) [
            | inl gone ↦
                untouched (err (lost id expect none)) _ _
                  (ground (arith, is_archived-with_holder, find-layout id expect t hid h))
                  (ground (arith, view-layout id t hid h))
            | inr (e, here) ↦ elim (Bool-cases (satisfies e.state expect)) [
              | inl fits ↦
                  let active : same_status expect.status archived ≡ false = ground arith in
                  let he' = moved_entry-IsEntry e (h.entries id e here) hs fits active in
                  replaced (moved_entry e) _ _ he'
                    (ground (
                      arith,
                      is_archived-with_holder,
                      find-layout id expect t hid h,
                      moved_from e here (dir_of-moved e (ground arith)),
                    ))
                    (unfold moved_entry in ground (arith, view-layout id t hid h))
              | inr elsewhere ↦
                  untouched (err (lost id expect (some e.state))) _ _
                    (ground (arith, is_archived-with_holder, find-layout id expect t hid h))
                    (ground (arith, view-layout id t hid h))
            ]
          ]
        ]

module _ (disk : Disk) (h : IsHealthy disk) where
  -- On a healthy disk Transition answers and changes what the store holds under each id as the contract
  -- says, and leaves a healthy disk. The id is not empty and has no dot, and the new state has a holder
  -- only if it is a claim.
  pub Disk-transition :
      (now : ℕ) (id : Bytes) (expect to : State) (by : Actor)
      → IsId id
      → IsState to
      → Follows IsId IsHealthy view
          (transition now id expect to by disk)
          (Spec.transition with_holder id expect to by (view disk))
  Disk-transition now id expect to by hid hs =
      rw h.laid (transition-layout id h.items hid h.is_store expect to by now hs)
