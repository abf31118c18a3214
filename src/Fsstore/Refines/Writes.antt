-- ===== src/Fsstore/Refines/Writes.antt =====
-- Create, Edit and Get on a healthy disk.
use macguffin.Prelude.{
  ℕ, ◌≡◌, refl, sym, ◌∙◌, ap, arith, false, ◌||◌, List, [], ◌∷◌, ◌++◌, append-nil, append_assoc,
  none, some, Bytes, same, lookup, insert, is_nil, Bool-cases, Option-cases, inl, inr,
}
use macguffin.Store.{archived, State, Actor, err, same_status, not_found, exists, changed, refused}
use macguffin.Store.Spec
use macguffin.Store.Spec.{Entry}
use macguffin.Store.Backend.{Follows, Keeps, reading}
use macguffin.Fsstore.{Dir, status_dir, with_holder, file_name}
use macguffin.Fsstore.Disk.{Disk, stat, first, at, did, change, create_exclusive, rewrite_existing}
use macguffin.Fsstore.Ops.{create, edit, edit_at, get, read, backend}
use macguffin.Fsstore.Names.{IsId, tail_of, file_name-dotted}
use macguffin.Fsstore.Layout.{
  Slot, slots, slot_of, layout, dir_of, files, item_file, render, IsEntry,
}
use macguffin.Fsstore.Layout.Files.{found}
use macguffin.Fsstore.Layout.Edits.{path, stat-render}
use macguffin.Fsstore.Layout.Calls.{tail_of-IsTail, change_content}
use macguffin.Fsstore.Layout.Located.{
  lookup-slots, slots-insert, slots-IsTable, locate-layout-none, locate-layout-some,
  state_of-location, mapped,
}
use macguffin.Fsstore.Refines.Moves.{untouched, replaced, Disk-transition}
use macguffin.Fsstore.Refines.Archival.{Disk-archive}
use macguffin.Fsstore.Refines.{IsStore, IsHealthy, view, view-layout, slot_here, item_stat, IsState}

render-insert_new :
    (id : Bytes) (s : Slot) (t : List (Bytes × Slot))
    → lookup id t ≡ none
    → render (insert id s t) ≡ render t ++ files id s
unfolding insert lookup
render-insert_new id s [] e = append-nil (files id s)
render-insert_new id s ((j, x) ∷ t) e = elim (Bool-cases (same j id)) [
  | inl q ↦ let taken : some x ≡ none = rw q at e in absurd (cc)
  | inr q ↦ rw q (
      ap (λ r. files j x ++ r) (render-insert_new id s t (rw q at e))
      ∙ sym (append_assoc (files j x) (render t) (files id s)))
]

module _ (id : Bytes) (t : List (Bytes × Entry)) (hid : IsId id) (h : IsStore t) where
  stat_gone : (d : Dir) (r : Bytes) → lookup id t ≡ none → stat (path d id r) (layout t) ≡ none
  unfolding layout
  stat_gone d r gone =
      stat-render id d r (slots t) hid (slots-IsTable t h.table)
      ∙ ap (λ o. first (found (at (path d id r)) id o)) (lookup-slots id t ∙ ap mapped gone)

  layout-insert_new :
      (e : Entry)
      → e.result ≡ none
      → lookup id t ≡ none
      → layout (insert id e t) ≡ layout t ++ item_file id (slot_of e) ∷ []
  unfolding layout
  layout-insert_new e bare gone =
      ap render (sym (slots-insert id e t))
      ∙ render-insert_new id (slot_of e) (slots t) (lookup-slots id t ∙ ap mapped gone)
      ∙ rw bare

  module _ (now : ℕ) (st : State) (content : Bytes) (by : Actor) where
    abbrev new_entry : Entry
    new_entry = record {
      state = with_holder st by;
      partition = [];
      content = content;
      result = none;
    }

    new_entry-IsEntry : IsState st → same_status st.status archived ≡ false → IsEntry new_entry
    unfolding with_holder
    new_entry-IsEntry hs active = record { unheld = ground arith; unfiled = λ _. refl }

    status-with_holder :
        same_status (with_holder st by).status archived ≡ same_status st.status archived
    unfolding with_holder
    status-with_holder = ground arith

    dir_of-new :
        same_status st.status archived ≡ false
        → dir_of new_entry ≡ status_dir (with_holder st by).status
    dir_of-new active = ground (arith, status-with_holder)

    written :
        lookup id t ≡ none
        → same_status st.status archived ≡ false
        → create_exclusive
            (record {
              dir = status_dir (with_holder st by).status;
              name = file_name id (with_holder st by);
            })
            content
            (layout t)
          ≡ did (layout (insert id new_entry t))
    unfolding create_exclusive
    written gone active = ground (
      arith,
      stat_gone (dir_of new_entry) (tail_of (with_holder st by)) gone,
      dir_of-new active,
      file_name-dotted id (with_holder st by),
      layout-insert_new new_entry refl gone,
    )

    create-layout :
        IsState st
        → Follows IsId IsHealthy view
            (create now id st content by (layout t))
            (Spec.create with_holder id st content by (view (layout t)))
    unfolding create Spec.create
    create-layout hs = elim (Bool-cases (same_status st.status archived)) [
      | inl bad ↦
          untouched id t hid h (err (refused id)) _ _ (ground (arith, status-with_holder))
            (ground arith)
      | inr active ↦ elim (Option-cases (lookup id t)) [
        | inl gone ↦
            replaced id t hid h new_entry _ _ (new_entry-IsEntry hs active)
              (ground (
                arith,
                status-with_holder,
                locate-layout-none id t hid h.table gone,
                written gone active,
              ))
              (ground (arith, view-layout id t hid h))
        | inr (e, here) ↦
            untouched id t hid h (err (exists id)) _ _
              (ground (
                arith,
                status-with_holder,
                locate-layout-some id t hid h.table e here (h.entries id e here),
              ))
              (ground (arith, view-layout id t hid h))
      ]
    ]

  module _ (digest : Bytes → Bytes) where
    content_layout :
        (e : Entry) (content : Bytes)
        → lookup id t ≡ some e
        → change
            (path (dir_of e) id (tail_of e.state))
            (λ g. record g { content = content } ∷ [])
            (layout t)
          ≡ layout (insert id (record e { content = content }) t)
    unfolding layout
    content_layout e content here =
        change_content id (slot_of e) (slots t) hid (slots-IsTable t h.table)
          (slot_here id e t here) (tail_of-IsTail e.state) content
        ∙ ap render (slots-insert id (record e { content = content }) t)

    edit-layout :
        (now : ℕ) (hash content : Bytes) (by : Actor)
        → Follows IsId IsHealthy view
            (edit digest now id hash content by (layout t))
            (Spec.edit digest id hash content (view (layout t)))
    unfolding edit edit_at rewrite_existing Spec.edit
    edit-layout now hash content by = elim (Option-cases (lookup id t)) [
      | inl gone ↦
          untouched id t hid h (err (not_found id)) _ _
            (ground (arith, locate-layout-none id t hid h.table gone))
            (ground (arith, view-layout id t hid h))
      | inr (e, here) ↦ elim (Bool-cases (is_nil hash || same (digest e.content) hash)) [
        | inl fits ↦
            replaced id t hid h (record e { content = content }) _ _
              (record {
                unheld = (h.entries id e here).unheld;
                unfiled = (h.entries id e here).unfiled;
              })
              (ground (
                arith,
                locate-layout-some id t hid h.table e here (h.entries id e here),
                item_stat id e t hid h here,
                content_layout e content here,
              ))
              (ground (arith, view-layout id t hid h))
        | inr stale ↦
            untouched id t hid h (err (changed id hash (digest e.content))) _ _
              (ground (
                arith,
                locate-layout-some id t hid h.table e here (h.entries id e here),
                item_stat id e t hid h here,
              ))
              (ground (arith, view-layout id t hid h))
      ]
    ]

    get-layout : reading (get digest id (layout t)).0 ≡ Spec.get id (view (layout t))
    unfolding get read Spec.get
    get-layout = elim (Option-cases (lookup id t)) [
      | inl gone ↦ ground (arith, locate-layout-none id t hid h.table gone, view-layout id t hid h)
      | inr (e, here) ↦ ground (
        arith,
        locate-layout-some id t hid h.table e here (h.entries id e here),
        item_stat id e t hid h here,
        state_of-location id e (h.entries id e here),
        view-layout id t hid h,
      )
    ]

get_keeps : (digest : Bytes → Bytes) (id : Bytes) (disk : Disk) → (get digest id disk).1 ≡ disk
unfolding get
get_keeps digest id disk = ground arith

module _ (disk : Disk) (h : IsHealthy disk) where
  -- On a healthy disk Create answers and changes what the store holds under each id as the contract
  -- says, and leaves a healthy disk. The id is not empty and has no dot, and the state has a holder
  -- only if it is a claim.
  pub Disk-create :
      (now : ℕ) (id : Bytes) (st : State) (content : Bytes) (by : Actor)
      → IsId id
      → IsState st
      → Follows IsId IsHealthy view
          (create now id st content by disk)
          (Spec.create with_holder id st content by (view disk))
  Disk-create now id st content by hid hs =
      rw h.laid (create-layout id h.items hid h.is_store now st content by hs)

  -- On a healthy disk Edit answers and changes what the store holds under each id as Spec.edit says,
  -- and leaves a healthy disk: it replaces the content if the hash is empty or that of what is stored,
  -- and otherwise refuses it as changed. An item that is gone answers ErrNotFound, where the comment of
  -- Backend.Edit says ErrLost. The id is not empty and has no dot.
  pub Disk-edit :
      (digest : Bytes → Bytes) (now : ℕ) (id hash content : Bytes) (by : Actor)
      → IsId id
      → Follows IsId IsHealthy view
          (edit digest now id hash content by disk)
          (Spec.edit digest id hash content (view disk))
  Disk-edit digest now id hash content by hid =
      rw h.laid (edit-layout id h.items hid h.is_store digest now hash content by)

  pub Disk-get :
      (digest : Bytes → Bytes) (id : Bytes)
      → IsId id
      → (reading (get digest id disk).0 ≡ Spec.get id (view disk))
        × IsHealthy (get digest id disk).1
        × ((j : Bytes) → IsId j → view (get digest id disk).1 j ≡ view disk j)
  Disk-get digest id hid =
      (rw h.laid (get-layout id h.items hid h.is_store digest), rw get_keeps h, λ j _. rw get_keeps)

-- The laws together, for a client of store.Backend.
abbrev pub keeps :
    (digest : Bytes → Bytes) → Keeps (backend digest) digest with_holder IsId IsState (λ _. Unit)
keeps digest = record {
  IsHealthy = IsHealthy;
  view = view;
  create_law = λ now id st content by s hid hs h. Disk-create s h now id st content by hid hs;
  get_law = λ id s hid h. Disk-get s h digest id hid;
  transition_law = λ now id expect to by s hid hs h. Disk-transition s h now id expect to by hid hs;
  edit_law = λ now id hash content by s hid h. Disk-edit s h digest now id hash content by hid;
  archive_law = λ id partition by s hid _ h. Disk-archive s id partition by h hid;
}
