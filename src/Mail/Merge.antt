-- ===== src/Mail/Merge.antt =====
-- internal/mail/mail.go, MergeMailbox: no message is lost or overwritten.
use macguffin.Prelude.{
  ◌≡◌, ◌≢◌, refl, sym, ap, ◌∙◌, arith, subst, true, [], ◌∷◌, none, some, Bytes, same, same_iff,
  if◌then◌else◌, Bool-cases, Option-cases, inl, inr, any, lookup, ◌||◌, ◌==◌,
}
use macguffin.Mail.Tree.{Sub, tmp, FilePath, Tree, at}
use macguffin.Mgerr.{good}
use macguffin.Mail.Message.{check_mailbox}
use macguffin.Mail.Box.{path}
use macguffin.Mail.Move.{
  merge_dirs, remove_box, Office, merge, merge_existing, carry, is_registered,
}
use macguffin.Mail.Listing.{box-apart}
use macguffin.Mail.Rescue.{merge_dirs-Kept, merge_dirs-Rescued}

at-remove_box :
    (box : Bytes) (q : FilePath) (t : Tree) → q.box ≢ box → at q (remove_box box t) ≡ at q t
unfolding at remove_box
at-remove_box box q [] h = refl
at-remove_box box q ((p, c) ∷ t) h = elim (Bool-cases (same p.box box)) [
  | inl e ↦
      let away = box-apart p q (λ x. h (sym x ∙ (same_iff p.box box).0 e)) in
      ground (arith, e, away, at-remove_box box q t h)
  | inr e ↦ ground (arith, e, at-remove_box box q t h)
]

carry-files : (now from to : Bytes) (o : Office) → (carry now from to o).files ≡ o.files
unfolding carry
carry-files now from to o = elim (Option-cases (lookup from o.registrations)) [
  | inl e ↦ rw (e, carry) refl
  | inr (r, e) ↦ elim (Bool-cases (is_registered to o)) [
    | inl i ↦ rw (e, i, carry) refl
    | inr i ↦ rw (e, i, carry) refl
  ]
]

remove_box-empties :
    (box : Bytes) (q : FilePath) (t : Tree) → q.box ≡ box → at q (remove_box box t) ≡ none
unfolding at remove_box
remove_box-empties box q [] h = refl
remove_box-empties box q ((p, c) ∷ t) h = elim (Bool-cases (same p.box box)) [
  | inl e ↦ rw e (remove_box-empties box q t h)
  | inr e ↦
      let apart = box-apart p q (λ x. cc (e, (same_iff p.box box).1 (x ∙ h))) in
      rw (e, at, apart) (remove_box-empties box q t h)
]

merge_existing-files :
    (now from to : Bytes) (o : Office)
    → (merge_existing now from to o).0.files ≡ remove_box from (merge_dirs from to o.files).0
unfolding merge_existing
merge_existing-files now from to o =
    let s = merge_dirs from to o.files in
    let boxes = if s.1 == 0 || any (same to) o.boxes then o.boxes else to ∷ o.boxes in
    ap (remove_box from) (carry-files now from to (record o { files = s.0; boxes = boxes }))

merge-merge_existing :
    (now from to : Bytes) (o : Office)
    → check_mailbox from ≡ none
    → check_mailbox to ≡ none
    → from ≢ to
    → any (same from) o.boxes ≡ true
    → merge now from to o
      ≡ (good (merge_existing now from to o).1, (merge_existing now from to o).0)
unfolding merge
merge-merge_existing now from to o h k differ e = ground (arith, h, k, e, same_iff from to, differ)

-- What merging one mailbox into another makes of the files.
abbrev pub Merged : Bytes → Bytes → Tree → Tree → Type 0
Merged from to t u =
    ((q : FilePath) (c : Bytes) → q.box ≢ from → at q t ≡ some c → at q u ≡ some c)
    × ((sub : Sub) (n c : Bytes)
        → sub ≢ tmp
        → at (path from sub n) t ≡ some c
        → (d : Bytes) × (at (path to sub d) u ≡ some c))
    × ((q : FilePath) → q.box ≡ from → at q u ≡ none)

-- Merging a mailbox that exists into another one, both names being accepted and different, loses no mail:
-- every message of its new/, cur/ and archive/ is afterwards in the same directory of the other mailbox
-- with its text, every file outside the merged mailbox is as it was, and the merged mailbox is empty.
pub merge-Merged :
    (now from to : Bytes) (o : Office)
    → check_mailbox from ≡ none
    → check_mailbox to ≡ none
    → from ≢ to
    → any (same from) o.boxes ≡ true
    → let out = merge now from to o in
      (out.0 ≡ good (merge_dirs from to o.files).1) × Merged from to o.files out.1.files
merge-Merged now from to o h k differ e =
    let u = (merge_dirs from to o.files).0 in
    subst
      (λ out. (out.0 ≡ good (merge_dirs from to o.files).1) × Merged from to o.files out.1.files)
      (sym (merge-merge_existing now from to o h k differ e))
      (
        unfold merge_existing in refl,
        subst (Merged from to o.files) (sym (merge_existing-files now from to o)) (
          λ q c b i. at-remove_box from q u b ∙ merge_dirs-Kept from to differ o.files q c b i,
          λ sub n c b i.
              let r = merge_dirs-Rescued from to differ o.files sub n c b i in
              (r.0, at-remove_box from (path to sub r.0) u (λ x. differ (sym x)) ∙ r.1),
          λ q b. remove_box-empties from q u b,
        ),
      )
