-- ===== src/Mail/Listing.antt =====
-- internal/mail/mail.go, os.ReadDir and os.Rename in it: what a directory lists, and what a move leaves.
use macguffin.Prelude.{
  ◌≡◌, ◌≢◌, ap, ◌∙◌, arith, Bool, true, false, ◌&&◌, List, [], ◌∷◌, none, some, Bytes, same,
  same_iff, if◌then◌else◌, Bool-cases, inl, inr, ◌⊎◌,
}
use macguffin.Mail.Tree.{
  Sub, same_sub, same_sub_iff, FilePath, Tree, at, rename, same_path, same_path_iff, at-rename,
}
use macguffin.Mail.Box.{path}
use macguffin.Mail.Move.{names_in}

abbrev pub Has : Bytes → List Bytes → Type 0
Has n [] = ⊥
Has n (x ∷ xs) = (x ≡ n) ⊎ Has n xs

listed_later :
    (b : Bool) (x n : Bytes) (ns : List Bytes) → Has n ns → Has n (if b then x ∷ ns else ns)
listed_later true x n ns h = inr h
listed_later false x n ns h = h

listed_here :
    (box : Bytes) (sub : Sub) (n : Bytes) (q : FilePath) (ns : List Bytes)
    → same_path q (path box sub n) ≡ true
    → Has n (if same q.box box && same_sub q.sub sub then q.name ∷ ns else ns)
unfolding same_path
listed_here box sub n q ns h =
    let e : (same q.box box && same_sub q.sub sub) ≡ true = ground arith in
    rw e (inl (ap (λ p. p.name) ((same_path_iff q (path box sub n)).0 h)))

pub names_in-Has :
    (box : Bytes) (sub : Sub) (n c : Bytes) (t : Tree)
    → at (path box sub n) t ≡ some c
    → Has n (names_in box sub t)
unfolding names_in at
names_in-Has box sub n c [] h = cc
names_in-Has box sub n c ((q, d) ∷ t) h = elim (Bool-cases (same_path q (path box sub n))) [
  | inl e ↦ listed_here box sub n q (names_in box sub t) e
  | inr e ↦
      listed_later (same q.box box && same_sub q.sub sub) q.name n (names_in box sub t)
        (names_in-Has box sub n c t (ground (arith, e, h)))
]

pub box-apart : (p q : FilePath) → p.box ≢ q.box → same_path p q ≡ false
unfolding same_path
box-apart p q h = ground (arith, same_iff p.box q.box, h)

pub sub-apart : (p q : FilePath) → p.sub ≢ q.sub → same_path p q ≡ false
unfolding same_path
sub-apart p q h = ground (arith, same_sub_iff p.sub q.sub, h)

-- Moving a file to a free path keeps every other file.
pub rename-keeps :
    (src dst q : FilePath) (c d : Bytes) (t : Tree)
    → at dst t ≡ none
    → src ≢ q
    → at q t ≡ some d
    → at q (rename src c dst t) ≡ some d
rename-keeps src dst q c d t f s h =
    at-rename src dst q c t
    ∙ ground (arith, same_path_iff dst q, same_path_iff src q, s, ap (λ x. at x t), f, h)
