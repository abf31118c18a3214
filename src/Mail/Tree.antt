-- ===== src/Mail/Tree.antt =====
-- The files of the mailboxes: paths under the mail root and what they hold, with the system calls that
-- internal/mail makes. Each call is one step.
use macguffin.Prelude.{
  ◌≡◌, ◌↔◌, refl, sym, ap, ◌∙◌, arith, Bool, true, false, ◌&&◌, List, [], ◌∷◌, Option, none, some,
  Bytes, same, same_iff, if◌then◌else◌, length, Bool-cases, inl, inr, ◌<◌, ◌≤◌,
}

-- the directories of a mailbox: tmp/, new/, cur/ and archive/
pub data Sub : Type 0 where
  tmp fresh cur archived : Sub

unfoldable pub same_sub : Sub → Sub → Bool
same_sub tmp tmp = true
same_sub fresh fresh = true
same_sub cur cur = true
same_sub archived archived = true
same_sub _ _ = false

pub same_sub_iff : (a b : Sub) → (same_sub a b ≡ true) ↔ (a ≡ b)
unfolding same_sub
same_sub_iff tmp b = ground arith
same_sub_iff fresh b = ground arith
same_sub_iff cur b = ground arith
same_sub_iff archived b = ground arith

pub record FilePath : Type 0 where
  pub box : Bytes
  pub sub : Sub
  pub name : Bytes

unfoldable pub same_path : FilePath → FilePath → Bool
unfolding same_sub
same_path p q = same p.box q.box && (same_sub p.sub q.sub && same p.name q.name)

pub same_path_iff : (p q : FilePath) → (same_path p q ≡ true) ↔ (p ≡ q)
unfolding same_path
same_path_iff p q =
    ground (arith, same_iff p.box q.box, same_sub_iff p.sub q.sub, same_iff p.name q.name)

abbrev pub Tree : Type 0
Tree = List (FilePath × Bytes)

-- what os.Stat finds and os.ReadFile reads
unfoldable pub at : FilePath → Tree → Option Bytes
at p [] = none
at p ((q, c) ∷ t) = if same_path q p then some c else at p t

-- os.Remove
unfoldable pub remove : FilePath → Tree → Tree
remove p [] = []
remove p ((q, c) ∷ t) = let rest = remove p t in if same_path q p then rest else (q, c) ∷ rest

abbrev pub put : FilePath → Bytes → Tree → Tree
put p c t = (p, c) ∷ remove p t

-- os.OpenFile with O_EXCL, and the writing of the content; `none` is fs.ErrExist
unfoldable pub create_exclusive : FilePath → Bytes → Tree → Option Tree
unfolding at
create_exclusive p c t = elim (at p t) [ some d ↦ none | none ↦ some ((p, c) ∷ t) ]

-- os.Link to a path; `none` is fs.ErrExist
unfoldable pub link : Bytes → FilePath → Tree → Option Tree
unfolding at
link c p t = elim (at p t) [ some d ↦ none | none ↦ some ((p, c) ∷ t) ]

-- os.Rename of a file with this content, over what is at the new path
unfoldable pub rename : FilePath → Bytes → FilePath → Tree → Tree
unfolding remove
rename src c dst t = put dst c (remove src t)

same_path_left : (r p q : FilePath) → same_path r p ≡ true → same_path r q ≡ same_path p q
same_path_left r p q h = ap (λ x. same_path x q) ((same_path_iff r p).0 h)

same_path_apart :
    (r p q : FilePath) → same_path r p ≡ false → same_path r q ≡ true → same_path p q ≡ false
same_path_apart r p q h e = elim (Bool-cases (same_path p q)) [
  | inr n ↦ n
  | inl m ↦ cc (h, (same_path_iff r p).1 ((same_path_iff r q).0 e ∙ sym ((same_path_iff p q).0 m)))
]

pub at-remove :
    (p q : FilePath) (t : Tree) → at q (remove p t) ≡ (if same_path p q then none else at q t)
unfolding at remove
at-remove p q [] = ground arith
at-remove p q ((r, c) ∷ t) = elim (Bool-cases (same_path r p)) [
  | inl e ↦ ground (arith, e, same_path_left r p q e, at-remove p q t)
  | inr e ↦ ground (arith, e, same_path_apart r p q e, at-remove p q t)
]

pub at-put :
    (p q : FilePath) (c : Bytes) (t : Tree)
    → at q (put p c t) ≡ (if same_path p q then some c else at q t)
unfolding at
at-put p q c t = ground (arith, at-remove p q t)

pub at-rename :
    (src dst q : FilePath) (c : Bytes) (t : Tree)
    → at q (rename src c dst t)
      ≡ (if same_path dst q then some c else if same_path src q then none else at q t)
unfolding rename
at-rename src dst q c t = at-put dst q c (remove src t) ∙ ground (arith, at-remove src q t)

pub at-cons :
    (p q : FilePath) (c : Bytes) (t : Tree)
    → at q ((p, c) ∷ t) ≡ (if same_path p q then some c else at q t)
unfolding at
at-cons p q c t = refl

pub length-remove : (p : FilePath) (t : Tree) → length (remove p t) ≤ length t
unfolding remove
length-remove p [] = omega arith
length-remove p ((q, c) ∷ t) = ground (arith, length-remove p t)

pub length-remove_found :
    (p : FilePath) (c : Bytes) (t : Tree) → at p t ≡ some c → length (remove p t) < length t
unfolding remove at
length-remove_found p c [] h = cc
length-remove_found p c ((q, d) ∷ t) h =
    ground (arith, length-remove p t, length-remove_found p c t)
