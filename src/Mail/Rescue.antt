-- ===== src/Mail/Rescue.antt =====
-- internal/mail/mail.go, MergeMailbox: what its loops do to the files of the two mailboxes.
use macguffin.Prelude.{
  ℕ, suc, ◌≡◌, ◌≢◌, refl, sym, ap, ◌∙◌, arith, subst, false, List, [], ◌∷◌, none, some, Bytes, same,
  same_iff, Bool-cases, Option-cases, inl, inr,
}
use macguffin.Mail.Tree.{
  Sub, tmp, fresh, cur, archived, FilePath, Tree, at, rename, same_path_iff, at-rename,
}
use macguffin.Mail.Box.{path}
use macguffin.Mail.Move.{names_in, unique_dest, merge_names, merge_dir, merge_dirs}
use macguffin.Mail.Unique.{unique_dest_lem}
use macguffin.Mail.Listing.{Has, names_in-Has, box-apart, sub-apart, rename-keeps}

module _ (from to : Bytes) (differ : from ≢ to) where
  -- every file outside the mailbox that is emptied stays, and none of its other directories changes
  abbrev Outside : Tree → Tree → Type 0
  Outside t u = (q : FilePath) (c : Bytes) → q.box ≢ from → at q t ≡ some c → at q u ≡ some c

  abbrev Kept : Sub → Tree → Tree → Type 0
  Kept sub t u = Outside t u × ((q : FilePath) → q.box ≡ from → q.sub ≢ sub → at q u ≡ at q t)

  Kept-refl : (sub : Sub) (t : Tree) → Kept sub t t
  Kept-refl sub t = (λ q c b h. h, λ q b s. refl)

  Kept-trans : (sub : Sub) (t u v : Tree) → Kept sub t u → Kept sub u v → Kept sub t v
  Kept-trans sub t u v h k = (λ q c b e. k.0 q c b (h.0 q c b e), λ q b s. k.1 q b s ∙ h.1 q b s)

  rename-Kept :
      (sub : Sub) (n d c : Bytes) (t : Tree)
      → at (path to sub d) t ≡ none
      → Kept sub t (rename (path from sub n) c (path to sub d) t)
  rename-Kept sub n d c t f = (
    λ q e b h.
        rename-keeps (path from sub n) (path to sub d) q c e t f (λ x. b (sym (ap (λ y. y.box) x)))
          h,
    λ q b s.
        at-rename (path from sub n) (path to sub d) q c t
        ∙ ground (
          arith,
          box-apart (path to sub d) q (λ e. differ (sym (e ∙ b))),
          sub-apart (path from sub n) q (λ e. s (sym e)),
        ),
  )

  merge_names-gone :
      (sub : Sub) (n : Bytes) (ns : List Bytes) (t : Tree) (k : ℕ)
      → at (path from sub n) t ≡ none
      → merge_names from to sub (n ∷ ns) (t, k) ≡ merge_names from to sub ns (t, k)
  unfolding merge_names
  merge_names-gone sub n ns t k e = ground (arith, e)

  merge_names-moves :
      (sub : Sub) (n c d : Bytes) (ns : List Bytes) (t : Tree) (k : ℕ)
      → at (path from sub n) t ≡ some c
      → unique_dest to sub n t ≡ some d
      → merge_names from to sub (n ∷ ns) (t, k)
        ≡ merge_names from to sub ns (rename (path from sub n) c (path to sub d) t, suc k)
  unfolding merge_names
  merge_names-moves sub n c d ns t k e f = ground (arith, e, f)

  merge_names-Kept :
      (sub : Sub) (ns : List Bytes) (t : Tree) (k : ℕ)
      → Kept sub t (merge_names from to sub ns (t, k)).0
  unfolding merge_names
  merge_names-Kept sub [] t k = Kept-refl sub t
  merge_names-Kept sub (n ∷ ns) t k = elim (Option-cases (at (path from sub n) t)) [
    | inl e ↦
        subst (λ s. Kept sub t s.0) (sym (merge_names-gone sub n ns t k e))
          (merge_names-Kept sub ns t k)
    | inr (c, e) ↦
        let d = unique_dest_lem to sub n t in
        let u = rename (path from sub n) c (path to sub d.0) t in
        subst (λ s. Kept sub t s.0) (sym (merge_names-moves sub n c d.0 ns t k e d.1))
          (Kept-trans sub t u (merge_names from to sub ns (u, suc k)).0
            (rename-Kept sub n d.0 c t d.2) (merge_names-Kept sub ns u (suc k)))
  ]

  later : (sub : Sub) (x n : Bytes) (ns : List Bytes) → same x n ≡ false → Has n (x ∷ ns) → Has n ns
  later sub x n ns e (inl q) = absurd (cc (e, (same_iff x n).1 q))
  later sub x n ns e (inr h) = h

  is_other : (sub : Sub) (x n : Bytes) → x ≢ n → same x n ≡ false
  is_other sub x n h = ground (arith, same_iff x n, h)

  is_content :
      (sub : Sub) (x n b c : Bytes) (t : Tree)
      → x ≡ n
      → at (path from sub x) t ≡ some b
      → at (path from sub n) t ≡ some c
      → b ≡ c
  is_content sub x n b c t q o h = cc (o, h, ap (λ y. at (path from sub y) t) q)

  -- a message of the directory is rescued
  abbrev pub Rescued : Sub → Bytes → Tree → Type 0
  Rescued sub c u = (d : Bytes) × (at (path to sub d) u ≡ some c)

  Rescued-back :
      (sub : Sub) (c : Bytes) (t u : Tree) → Outside t u → Rescued sub c t → Rescued sub c u
  Rescued-back sub c t u k (d, h) = (d, k (path to sub d) c (λ y. differ (sym y)) h)

  rename-Rescued :
      (sub : Sub) (n d c : Bytes) (t : Tree)
      → Rescued sub c (rename (path from sub n) c (path to sub d) t)
  rename-Rescued sub n d c t = (
    d,
    at-rename (path from sub n) (path to sub d) (path to sub d) c t
        ∙ ground (arith, same_path_iff (path to sub d) (path to sub d)),
  )

  merge_names-Rescued :
      (sub : Sub) (ns : List Bytes) (t : Tree) (k : ℕ) (n c : Bytes)
      → Has n ns
      → at (path from sub n) t ≡ some c
      → Rescued sub c (merge_names from to sub ns (t, k)).0
  merge_names-Rescued sub [] t k n c m h = absurd m
  merge_names-Rescued sub (x ∷ ns) t k n c m h = elim (Option-cases (at (path from sub x) t)) [
    | inl o ↦
        subst (λ s. Rescued sub c s.0) (sym (merge_names-gone sub x ns t k o))
          (merge_names-Rescued sub ns t k n c
            (later sub x n ns
              (is_other sub x n (λ q. cc (o, h, ap (λ y. at (path from sub y) t) q))) m)
            h)
    | inr (b, o) ↦
        let d = unique_dest_lem to sub x t in
        let u = rename (path from sub x) b (path to sub d.0) t in
        subst (λ s. Rescued sub c s.0) (sym (merge_names-moves sub x b d.0 ns t k o d.1))
          (elim (Bool-cases (same x n)) [
            | inl e ↦
                Rescued-back sub c u (merge_names from to sub ns (u, suc k)).0
                  (merge_names-Kept sub ns u (suc k)).0
                  (subst (λ y. Rescued sub y u) (is_content sub x n b c t ((same_iff x n).0 e) o h)
                    (rename-Rescued sub x d.0 b t))
            | inr e ↦ merge_names-Rescued sub ns u (suc k) n c (later sub x n ns e m) (
                rename-keeps (path from sub x) (path to sub d.0) (path from sub n) b c t d.2
                  (λ y. cc (e, (same_iff x n).1 (ap (λ z. z.name) y))) h)
          ])
  ]

  merge_dir-Kept : (sub : Sub) (s : Tree × ℕ) → Kept sub s.0 (merge_dir from to sub s).0
  unfolding merge_dir
  merge_dir-Kept sub (t, k) = merge_names-Kept sub (names_in from sub t) t k

  merge_dir-Rescued :
      (sub : Sub) (s : Tree × ℕ) (n c : Bytes)
      → at (path from sub n) s.0 ≡ some c
      → Rescued sub c (merge_dir from to sub s).0
  unfolding merge_dir
  merge_dir-Rescued sub (t, k) n c h =
      merge_names-Rescued sub (names_in from sub t) t k n c (names_in-Has from sub n c t h) h

  outside : (sub : Sub) (s : Tree × ℕ) → Outside s.0 (merge_dir from to sub s).0
  outside sub s = (merge_dir-Kept sub s).0

  pub merge_dirs-Kept :
      (t : Tree) (q : FilePath) (c : Bytes)
      → q.box ≢ from
      → at q t ≡ some c
      → at q (merge_dirs from to t).0 ≡ some c
  unfolding merge_dirs
  merge_dirs-Kept t q c b h =
      let s = merge_dir from to fresh (t, 0) in
      let s' = merge_dir from to cur s in
      (merge_dir-Kept archived s').0 q c b
        ((merge_dir-Kept cur s).0 q c b ((merge_dir-Kept fresh (t, 0)).0 q c b h))

  pub merge_dirs-Rescued :
      (t : Tree) (sub : Sub) (n c : Bytes)
      → sub ≢ tmp
      → at (path from sub n) t ≡ some c
      → Rescued sub c (merge_dirs from to t).0
  unfolding merge_dirs
  merge_dirs-Rescued t tmp n c b h = absurd (b refl)
  merge_dirs-Rescued t fresh n c b h =
      let s = merge_dir from to fresh (t, 0) in
      let s' = merge_dir from to cur s in
      Rescued-back fresh c s'.0 (merge_dir from to archived s').0 (outside archived s')
        (Rescued-back fresh c s.0 s'.0 (outside cur s) (merge_dir-Rescued fresh (t, 0) n c h))
  merge_dirs-Rescued t cur n c b h =
      let s = merge_dir from to fresh (t, 0) in
      let s' = merge_dir from to cur s in
      Rescued-back cur c s'.0 (merge_dir from to archived s').0 (outside archived s') (
        merge_dir-Rescued cur s n c
          ((merge_dir-Kept fresh (t, 0)).1 (path from cur n) refl (λ e. cc) ∙ h))
  merge_dirs-Rescued t archived n c b h =
      let s = merge_dir from to fresh (t, 0) in
      let s' = merge_dir from to cur s in
      merge_dir-Rescued archived s' n c (
        (merge_dir-Kept cur s).1 (path from archived n) refl (λ e. cc)
        ∙ (merge_dir-Kept fresh (t, 0)).1 (path from archived n) refl (λ e. cc)
        ∙ h)
