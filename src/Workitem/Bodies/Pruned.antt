-- ===== src/Workitem/Bodies/Pruned.antt =====
-- internal/workitem/bodybackup.go: the pruning that follows a save keeps the body that was saved.
use macguffin.Prelude.{
  ℕ, zero, suc, ◌+◌, ◌<◌, ◌≡◌, ◌≢◌, refl, sym, ap, ◌∙◌, subst, Bool, true, false, List, [], ◌∷◌,
  ◌++◌, Option, some, Bytes, codes, length, keep, is_some, All, All-keeps, Bool-cases, Option-cases,
  inl, inr,
}
use macguffin.Workitem.Archive.{
  parse_backup_name, is_backup, text_below, insert_down, sort_down, drop, body_backup_keep,
}
use macguffin.Workitem.Bodies.{next_stamp, next_backup_name}
use macguffin.Workitem.Bodies.Order.{text_below_asym, text_below-++}
use macguffin.Workitem.Bodies.Stamps.{IsEarly, parse_backup_name_sound, next_stamp-IsAbove}

module _ (Q : Bytes → Type 0) where
  All-insert_down : (n : Bytes) (l : List Bytes) → Q n → All Q l → All Q (insert_down n l)
  unfolding insert_down
  All-insert_down n [] q h = (q, tt)
  All-insert_down n (m ∷ l) q h = elim (Bool-cases (text_below n m)) [
    | inl y ↦ rw (y, insert_down) (h.0, All-insert_down n l q h.1)
    | inr y ↦ rw (y, insert_down) (q, h)
  ]

  All-sort_down : (l : List Bytes) → All Q l → All Q (sort_down l)
  unfolding sort_down
  All-sort_down [] h = tt
  All-sort_down (n ∷ l) h = All-insert_down n (sort_down l) h.0 (All-sort_down l h.1)

  All-drop : (k : ℕ) (l : List Bytes) → All Q l → All Q (drop k l)
  unfolding drop
  All-drop zero l h = h
  All-drop (suc k) [] h = tt
  All-drop (suc k) (n ∷ l) h = All-drop k l h.1

  All-keep : (p : Bytes → Bool) (l : List Bytes) → All (λ n. p n ≡ true → Q n) l → All Q (keep p l)
  All-keep p [] h = tt
  All-keep p (n ∷ l) h = elim (Bool-cases (p n)) [
    | inl y ↦ rw y (h.0 y, All-keep p l h.1)
    | inr y ↦ rw y (All-keep p l h.1)
  ]

module _ (p : Bytes → Bool) (new : Bytes) where
  abbrev IsBelow : Bytes → Type 0
  IsBelow n = text_below n new ≡ true

  insert_down-new : (l : List Bytes) → All IsBelow l → insert_down new l ≡ new ∷ l
  unfolding insert_down
  insert_down-new [] h = refl
  insert_down-new (m ∷ l) h = rw (text_below_asym m new h.0, insert_down) refl

  -- The newest of the names comes first.
  sort_down-new :
      (before after : List Bytes)
      → p new ≡ true
      → All (λ n. p n ≡ true → IsBelow n) (before ++ after)
      → sort_down (keep p (before ++ (new ∷ after))) ≡ new ∷ sort_down (keep p (before ++ after))
  unfolding sort_down insert_down
  sort_down-new [] after y h =
      let q = All-sort_down IsBelow (keep p after) (All-keep IsBelow p after h) in
      rw y (insert_down-new (sort_down (keep p after)) q)
  sort_down-new (n ∷ before) after y h = elim (Bool-cases (p n)) [
    | inl b ↦ rw b (ap (insert_down n) (sort_down-new before after y h.1) ∙ rw (h.0 b) refl)
    | inr b ↦ rw b (sort_down-new before after y h.1)
  ]

  ne-below : (n : Bytes) → IsBelow n → n ≢ new
  ne-below n b e =
      let s = subst (λ x. text_below x new ≡ true) e b in absurd (cc (s, text_below_asym new new s))

  differ : p new ≡ false → (l : List Bytes) → All (λ n. p n ≡ true → n ≢ new) l
  differ y [] = tt
  differ y (n ∷ l) = ((λ b e. absurd (cc (b, y, ap p e))), differ y l)

  -- A name above all others is not pruned.
  dropped-Others :
      (k : ℕ) (before after : List Bytes)
      → All (λ n. p n ≡ true → IsBelow n) (before ++ after)
      → All (λ n. n ≢ new) (drop (suc k) (sort_down (keep p (before ++ (new ∷ after)))))
  unfolding drop
  dropped-Others k before after h = elim (Bool-cases (p new)) [
    | inl y ↦ rw (sort_down-new before after y h) (
        All-drop (λ n. n ≢ new) k (sort_down (keep p (before ++ after)))
          (All-sort_down (λ n. n ≢ new) (keep p (before ++ after))
            (All-keep (λ n. n ≢ new) p (before ++ after)
              (All-keeps (λ n b y. ne-below n (b y)) (before ++ after) h))))
    | inr y ↦
        All-drop (λ n. n ≢ new) (suc k) (sort_down (keep p (before ++ (new ∷ after))))
          (All-sort_down (λ n. n ≢ new) (keep p (before ++ (new ∷ after)))
            (All-keep (λ n. n ≢ new) p (before ++ (new ∷ after))
              (differ y (before ++ (new ∷ after)))))
  ]

-- Stamps of a fixed width print the moments before `limit` in their order.
module _ (parse_stamp : Bytes → Option ℕ) (print_stamp : ℕ → Bytes) (width limit : ℕ)
    (parsed_width : (x : Bytes) (t : ℕ) → parse_stamp x ≡ some t → length x ≡ width)
    (printed_width : (t : ℕ) → t < limit → length (print_stamp t) ≡ width)
    (later : (x : Bytes) (t : ℕ)
      → parse_stamp x ≡ some t
      → t + 1 < limit
      → text_below x (print_stamp (t + 1)) ≡ true)
    (wide : 0 < width) where
  next_backup_name-IsAbove :
      (existing : List Bytes) (now : ℕ) (hash : Bytes)
      → All (IsEarly parse_stamp limit) existing
      → now < limit
      → All
          (λ n.
            is_backup parse_stamp n ≡ true
            → text_below n (next_backup_name parse_stamp print_stamp existing now hash) ≡ true)
          existing
  unfolding is_backup next_backup_name
  next_backup_name-IsAbove existing now hash early room =
      let q =
        next_stamp-IsAbove parse_stamp print_stamp width limit later printed_width wide existing now
          early room in
      let stamp = next_stamp parse_stamp print_stamp existing now in
      let tail = codes "-" ++ (hash ++ codes ".md") in
      All-keeps
        (λ n above b. elim (Option-cases (parse_backup_name parse_stamp n)) [
          | inl m ↦ absurd (cc (b, ap is_some m))
          | inr ((x, h), m) ↦
              let r = parse_backup_name_sound parse_stamp n x h m in
              let widths : length x ≡ length stamp = parsed_width x r.0 r.2 ∙ sym q.0 in
              subst (λ n. text_below n (stamp ++ tail) ≡ true) (sym r.4)
                (text_below-++ x stamp r.1 tail widths (above x h m))
        ])
        existing q.1

  -- If the layout of the stamps has a fixed width and prints a later moment as a later text, as long as
  -- the moments are before a limit: when a body is saved under the next name, then the pruning that
  -- follows, wherever the new name is listed among those that were there, does not remove it.
  pub next_backup_name-Kept :
      (before after : List Bytes) (now : ℕ) (hash : Bytes)
      → All (IsEarly parse_stamp limit) (before ++ after)
      → now < limit
      → let new = next_backup_name parse_stamp print_stamp (before ++ after) now hash in
        All
          (λ n. n ≢ new)
          (drop body_backup_keep
            (sort_down (keep (is_backup parse_stamp) (before ++ (new ∷ after)))))
  next_backup_name-Kept before after now hash early room =
      dropped-Others (is_backup parse_stamp)
        (next_backup_name parse_stamp print_stamp (before ++ after) now hash) 9 before after
        (next_backup_name-IsAbove (before ++ after) now hash early room)
