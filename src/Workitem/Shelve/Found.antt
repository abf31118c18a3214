-- ===== src/Workitem/Shelve/Found.antt =====
-- The items that findDependents (internal/workitem/shelve.go) finds in a listing, and what Get answers.
use macguffin.Prelude.{
  ℕ, ◌≡◌, refl, ap, ◌∙◌, true, List, [], ◌∷◌, ◌++◌, Option, some, Bytes, All, keep, Bool-cases,
  Option-cases, inl, inr, ◌⊎◌,
}
use macguffin.Store.{
  Status, available, claimed, pending, shelved, done, archived, Doc, Result, ok, err,
}
use macguffin.Store.Spec.{Reading}
use macguffin.Store.Listing.{HasContent}
use macguffin.Store.Backend.{reading}
use macguffin.Workitem.Item.{Item, parse}
use macguffin.Workitem.Shelve.{shelvable, depends_on, items_of}

-- one of the items has the id
abbrev pub HasItem : Bytes → List Item → Type 0
HasItem j [] = ⊥
HasItem j (it ∷ its) = (it.id ≡ j) ⊎ HasItem j its

pub HasItem-right : (j : Bytes) (xs ys : List Item) → HasItem j ys → HasItem j (xs ++ ys)
HasItem-right j [] ys h = h
HasItem-right j (x ∷ xs) ys h = inr (HasItem-right j xs ys h)

pub HasItem-left : (j : Bytes) (xs ys : List Item) → HasItem j xs → HasItem j (xs ++ ys)
HasItem-left j [] ys h = absurd h
HasItem-left j (x ∷ xs) ys (inl e) = inl e
HasItem-left j (x ∷ xs) ys (inr h) = inr (HasItem-left j xs ys h)

pub shelvable-cases :
    (st : Status) → shelvable st ≡ true → (st ≡ available) ⊎ ((st ≡ claimed) ⊎ (st ≡ pending))
unfolding shelvable
shelvable-cases available a = inl refl
shelvable-cases claimed a = inr (inl refl)
shelvable-cases pending a = inr (inr refl)
shelvable-cases shelved a = absurd (cc)
shelvable-cases done a = absurd (cc)
shelvable-cases archived a = absurd (cc)

abbrev pub read_off : Doc → Reading
read_off d = (d.state, d.partition, d.content)

-- what Get answers, as a match
pub get-Match :
    (j : Bytes) (r : Result Doc) (x : Reading)
    → reading r ≡ ok x
    → (d : Doc) × (r ≡ ok d) × (read_off d ≡ x)
get-Match j (ok d) x h = (d, refl, cc)
get-Match j (err e) x h = absurd (cc)

module _ (parse_time : Bytes → Option ℕ) (id : Bytes) where
  pub found_in-HasItem :
      (ds : List Doc) (c : Bytes) (it : Item)
      → HasContent c ds
      → parse parse_time c ≡ some it
      → depends_on id it ≡ true
      → HasItem it.id (keep (depends_on id) (items_of parse_time ds))
  unfolding items_of
  found_in-HasItem [] c it h p q = absurd h
  found_in-HasItem (d ∷ ds) c it (inl e) p q =
      rw (ap (parse parse_time) e ∙ p, items_of) (rw q (inl refl))
  found_in-HasItem (d ∷ ds) c it (inr h) p q =
      let rest = found_in-HasItem ds c it h p q in
      elim (Option-cases (parse parse_time d.content)) [
        | inl n ↦ rw (n, items_of) rest
        | inr (x, n) ↦ elim (Bool-cases (depends_on id x)) [
          | inl y ↦ rw (n, items_of) (rw y (inr rest))
          | inr y ↦ rw (n, items_of) (rw y rest)
        ]
      ]

  -- what holds of every item that can be read from a document holds of those that are found
  pub found_in-All :
      (P : Item → Type 0) (ds : List Doc)
      → All (λ d. (it : Item) → parse parse_time d.content ≡ some it → P it) ds
      → All P (keep (depends_on id) (items_of parse_time ds))
  unfolding items_of
  found_in-All P [] h = tt
  found_in-All P (d ∷ ds) h =
      let rest = found_in-All P ds h.1 in
      elim (Option-cases (parse parse_time d.content)) [
        | inl n ↦ rw (n, items_of) rest
        | inr (x, n) ↦ elim (Bool-cases (depends_on id x)) [
          | inl y ↦ rw (n, items_of) (rw y (h.0 x n, rest))
          | inr y ↦ rw (n, items_of) (rw y rest)
        ]
      ]
