-- ===== src/Fsstore/Names.antt =====
-- File names read back: an id holds no dot, so the text before the first dot of a name is the id.
use macguffin.Prelude.{
  ◌≡◌, ◌≢◌, refl, arith, true, false, [], ◌∷◌, ◌++◌, Bytes, codes, same, same→eq, has_prefix,
  trim_prefix, cut_prefix, All, if◌then◌else◌, inl, inr, Bool-cases, append_assoc,
  trim_prefix-append, is_nil, subst, sym,
}
use macguffin.Store.{Status, State, same_status, claimed}
use macguffin.Fsstore.{file_name, matches_id, matches_archived_id, holder_of}

-- What mg mints: not empty, and without a dot.
pub record IsId (id : Bytes) : Type 0 where
  pub ne_nil : is_nil id ≡ false
  pub no_dot : All (λ c. c ≢ b'.') id

abbrev pub dotted : Bytes → Bytes → Bytes
dotted id tail = id ++ (b'.' ∷ tail)

no_dot_split :
    (id id' r r' : Bytes)
    → All (λ c. c ≢ b'.') id
    → All (λ c. c ≢ b'.') id'
    → dotted id r ≡ dotted id' r'
    → id ≡ id'
no_dot_split [] [] r r' h h' e = refl
no_dot_split [] (c ∷ id') r r' h h' e = ground (arith, h'.0)
no_dot_split (c ∷ id) [] r r' h h' e = ground (arith, h.0)
no_dot_split (c ∷ id) (d ∷ id') r r' h h' e = ground (arith, no_dot_split id id' r r' h.1 h'.1)

pub same-dotted :
    (id id' r r' : Bytes)
    → IsId id
    → IsId id'
    → id' ≢ id
    → same (dotted id' r') (dotted id r) ≡ false
same-dotted id id' r r' h h' ne = elim (Bool-cases (same (dotted id' r') (dotted id r))) [
  | inl e ↦ absurd (ne (no_dot_split id' id r' r h'.no_dot h.no_dot (same→eq _ _ e)))
  | inr e ↦ e
]

no_dot_prefix :
    (id id' r r' : Bytes)
    → All (λ c. c ≢ b'.') id
    → All (λ c. c ≢ b'.') id'
    → has_prefix (dotted id r) (dotted id' r') ≡ true
    → id' ≡ id
unfolding has_prefix
no_dot_prefix [] [] r r' h h' e = refl
no_dot_prefix [] (c ∷ id') r r' h h' e = ground (arith, h'.0)
no_dot_prefix (c ∷ id) [] r r' h h' e = ground (arith, h.0)
no_dot_prefix (c ∷ id) (d ∷ id') r r' h h' e = ground (arith, no_dot_prefix id id' r r' h.1 h'.1)

pub has_prefix-dotted :
    (id id' r r' : Bytes)
    → IsId id
    → IsId id'
    → id' ≢ id
    → has_prefix (dotted id r) (dotted id' r') ≡ false
has_prefix-dotted id id' r r' h h' ne =
    elim (Bool-cases (has_prefix (dotted id r) (dotted id' r'))) [
      | inl e ↦ absurd (ne (no_dot_prefix id id' r r' h.no_dot h'.no_dot e))
      | inr e ↦ e
    ]

-- Tests on two names of one id look at what stands behind the dot.
pub same-append : (p s t : Bytes) → same (p ++ s) (p ++ t) ≡ same s t
unfolding same
same-append [] s t = refl
same-append (c ∷ p) s t = ground (arith, same-append p s t)

pub has_prefix-append_both : (p s t : Bytes) → has_prefix (p ++ s) (p ++ t) ≡ has_prefix s t
unfolding has_prefix
has_prefix-append_both [] s t = refl
has_prefix-append_both (c ∷ p) s t = ground (arith, has_prefix-append_both p s t)

-- A name of another id does not match.
pub matches_id-other :
    (id id' r : Bytes) → IsId id → IsId id' → id' ≢ id → matches_id (dotted id' r) id ≡ false
unfolding matches_id
matches_id-other id id' r h h' ne = ground (
  arith,
  same-dotted id id' (codes "md") r h h' ne,
  has_prefix-dotted id id' (codes "md.") r h h' ne,
)

pub matches_archived_id-other :
    (id id' r : Bytes)
    → IsId id
    → IsId id'
    → id' ≢ id
    → matches_archived_id (dotted id' r) id ≡ false
unfolding matches_archived_id
matches_archived_id-other id id' r h h' ne = same-dotted id id' (codes "md") r h h' ne

-- what FileName writes behind the dot
unfoldable pub tail_of : State → Bytes
unfolding same_status
tail_of st =
    if same_status st.status claimed
    then elim st.holder [ [] ↦ codes "md" | c ∷ h ↦ codes "md." ++ (c ∷ h) ]
    else codes "md"

file_name-holder :
    (id : Bytes) (st : Status) (h : Bytes)
    → file_name id (record { status = st; holder = h })
      ≡ dotted id (tail_of (record { status = st; holder = h }))
unfolding file_name tail_of
file_name-holder id st [] = ground arith
file_name-holder id st (c ∷ h) = ground arith

pub file_name-dotted : (id : Bytes) (st : State) → file_name id st ≡ dotted id (tail_of st)
file_name-dotted id st = file_name-holder id st.status st.holder

-- The item of an id matches it, its sidecar does not.
pub matches_id_self : (id : Bytes) (st : State) → matches_id (dotted id (tail_of st)) id ≡ true
matches_id_self id st =
    unfold matches_id in
    rw (same-append id, has_prefix-append_both id) (unfold tail_of same has_prefix in ground arith)

pub matches_id-sidecar : (id : Bytes) → matches_id (dotted id (codes "result.json")) id ≡ false
matches_id-sidecar id =
    unfold matches_id in
    rw (same-append id, has_prefix-append_both id) (unfold same has_prefix in refl)

pub matches_archived_id-sidecar :
    (id : Bytes) → matches_archived_id (dotted id (codes "result.json")) id ≡ false
matches_archived_id-sidecar id =
    unfold matches_archived_id in rw (same-append id) (unfold same in refl)

trim_prefix-dotted :
    (id r : Bytes) → trim_prefix (id ++ codes ".md") (dotted id (codes "md" ++ r)) ≡ r
trim_prefix-dotted id r =
    rw (← append_assoc id (codes ".md") r) (trim_prefix-append (id ++ codes ".md") r)

holder_of-holder :
    (id : Bytes) (h : Bytes)
    → holder_of (dotted id (tail_of (record { status = claimed; holder = h }))) id ≡ h
unfolding holder_of tail_of
holder_of-holder id [] = rw (trim_prefix-dotted id []) (unfold trim_prefix cut_prefix in refl)
holder_of-holder id (c ∷ h) =
    rw (trim_prefix-dotted id (codes "." ++ (c ∷ h))) (trim_prefix-append (codes ".") (c ∷ h))

-- The holder of a claim is read back from the name.
pub holder_of-claimed :
    (id : Bytes) (st : State)
    → st.status ≡ claimed
    → holder_of (dotted id (tail_of st)) id ≡ st.holder
holder_of-claimed id st h =
    subst
      (λ x.
        holder_of (dotted id (tail_of (record { status = x; holder = st.holder }))) id ≡ st.holder)
      (sym h) (holder_of-holder id st.holder)
