-- ===== src/Spend/Booking.antt =====
-- internal/spend/aggregator.go: what attribute answers, for intervals read off any event log.
use macguffin.Prelude.{
  ℕ, ◌≡◌, ◌≤◌, refl, subst, sym, arith, true, false, ◌&&◌, ◌||◌, List, [], ◌∷◌, Bytes, codes, same,
  All, All-append, Bool-cases, Option-cases, inl, inr, ltb, is_nil, ◌⊎◌,
}
use macguffin.Spend.Claims.{
  Entry, ClaimInterval, Open, covers, best_of, attribute, build_claim_intervals, absorb, absorb_all,
  find_open, drop_open, still_open, same_key, releases,
}

-- Some interval that covers the moment has this item and this start.
abbrev pub Booked : Bytes → ℕ → Bytes → ℕ → List ClaimInterval → Type 0
Booked item start actor ts [] = ⊥
Booked item start actor ts (iv ∷ ivs) =
    ((covers iv actor ts ≡ true) × (iv.item ≡ item) × (iv.claim_ts ≡ start))
    ⊎ Booked item start actor ts ivs

-- No interval that covers the moment starts later.
abbrev pub NoneLater : ℕ → Bytes → ℕ → List ClaimInterval → Type 0
NoneLater start actor ts = All (λ iv. covers iv actor ts ≡ true → iv.claim_ts ≤ start)

abbrev HasItem : ClaimInterval → Type 0
HasItem iv = is_nil iv.item ≡ false

-- The last start is that of the best so far, or of an interval of the list.
abbrev Best : Bytes → ℕ → Bytes → ℕ → List ClaimInterval → Bytes → Type 0
Best best start actor ts ivs r =
    ((r ≡ best) × NoneLater start actor ts ivs)
    ⊎ ((t : ℕ) × (start ≤ t) × Booked r t actor ts ivs × NoneLater t actor ts ivs)

Best-stay :
    (best : Bytes) (start : ℕ) (actor : Bytes) (ts : ℕ) (iv : ClaimInterval)
    (ivs : List ClaimInterval) (r : Bytes)
    → (covers iv actor ts ≡ true → iv.claim_ts ≤ start)
    → Best best start actor ts ivs r
    → Best best start actor ts (iv ∷ ivs) r
Best-stay best start actor ts iv ivs r l (inl (e, n)) = inl (e, (l, n))
Best-stay best start actor ts iv ivs r l (inr (t, m, b, n)) =
    inr (t, m, inr b, ((λ c. omega (arith, l c)), n))

Best-take :
    (best : Bytes) (start : ℕ) (actor : Bytes) (ts : ℕ) (iv : ClaimInterval)
    (ivs : List ClaimInterval) (r : Bytes)
    → covers iv actor ts ≡ true
    → start ≤ iv.claim_ts
    → Best iv.item iv.claim_ts actor ts ivs r
    → Best best start actor ts (iv ∷ ivs) r
Best-take best start actor ts iv ivs r c l (inl (e, n)) =
    inr (iv.claim_ts, l, inl (c, sym e, refl), ((λ d. omega arith), n))
Best-take best start actor ts iv ivs r c l (inr (t, m, b, n)) =
    inr (t, omega arith, inr b, ((λ d. m), n))

best_of_stay :
    (best : Bytes) (start : ℕ) (actor : Bytes) (ts : ℕ) (iv : ClaimInterval)
    (ivs : List ClaimInterval)
    → (covers iv actor ts && (is_nil best || ltb start iv.claim_ts)) ≡ false
    → best_of best start actor ts ivs ≡ best_of best start actor ts (iv ∷ ivs)
unfolding best_of
best_of_stay best start actor ts iv ivs h = rw h refl

best_of_take :
    (best : Bytes) (start : ℕ) (actor : Bytes) (ts : ℕ) (iv : ClaimInterval)
    (ivs : List ClaimInterval)
    → (covers iv actor ts && (is_nil best || ltb start iv.claim_ts)) ≡ true
    → best_of iv.item iv.claim_ts actor ts ivs ≡ best_of best start actor ts (iv ∷ ivs)
unfolding best_of
best_of_take best start actor ts iv ivs h = rw h refl

best_of-Best :
    (best : Bytes) (start : ℕ) (actor : Bytes) (ts : ℕ) (ivs : List ClaimInterval)
    → is_nil best ≡ false
    → All HasItem ivs
    → Best best start actor ts ivs (best_of best start actor ts ivs)
best_of-Best best start actor ts [] h a = unfold best_of in inl (refl, tt)
best_of-Best best start actor ts (iv ∷ ivs) h a =
    elim (Bool-cases (covers iv actor ts && (is_nil best || ltb start iv.claim_ts))) [
      | inl c ↦
          subst (Best best start actor ts (iv ∷ ivs)) (best_of_take best start actor ts iv ivs c) (
            Best-take best start actor ts iv ivs _ (ground arith) (ground arith)
              (best_of-Best iv.item iv.claim_ts actor ts ivs a.0 a.1))
      | inr c ↦
          subst (Best best start actor ts (iv ∷ ivs)) (best_of_stay best start actor ts iv ivs c) (
            Best-stay best start actor ts iv ivs _ (λ d. ground arith)
              (best_of-Best best start actor ts ivs h a.1))
    ]

-- What the item that a message is booked on is.
abbrev pub IsBooking : Bytes → Bytes → ℕ → List ClaimInterval → Type 0
IsBooking r actor ts ivs =
    ((r ≡ []) × All (λ iv. covers iv actor ts ≡ false) ivs)
    ⊎ ((t : ℕ) × Booked r t actor ts ivs × NoneLater t actor ts ivs)

IsBooking-skip :
    (r actor : Bytes) (ts : ℕ) (iv : ClaimInterval) (ivs : List ClaimInterval)
    → covers iv actor ts ≡ false
    → IsBooking r actor ts ivs
    → IsBooking r actor ts (iv ∷ ivs)
IsBooking-skip r actor ts iv ivs c (inl (e, n)) = inl (e, (c, n))
IsBooking-skip r actor ts iv ivs c (inr (t, b, n)) = inr (t, inr b, ((λ d. cc), n))

Best-IsBooking :
    (r actor : Bytes) (ts : ℕ) (iv : ClaimInterval) (ivs : List ClaimInterval)
    → covers iv actor ts ≡ true
    → Best iv.item iv.claim_ts actor ts ivs r
    → IsBooking r actor ts (iv ∷ ivs)
Best-IsBooking r actor ts iv ivs c (inl (e, n)) =
    inr (iv.claim_ts, inl (c, sym e, refl), ((λ d. omega arith), n))
Best-IsBooking r actor ts iv ivs c (inr (t, m, b, n)) = inr (t, inr b, ((λ d. m), n))

best_of-IsBooking :
    (ivs : List ClaimInterval) (actor : Bytes) (ts : ℕ)
    → All HasItem ivs
    → IsBooking (best_of [] 0 actor ts ivs) actor ts ivs
best_of-IsBooking [] actor ts a = unfold best_of in inl (refl, tt)
best_of-IsBooking (iv ∷ ivs) actor ts a = elim (Bool-cases (covers iv actor ts)) [
  | inr c ↦
      subst (λ r. IsBooking r actor ts (iv ∷ ivs))
        (best_of_stay [] 0 actor ts iv ivs (ground arith))
        (IsBooking-skip _ actor ts iv ivs c (best_of-IsBooking ivs actor ts a.1))
  | inl c ↦
      subst (λ r. IsBooking r actor ts (iv ∷ ivs))
        (best_of_take [] 0 actor ts iv ivs (ground arith))
        (Best-IsBooking _ actor ts iv ivs c (best_of-Best iv.item iv.claim_ts actor ts ivs a.0 a.1))
]

abbrev HasKey : Open → Type 0
HasKey o = is_nil o.item ≡ false

drop_open-All :
    (actor item : Bytes) (os : List Open) → All HasKey os → All HasKey (drop_open actor item os)
unfolding drop_open
drop_open-All actor item [] h = tt
drop_open-All actor item (o ∷ os) h = elim (Bool-cases (same_key actor item o)) [
  | inl e ↦ rw e (drop_open-All actor item os h.1)
  | inr e ↦ rw e (h.0, drop_open-All actor item os h.1)
]

abbrev IsLog : List Open × List ClaimInterval → Type 0
IsLog s = All HasKey s.0 × All HasItem s.1

absorb-IsLog : (e : Entry) (s : List Open × List ClaimInterval) → IsLog s → IsLog (absorb e s)
unfolding absorb
absorb-IsLog e (os, ivs) h = elim (Bool-cases (is_nil e.actor || is_nil e.item)) [
  | inl q ↦ rw q h
  | inr q ↦ elim (Option-cases e.ts) [
    | inl n ↦ rw (q, n) h
    | inr (t, n) ↦ elim (Bool-cases (same e.kind (codes "work.claim"))) [
      | inl c ↦ rw (q, n, c) ((ground arith, drop_open-All e.actor e.item os h.0), h.1)
      | inr c ↦ elim (Bool-cases (releases e.kind)) [
        | inr d ↦ rw (q, n, c, d) h
        | inl d ↦ elim (Option-cases (find_open e.actor e.item os)) [
          | inl f ↦ rw (q, n, c, d, f) h
          | inr (since, f) ↦
              rw (q, n, c, d, f)
                (
                  drop_open-All e.actor e.item os h.0,
                  All-append HasItem ivs (_ ∷ []) h.1 ((ground arith), tt),
                )
        ]
      ]
    ]
  ]
]

absorb_all-IsLog :
    (es : List Entry) (s : List Open × List ClaimInterval) → IsLog s → IsLog (absorb_all es s)
unfolding absorb_all
absorb_all-IsLog [] s h = h
absorb_all-IsLog (e ∷ es) s h = absorb_all-IsLog es (absorb e s) (absorb-IsLog e s h)

still_open-All : (os : List Open) → All HasKey os → All HasItem (still_open os)
still_open-All [] h = tt
still_open-All (o ∷ os) h = (h.0, still_open-All os h.1)

-- For the intervals of any log: a message of an agent that no claim of that agent covers is booked on
-- no item; any other is booked on the item of a claim that covers it, and no claim that covers it
-- started later than that one.
pub attribute-build_claim_intervals :
    (es : List Entry) (actor : Bytes) (ts : ℕ)
    → IsBooking (attribute (build_claim_intervals es) actor ts) actor ts (build_claim_intervals es)
unfolding build_claim_intervals attribute
attribute-build_claim_intervals es actor ts =
    let h = absorb_all-IsLog es ([], []) (tt, tt) in
    best_of-IsBooking (build_claim_intervals es) actor ts (
      All-append HasItem (absorb_all es ([], [])).1 (still_open (absorb_all es ([], [])).0) h.1
        (still_open-All (absorb_all es ([], [])).0 h.0))
