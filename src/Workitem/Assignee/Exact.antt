-- ===== src/Workitem/Assignee/Exact.antt =====
-- internal/workitem/assigneegate.go: which assignees ValidateAssignee accepts. Case is that of ASCII.
use macguffin.Prelude.{
  All, ◌<◌, ◌≡◌, ◌≤◌, ◌⊎◌, ◌↔◌, ◌∙◌, ap, refl, sym, subst, arith, Option-cases, true, false, List,
  [], ◌∷◌, none, some, Bytes, codes, same, same_iff, is_nil, length, ltb, leb, trim_space,
  has_prefix, cut_prefix, Bool-cases, inl, inr, eq→same,
}
use macguffin.Lines.{cut}
use macguffin.Workitem.Resolve.{good, bad}
use macguffin.Workitem.Guards.{to_lower, equal_fold}
use macguffin.Workitem.Assignee.{
  gate_prefix, assignee_gate, byte_distance, near_miss, validate_gate, validate_plain,
  validate_sentinels, gate_sentinels, validate_assignee,
}
use macguffin.Workitem.Assignee.Levenshtein.{levenshtein, turn, byte_distance-levenshtein}

-- Text of which strings.TrimSpace, ToLower and EqualFold are those of the model.
abbrev pub IsAscii : Bytes → Type 0
IsAscii = All (λ c. c < 128)

-- The first, without the space around it, is the second in another case, or has four bytes at least and is
-- within two edits of it.
abbrev pub IsNear : Bytes → Bytes → Type 0
IsNear a b =
    (to_lower (trim_space a) ≡ to_lower b)
    ⊎ ((4 ≤ length (to_lower (trim_space a)))
        × (levenshtein (turn (to_lower (trim_space a)) []) (turn (to_lower b) []) ≤ 2))

near_miss_iff : (a b : Bytes) → (near_miss a b ≡ true) ↔ IsNear a b
unfolding near_miss
near_miss_iff a b =
    let x = to_lower (trim_space a) in
    let y = to_lower b in
    let d = byte_distance-levenshtein x y in
    elim (Bool-cases (same x y)) [
      | inl e ↦ ((λ h. inl ((same_iff x y).0 e)), (λ h. rw e refl))
      | inr e ↦ elim (Bool-cases (ltb (length x) 4)) [
        | inl l ↦
            let v : near_miss a b ≡ false = rw (e, near_miss) (rw l refl) in
            (
              (λ h. absurd (cc (v, h))),
              (λ h. elim h [
                | inl p ↦ absurd (cc (e, eq→same x y p))
                | inr p ↦ absurd (ground (arith, l, p.0))
              ]),
            )
        | inr l ↦
            let v : near_miss a b ≡ leb (byte_distance x y) 2 = rw (e, near_miss) (rw l refl) in
            (
              (λ h.
                  let m : leb (byte_distance x y) 2 ≡ true = sym v ∙ h in
                  let t : byte_distance x y ≤ 2 = ground (arith, m) in
                  inr (ground (arith, l), subst (λ n. n ≤ 2) d t)),
              (λ h. elim h [
                | inl p ↦ absurd (cc (e, eq→same x y p))
                | inr p ↦
                    let t : byte_distance x y ≤ 2 = subst (λ n. n ≤ 2) (sym d) p.1 in
                    v ∙ ground (arith, t)
              ]),
            )
      ]
    ]

near_miss-not_IsNear : (a b : Bytes) → near_miss a b ≡ false → IsNear a b → ⊥
near_miss-not_IsNear a b h n = cc (h, (near_miss_iff a b).1 n)

-- The value is what the dispatcher compares with: no gate that is spelled otherwise.
pub data IsExact (value : Bytes) : Type 0 where
  nobody : is_nil value ≡ true → IsExact value
  gate :
      (agent : Bytes)
      → cut (codes ":") value ≡ some (gate_prefix, agent)
      → is_nil (trim_space agent) ≡ false
      → IsExact value
  other_colon :
      (head tail : Bytes)
      → cut (codes ":") value ≡ some (head, tail)
      → (IsNear head gate_prefix → ⊥)
      → IsExact value
  sentinel : (s : Bytes) → value ≡ s → (s ≡ codes "human") ⊎ (s ≡ codes "parked") → IsExact value
  other :
      cut (codes ":") value ≡ none
      → equal_fold value (codes "human") ≡ false
      → equal_fold value (codes "parked") ≡ false
      → has_prefix gate_prefix (to_lower value) ≡ false
      → (IsNear value gate_prefix → ⊥)
      → IsExact value

validate_gate-IsExact :
    (value head tail : Bytes)
    → cut (codes ":") value ≡ some (head, tail)
    → validate_gate head tail ≡ good tt
    → IsExact value
unfolding validate_gate
validate_gate-IsExact value head tail c h = elim (Bool-cases (same head gate_prefix)) [
  | inl y ↦ elim (Bool-cases (is_nil (trim_space tail))) [
    | inr n ↦ gate tail (c ∙ ap (λ x. some (x, tail)) ((same_iff head gate_prefix).0 y)) n
    | inl n ↦
        let v : validate_gate head tail ≡ bad assignee_gate = rw (y, n) refl in absurd (cc (v, h))
  ]
  | inr y ↦ elim (Bool-cases (near_miss head gate_prefix)) [
    | inl n ↦
        let v : validate_gate head tail ≡ bad assignee_gate = rw (y, n) refl in absurd (cc (v, h))
    | inr n ↦ other_colon head tail c (near_miss-not_IsNear head gate_prefix n)
  ]
]

validate_plain-IsExact :
    (value : Bytes)
    → cut (codes ":") value ≡ none
    → equal_fold value (codes "human") ≡ false
    → equal_fold value (codes "parked") ≡ false
    → validate_plain value ≡ good tt
    → IsExact value
unfolding validate_plain
validate_plain-IsExact value c p q h = elim (Bool-cases (has_prefix gate_prefix (to_lower value))) [
  | inl y ↦ let v : validate_plain value ≡ bad assignee_gate = rw y refl in absurd (cc (v, h))
  | inr y ↦ elim (Bool-cases (near_miss value gate_prefix)) [
    | inl n ↦
        let v : validate_plain value ≡ bad assignee_gate = rw (y, n) refl in absurd (cc (v, h))
    | inr n ↦ other c p q y (near_miss-not_IsNear value gate_prefix n)
  ]
]

-- one round of the loop over the sentinels
sentinel-step :
    (s : Bytes) (ss : List Bytes) (value : Bytes)
    → validate_sentinels (s ∷ ss) value ≡ good tt
    → (value ≡ s) ⊎ ((equal_fold value s ≡ false) × (validate_sentinels ss value ≡ good tt))
unfolding validate_sentinels
sentinel-step s ss value h = elim (Bool-cases (same value s)) [
  | inl y ↦ inl ((same_iff value s).0 y)
  | inr y ↦ elim (Bool-cases (equal_fold value s)) [
    | inl n ↦
        let v : validate_sentinels (s ∷ ss) value ≡ bad assignee_gate = rw (y, n) refl in
        absurd (cc (v, h))
    | inr n ↦
        let v : validate_sentinels (s ∷ ss) value ≡ validate_sentinels ss value = rw (y, n) refl in
        inr (n, sym v ∙ h)
  ]
]

validate_sentinels-IsExact :
    (value : Bytes)
    → cut (codes ":") value ≡ none
    → validate_sentinels gate_sentinels value ≡ good tt
    → IsExact value
unfolding validate_sentinels
validate_sentinels-IsExact value c h =
    elim (sentinel-step (codes "human") (codes "parked" ∷ []) value h) [
      | inl e ↦ sentinel (codes "human") e (inl refl)
      | inr (n, r) ↦ elim (sentinel-step (codes "parked") [] value r) [
        | inl e ↦ sentinel (codes "parked") e (inr refl)
        | inr (m, q) ↦ validate_plain-IsExact value c n m q
      ]
    ]

IsNear-near_miss : (a b : Bytes) → (IsNear a b → ⊥) → near_miss a b ≡ false
IsNear-near_miss a b n = elim (Bool-cases (near_miss a b)) [
  | inl y ↦ absurd (n ((near_miss_iff a b).0 y))
  | inr y ↦ y
]

prefix-IsNear : IsNear gate_prefix gate_prefix
unfolding to_lower trim_space
prefix-IsNear = inl refl

IsExact-validate_gate :
    (head tail : Bytes) → (IsNear head gate_prefix → ⊥) → validate_gate head tail ≡ good tt
unfolding validate_gate
IsExact-validate_gate head tail n =
    let m = IsNear-near_miss head gate_prefix n in
    let other_head : same head gate_prefix ≡ false = elim (Bool-cases (same head gate_prefix)) [
      | inr y ↦ y
      | inl y ↦ absurd (
          n (
            subst (λ x. IsNear x gate_prefix) (sym ((same_iff head gate_prefix).0 y))
              prefix-IsNear))
    ] in
    rw (other_head, m) refl

-- the sentinels themselves
accepts_human : validate_sentinels gate_sentinels (codes "human") ≡ good tt
unfolding validate_sentinels same
accepts_human = refl

accepts_parked : validate_sentinels gate_sentinels (codes "parked") ≡ good tt
unfolding validate_sentinels same equal_fold
accepts_parked = refl

accepts_sentinel :
    (value s : Bytes)
    → validate_sentinels gate_sentinels s ≡ good tt
    → value ≡ s
    → validate_sentinels gate_sentinels value ≡ good tt
accepts_sentinel value s h e = subst (λ x. validate_sentinels gate_sentinels x ≡ good tt) (sym e) h

accepts_other :
    (value : Bytes)
    → equal_fold value (codes "human") ≡ false
    → equal_fold value (codes "parked") ≡ false
    → has_prefix gate_prefix (to_lower value) ≡ false
    → near_miss value gate_prefix ≡ false
    → validate_sentinels gate_sentinels value ≡ good tt
unfolding validate_sentinels validate_plain
accepts_other value p q x m = elim (Bool-cases (same value (codes "human"))) [
  | inl y ↦
      accepts_sentinel value (codes "human") accepts_human ((same_iff value (codes "human")).0 y)
  | inr y ↦ elim (Bool-cases (same value (codes "parked"))) [
    | inl z ↦
        accepts_sentinel value (codes "parked") accepts_parked
          ((same_iff value (codes "parked")).0 z)
    | inr z ↦ rw (y, p) (rw (z, q) (rw (x, m) refl))
  ]
]

IsExact-sentinels :
    (value : Bytes)
    → IsExact value
    → is_nil value ≡ false
    → cut (codes ":") value ≡ none
    → validate_sentinels gate_sentinels value ≡ good tt
IsExact-sentinels value (nobody e) n c = absurd (cc (e, n))
IsExact-sentinels value (gate agent e x) n c = absurd (cc (e, c))
IsExact-sentinels value (other_colon head tail e x) n c = absurd (cc (e, c))
IsExact-sentinels value (sentinel s e (inl x)) n c =
    accepts_sentinel value (codes "human") accepts_human (e ∙ x)
IsExact-sentinels value (sentinel s e (inr x)) n c =
    accepts_sentinel value (codes "parked") accepts_parked (e ∙ x)
IsExact-sentinels value (other e p q x y) n c =
    accepts_other value p q x (IsNear-near_miss value gate_prefix y)

human_cut : cut (codes ":") (codes "human") ≡ none
unfolding cut cut_prefix
human_cut = refl

parked_cut : cut (codes ":") (codes "parked") ≡ none
unfolding cut cut_prefix
parked_cut = refl

IsExact-gate :
    (value head tail : Bytes)
    → IsExact value
    → is_nil value ≡ false
    → cut (codes ":") value ≡ some (head, tail)
    → validate_gate head tail ≡ good tt
unfolding validate_gate
IsExact-gate value head tail (nobody e) n c = absurd (cc (e, n))
IsExact-gate value head tail (gate agent e x) n c =
    let h : gate_prefix ≡ head = cc (sym e ∙ c) in
    let t : agent ≡ tail = cc (sym e ∙ c) in
    let y : same head gate_prefix ≡ true = eq→same head gate_prefix (sym h) in
    let z : is_nil (trim_space tail) ≡ false = ap (λ w. is_nil (trim_space w)) (sym t) ∙ x in
    rw (y, z) refl
IsExact-gate value head tail (other_colon head' tail' e x) n c =
    let h : head' ≡ head = cc (sym e ∙ c) in
    IsExact-validate_gate head tail (λ q. x (subst (λ w. IsNear w gate_prefix) (sym h) q))
IsExact-gate value head tail (sentinel s e (inl x)) n c =
    absurd (cc (c, human_cut, ap (cut (codes ":")) (e ∙ x)))
IsExact-gate value head tail (sentinel s e (inr x)) n c =
    absurd (cc (c, parked_cut, ap (cut (codes ":")) (e ∙ x)))
IsExact-gate value head tail (other e p q x y) n c = absurd (cc (e, c))

-- An assignee of ASCII bytes is accepted exactly if the trimmed value is empty; or is the gate `blocked:` with an agent; or
-- is human or parked; or has another word before its first colon, which is not near to the prefix; or
-- has no colon, differs from human and parked not in case alone, does not begin with the prefix in any
-- case, and is not near to it. Near is the prefix in another case, with space around it, or a text of
-- at least four bytes whose Levenshtein distance from the prefix is at most two.
pub validate_assignee-IsExact :
    (v : Bytes) → IsAscii v → (validate_assignee v ≡ good tt) ↔ IsExact (trim_space v)
unfolding validate_assignee
validate_assignee-IsExact v _ = elim (Bool-cases (is_nil (trim_space v))) [
  | inl y ↦ ((λ h. nobody y), (λ h. rw y refl))
  | inr y ↦ elim (Option-cases (cut (codes ":") (trim_space v))) [
    | inl n ↦
        let q : validate_assignee v ≡ validate_sentinels gate_sentinels (trim_space v) =
          rw (y, n) refl in
        (
          (λ h. validate_sentinels-IsExact (trim_space v) n (sym q ∙ h)),
          (λ h. q ∙ IsExact-sentinels (trim_space v) h y n),
        )
    | inr (p, n) ↦
        let q : validate_assignee v ≡ validate_gate p.0 p.1 = rw (y, n) refl in
        (
          (λ h. validate_gate-IsExact (trim_space v) p.0 p.1 n (sym q ∙ h)),
          (λ h. q ∙ IsExact-gate (trim_space v) p.0 p.1 h y n),
        )
  ]
]
