-- ===== src/Workitem/Bodies/Stamps.antt =====
-- internal/workitem/bodybackup.go: the next stamp comes after every stamp that is there.
use macguffin.Prelude.{
  ℕ, ◌+◌, ◌<◌, ◌≡◌, refl, sym, ap, ◌∙◌, subst, arith, true, false, List, [], ◌∷◌, ◌++◌,
  append_assoc, Option, none, some, Bytes, codes, length, is_nil, ◌||◌, All, All-keeps, Bool-cases,
  Option-cases, inl, inr, ◌⊎◌, cut_prefix, cut_prefix_sound, same, same_iff,
}
use macguffin.Lines.{cut}
use macguffin.Workitem.Archive.{before_suffix, parse_backup_name, text_below}
use macguffin.Workitem.Bodies.{newest_stamp, next_stamp}
use macguffin.Workitem.Bodies.Order.{text_below_after, text_below_least, text_below_asym}

before_suffix_sound : (suffix s t : Bytes) → before_suffix suffix s ≡ some t → s ≡ t ++ suffix
unfolding before_suffix
before_suffix_sound [] [] t h = ground (arith, h)
before_suffix_sound (q ∷ suffix) [] t h = absurd (cc)
before_suffix_sound suffix (c ∷ s) t h = elim (Bool-cases (same suffix (c ∷ s))) [
  | inl y ↦ ground (arith, same_iff suffix (c ∷ s), y, h)
  | inr y ↦ elim (Option-cases (before_suffix suffix s)) [
    | inl n ↦ absurd (ground (arith, y, n, h))
    | inr (u, n) ↦ ground (arith, before_suffix_sound suffix s u, y, n, h)
  ]
]

cut_sound : (sep s a r : Bytes) → cut sep s ≡ some (a, r) → s ≡ a ++ (sep ++ r)
unfolding cut
cut_sound sep [] a r h = elim (Option-cases (cut_prefix sep [])) [
  | inl n ↦ absurd (ground (arith, n, h))
  | inr (u, n) ↦ ground (arith, cut_prefix_sound sep [] u, n, h)
]
cut_sound sep (c ∷ s) a r h = elim (Option-cases (cut_prefix sep (c ∷ s))) [
  | inr (u, n) ↦ ground (arith, cut_prefix_sound sep (c ∷ s) u, n, h)
  | inl n ↦ elim (Option-cases (cut sep s)) [
    | inl m ↦ absurd (ground (arith, m, n, h))
    | inr ((u, v), m) ↦ ground (arith, cut_sound sep s u v, m, n, h)
  ]
]

-- The name of a backup begins with its stamp, which is a moment.
pub parse_backup_name_sound :
    (parse_stamp : Bytes → Option ℕ) (n x h : Bytes)
    → parse_backup_name parse_stamp n ≡ some (x, h)
    → (t : ℕ) × (rest : Bytes) × (parse_stamp x ≡ some t) × (is_nil x ≡ false) × (n ≡ x ++ rest)
unfolding parse_backup_name
parse_backup_name_sound parse_stamp n x h e = elim (Option-cases (before_suffix (codes ".md") n)) [
  | inl m ↦
      let w : parse_backup_name parse_stamp n ≡ none = rw (m, parse_backup_name) refl in
      absurd (cc (e, w))
  | inr (base, m) ↦ elim (Option-cases (cut (codes "-") base)) [
    | inl k ↦
        let w : parse_backup_name parse_stamp n ≡ none = rw (m, parse_backup_name) (rw k refl) in
        absurd (cc (e, w))
    | inr ((u, v), k) ↦ elim (Bool-cases (is_nil u || is_nil v)) [
      | inl y ↦
          let w : parse_backup_name parse_stamp n ≡ none =
            rw (m, parse_backup_name) (rw k (rw y refl)) in
          absurd (cc (e, w))
      | inr y ↦ elim (Option-cases (parse_stamp u)) [
        | inl p ↦
            let w : parse_backup_name parse_stamp n ≡ none =
              rw (m, parse_backup_name) (rw k (rw (y, p) refl)) in
            absurd (cc (e, w))
        | inr (t, p) ↦
            let w : parse_backup_name parse_stamp n ≡ some (u, v) =
              rw (m, parse_backup_name) (rw k (rw (y, p) refl)) in
            let same_stamp : u ≡ x = cc (e, w) in
            let whole : n ≡ u ++ ((codes "-" ++ v) ++ codes ".md") =
              before_suffix_sound (codes ".md") n base m
              ∙ ap (λ b. b ++ codes ".md") (cut_sound (codes "-") base u v k)
              ∙ append_assoc u (codes "-" ++ v) (codes ".md") in
            let full : is_nil u ≡ false = ground (arith, y) in
            subst
              (λ x.
                (t : ℕ) × (rest : Bytes) × (parse_stamp x ≡ some t)
                × (is_nil x ≡ false)
                × (n ≡ x ++ rest))
              same_stamp (t, (codes "-" ++ v) ++ codes ".md", p, full, whole)
      ]
    ]
  ]
]

-- The moment of a backup's stamp is not the last one that can be printed.
abbrev pub IsEarly : (Bytes → Option ℕ) → ℕ → Bytes → Type 0
IsEarly parse_stamp limit n =
    (x h : Bytes) (t : ℕ)
    → parse_backup_name parse_stamp n ≡ some (x, h)
    → parse_stamp x ≡ some t
    → t + 1 < limit

module _ (parse_stamp : Bytes → Option ℕ) (print_stamp : ℕ → Bytes) (width limit : ℕ) where
  abbrev AtMost : Bytes → Bytes → Type 0
  AtMost w n =
      (x h : Bytes) → parse_backup_name parse_stamp n ≡ some (x, h) → text_below w x ≡ false

  abbrev IsPrinted : Bytes → Bytes → Type 0
  IsPrinted acc w = (w ≡ acc) ⊎ ((t : ℕ) × (parse_stamp w ≡ some t) × (t + 1 < limit))

  text_below_refl : (a : Bytes) → text_below a a ≡ false
  text_below_refl a = elim (Bool-cases (text_below a a)) [
    | inl y ↦ text_below_asym a a y
    | inr n ↦ n
  ]

  newest_stamp-IsNewest :
      (acc : Bytes) (ns : List Bytes)
      → All (IsEarly parse_stamp limit) ns
      → let w = newest_stamp parse_stamp acc ns in
        (text_below w acc ≡ false) × All (AtMost w) ns × IsPrinted acc w
  unfolding newest_stamp
  newest_stamp-IsNewest acc [] h = (text_below_refl acc, tt, inl refl)
  newest_stamp-IsNewest acc (n ∷ ns) h =
      let w = newest_stamp parse_stamp acc (n ∷ ns) in
      let Goal : Bytes → Type 0 =
        λ w. (text_below w acc ≡ false) × All (AtMost w) (n ∷ ns) × IsPrinted acc w in
      elim (Option-cases (parse_backup_name parse_stamp n)) [
        | inl m ↦
            let v : w ≡ newest_stamp parse_stamp acc ns = rw (m, newest_stamp) refl in
            let q = newest_stamp-IsNewest acc ns h.1 in
            subst Goal (sym v) (q.0, ((λ x k e. absurd (cc (m, e))), q.1), q.2)
        | inr ((x, k), m) ↦
            let above : (x' k' w : Bytes)
                → parse_backup_name parse_stamp n ≡ some (x', k')
                → text_below w x ≡ false
                → text_below w x' ≡ false =
              λ x' k' w e l.
                let same_stamp : x ≡ x' = cc (m, e) in
                subst (λ z. text_below w z ≡ false) same_stamp l in
            let read = parse_backup_name_sound parse_stamp n x k m in
            let moment : (t : ℕ) × (parse_stamp x ≡ some t) × (t + 1 < limit) =
              (read.0, read.2, h.0 x k read.0 m read.2) in
            let printed : (w : Bytes) → IsPrinted x w → IsPrinted acc w = λ w o. elim o [
              | inl e ↦
                  inr (
                    subst (λ z. (t : ℕ) × (parse_stamp z ≡ some t) × (t + 1 < limit)) (sym e)
                      moment)
              | inr a ↦ inr a
            ] in
            elim (Bool-cases (text_below acc x)) [
              | inr y ↦
                  let v : w ≡ newest_stamp parse_stamp acc ns = rw (m, newest_stamp) (rw y refl) in
                  let q = newest_stamp-IsNewest acc ns h.1 in
                  subst Goal (sym v) (
                    q.0,
                    (
                      (λ x' k' e.
                          above x' k' (newest_stamp parse_stamp acc ns) e
                            (text_below_least x acc (newest_stamp parse_stamp acc ns) y q.0)),
                      q.1,
                    ),
                    q.2,
                  )
              | inl y ↦
                  let v : w ≡ newest_stamp parse_stamp x ns = rw (m, newest_stamp) (rw y refl) in
                  let q = newest_stamp-IsNewest x ns h.1 in
                  subst Goal (sym v) (
                    text_below_least acc x (newest_stamp parse_stamp x ns) (text_below_asym acc x y)
                        q.0,
                    ((λ x' k' e. above x' k' (newest_stamp parse_stamp x ns) e q.0), q.1),
                    printed (newest_stamp parse_stamp x ns) q.2,
                  )
            ]
      ]

  text_below-nil : (s : Bytes) → 0 < length s → text_below [] s ≡ true
  unfolding text_below
  text_below-nil [] l = absurd (omega arith)
  text_below-nil (c ∷ s) l = refl

  -- Every stamp that is there is below the next one, which has the width of all.
  pub next_stamp-IsAbove :
      ((x : Bytes) (t : ℕ)
        → parse_stamp x ≡ some t
        → t + 1 < limit
        → text_below x (print_stamp (t + 1)) ≡ true)
      → ((t : ℕ) → t < limit → length (print_stamp t) ≡ width)
      → 0 < width
      → (ns : List Bytes) (now : ℕ) → All (IsEarly parse_stamp limit) ns
      → now < limit
      → let w = next_stamp parse_stamp print_stamp ns now in
        (length w ≡ width)
        × All
            (λ n.
              (x h : Bytes) → parse_backup_name parse_stamp n ≡ some (x, h) → text_below x w ≡ true)
            ns
  unfolding next_stamp
  next_stamp-IsAbove later printed_width wide ns now h room =
      let top = newest_stamp parse_stamp [] ns in
      let q = newest_stamp-IsNewest [] ns h in
      let w = next_stamp parse_stamp print_stamp ns now in
      let Above : Bytes → Bytes → Type 0 = λ w n.
        (x h : Bytes) → parse_backup_name parse_stamp n ≡ some (x, h) → text_below x w ≡ true in
      let over : (w : Bytes) → text_below top w ≡ true → All (Above w) ns =
        λ w l. All-keeps (λ n a x k e. text_below_after x top w (a x k e) l) ns q.1 in
      elim (Bool-cases (text_below top (print_stamp now))) [
        | inl y ↦
            let v : w ≡ print_stamp now = rw (y, next_stamp) refl in
            subst (λ w. (length w ≡ width) × All (Above w) ns) (sym v)
              (printed_width now room, over (print_stamp now) y)
        | inr y ↦ elim q.2 [
          | inl e ↦
              let first : text_below top (print_stamp now) ≡ true =
                subst (λ a. text_below a (print_stamp now) ≡ true) (sym e)
                  (text_below-nil (print_stamp now)
                    (omega (arith, printed_width now room, wide))) in
              absurd (cc (first, y))
          | inr (t, p, l) ↦
              let v : w ≡ print_stamp (t + 1) = rw (y, next_stamp) (rw p refl) in
              subst (λ w. (length w ≡ width) × All (Above w) ns) (sym v)
                (printed_width (t + 1) l, over (print_stamp (t + 1)) (later top t p l))
        ]
      ]
