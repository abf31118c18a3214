-- ===== src/Workitem/Shelve/Sunk.antt =====
-- What shelving may do to the items that a store knows, and the counts by which the cascade ends.
use macguffin.Prelude.{
  ℕ, suc, ◌≤◌, ◌<◌, ◌≡◌, refl, sym, ap, ◌∙◌, arith, Bool, true, false, List, [], ◌∷◌, Option, none,
  some, Bytes, is_nil, All, if◌then◌else◌, Bool-cases, inl, inr, ◌⊎◌,
}
use macguffin.Store.{shelved, State, in_status, Actor}
use macguffin.Store.Spec.{View, Entry}
use macguffin.Workitem.Item.{Item, parse}
use macguffin.Workitem.Resolve.{qualifier}
use macguffin.Workitem.Shelve.{shelvable, depends_on}

-- an item that could be shelved
abbrev pub is_active : Option Entry → Bool
is_active o = elim o [ none ↦ false | some e ↦ shelvable e.state.status ]

abbrev pub Listed : Bytes → List Bytes → Type 0
Listed x [] = ⊥
Listed x (y ∷ ys) = (y ≡ x) ⊎ Listed x ys

-- how many of the ids are active
abbrev pub active_count : List Bytes → View → ℕ
active_count [] v = 0
active_count (j ∷ js) v = if is_active (v j) then suc (active_count js v) else active_count js v

module _ (derive : State → Actor → State) (by : Actor) (IsId : Bytes → Type 0)
    (parse_time : Bytes → Option ℕ)
    (buried : shelvable (derive (in_status shelved) by).status ≡ false) where
  -- The id is as it was, or its item was active and is shelved now.
  abbrev pub SunkAt : View → View → Bytes → Type 0
  SunkAt v w j =
      (w j ≡ v j)
      ⊎ ((e : Entry) × (v j ≡ some e)
          × (shelvable e.state.status ≡ true)
          × (w j ≡ some (record e { state = derive (in_status shelved) by })))

  abbrev pub Sunk : View → View → Type 0
  Sunk v w = (j : Bytes) → IsId j → SunkAt v w j

  SunkAt-stays : (v w : View) (j : Bytes) → SunkAt v w j → is_active (v j) ≡ false → w j ≡ v j
  SunkAt-stays v w j (inl e) a = e
  SunkAt-stays v w j (inr (e, p, s, q)) a = absurd (cc (a, ap is_active p, s))

  pub SunkAt-active : (v w : View) (j : Bytes) → SunkAt v w j → is_active (w j) ≡ true → w j ≡ v j
  SunkAt-active v w j (inl e) a = e
  SunkAt-active v w j (inr (e, p, s, q)) a = absurd (cc (a, ap is_active q, buried))

  pub SunkAt-inactive :
      (v w : View) (j : Bytes) → SunkAt v w j → is_active (v j) ≡ false → is_active (w j) ≡ false
  SunkAt-inactive v w j s a = ap is_active (SunkAt-stays v w j s a) ∙ a

  SunkAt-trans : (v w u : View) (j : Bytes) → SunkAt v w j → SunkAt w u j → SunkAt v u j
  SunkAt-trans v w u j (inl e) (inl f) = inl (f ∙ e)
  SunkAt-trans v w u j (inl e) (inr (x, p, s, q)) = inr (x, sym e ∙ p, s, q)
  SunkAt-trans v w u j (inr (x, p, s, q)) (inl f) = inr (x, p, s, f ∙ q)
  SunkAt-trans v w u j (inr (x, p, s, q)) t =
      inr (x, p, s, SunkAt-stays w u j t (ap is_active q ∙ buried) ∙ q)

  pub Sunk-refl : (v w : View) → ((j : Bytes) → IsId j → w j ≡ v j) → Sunk v w
  Sunk-refl v w h j i = inl (h j i)

  pub Sunk-trans : (v w u : View) → Sunk v w → Sunk w u → Sunk v u
  Sunk-trans v w u h q j i = SunkAt-trans v w u j (h j i) (q j i)

  pub active_count-Sunk :
      (js : List Bytes) (v w : View)
      → All IsId js
      → Sunk v w
      → active_count js w ≤ active_count js v
  active_count-Sunk [] v w i h = omega arith
  active_count-Sunk (j ∷ js) v w i h =
      ground (arith, active_count-Sunk js v w i.1 h, SunkAt-inactive v w j (h j i.0))

  pub active_count-less :
      (js : List Bytes) (v w : View) (x : Bytes)
      → All IsId js
      → Sunk v w
      → Listed x js
      → is_active (v x) ≡ true
      → is_active (w x) ≡ false
      → active_count js w < active_count js v
  active_count-less [] v w x i h l a z = absurd l
  active_count-less (j ∷ js) v w x i h (inl e) a z =
      let m = active_count-Sunk js v w i.1 h in
      let aj : is_active (v j) ≡ true = ap (λ y. is_active (v y)) e ∙ a in
      let zj : is_active (w j) ≡ false = ap (λ y. is_active (w y)) e ∙ z in
      rw (aj, zj) (omega (arith, m))
  active_count-less (j ∷ js) v w x i h (inr l) a z =
      ground (arith, active_count-less js v w x i.1 h l a z, SunkAt-inactive v w j (h j i.0))

  -- No active item depends on one that was shelved in between.
  abbrev pub IsSettled : View → View → Type 0
  IsSettled v w =
      (x j : Bytes)
      → IsId x
      → IsId j
      → is_active (v x) ≡ true
      → is_active (w x) ≡ false
      → (e : Entry) → w j ≡ some e
      → shelvable e.state.status ≡ true
      → (it : Item) → parse parse_time e.content ≡ some it
      → depends_on x it ≡ false

  pub IsSettled-trans : (v w u : View) → Sunk w u → IsSettled v w → IsSettled w u → IsSettled v u
  IsSettled-trans v w u h p q x j ix ij a z e m s it r = elim (Bool-cases (is_active (w x))) [
    | inl y ↦ q x j ix ij y z e m s it r
    | inr y ↦ p x j ix ij a y e (sym (SunkAt-active w u j (h j ij) (ap is_active m ∙ s)) ∙ m) s it r
  ]

  -- Every id that the store knows is a plain one, and that of its item's text.
  abbrev pub IsTidy : View → Type 0
  IsTidy v =
      (j : Bytes)
      → IsId j
      → (e : Entry) → v j ≡ some e
      → (is_nil j ≡ false)
        × (qualifier j ≡ (j, none))
        × ((it : Item) → parse parse_time e.content ≡ some it → it.id ≡ j)

  IsTidy-at :
      (v w : View) (j : Bytes) (e : Entry)
      → SunkAt v w j
      → w j ≡ some e
      → (e' : Entry) × (v j ≡ some e') × (e'.content ≡ e.content)
  IsTidy-at v w j e (inl q) h = (e, sym q ∙ h, refl)
  IsTidy-at v w j e (inr (x, p, s, q)) h = (x, p, content_same x e (sym q ∙ h))
    where
      content_same :
          (x' e' : Entry)
          → some (record x' { state = derive (in_status shelved) by }) ≡ some e'
          → x'.content ≡ e'.content
      content_same x' e' r = ap (λ o. elim o [ none ↦ x'.content | some y ↦ y.content ]) r

  pub IsTidy-Sunk : (v w : View) → Sunk v w → IsTidy v → IsTidy w
  IsTidy-Sunk v w h t j i e q =
      let b = IsTidy-at v w j e (h j i) q in
      let r = t j i b.0 b.1 in (r.0, r.1, λ it p. r.2 it (ap (parse parse_time) b.2 ∙ p))

  -- Every active item is listed.
  abbrev pub Covers : List Bytes → View → Type 0
  Covers js v = (j : Bytes) → IsId j → is_active (v j) ≡ true → Listed j js

  pub Covers-Sunk : (js : List Bytes) (v w : View) → Sunk v w → Covers js v → Covers js w
  Covers-Sunk js v w h c j i a = c j i (ap is_active (sym (SunkAt-active v w j (h j i) a)) ∙ a)
