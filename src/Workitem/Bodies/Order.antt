-- ===== src/Workitem/Bodies/Order.antt =====
-- internal/workitem/bodybackup.go: how Go's order of strings compares stamps and names.
use macguffin.Prelude.{
  ◌≡◌, refl, arith, true, false, [], ◌∷◌, ◌++◌, Bytes, length, Bool-cases, inl, inr,
}
use macguffin.Workitem.Archive.{text_below}

-- If a text is at most the second, and the second is below the third, then so is the first.
pub text_below_after :
    (a b c : Bytes) → text_below b a ≡ false → text_below b c ≡ true → text_below a c ≡ true
unfolding text_below
text_below_after a b [] p q = absurd (cc)
text_below_after [] b (z ∷ c) p q = refl
text_below_after (x ∷ a) [] (z ∷ c) p q = absurd (cc)
text_below_after (x ∷ a) (y ∷ b) (z ∷ c) p q = ground (arith, text_below_after a b c, p, q)

pub text_below_asym : (a b : Bytes) → text_below a b ≡ true → text_below b a ≡ false
unfolding text_below
text_below_asym a [] p = absurd (cc)
text_below_asym [] (y ∷ b) p = refl
text_below_asym (x ∷ a) (y ∷ b) p = ground (arith, text_below_asym a b, p)

pub text_below_before :
    (a b c : Bytes) → text_below a b ≡ true → text_below c b ≡ false → text_below a c ≡ true
unfolding text_below
text_below_before a [] c p q = absurd (cc)
text_below_before [] (y ∷ b) [] p q = absurd (cc)
text_below_before (x ∷ a) (y ∷ b) [] p q = absurd (cc)
text_below_before [] (y ∷ b) (z ∷ c) p q = refl
text_below_before (x ∷ a) (y ∷ b) (z ∷ c) p q = ground (arith, text_below_before a b c, p, q)

-- What is at most at least the other.
pub text_below_least :
    (a b c : Bytes) → text_below b a ≡ false → text_below c b ≡ false → text_below c a ≡ false
text_below_least a b c p q = elim (Bool-cases (text_below c a)) [
  | inl t ↦ absurd (cc (text_below_before c a b t p, q))
  | inr f ↦ f
]

-- Texts of one length are ordered as they are in front of other texts.
pub text_below-++ :
    (a b s t : Bytes)
    → length a ≡ length b
    → text_below a b ≡ true
    → text_below (a ++ s) (b ++ t) ≡ true
unfolding text_below
text_below-++ a [] s t l p = absurd (cc)
text_below-++ [] (y ∷ b) s t l p = absurd (omega arith)
text_below-++ (x ∷ a) (y ∷ b) s t l p =
    let l' : length a ≡ length b = omega arith in ground (arith, text_below-++ a b s t l', p)
