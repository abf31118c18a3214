-- ===== src/Tests/Bodies.antt =====
-- Naming a saved body, with stamps of one digit.
use macguffin.Prelude.{
  ℕ, ◌+◌, ◌<◌, ◌-◌, ◌≡◌, ◌≢◌, refl, ap, ◌∙◌, arith, List, [], ◌∷◌, ◌++◌, Option, none, some, Bytes,
  codes, length, cut_prefix, keep, All, ltb, ◌||◌, true, if◌then◌else◌,
}
use macguffin.Workitem.Archive.{
  is_backup, parse_backup_name, text_below, sort_down, drop, body_backup_keep,
}
use macguffin.Workitem.Bodies
use macguffin.Workitem.Bodies.Pruned
use macguffin.Workitem.Bodies.Stamps

-- the moments before the tenth, as digits
abbrev parse_stamp : Bytes → Option ℕ
parse_stamp [] = none
parse_stamp (c ∷ []) = if ltb c 48 || ltb 57 c then none else some (c - 48)
parse_stamp (c ∷ d ∷ s) = none

abbrev print_stamp : ℕ → Bytes
print_stamp t = (48 + t) ∷ []

parsed_width : (x : Bytes) (t : ℕ) → parse_stamp x ≡ some t → length x ≡ 1
parsed_width [] t h = absurd (cc)
parsed_width (c ∷ []) t h = refl
parsed_width (c ∷ d ∷ s) t h = absurd (cc)

later :
    (x : Bytes) (t : ℕ)
    → parse_stamp x ≡ some t
    → t + 1 < 10
    → text_below x (print_stamp (t + 1)) ≡ true
unfolding text_below
later [] t h r = absurd (cc)
later (c ∷ []) t h r = ground arith
later (c ∷ d ∷ s) t h r = absurd (cc)

abbrev before : List Bytes
before = codes "3-ab.md" ∷ []

abbrev after : List Bytes
after = codes "notes" ∷ []

-- the clock stepped back, so the new body follows the newest
next_backup_name_test :
    Bodies.next_backup_name parse_stamp print_stamp (before ++ after) 2 (codes "cd")
    ≡ codes "4-cd.md"
unfolding Bodies.next_backup_name cut_prefix
next_backup_name_test = refl

abbrev IsEarly : Bytes → Type 0
IsEarly = Stamps.IsEarly parse_stamp 10

third_parsed : parse_backup_name parse_stamp (codes "3-ab.md") ≡ some (codes "3", codes "ab")
unfolding parse_backup_name cut_prefix
third_parsed = refl

notes_parsed : parse_backup_name parse_stamp (codes "notes") ≡ none
unfolding parse_backup_name cut_prefix
notes_parsed = refl

third-IsEarly : IsEarly (codes "3-ab.md")
third-IsEarly x h t e p =
    let stamp : codes "3" ≡ x = cc (e, third_parsed) in
    let moment : some 3 ≡ some t = ap parse_stamp stamp ∙ p in ground (arith, moment)

names-IsEarly : All IsEarly (before ++ after)
names-IsEarly = (third-IsEarly, ((λ x h t e p. absurd (cc (e, notes_parsed))), tt))

next_backup_name-Kept_example :
    All
      (λ n. n ≢ Bodies.next_backup_name parse_stamp print_stamp (before ++ after) 2 (codes "cd"))
      (drop body_backup_keep (
        sort_down (
          keep (is_backup parse_stamp) (
            before
            ++ (Bodies.next_backup_name parse_stamp print_stamp (before ++ after) 2 (codes "cd")
                ∷ after)))))
next_backup_name-Kept_example =
    Pruned.next_backup_name-Kept parse_stamp print_stamp 1 10 parsed_width (λ t r. refl) later
      (omega arith) before after 2 (codes "cd") names-IsEarly (omega arith)
