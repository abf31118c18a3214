-- ===== src/Workitem/Assignee.antt =====
-- internal/workitem/assigneegate.go: an assignee that looks like a gate must be one. Case is that of
-- ASCII; the texts of the errors, with the spelling they suggest, are not modelled.
pub mod Levenshtein
pub mod Exact
use macguffin.Prelude.{
  ℕ, suc, ◌+◌, ◌≡◌, ◌⊎◌, ◌∙◌, ap, refl, sym, Option-cases, Bool, true, false, not, ◌&&◌, ◌||◌, List,
  [], ◌∷◌, none, some, Bytes, codes, same, same_iff, is_nil, length, ltb, leb, ◌==◌, trim_space,
  has_prefix, if◌then◌else◌, Bool-cases, inl, inr,
}
use macguffin.Lines.{cut}
use macguffin.Mgerr
use macguffin.Workitem.Resolve.{Outcome, good, bad, Failure, refusal}
use macguffin.Workitem.Guards.{to_lower, equal_fold}

-- gatePrefix
abbrev pub gate_prefix : Bytes
gate_prefix = codes "blocked"

-- errAssigneeGate
abbrev pub assignee_gate : Failure
assignee_gate = refusal Mgerr.usage (codes "invalid_value") false

-- min
abbrev pub lesser : ℕ → ℕ → ℕ
lesser m n = if leb m n then m else n

-- the inner loop of editDistance: the cells right of `left`, below those of the row above
unfoldable pub next_cells : ℕ → Bytes → ℕ → List ℕ → List ℕ
next_cells c [] left above = []
next_cells c (d ∷ ds) left [] = []
next_cells c (d ∷ ds) left (p ∷ []) = []
next_cells c (d ∷ ds) left (p ∷ q ∷ ps) =
    let cell = lesser (suc left) (lesser (suc q) (p + (if c == d then 0 else 1))) in
    cell ∷ next_cells c ds cell (q ∷ ps)

-- the loop over the bytes of the first text, from the row of the n bytes before them
unfoldable pub last_row : ℕ → Bytes → Bytes → List ℕ → List ℕ
unfolding next_cells
last_row n [] b row = row
last_row n (c ∷ cs) b row = last_row (suc n) cs b (suc n ∷ next_cells c b (suc n) row)

-- the row of no bytes
unfoldable pub count_up : ℕ → Bytes → List ℕ
count_up n [] = n ∷ []
count_up n (c ∷ cs) = n ∷ count_up (suc n) cs

unfoldable pub last_cell : List ℕ → ℕ
last_cell [] = 0
last_cell (n ∷ []) = n
last_cell (n ∷ m ∷ ns) = last_cell (m ∷ ns)

-- editDistance of assigneegate.go
unfoldable pub byte_distance : Bytes → Bytes → ℕ
unfolding last_row count_up last_cell
byte_distance a b = last_cell (last_row 0 a b (count_up 0 b))

-- nearMiss
unfoldable pub near_miss : Bytes → Bytes → Bool
unfolding to_lower trim_space same byte_distance
near_miss a b =
    let x = to_lower (trim_space a) in
    let y = to_lower b in
    if same x y then true else if ltb (length x) 4 then false else leb (byte_distance x y) 2

-- ValidateAssignee of a value with a colon
unfoldable pub validate_gate : Bytes → Bytes → Outcome (Unit {0})
unfolding same trim_space near_miss
validate_gate head tail =
    if same head gate_prefix && not (is_nil (trim_space tail))
    then good tt
    else if same head gate_prefix
    then bad assignee_gate
    else if near_miss head gate_prefix
    then bad assignee_gate
    else good tt

-- the end of ValidateAssignee, of a value that is no sentinel
unfoldable pub validate_plain : Bytes → Outcome (Unit {0})
unfolding has_prefix to_lower near_miss
validate_plain value =
    if has_prefix gate_prefix (to_lower value) || near_miss value gate_prefix
    then bad assignee_gate
    else good tt

-- the loop of ValidateAssignee over gateSentinels
unfoldable pub validate_sentinels : List Bytes → Bytes → Outcome (Unit {0})
unfolding same equal_fold validate_plain
validate_sentinels [] value = validate_plain value
validate_sentinels (s ∷ ss) value =
    let rest = validate_sentinels ss value in
    if same value s then good tt else if equal_fold value s then bad assignee_gate else rest

-- gateSentinels
abbrev pub gate_sentinels : List Bytes
gate_sentinels = codes "human" ∷ codes "parked" ∷ []

-- ValidateAssignee
unfoldable pub validate_assignee : Bytes → Outcome (Unit {0})
unfolding trim_space cut validate_gate validate_sentinels
validate_assignee v =
    let value = trim_space v in
    if is_nil value then good tt else elim (cut (codes ":") value) [
      | some (head, tail) ↦ validate_gate head tail
      | none ↦ validate_sentinels gate_sentinels value
    ]
