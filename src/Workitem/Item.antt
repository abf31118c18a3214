-- ===== src/Workitem/Item.antt =====
-- internal/workitem/workitem.go: an item as a record, its text, and the reading of that text. Times are
-- numbers, of which 0 is Go's zero time; `parse_time` and `format_time` are time.Parse and Time.Format
-- with RFC3339. Text is ASCII where it is trimmed.
use macguffin.Prelude.{
  ℕ, zero, suc, ◌^◌, ◌&&◌, List, [], ◌∷◌, ◌++◌, Option, none, some, Bytes, codes, same, is_nil,
  ◌==◌, if◌then◌else◌, trim_space, trim_prefix, cut_prefix, atoi_digits, itoa, ltb,
}
use macguffin.Lines.{split_lines, join, text_lines, cut}
use macguffin.Workitem.Title.{reconcile_title_heading, title_of, first_heading_line}

-- int
pub data ℤ : Type 0 where
  pos : ℕ → ℤ
  negsuc : ℕ → ℤ

-- Item, less Mtime
pub record Item : Type 0 where
  pub id : Bytes
  pub kind : Bytes
  pub created : ℕ
  pub creator : Bytes
  pub depends : List Bytes
  pub tags : List Bytes
  pub repo : Bytes
  pub assignee : Bytes
  pub priority : Bytes
  pub branch : Bytes
  pub budget : Option ℤ
  pub title : Bytes
  pub body : Bytes
  pub snooze : ℕ
  pub snooze_raw : Bytes

-- fmt's %d, and strconv.Itoa
unfoldable pub print_int : ℤ → Bytes
unfolding itoa
print_int (pos n) = itoa n
print_int (negsuc n) = codes "-" ++ itoa (suc n)

abbrev magnitude : Bytes → Option ℕ
magnitude s = if is_nil s then none else atoi_digits 0 s

-- strconv.Atoi on 64 bits
unfoldable pub atoi : Bytes → Option ℤ
unfolding atoi_digits
atoi [] = none
atoi (c ∷ s) =
    if c == b'-'
    then elim (magnitude s) [
      | none ↦ none
      | some n ↦ elim n [
        | zero ↦ some (pos 0)
        | suc m ↦ if ltb m (2 ^ 63) then some (negsuc m) else none
      ]
    ]
    else elim (if c == b'+' then magnitude s else atoi_digits 0 (c ∷ s)) [
      | none ↦ none
      | some n ↦ if ltb n (2 ^ 63) then some (pos n) else none
    ]

-- strings.Split(s, ",")
unfoldable pub split_commas : Bytes → List Bytes
split_commas [] = [] ∷ []
split_commas (c ∷ s) =
    let ls = split_commas s in
    if c == b',' then [] ∷ ls else elim ls [ [] ↦ (c ∷ []) ∷ [] | l ∷ more ↦ (c ∷ l) ∷ more ]

unfoldable pub trimmed : List Bytes → List Bytes
unfolding trim_space
trimmed [] = []
trimmed (d ∷ ds) =
    let rest = trimmed ds in let t = trim_space d in if is_nil t then rest else t ∷ rest

-- strings.TrimSuffix(s, "]")
unfoldable pub trim_bracket : Bytes → Bytes
trim_bracket [] = []
trim_bracket (c ∷ s) = let r = trim_bracket s in if is_nil s && c == b']' then [] else c ∷ r

-- parseDependsList
unfoldable pub parse_depends_list : Bytes → List Bytes
unfolding trim_space trim_prefix trim_bracket split_commas trimmed
parse_depends_list val =
    let v = trim_space (trim_bracket (trim_prefix (codes "[") (trim_space val))) in
    if is_nil v then [] else trimmed (split_commas v)

-- the list as Render writes it
unfoldable pub print_list : List Bytes → Bytes
unfolding join
print_list ds = codes "[" ++ (join (codes ", ") ds ++ codes "]")

-- a line of the frontmatter that is left out if the value is empty
abbrev pub value_lines : Bytes → Bytes → List Bytes
value_lines key v = if is_nil v then [] else (key ++ v) ∷ []

unfoldable pub tag_lines : List Bytes → List Bytes
unfolding print_list
tag_lines tags = if is_nil tags then [] else (codes "tags: " ++ print_list tags) ∷ []

unfoldable pub budget_lines : Option ℤ → List Bytes
unfolding print_int
budget_lines budget = elim budget [ none ↦ [] | some n ↦ (codes "budget: " ++ print_int n) ∷ [] ]

abbrev pub blank : Bytes → Item
blank body = record {
  id = [];
  kind = [];
  created = 0;
  creator = [];
  depends = [];
  tags = [];
  repo = [];
  assignee = [];
  priority = [];
  branch = [];
  budget = none;
  title = [];
  body = body;
  snooze = 0;
  snooze_raw = [];
}

-- the lines of the frontmatter that can be left out
unfoldable pub optional_lines : Item → List Bytes
unfolding print_list print_int tag_lines budget_lines
optional_lines it =
    tag_lines it.tags
    ++ (value_lines (codes "repo: ") it.repo
        ++ (value_lines (codes "assignee: ") it.assignee
            ++ (value_lines (codes "priority: ") it.priority
                ++ (value_lines (codes "branch: ") it.branch
                    ++ (budget_lines it.budget ++ value_lines (codes "snooze: ") it.snooze_raw)))))

module _ (format_time : ℕ → Bytes) where
  -- the lines between the fences
  unfoldable pub front_lines : Item → List Bytes
  unfolding optional_lines print_list
  front_lines it =
      (codes "id: " ++ it.id)
      ∷ (codes "type: " ++ it.kind)
      ∷ (codes "created: " ++ format_time it.created)
      ∷ (codes "creator: " ++ it.creator)
      ∷ (codes "depends: " ++ print_list it.depends)
      ∷ optional_lines it

  -- Render
  unfoldable pub render : Item → Bytes
  unfolding reconcile_title_heading front_lines text_lines
  render it =
      codes "---\n"
      ++ text_lines (front_lines it) (codes "---\n" ++ reconcile_title_heading it.body it.title)

module _ (parse_time : Bytes → Option ℕ) where
  -- the switch on the key
  unfoldable pub set_field : Bytes → Bytes → Item → Item
  unfolding parse_depends_list atoi
  set_field key val it =
      if same key (codes "id")
      then record it { id = val }
      else if same key (codes "type")
      then record it { kind = val }
      else if same key (codes "created")
      then elim (parse_time val) [ none ↦ it | some t ↦ record it { created = t } ]
      else if same key (codes "creator")
      then record it { creator = val }
      else if same key (codes "depends")
      then record it { depends = parse_depends_list val }
      else if same key (codes "tags")
      then record it { tags = parse_depends_list val }
      else if same key (codes "repo")
      then record it { repo = val }
      else if same key (codes "assignee")
      then record it { assignee = val }
      else if same key (codes "priority")
      then record it { priority = val }
      else if same key (codes "branch")
      then record it { branch = val }
      else if same key (codes "budget")
      then elim (atoi val) [ none ↦ it | some n ↦ record it { budget = some n } ]
      else if same key (codes "snooze")
      then elim (parse_time val) [
        | none ↦ record it { snooze_raw = val }
        | some t ↦ record it { snooze_raw = val; snooze = t }
      ]
      else it

  -- a line of the frontmatter
  unfoldable pub read_line : Bytes → Item → Item
  unfolding set_field cut trim_space
  read_line line it = elim (cut (codes ": ") line) [
    | none ↦ it
    | some (key, val) ↦ set_field key (trim_space val) it
  ]

  unfoldable pub read_lines : List Bytes → Item → Item
  unfolding read_line
  read_lines [] it = it
  read_lines (l ∷ ls) it = read_lines ls (read_line l it)

  -- the fields of the frontmatter and, from the body, the title
  unfoldable pub read_fields : Bytes → Bytes → Item
  unfolding read_lines split_lines first_heading_line
  read_fields fm body =
      let it = read_lines (split_lines fm) (blank body) in
      elim (title_of body) [ none ↦ it | some t ↦ record it { title = t } ]

  -- the end of Parse, from the frontmatter and the body that the fences leave
  unfoldable pub accepted : Option (Bytes × Bytes) → Option Item
  unfolding read_fields
  accepted none = none
  accepted (some (fm, body)) =
      if is_nil (read_fields fm body).id then none else some (read_fields fm body)

  -- Parse; `none` is any of its three errors
  unfoldable pub parse : Bytes → Option Item
  unfolding accepted cut cut_prefix
  parse content = elim (cut_prefix (codes "---\n") content) [
    | none ↦ none
    | some rest ↦ accepted (cut (codes "\n---\n") rest)
  ]
