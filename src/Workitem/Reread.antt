-- ===== src/Workitem/Reread.antt =====
-- internal/workitem/workitem.go: Parse of the lines that Render writes between the fences.
use macguffin.Prelude.{
  ℕ, ◌≡◌, ◌≢◌, refl, ap, ◌∙◌, arith, false, List, [], ◌∷◌, ◌++◌, append_assoc, cut_prefix, same,
  Option, none, some, Bytes, codes, is_nil, All, trim_left, trim_right, IsTrim, trim_space-IsTrim,
}
use macguffin.Lines.{IsLine, cut, join}
use macguffin.Workitem.Item.{
  ℤ, Item, print_int, print_list, value_lines, tag_lines, budget_lines, blank, optional_lines,
  front_lines, set_field, read_line, read_lines,
}
use macguffin.Workitem.Fields.{IsField, parse_depends_list-print_list, trim_right-append}
use macguffin.Workitem.Numbers.{IsValue, InRange, atoi-print_int, print_int-IsValue}

module _ (parse_time : Bytes → Option ℕ) where
  read_lines-append :
      (ls more : List Bytes) (it : Item)
      → read_lines parse_time (ls ++ more) it
        ≡ read_lines parse_time more (read_lines parse_time ls it)
  unfolding read_lines
  read_lines-append [] more it = refl
  read_lines-append (l ∷ ls) more it = read_lines-append ls more (read_line parse_time l it)

  cut-key :
      (key v : Bytes)
      → All (λ c. c ≢ b':') key
      → cut (codes ": ") (key ++ (codes ": " ++ v)) ≡ some (key, v)
  unfolding cut cut_prefix
  cut-key [] v h = refl
  cut-key (c ∷ key) v h = ground (arith, h.0, cut-key key v h.1)

  read_line-key :
      (key v : Bytes) (it : Item)
      → All (λ c. c ≢ b':') key
      → IsTrim v
      → read_line parse_time (key ++ (codes ": " ++ v)) it ≡ set_field parse_time key v it
  unfolding read_line
  read_line-key key v it h t =
      rw (cut-key key v h, read_line)
        (ap (λ x. set_field parse_time key x it) (trim_space-IsTrim v t))

  abbrev pub reading : List Bytes → Item → Item
  reading = read_lines parse_time

  -- a line that may be left out
  value_lines-read :
      (key v : Bytes) (it : Item) (f : Bytes → Item)
      → All (λ c. c ≢ b':') key
      → IsTrim v
      → set_field parse_time key v it ≡ f v
      → it ≡ f []
      → reading (value_lines (key ++ codes ": ") v) it ≡ f v
  unfolding read_lines
  value_lines-read key [] it f h t e u = u
  value_lines-read key (c ∷ v) it f h t e u =
      ap (λ l. read_line parse_time l it) (append_assoc key (codes ": ") (c ∷ v))
      ∙ read_line-key key (c ∷ v) it h t
      ∙ e

  print_list-IsTrim : (ds : List Bytes) → IsTrim (print_list ds)
  unfolding print_list trim_left trim_right
  print_list-IsTrim ds =
      (refl, trim_right-append (codes "[" ++ join (codes ", ") ds) (codes "]") refl refl)

  tag_lines-read :
      (tags : List Bytes) (it : Item)
      → All IsField tags
      → it ≡ record it { tags = [] }
      → reading (tag_lines tags) it ≡ record it { tags = tags }
  unfolding read_lines tag_lines
  tag_lines-read [] it h u = u
  tag_lines-read (d ∷ ds) it h u =
      read_line-key (codes "tags") (print_list (d ∷ ds)) it (omega arith)
        (print_list-IsTrim (d ∷ ds))
      ∙ unfold set_field same in
        ap (λ x. record it { tags = x }) (parse_depends_list-print_list (d ∷ ds) h)

  budget_lines-read :
      (budget : Option ℤ) (it : Item)
      → InRange budget
      → it ≡ record it { budget = none }
      → reading (budget_lines budget) it ≡ record it { budget = budget }
  unfolding read_lines budget_lines
  budget_lines-read none it h u = u
  budget_lines-read (some n) it h u =
      read_line-key (codes "budget") (print_int n) it (omega arith) (print_int-IsValue n).1
      ∙ unfold set_field same in rw (atoi-print_int n h) refl

  -- the gate of a value, as Parse reads it
  abbrev pub gate_of : Bytes → ℕ
  gate_of [] = 0
  gate_of (c ∷ v) = elim (parse_time (c ∷ v)) [ none ↦ 0 | some t ↦ t ]

  snooze-read :
      (v : Bytes) (it : Item)
      → it ≡ record it { snooze = 0; snooze_raw = [] }
      → IsTrim v
      → reading (value_lines (codes "snooze: ") v) it
        ≡ record it { snooze = gate_of v; snooze_raw = v }
  unfolding read_lines same
  snooze-read [] it u t = u
  snooze-read (c ∷ v) it u t =
      read_line-key (codes "snooze") (c ∷ v) it (omega arith) t ∙ gated (parse_time (c ∷ v))
    where
      gated :
          (o : Option ℕ)
          → elim o as (λ x. Item) [
            | none ↦ record it { snooze_raw = c ∷ v }
            | some t' ↦ record it { snooze_raw = c ∷ v; snooze = t' }
          ]
            ≡ record it { snooze = elim o [ none ↦ 0 | some t' ↦ t' ]; snooze_raw = c ∷ v }
      gated none = ap {A = Item} {B = Item} (λ x. record x { snooze_raw = c ∷ v }) u
      gated (some t') = refl

  module _ (format_time : ℕ → Bytes) where
    -- An item that can be written and read: its values are lines without a space at either end, its lists
    -- have no comma in a value, its time and its budget are read as they are printed, and its
    -- gate is that of the value it was given as.
    pub record IsStorable (it : Item) : Type 0 where
      pub id_given : is_nil it.id ≡ false
      pub id_value : IsValue it.id
      pub kind_value : IsValue it.kind
      pub creator_value : IsValue it.creator
      pub repo_value : IsValue it.repo
      pub assignee_value : IsValue it.assignee
      pub priority_value : IsValue it.priority
      pub branch_value : IsValue it.branch
      pub snooze_value : IsValue it.snooze_raw
      pub created_value : IsValue (format_time it.created)
      pub created_read : parse_time (format_time it.created) ≡ some it.created
      pub depends_fields : All IsField it.depends
      pub depends_lines : All IsLine it.depends
      pub tag_fields : All IsField it.tags
      pub tags_lines : All IsLine it.tags
      pub in_range : InRange it.budget
      pub gate : gate_of it.snooze_raw ≡ it.snooze
      pub title_line : IsLine it.title

    created-read :
        (it : Item) (t : ℕ)
        → IsValue (format_time t)
        → parse_time (format_time t) ≡ some t
        → read_line parse_time (codes "created: " ++ format_time t) it ≡ record it { created = t }
    created-read it t v e =
        read_line-key (codes "created") (format_time t) it (omega arith) v.1
        ∙ unfold set_field same in rw e refl

    depends-read :
        (ds : List Bytes) (it : Item)
        → All IsField ds
        → read_line parse_time (codes "depends: " ++ print_list ds) it ≡ record it { depends = ds }
    depends-read ds it h =
        read_line-key (codes "depends") (print_list ds) it (omega arith) (print_list-IsTrim ds)
        ∙ unfold set_field same in
          ap (λ x. record it { depends = x }) (parse_depends_list-print_list ds h)

    next :
        (l : Bytes) (ls : List Bytes) (it it' : Item)
        → read_line parse_time l it ≡ it'
        → reading (l ∷ ls) it ≡ reading ls it'
    unfolding read_lines
    next l ls it it' e = ap (reading ls) e

    skip :
        (ls more : List Bytes) (it it' : Item)
        → reading ls it ≡ it'
        → reading (ls ++ more) it ≡ reading more it'
    skip ls more it it' e = read_lines-append ls more it ∙ ap (reading more) e

    module _ (it : Item) (body : Bytes) (h : IsStorable it) where
      abbrev pub named : Item
      named = record (blank body) {
        id = it.id;
        kind = it.kind;
        created = it.created;
        creator = it.creator;
        depends = it.depends;
      }

      pub front_lines-read :
          reading (front_lines format_time it) (blank body) ≡ reading (optional_lines it) named
      unfolding front_lines
      front_lines-read =
          let i1 : Item = record (blank body) { id = it.id } in
          let i2 : Item = record i1 { kind = it.kind } in
          let i3 : Item = record i2 { created = it.created } in
          let i4 : Item = record i3 { creator = it.creator } in
          let l5 = (codes "depends: " ++ print_list it.depends) ∷ optional_lines it in
          let l4 = (codes "creator: " ++ it.creator) ∷ l5 in
          let l3 = (codes "created: " ++ format_time it.created) ∷ l4 in
          let l2 = (codes "type: " ++ it.kind) ∷ l3 in
          next (codes "id: " ++ it.id) l2 (blank body) i1 (
            read_line-key (codes "id") it.id (blank body) (omega arith) h.id_value.1
            ∙ unfold set_field same in refl)
          ∙ next (codes "type: " ++ it.kind) l3 i1 i2 (
              read_line-key (codes "type") it.kind i1 (omega arith) h.kind_value.1
              ∙ unfold set_field same in refl)
          ∙ next (codes "created: " ++ format_time it.created) l4 i2 i3
              (created-read i2 it.created h.created_value h.created_read)
          ∙ next (codes "creator: " ++ it.creator) l5 i3 i4 (
              read_line-key (codes "creator") it.creator i3 (omega arith) h.creator_value.1
              ∙ unfold set_field same in refl)
          ∙ next (codes "depends: " ++ print_list it.depends) (optional_lines it) i4 named
              (depends-read it.depends i4 h.depends_fields)

      pub optional_lines-read :
          reading (optional_lines it) named ≡ record it { body = body; title = [] }
      unfolding optional_lines set_field same
      optional_lines-read =
          let l6 = value_lines (codes "snooze: ") it.snooze_raw in
          let l5 = budget_lines it.budget ++ l6 in
          let l4 = value_lines (codes "branch: ") it.branch ++ l5 in
          let l3 = value_lines (codes "priority: ") it.priority ++ l4 in
          let l2 = value_lines (codes "assignee: ") it.assignee ++ l3 in
          let l1 = value_lines (codes "repo: ") it.repo ++ l2 in
          let i1 : Item = record named { tags = it.tags } in
          let i2 : Item = record i1 { repo = it.repo } in
          let i3 : Item = record i2 { assignee = it.assignee } in
          let i4 : Item = record i3 { priority = it.priority } in
          let i5 : Item = record i4 { branch = it.branch } in
          let i6 : Item = record i5 { budget = it.budget } in
          skip (tag_lines it.tags) l1 named i1 (tag_lines-read it.tags named h.tag_fields refl)
          ∙ skip (value_lines (codes "repo: ") it.repo) l2 i1 i2 (
              value_lines-read (codes "repo") it.repo i1 (λ v. record i1 { repo = v }) (omega arith)
                h.repo_value.1 refl refl)
          ∙ skip (value_lines (codes "assignee: ") it.assignee) l3 i2 i3 (
              value_lines-read (codes "assignee") it.assignee i2 (λ v. record i2 { assignee = v })
                (omega arith) h.assignee_value.1 refl refl)
          ∙ skip (value_lines (codes "priority: ") it.priority) l4 i3 i4 (
              value_lines-read (codes "priority") it.priority i3 (λ v. record i3 { priority = v })
                (omega arith) h.priority_value.1 refl refl)
          ∙ skip (value_lines (codes "branch: ") it.branch) l5 i4 i5 (
              value_lines-read (codes "branch") it.branch i4 (λ v. record i4 { branch = v })
                (omega arith) h.branch_value.1 refl refl)
          ∙ skip (budget_lines it.budget) l6 i5 i6 (budget_lines-read it.budget i5 h.in_range refl)
          ∙ snooze-read it.snooze_raw i6 refl h.snooze_value.1
          ∙ ap {A = ℕ} {B = Item} (λ t. record i6 { snooze = t; snooze_raw = it.snooze_raw }) h.gate
