-- ===== src/Workitem/Render.antt =====
-- internal/workitem/workitem.go: Parse of what Render wrote is the item that was rendered.
use macguffin.Prelude.{
  ℕ, ◌≡◌, ◌≢◌, refl, ap, ◌∙◌, arith, List, [], ◌∷◌, ◌++◌, Option, none, some, Bytes, codes, is_nil,
  All, All-append, if◌then◌else◌,
}
use macguffin.Lines.{newline, IsLine, join}
use macguffin.Lines.Cut.{text_lines-join_lines}
use macguffin.Workitem.Title.{reconcile_title_heading, title_of, title_of-reconcile_title_heading}
use macguffin.Workitem.Item.{
  ℤ, Item, print_int, print_list, value_lines, tag_lines, budget_lines, optional_lines, front_lines,
  render, parse,
}
use macguffin.Workitem.Fence.{NoFence, item_of, parse-join_lines}
use macguffin.Workitem.Numbers.{print_int-IsValue}
use macguffin.Workitem.Reread.{IsStorable, front_lines-read, optional_lines-read}

-- a line that may stand between the fences
abbrev IsInner : Bytes → Type 0
IsInner l = IsLine l × (l ≢ codes "---")

keyed-IsInner :
    (c : ℕ) (k v : Bytes) → c ≢ b'-' → IsLine (c ∷ k) → IsLine v → IsInner ((c ∷ k) ++ v)
keyed-IsInner c k v n h l = (All-append (λ x. x ≢ newline) (c ∷ k) v h l, λ e. n (cc))

value_lines-IsInner :
    (c : ℕ) (k v : Bytes)
    → c ≢ b'-'
    → IsLine (c ∷ k)
    → IsLine v
    → All IsInner (value_lines (c ∷ k) v)
value_lines-IsInner c k [] n h l = tt
value_lines-IsInner c k (d ∷ v) n h l = (keyed-IsInner c k (d ∷ v) n h l, tt)

join-IsLine : (ds : List Bytes) → All IsLine ds → IsLine (join (codes ", ") ds)
unfolding join
join-IsLine [] h = tt
join-IsLine (d ∷ []) h = h.0
join-IsLine (d ∷ e ∷ ds) h =
    All-append (λ x. x ≢ newline) d (codes ", " ++ join (codes ", ") (e ∷ ds)) h.0
      (omega arith, (omega arith, join-IsLine (e ∷ ds) h.1))

print_list-IsLine : (ds : List Bytes) → All IsLine ds → IsLine (print_list ds)
unfolding print_list
print_list-IsLine ds h = (
  omega arith,
  All-append (λ x. x ≢ newline) (join (codes ", ") ds) (codes "]") (join-IsLine ds h) (omega arith),
)

tag_lines-IsInner : (tags : List Bytes) → All IsLine tags → All IsInner (tag_lines tags)
unfolding tag_lines
tag_lines-IsInner [] h = tt
tag_lines-IsInner (d ∷ ds) h = (
  keyed-IsInner b't' (codes "ags: ") (print_list (d ∷ ds)) (omega arith) (omega arith)
      (print_list-IsLine (d ∷ ds) h),
  tt,
)

budget_lines-IsInner : (budget : Option ℤ) → All IsInner (budget_lines budget)
unfolding budget_lines
budget_lines-IsInner none = tt
budget_lines-IsInner (some z) = (
  keyed-IsInner b'b' (codes "udget: ") (print_int z) (omega arith) (omega arith)
      (print_int-IsValue z).0,
  tt,
)

inner-lines : (ls : List Bytes) → All IsInner ls → All IsLine ls × NoFence ls
inner-lines [] h = (tt, tt)
inner-lines (l ∷ ls) h = let r = inner-lines ls h.1 in ((h.0.0, r.0), (h.0.1, r.1))

abbrev titled : Option Bytes → Item → Item
titled t it = elim t [ none ↦ it | some x ↦ record it { title = x } ]

module _ (parse_time : Bytes → Option ℕ) (format_time : ℕ → Bytes) (it : Item)
    (h : IsStorable parse_time format_time it) where
  optional_lines-IsInner : All IsInner (optional_lines it)
  unfolding optional_lines
  optional_lines-IsInner =
      let l6 = value_lines (codes "snooze: ") it.snooze_raw in
      let l5 = budget_lines it.budget ++ l6 in
      let l4 = value_lines (codes "branch: ") it.branch ++ l5 in
      let l3 = value_lines (codes "priority: ") it.priority ++ l4 in
      let l2 = value_lines (codes "assignee: ") it.assignee ++ l3 in
      let l1 = value_lines (codes "repo: ") it.repo ++ l2 in
      All-append IsInner (tag_lines it.tags) l1 (tag_lines-IsInner it.tags h.tags_lines) (
        All-append IsInner (value_lines (codes "repo: ") it.repo) l2
          (value_lines-IsInner b'r' (codes "epo: ") it.repo (omega arith) (omega arith)
            h.repo_value.0)
          (All-append IsInner (value_lines (codes "assignee: ") it.assignee) l3
            (value_lines-IsInner b'a' (codes "ssignee: ") it.assignee (omega arith) (omega arith)
              h.assignee_value.0)
            (All-append IsInner (value_lines (codes "priority: ") it.priority) l4
              (value_lines-IsInner b'p' (codes "riority: ") it.priority (omega arith) (omega arith)
                h.priority_value.0)
              (All-append IsInner (value_lines (codes "branch: ") it.branch) l5
                (value_lines-IsInner b'b' (codes "ranch: ") it.branch (omega arith) (omega arith)
                  h.branch_value.0)
                (All-append IsInner (budget_lines it.budget) l6 (budget_lines-IsInner it.budget) (
                  value_lines-IsInner b's' (codes "nooze: ") it.snooze_raw (omega arith)
                    (omega arith) h.snooze_value.0))))))

  abbrev later_lines : List Bytes
  later_lines =
      (codes "type: " ++ it.kind)
      ∷ (codes "created: " ++ format_time it.created)
      ∷ (codes "creator: " ++ it.creator)
      ∷ (codes "depends: " ++ print_list it.depends)
      ∷ optional_lines it

  later_lines-IsInner : All IsInner later_lines
  later_lines-IsInner = (
    keyed-IsInner b't' (codes "ype: ") it.kind (omega arith) (omega arith) h.kind_value.0,
    (
      keyed-IsInner b'c' (codes "reated: ") (format_time it.created) (omega arith) (omega arith)
          h.created_value.0,
      (
        keyed-IsInner b'c' (codes "reator: ") it.creator (omega arith) (omega arith)
            h.creator_value.0,
        (
          keyed-IsInner b'd' (codes "epends: ") (print_list it.depends) (omega arith) (omega arith)
              (print_list-IsLine it.depends h.depends_lines),
          optional_lines-IsInner,
        ),
      ),
    ),
  )

  abbrev stored_body : Bytes
  stored_body = reconcile_title_heading it.body it.title

  item_of-front_lines :
      item_of parse_time (front_lines format_time it) stored_body ≡ record it { body = stored_body }
  item_of-front_lines =
      let bare : Item = record it { body = stored_body; title = [] } in
      ap (titled (title_of stored_body)) (
        front_lines-read parse_time format_time it stored_body h
        ∙ optional_lines-read parse_time format_time it stored_body h)
      ∙ ap (λ t. titled t bare) (title_of-reconcile_title_heading it.body it.title h.title_line)

  accepted-storable :
      (x : Item)
      → x ≡ record it { body = stored_body }
      → (if is_nil x.id then none else some x) ≡ some x
  accepted-storable x e = rw (ap {A = Item} {B = Bytes} (λ y. y.id) e, h.id_given) refl

  -- An item whose fields can be written and read is read back from its text as it was, with the body that
  -- Render stores: the given one with the title as its first heading.
  pub parse-render :
      parse parse_time (render format_time it)
      ≡ some (record it { body = reconcile_title_heading it.body it.title })
  unfolding render front_lines
  parse-render =
      let id_line = codes "id: " ++ it.id in
      let r = inner-lines later_lines later_lines-IsInner in
      ap (λ t. parse parse_time (codes "---\n" ++ t))
        (text_lines-join_lines id_line later_lines (codes "---\n" ++ stored_body))
      ∙ parse-join_lines parse_time id_line later_lines stored_body
          (All-append (λ x. x ≢ newline) (codes "id: ") it.id (omega arith) h.id_value.0, r.0) r.1
      ∙ accepted-storable (item_of parse_time (front_lines format_time it) stored_body)
          item_of-front_lines
      ∙ ap {A = Item} {B = Option Item} some item_of-front_lines
