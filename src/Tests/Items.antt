-- ===== src/Tests/Items.antt =====
-- The text of items at concrete inputs: titles and frontmatter.
use Prim.Native.Nat.{max}
use macguffin.Prelude.{
  ◌++◌, if◌then◌else◌, trim_right, ◌≡◌, ◌≢◌, refl, arith, ℕ, [], ◌∷◌, List, Bytes, codes, Option,
  none, some, Bool, true, false, same, any, all, keep, is_nil, ◌↔◌,
}
use macguffin.Workitem.Title.{
  reconcile_title_heading, title_of, count_headings, title_of-reconcile_title_heading,
  count_headings-reconcile_title_heading,
}
use macguffin.Lines.{IsLine, split_lines, join_lines}
use macguffin.Workitem.Item
use macguffin.Workitem.Fields
use macguffin.Workitem.Fence
use macguffin.Workitem.Reread
use macguffin.Workitem.Render

abbrev old_body : Bytes
old_body = codes "\n# old\ntext\n# more"

abbrev new_title : Bytes
new_title = codes "new"

new_title-IsLine : IsLine new_title
new_title-IsLine = omega arith

renamed : reconcile_title_heading old_body new_title ≡ codes "\n# new\ntext\n# more"
unfolding reconcile_title_heading macguffin.Workitem.Title.first_heading_line
    macguffin.Workitem.Title.first_from split_lines macguffin.Workitem.Title.heading
    macguffin.Prelude.cut_prefix macguffin.Prelude.same
    macguffin.Workitem.Title.replace_heading_line macguffin.Lines.join
renamed = refl

title_of-reconcile_title_heading_example :
    title_of (reconcile_title_heading old_body new_title) ≡ some new_title
title_of-reconcile_title_heading_example =
    title_of-reconcile_title_heading old_body new_title new_title-IsLine

count_headings-reconcile_title_heading_example :
    count_headings (reconcile_title_heading old_body new_title) ≡ max 1 (count_headings old_body)
count_headings-reconcile_title_heading_example =
    count_headings-reconcile_title_heading old_body new_title new_title-IsLine

abbrev no_time : Bytes → Option ℕ
no_time s = none

abbrev id_line : Bytes
id_line = codes "id: mg-1"

abbrev fenced_body : Bytes
fenced_body = codes "# a\n---\n"

task_line-ne-fence : codes "type: task" ≢ codes "---"
task_line-ne-fence = cc

parse-join_lines_example :
    Item.parse no_time (
      codes "---\n"
      ++ (join_lines (id_line ∷ codes "type: task" ∷ []) ++ (codes "\n---\n" ++ fenced_body)))
    ≡ (if is_nil (Fence.item_of no_time (id_line ∷ codes "type: task" ∷ []) fenced_body).id
        then none
        else some (Fence.item_of no_time (id_line ∷ codes "type: task" ∷ []) fenced_body))
parse-join_lines_example =
    Fence.parse-join_lines no_time id_line (codes "type: task" ∷ []) fenced_body
      (omega arith, (omega arith, tt)) (task_line-ne-fence, tt)

parsed :
    Item.parse no_time (codes "---\nid: mg-1\ntype: task\n---\n# a\n---\n")
    ≡ some (record (Item.blank fenced_body) {
      id = codes "mg-1";
      kind = codes "task";
      title = codes "a";
    })
unfolding Item.parse macguffin.Workitem.Title.first_from macguffin.Workitem.Title.heading
    macguffin.Prelude.same
parsed = refl

abbrev stamp : ℕ → Bytes
stamp n = codes "9"

abbrev read_stamp : Bytes → Option ℕ
read_stamp s = if same s (codes "9") then some 9 else none

abbrev full : Item.Item
full = record {
  id = codes "mg-1";
  kind = codes "task";
  created = 9;
  creator = codes "cat";
  depends = codes "mg-2" ∷ codes "mg-3" ∷ [];
  tags = [];
  repo = codes "r";
  assignee = [];
  priority = codes "high";
  branch = [];
  budget = some (Item.negsuc 4);
  title = new_title;
  body = old_body;
  snooze = 0;
  snooze_raw = codes "later";
}

full-IsStorable : Reread.IsStorable read_stamp stamp full
unfolding macguffin.Prelude.trim_left trim_right same Fields.first_plain
full-IsStorable = record {
  id_given = refl;
  id_value = (omega arith, (refl, refl));
  kind_value = (omega arith, (refl, refl));
  creator_value = (omega arith, (refl, refl));
  repo_value = (omega arith, (refl, refl));
  assignee_value = (tt, (refl, refl));
  priority_value = (omega arith, (refl, refl));
  branch_value = (tt, (refl, refl));
  snooze_value = (omega arith, (refl, refl));
  created_value = (omega arith, (refl, refl));
  created_read = refl;
  depends_fields = (
    record { begins = refl; ends = refl; no_comma = omega arith },
    (record { begins = refl; ends = refl; no_comma = omega arith }, tt),
  );
  depends_lines = (omega arith, (omega arith, tt));
  tag_fields = tt;
  tags_lines = tt;
  in_range = omega arith;
  gate = refl;
  title_line = new_title-IsLine;
}

parse-render_example :
    Item.parse read_stamp (Item.render stamp full)
    ≡ some (record full { body = reconcile_title_heading old_body new_title })
parse-render_example = Render.parse-render read_stamp stamp full full-IsStorable
