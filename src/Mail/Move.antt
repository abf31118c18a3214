-- ===== src/Mail/Move.antt =====
-- internal/mail/mail.go and reclaim.go: the listings, and the moves that never overwrite: uniqueDest,
-- MergeMailbox, reclaimOne. os.ReadDir gives the names in the order of the files here, and
-- registrations are kept as records, without their JSON.
use macguffin.Prelude.{
  ℕ, zero, suc, ◌+◌, Bool, true, false, not, ◌&&◌, ◌||◌, List, [], ◌∷◌, ◌++◌, Option, none, some,
  Bytes, codes, same, is_nil, is_some, any, length, itoa, lookup, insert, erase, ◌==◌,
  if◌then◌else◌,
}
use macguffin.Mgerr.{Answer, good, bad}
use macguffin.Mail.Message.{Message, parse_message, check_mailbox}
use macguffin.Mail.Suggest.{text_less}
use macguffin.Mail.Tree.{Sub, fresh, cur, archived, same_sub, Tree, at, rename}
use macguffin.Mail.Box.{path, source}

-- the files that os.ReadDir lists in a directory of a mailbox
unfoldable pub names_in : Bytes → Sub → Tree → List Bytes
unfolding same same_sub
names_in box sub [] = []
names_in box sub ((q, c) ∷ t) =
    let rest = names_in box sub t in
    if same q.box box && same_sub q.sub sub then q.name ∷ rest else rest

unfoldable pub parse_each : Bytes → Sub → Bool → Tree → List Bytes → List Message × ℕ
unfolding at parse_message
parse_each box sub is_read t [] = ([], 0)
parse_each box sub is_read t (n ∷ ns) =
    let rest = parse_each box sub is_read t ns in
    elim (at (path box sub n) t) [
      | none ↦ rest
      | some c ↦ elim (parse_message n c) [
        | none ↦ (rest.0, suc rest.1)
        | some m ↦ (record m { read = is_read } ∷ rest.0, rest.1)
      ]
    ]

-- sort.Slice by the date; it leaves the order of equal dates open
unfoldable pub place_message : Message → List Message → List Message
unfolding text_less
place_message m [] = m ∷ []
place_message m (x ∷ xs) =
    let rest = place_message m xs in if text_less x.date m.date then x ∷ rest else m ∷ x ∷ xs

unfoldable pub by_date : List Message → List Message
unfolding place_message
by_date [] = []
by_date (m ∷ ms) = place_message m (by_date ms)

-- listDir, for a name that checkMailbox accepts: the messages and the number that did not parse
unfoldable pub list_dir : Bytes → Sub → Bool → Tree → List Message × ℕ
unfolding names_in parse_each by_date
list_dir box sub is_read t =
    let r = parse_each box sub is_read t (names_in box sub t) in (by_date r.0, r.1)

-- ListAll
unfoldable pub list_all : Bytes → Tree → List Message × ℕ
unfolding list_dir
list_all box t =
    let unread = list_dir box fresh false t in
    let seen = list_dir box cur true t in (by_date (unread.0 ++ seen.0), unread.1 + seen.1)

abbrev pub dup_name : Bytes → ℕ → Bytes
dup_name name i = name ++ (codes ".dup" ++ itoa i)

-- the loop of uniqueDest from i on
unfoldable pub search_dup : ℕ → ℕ → Bytes → Sub → Bytes → Tree → Option Bytes
unfolding at itoa
search_dup zero i box sub name t = none
search_dup (suc fuel) i box sub name t =
    let rest = search_dup fuel (i + 1) box sub name t in
    if is_some (at (path box sub (dup_name name i)) t) then rest else some (dup_name name i)

-- uniqueDest; with more rounds than there are files the loop finds a name
unfoldable pub unique_dest : Bytes → Sub → Bytes → Tree → Option Bytes
unfolding at search_dup
unique_dest box sub name t =
    if is_some (at (path box sub name) t)
    then search_dup (suc (length t)) 1 box sub name t
    else some name

-- the loop of MergeMailbox over the entries of a directory: the files, and how many were moved
unfoldable pub merge_names : Bytes → Bytes → Sub → List Bytes → Tree × ℕ → Tree × ℕ
unfolding at unique_dest rename
merge_names from to sub [] s = s
merge_names from to sub (n ∷ ns) (t, moved) = elim (at (path from sub n) t) [
  | none ↦ merge_names from to sub ns (t, moved)
  | some c ↦ elim (unique_dest to sub n t) [
    | none ↦ merge_names from to sub ns (t, moved)
    | some d ↦ merge_names from to sub ns (rename (path from sub n) c (path to sub d) t, suc moved)
  ]
]

unfoldable pub merge_dir : Bytes → Bytes → Sub → Tree × ℕ → Tree × ℕ
unfolding names_in merge_names
merge_dir from to sub s = merge_names from to sub (names_in from sub s.0) s

unfoldable pub merge_dirs : Bytes → Bytes → Tree → Tree × ℕ
unfolding merge_dir
merge_dirs from to t =
    merge_dir from to archived (merge_dir from to cur (merge_dir from to fresh (t, 0)))

-- os.RemoveAll of a mailbox
unfoldable pub remove_box : Bytes → Tree → Tree
unfolding same
remove_box box [] = []
remove_box box ((q, c) ∷ t) =
    let rest = remove_box box t in if same q.box box then rest else (q, c) ∷ rest

-- Registration, less the number of prior messages
pub record Registration : Type 0 where
  pub mailbox : Bytes
  pub registered_at : Bytes
  pub registered_by : Bytes
  pub via : Bytes
  pub adopted : Bool
  pub prior_messages : ℕ

-- the mailboxes that exist, their files, and their registrations, of which `none` cannot be read
pub record Office : Type 0 where
  pub boxes : List Bytes
  pub files : Tree
  pub registrations : List (Bytes × Option Registration)

abbrev pub is_registered : Bytes → Office → Bool
is_registered box o = is_some (lookup box o.registrations)

-- Register, for a name that checkMailbox accepts; `now` is the clock's answer. A mailbox that is
-- registered stays as it is.
unfoldable pub register : Bytes → Bytes → Registration → Bool → ℕ → Office → Office
unfolding lookup insert same
register now box r existed prior o =
    let filled : Registration = record {
      mailbox = box;
      registered_at = if is_nil r.registered_at then now else r.registered_at;
      registered_by = r.registered_by;
      via = r.via;
      adopted = existed;
      prior_messages = if existed then prior else 0;
    } in
    if is_registered box o then o else record o {
      boxes = if any (same box) o.boxes then o.boxes else box ∷ o.boxes;
      registrations = insert box (some filled) o.registrations;
    }

abbrev pub migrated : Registration
migrated = record {
  mailbox = [];
  registered_at = [];
  registered_by = [];
  via = codes "migrate";
  adopted = false;
  prior_messages = 0;
}

-- the registration that MergeMailbox carries over
unfoldable pub carry : Bytes → Bytes → Bytes → Office → Office
unfolding lookup register list_all
carry now from to o = elim (lookup from o.registrations) [
  | none ↦ o
  | some rec ↦
      if is_registered to o
      then o
      else register now to (elim rec [ none ↦ migrated | some r ↦ r ]) true
          (length (list_all to o.files).0) o
]

abbrev drop_box : Bytes → List Bytes → List Bytes
drop_box box [] = []
drop_box box (b ∷ bs) = let rest = drop_box box bs in if same b box then rest else b ∷ rest

-- MergeMailbox once the names are checked and differ, and `from` exists
unfoldable pub merge_existing : Bytes → Bytes → Bytes → Office → Office × ℕ
unfolding same merge_dirs carry remove_box erase
merge_existing now from to o =
    let s = merge_dirs from to o.files in
    let target = if s.1 == 0 || any (same to) o.boxes then o.boxes else to ∷ o.boxes in
    let o' = carry now from to (record o { files = s.0; boxes = target }) in
    (
      record o' {
        boxes = drop_box from o'.boxes;
        files = remove_box from o'.files;
        registrations = erase from o'.registrations;
      },
      s.1,
    )

-- MergeMailbox: the number of messages moved
unfoldable pub merge : Bytes → Bytes → Bytes → Office → Answer ℕ × Office
unfolding same merge_existing check_mailbox
merge now from to o = elim (check_mailbox from) [
  | some e ↦ (bad e, o)
  | none ↦ elim (check_mailbox to) [
    | some e ↦ (bad e, o)
    | none ↦
        let r = merge_existing now from to o in
        if same from to || not (any (same from) o.boxes) then (good 0, o) else (good r.1, r.0)
  ]
]

-- reclaimOne, once the id is checked: whether a message was moved
unfoldable pub reclaim_one : Bytes → Bytes → Tree → Bool × Tree
unfolding source unique_dest rename
reclaim_one agent id t = elim (source agent id t) [
  | none ↦ (false, t)
  | some (sub, c) ↦ elim (unique_dest agent archived id t) [
    | none ↦ (false, t)
    | some d ↦ (true, rename (path agent sub id) c (path agent archived d) t)
  ]
]
