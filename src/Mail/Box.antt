-- ===== src/Mail/Box.antt =====
-- internal/mail/mail.go and reclaim.go: the operations on mailboxes, each a function of the files. The
-- audit log and the events are not modelled, and a system call fails only as `Tree` says.
use macguffin.Prelude.{
  ℕ, zero, suc, ◌+◌, true, List, [], ◌∷◌, ◌++◌, Option, none, some, Bytes, codes, same, is_nil, any,
  if◌then◌else◌, map,
}
use macguffin.Mgerr
use macguffin.Mgerr.{Fault, Answer, good, bad}
use macguffin.Mgerr.Utf8.{check_utf8}
use macguffin.Mail.Message.{
  Message, SendOpts, build_content, parse_message, check_mailbox, check_msg_id, check_header_value,
  check_msg_id_header,
}
use macguffin.Mail.Tree.{
  Sub, tmp, fresh, cur, archived, FilePath, Tree, at, remove, create_exclusive, link, rename,
}

abbrev pub path : Bytes → Sub → Bytes → FilePath
path box sub name = record { box = box; sub = sub; name = name }

-- the mailboxes that exist, and their files
pub record Post : Type 0 where
  pub boxes : List Bytes
  pub files : Tree

-- EnsureMaildir, for a name that checkMailbox accepts
unfoldable pub ensure_maildir : Bytes → Post → Post
unfolding same
ensure_maildir box p = if any (same box) p.boxes then p else record p { boxes = box ∷ p.boxes }

pub data Delivery : Type 0 where
  delivered : Tree → Delivery
  collision : Tree → Delivery

-- deliverOnce, once the temporary file is written
unfoldable pub publish : Bytes → Bytes → Bytes → Tree → Delivery
unfolding link remove
publish recipient msg_id content t = elim (link content (path recipient fresh msg_id) t) [
  | none ↦ collision (remove (path recipient tmp msg_id) t)
  | some t' ↦ delivered (remove (path recipient tmp msg_id) t')
]

-- deliverOnce; `collision` is errCollision
unfoldable pub deliver_once : Bytes → Bytes → Bytes → Tree → Delivery
unfolding create_exclusive publish
deliver_once recipient msg_id content t =
    elim (create_exclusive (path recipient tmp msg_id) content t) [
      | none ↦ collision t
      | some t' ↦ publish recipient msg_id content t'
    ]

abbrev pub io_error : Fault
io_error = record { category = Mgerr.internal; code = codes "io_error" }

-- the loop of SendWithOpts, with the attempts that are left and the number of the next
unfoldable pub deliver : ℕ → ℕ → (ℕ → Bytes) → Bytes → (Bytes → Bytes) → Tree → Answer Bytes × Tree
unfolding deliver_once
deliver zero k mint recipient content t = (bad io_error, t)
deliver (suc left) k mint recipient content t =
    elim (deliver_once recipient (mint k) (content (mint k)) t) [
      | delivered t' ↦ (good (mint k), t')
      | collision t' ↦ deliver left (k + 1) mint recipient content t'
    ]

-- the first fault of a list of checks
unfoldable pub first_fault : List (Option Fault) → Option Fault
first_fault [] = none
first_fault (c ∷ cs) = elim c [ some e ↦ some e | none ↦ first_fault cs ]

abbrev pub if_given : Bytes → Option Fault → Option Fault
if_given v c = if is_nil v then none else c

-- the checks of SendWithOpts, in their order: first the name and the encodings, then the headers
unfoldable pub text_checks : Bytes → Bytes → Bytes → Bytes → SendOpts → List (Option Fault)
unfolding check_mailbox check_utf8
text_checks recipient from subject body opts =
    check_mailbox recipient
    ∷ check_utf8 from
    ∷ check_utf8 subject
    ∷ check_utf8 body
    ∷ check_utf8 opts.in_reply_to
    ∷ map check_utf8 opts.references

unfoldable pub header_checks : Bytes → Bytes → SendOpts → List (Option Fault)
unfolding check_header_value check_msg_id_header
header_checks from subject opts =
    check_header_value from
    ∷ check_header_value subject
    ∷ if_given opts.in_reply_to (check_msg_id_header opts.in_reply_to)
    ∷ map check_msg_id_header opts.references

unfoldable pub send_checks : Bytes → Bytes → Bytes → Bytes → SendOpts → Option Fault
unfolding first_fault text_checks header_checks
send_checks recipient from subject body opts =
    first_fault (text_checks recipient from subject body opts ++ header_checks from subject opts)

-- maxDeliveryAttempts
abbrev pub max_delivery_attempts : ℕ
max_delivery_attempts = 5

-- SendWithOpts; `mint k` is what the k-th call of mintMsgID gives, `date` the clock's answer
unfoldable pub send :
    (ℕ → Bytes) → Bytes → Bytes → Bytes → Bytes → Bytes → SendOpts → Post → Answer Bytes × Post
unfolding send_checks ensure_maildir deliver build_content
send mint date recipient from subject body opts p =
    elim (send_checks recipient from subject body opts) [
      | some e ↦ (bad e, p)
      | none ↦
          let p' = ensure_maildir recipient p in
          let content = λ (id : Bytes). build_content id from subject date body opts in
          let r = deliver max_delivery_attempts 1 mint recipient content p'.files in
          (r.0, record p' { files = r.1 })
    ]

abbrev pub malformed_message : Fault
malformed_message = record { category = Mgerr.not_found; code = codes "malformed_message" }

abbrev pub no_such_message : Fault
no_such_message = record { category = Mgerr.not_found; code = codes "no_such_message" }

abbrev parsed_or : Fault → Bytes → Bytes → Answer Message
parsed_or e id c = elim (parse_message id c) [ none ↦ bad e | some m ↦ good m ]

-- Read, once the id is checked
unfoldable pub read_at : Bytes → Bytes → Tree → Answer Message × Tree
unfolding at rename parse_message
read_at agent id t = elim (at (path agent fresh id) t) [
  | some c ↦ elim (parse_message id c) [
    | none ↦ (bad malformed_message, t)
    | some m ↦ (good m, rename (path agent fresh id) c (path agent cur id) t)
  ]
  | none ↦ elim (at (path agent cur id) t) [
    | some c ↦ (parsed_or malformed_message id c, t)
    | none ↦ (bad no_such_message, t)
  ]
]

abbrev on_files : {A : Type 0} → Option Fault → (Tree → Answer A × Tree) → Post → Answer A × Post
on_files checked op p = elim checked [
  | some e ↦ (bad e, p)
  | none ↦ let r = op p.files in (r.0, record p { files = r.1 })
]

-- Read
unfoldable pub read : Bytes → Bytes → Post → Answer Message × Post
unfolding check_msg_id read_at
read agent id p = on_files (check_msg_id agent id) (read_at agent id) p

-- where Archive and reclaimOne find a message: cur/ first, then new/
unfoldable pub source : Bytes → Bytes → Tree → Option (Sub × Bytes)
unfolding at
source agent id t = elim (at (path agent cur id) t) [
  | some c ↦ some (cur, c)
  | none ↦ elim (at (path agent fresh id) t) [ some c ↦ some (fresh, c) | none ↦ none ]
]

-- an error that has no category of its own
abbrev pub plain_error : Fault
plain_error = record { category = Mgerr.internal; code = codes "internal" }

-- Archive, once the id is checked
unfoldable pub archive_at : Bytes → Bytes → Tree → Answer Message × Tree
unfolding source at rename parse_message
archive_at agent id t = elim (source agent id t) [
  | none ↦ elim (at (path agent archived id) t) [
    | none ↦ (bad no_such_message, t)
    | some c ↦ elim (parse_message id c) [
      | none ↦ (bad no_such_message, t)
      | some m ↦ (good (record m { read = true }), t)
    ]
  ]
  | some (sub, c) ↦ elim (parse_message id c) [
    | none ↦ (bad plain_error, t)
    | some m ↦
        (good (record m { read = true }), rename (path agent sub id) c (path agent archived id) t)
  ]
]

-- Archive
unfoldable pub archive : Bytes → Bytes → Post → Answer Message × Post
unfolding check_msg_id archive_at
archive agent id p = on_files (check_msg_id agent id) (archive_at agent id) p

-- Peek
unfoldable pub peek : Bytes → Bytes → Post → Answer Message
unfolding check_msg_id at parse_message
peek agent id p = elim (check_msg_id agent id) [
  | some e ↦ bad e
  | none ↦ elim (at (path agent fresh id) p.files) [
    | some c ↦ parsed_or malformed_message id c
    | none ↦ elim (at (path agent cur id) p.files) [
      | none ↦ bad no_such_message
      | some c ↦ elim (parse_message id c) [
        | none ↦ bad malformed_message
        | some m ↦ good (record m { read = true })
      ]
    ]
  ]
]
