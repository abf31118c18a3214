-- ===== src/Tests/Mails.antt =====
-- Messages and mailboxes at concrete inputs.
use macguffin.Prelude.{
  ℕ, ◌≡◌, ◌≢◌, refl, arith, [], ◌∷◌, ◌++◌, none, some, Bytes, codes, itoa, same, same_refl, ap, All,
}
use macguffin.Mgerr.{good}
use macguffin.Lines.{IsLine}
use macguffin.Lines.Words.{NoBlank, space_len}
use macguffin.Mail.Message
use macguffin.Mail.RoundTrip
use macguffin.Mail.Tree
use macguffin.Mail.Box
use macguffin.Mail.Delivery
use macguffin.Mail.Receipt
use macguffin.Mail.Answers
use macguffin.Mail.Move
use macguffin.Mail.Unique
use macguffin.Mail.Merge

abbrev cat : Bytes
cat = codes "cat"

abbrev dog : Bytes
dog = codes "dog"

abbrev hello : Bytes
hello = codes "hello"

abbrev day : Bytes
day = codes "2026-01-02T03:04:05Z"

abbrev opts : Message.SendOpts
opts = record { in_reply_to = codes "m0"; references = codes "r1" ∷ codes "r2" ∷ [] }

abbrev id_of : ℕ → Bytes
id_of k = codes "m" ++ itoa k

-- the first id that will be minted is taken
abbrev post : Box.Post
post = record { boxes = cat ∷ []; files = (Box.path cat Tree.fresh (codes "m1"), hello) ∷ [] }

day-IsLine : IsLine day
day-IsLine = omega arith

m2-IsLine : IsLine (codes "m2")
m2-IsLine = omega arith

opts-NoBlank : All NoBlank opts.references
unfolding space_len
opts-NoBlank = ((refl, (refl, tt)), ((refl, (refl, tt)), tt))

parse_message-build_content_example :
    Message.parse_message
      (codes "m2")
      (Message.build_content (codes "m2") dog hello day (codes " text\n") opts)
    ≡ some (RoundTrip.read_back (codes "m2") (codes "m2") dog hello day (codes " text\n") opts)
unfolding Message.check_header_value Message.check_msg_id_header
parse_message-build_content_example =
    RoundTrip.parse_message-build_content (codes "m2") (codes "m2") dog hello day (codes " text\n")
      opts m2-IsLine day-IsLine (refl) (refl) (omega arith) (refl, (refl, tt)) opts-NoBlank

sendable : Box.send_checks cat dog hello hello opts ≡ none
unfolding Box.send_checks
sendable = refl

send-Sent_example :
    let out = Box.send id_of day cat dog hello hello opts post in
    Delivery.Sent cat
      (Delivery.content_of day dog hello hello opts)
      post.files
      (Delivery.first_free Box.max_delivery_attempts 1 id_of cat post.files)
      (out.0, out.1.files)
send-Sent_example = Delivery.send-Sent id_of day cat dog hello hello opts post sendable

second : Delivery.first_free Box.max_delivery_attempts 1 id_of cat post.files ≡ some (codes "m2")
unfolding Delivery.first_free Tree.at Tree.same_path same itoa
second = refl

read-send_example :
    let out = Box.read cat (codes "m2") (Box.send id_of day cat dog hello hello opts post).1 in
    Receipt.WasRead cat
      (codes "m2")
      (Delivery.content_of day dog hello hello opts (codes "m2"))
      (RoundTrip.read_back (codes "m2") (codes "m2") dog hello day hello opts)
      post.files
      (out.0, out.1.files)
unfolding Message.check_msg_id
read-send_example =
    Receipt.read-send id_of day cat dog hello hello opts post (codes "m2") sendable second refl
      m2-IsLine day-IsLine opts-NoBlank

unique_dest_lem_example :
    (d : Bytes) × (Move.unique_dest cat Tree.fresh (codes "m1") post.files ≡ some d)
    × (Tree.at (Box.path cat Tree.fresh d) post.files ≡ none)
    × Unique.IsFirst cat Tree.fresh (codes "m1") post.files d
unique_dest_lem_example = Unique.unique_dest_lem cat Tree.fresh (codes "m1") post.files

-- two mailboxes with a message of the same id
abbrev office : Move.Office
office = record {
  boxes = cat ∷ dog ∷ [];
  files =
      (Box.path dog Tree.cur (codes "m1"), day) ∷ (Box.path cat Tree.cur (codes "m1"), hello) ∷ [];
  registrations = [];
}

apart : cat ≢ dog
unfolding same
apart e = cc (same_refl cat, ap (same cat) e)

merge-Merged_example :
    let out = Move.merge day cat dog office in
    (out.0 ≡ good (Move.merge_dirs cat dog office.files).1)
    × Merge.Merged cat dog office.files out.1.files
unfolding Message.check_mailbox
merge-Merged_example = Merge.merge-Merged day cat dog office refl refl apart refl

archive-Archived_example :
    let out = Box.archive cat (codes "m1") post in
    Answers.Archived cat (codes "m1") post.files out.0 out.1.files
archive-Archived_example = Answers.archive-Archived cat (codes "m1") post

peek-read_example :
    Answers.unmarked (Box.peek cat (codes "m1") post)
    ≡ Answers.unmarked (Box.read cat (codes "m1") post).0
peek-read_example = Answers.peek-read cat (codes "m1") post
