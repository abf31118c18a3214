-- ===== src/Mail/Receipt.antt =====
-- internal/mail/mail.go: what was sent is read, once as new and then as read.
use macguffin.Prelude.{
  ℕ, ◌≡◌, refl, ◌∙◌, arith, subst, false, List, [], ◌∷◌, ◌++◌, Option, none, some, Bytes, All, map,
}
use macguffin.Lines.{IsLine}
use macguffin.Lines.Words.{NoBlank}
use macguffin.Mgerr.{Fault, Answer, good}
use macguffin.Mail.Message.{Message, SendOpts, parse_message, check_msg_id, check_msg_id_header}
use macguffin.Mail.RoundTrip.{
  IsReference, read_back, parse_message-build_content, check_msg_id_header-IsLine,
}
use macguffin.Mail.Tree.{fresh, cur, Tree, at, same_path, same_path_iff, same_sub, at-rename}
use macguffin.Mail.Box.{
  path, Post, first_fault, if_given, text_checks, header_checks, send_checks, max_delivery_attempts,
  send, read_at, read,
}
use macguffin.Mail.Delivery.{Sent, first_free, content_of, send-Sent}

abbrev IsNone : Option Fault → Type 0
IsNone c = c ≡ none

first_fault-All : (cs : List (Option Fault)) → first_fault cs ≡ none → All IsNone cs
unfolding first_fault
first_fault-All [] h = tt
first_fault-All (none ∷ cs) h = (refl, first_fault-All cs h)
first_fault-All (some e ∷ cs) h = cc

All-right : (xs ys : List (Option Fault)) → All IsNone (xs ++ ys) → All IsNone ys
All-right [] ys h = h
All-right (x ∷ xs) ys h = All-right xs ys h.1

references_checked :
    (refs : List Bytes) → All IsNone (map check_msg_id_header refs) → All IsReference refs
references_checked [] h = tt
references_checked (r ∷ refs) h = (h.0, references_checked refs h.1)

reply_checked : (v : Bytes) → if_given v (check_msg_id_header v) ≡ none → IsLine v
reply_checked [] h = tt
reply_checked (c ∷ v) h = check_msg_id_header-IsLine (c ∷ v) h

-- What passed the checks is read back from its text.
parse_message-send_checks :
    (id date recipient from subject body : Bytes) (opts : SendOpts)
    → IsLine id
    → IsLine date
    → send_checks recipient from subject body opts ≡ none
    → All NoBlank opts.references
    → parse_message id (content_of date from subject body opts id)
      ≡ some (read_back id id from subject date body opts)
unfolding send_checks header_checks
parse_message-send_checks id date recipient from subject body opts i d h w =
    let texts = text_checks recipient from subject body opts in
    let b =
      All-right texts (header_checks from subject opts)
        (first_fault-All (texts ++ header_checks from subject opts) h) in
    parse_message-build_content id id from subject date body opts i d b.0 b.1.0
      (reply_checked opts.in_reply_to b.1.1.0) (references_checked opts.references b.1.1.1) w

-- A first reading of a new message
abbrev pub WasRead : Bytes → Bytes → Bytes → Message → Tree → Answer Message × Tree → Type 0
WasRead agent id c m t out =
    (out.0 ≡ good m)
    × (at (path agent fresh id) out.1 ≡ none)
    × (at (path agent cur id) out.1 ≡ some c)

fresh-apart : (a id : Bytes) → same_path (path a cur id) (path a fresh id) ≡ false
unfolding same_path same_sub
fresh-apart a id = ground arith

read_at-WasRead :
    (agent id c : Bytes) (m : Message) (t : Tree)
    → at (path agent fresh id) t ≡ some c
    → parse_message id c ≡ some m
    → WasRead agent id c m t (read_at agent id t)
unfolding read_at
read_at-WasRead agent id c m t e p =
    rw (e, p, read_at)
      (
        refl,
        at-rename (path agent fresh id) (path agent cur id) (path agent fresh id) c t
            ∙ ground (
              arith,
              fresh-apart agent id,
              same_path_iff (path agent fresh id) (path agent fresh id),
            ),
        at-rename (path agent fresh id) (path agent cur id) (path agent cur id) c t
            ∙ ground (arith, same_path_iff (path agent cur id) (path agent cur id)),
      )

-- A message that was sent under a free id is read by its recipient: the message is as it was given, less the
-- space around the body and with at most the last twenty references, and it has moved from new/ to
-- cur/. The message passed the checks, its references have no Unicode space in
-- them, its id is a name and a line, and the date is a line.
pub read-send :
    (mint : ℕ → Bytes) (date recipient from subject body : Bytes) (opts : SendOpts) (p : Post)
    (id : Bytes)
    → send_checks recipient from subject body opts ≡ none
    → first_free max_delivery_attempts 1 mint recipient p.files ≡ some id
    → check_msg_id recipient id ≡ none
    → IsLine id
    → IsLine date
    → All NoBlank opts.references
    → let out = read recipient id (send mint date recipient from subject body opts p).1 in
      WasRead recipient id
        (content_of date from subject body opts id)
        (read_back id id from subject date body opts)
        p.files
        (out.0, out.1.files)
unfolding read
read-send mint date recipient from subject body opts p id h f k i d w =
    let t = (send mint date recipient from subject body opts p).1.files in
    let s =
      subst
        (λ o.
          Sent recipient (content_of date from subject body opts) p.files o
            ((send mint date recipient from subject body opts p).0, t))
        f (send-Sent mint date recipient from subject body opts p h) in
    rw k (
      read_at-WasRead recipient id (content_of date from subject body opts id)
        (read_back id id from subject date body opts) t
        (s.1 (path recipient fresh id)
          ∙ ground (arith, same_path_iff (path recipient fresh id) (path recipient fresh id)))
        (parse_message-send_checks id date recipient from subject body opts i d h w))
