-- ===== src/Mail/Message.antt =====
-- internal/mail/mail.go: what a message may hold, its text, and the reading of that text.
use macguffin.Prelude.{
  ℕ, ◌-◌, Bool, true, false, not, ◌||◌, List, [], ◌∷◌, ◌++◌, Option, none, some, Bytes, codes, same,
  is_nil, any, length, leb, ltb, ◌==◌, if◌then◌else◌,
}
use macguffin.Lines.{split_lines, join, cut, text_lines}
use macguffin.Lines.Words.{fields, trim_blank}
use macguffin.Mgerr
use macguffin.Mgerr.{Fault}

abbrev pub is_control : ℕ → Bool
is_control c = ltb c 32 || c == 127

abbrev pub is_slash : ℕ → Bool
is_slash c = c == b'/' || c == b'\\'

-- validComponent
unfoldable pub valid_component : Bytes → Bool
unfolding same
valid_component s =
    not
      (is_nil s || same s (codes ".") || same s (codes "..") || any is_slash s || any is_control s)

abbrev fault : Bytes → Option Fault
fault code = some (record { category = Mgerr.usage; code = code })

-- checkMailbox
unfoldable pub check_mailbox : Bytes → Option Fault
unfolding valid_component
check_mailbox agent = if valid_component agent then none else fault (codes "invalid_value")

-- checkMsgID
unfoldable pub check_msg_id : Bytes → Bytes → Option Fault
unfolding check_mailbox valid_component
check_msg_id agent msg_id = elim (check_mailbox agent) [
  | some e ↦ some e
  | none ↦ if valid_component msg_id then none else fault (codes "invalid_value")
]

-- checkHeaderValue
unfoldable pub check_header_value : Bytes → Option Fault
check_header_value value =
    if any is_control value then fault (codes "invalid_header_value") else none

abbrev pub is_blank : ℕ → Bool
is_blank c = c == 32 || c == 9

-- checkMsgIDHeader
unfoldable pub check_msg_id_header : Bytes → Option Fault
unfolding check_header_value valid_component
check_msg_id_header value = elim (check_header_value value) [
  | some e ↦ some e
  | none ↦
      if not (valid_component value) || any is_blank value
      then fault (codes "invalid_header_value")
      else none
]

abbrev pub drop : ℕ → List Bytes → List Bytes
drop n [] = []
drop n (x ∷ xs) = let rest = drop (n - 1) xs in if n == 0 then x ∷ xs else rest

-- maxReferences
abbrev pub max_references : ℕ
max_references = 20

-- capReferences
unfoldable pub cap_references : List Bytes → List Bytes
cap_references refs =
    if leb (length refs) max_references then refs else drop (length refs - max_references) refs

-- Message
pub record Message : Type 0 where
  pub id : Bytes
  pub from : Bytes
  pub subject : Bytes
  pub date : Bytes
  pub body : Bytes
  pub read : Bool
  pub message_id : Bytes
  pub in_reply_to : Bytes
  pub references : List Bytes

-- SendOpts
pub record SendOpts : Type 0 where
  pub in_reply_to : Bytes
  pub references : List Bytes

-- the header lines of buildContent, the last two only if there is something to say
unfoldable pub reply_lines : Bytes → List Bytes
reply_lines v = if is_nil v then [] else (codes "In-Reply-To: " ++ v) ∷ []

unfoldable pub reference_lines : List Bytes → List Bytes
unfolding join
reference_lines refs =
    if is_nil refs then [] else (codes "References: " ++ join (codes " ") refs) ∷ []

unfoldable pub header_lines : Bytes → Bytes → Bytes → Bytes → SendOpts → List Bytes
unfolding cap_references reply_lines reference_lines
header_lines msg_id from subject date opts =
    (codes "Message-Id: " ++ msg_id)
    ∷ (codes "From: " ++ from)
    ∷ (codes "Subject: " ++ subject)
    ∷ (codes "Date: " ++ date)
    ∷ (reply_lines opts.in_reply_to ++ reference_lines (cap_references opts.references))

-- buildContent
unfoldable pub build_content : Bytes → Bytes → Bytes → Bytes → Bytes → SendOpts → Bytes
unfolding header_lines text_lines
build_content msg_id from subject date body opts =
    text_lines (header_lines msg_id from subject date opts) (codes "\n" ++ (body ++ codes "\n"))

-- the message so far, and sawHeader
abbrev pub Seen : Type 0
Seen = Message × Bool

-- the switch on the header's name
unfoldable pub set_header : Bytes → Bytes → Seen → Seen
unfolding same fields
set_header k v (m, saw) =
    if same k (codes "From")
    then (record m { from = v }, true)
    else if same k (codes "Subject")
    then (record m { subject = v }, true)
    else if same k (codes "Date")
    then (record m { date = v }, true)
    else if same k (codes "Message-Id")
    then (record m { message_id = v }, saw)
    else if same k (codes "In-Reply-To")
    then (record m { in_reply_to = v }, saw)
    else if same k (codes "References")
    then (record m { references = fields v }, saw)
    else (m, saw)

unfoldable pub read_header : Bytes → Seen → Seen
unfolding set_header cut
read_header line s = elim (cut (codes ": ") line) [ none ↦ s | some (k, v) ↦ set_header k v s ]

unfoldable pub read_headers : List Bytes → Seen → Seen
unfolding read_header
read_headers [] s = s
read_headers (l ∷ ls) s = read_headers ls (read_header l s)

abbrev pub bare_message : Bytes → Bytes → Message
bare_message id body = record {
  id = id;
  from = [];
  subject = [];
  date = [];
  body = body;
  read = false;
  message_id = [];
  in_reply_to = [];
  references = [];
}

unfoldable pub headed : Seen → Option Message
headed (m, saw) = if saw then some m else none

-- the end of parseMessageFile, from the two parts of the content
unfoldable pub parse_parts : Bytes → Option (Bytes × Bytes) → Option Message
unfolding read_headers split_lines trim_blank headed
parse_parts id none = none
parse_parts id (some (head, body)) =
    headed (read_headers (split_lines head) (bare_message id (trim_blank body), false))

-- parseMessageFile, from the file's content; `none` is ErrMalformed
unfoldable pub parse_message : Bytes → Bytes → Option Message
unfolding parse_parts cut
parse_message id content = parse_parts id (cut (codes "\n\n") content)
