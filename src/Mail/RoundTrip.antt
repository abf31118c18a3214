-- ===== src/Mail/RoundTrip.antt =====
-- internal/mail/mail.go: a message that passed the checks of SendWithOpts is read as it was sent.
use macguffin.Prelude.{
  ℕ, ◌-◌, ◌≡◌, ◌≢◌, refl, ap, ◌∙◌, arith, Bool, true, false, List, [], ◌∷◌, ◌++◌, none, some, Bytes,
  codes, same, cut_prefix, any, All, All-append, length, leb, ◌==◌, Bool-cases, inl, inr, is_nil,
}
use macguffin.Lines.{newline, join, cut, IsLine, split_lines-join_lines}
use macguffin.Lines.Cut.{IsUnmarked, cut-text_lines}
use macguffin.Lines.Words.{fields, fields-join, IsWord, NoBlank, trim_blank, trim_blank-newline}
use macguffin.Mail.Message.{
  is_control, valid_component, check_header_value, check_msg_id_header, drop, max_references,
  cap_references, Message, SendOpts, reply_lines, reference_lines, header_lines, build_content,
  Seen, read_header, read_headers, bare_message, headed, parse_parts, parse_message,
}

-- What the checks let through
IsLine-control : (v : Bytes) → any is_control v ≡ false → IsLine v
IsLine-control [] h = tt
IsLine-control (c ∷ v) h = ((λ q. ground arith), IsLine-control v (ground arith))

pub check_header_value-IsLine : (v : Bytes) → check_header_value v ≡ none → IsLine v
unfolding check_header_value
check_header_value-IsLine v h = IsLine-control v (ground arith)

pub check_msg_id_header-IsLine : (v : Bytes) → check_msg_id_header v ≡ none → IsLine v
unfolding check_msg_id_header check_header_value
check_msg_id_header-IsLine v h = IsLine-control v (ground arith)

check_msg_id_header-given : (v : Bytes) → check_msg_id_header v ≡ none → is_nil v ≡ false
unfolding check_msg_id_header check_header_value valid_component
check_msg_id_header-given v h = ground arith

-- A reference that the checks let through
abbrev pub IsReference : Bytes → Type 0
IsReference r = check_msg_id_header r ≡ none

words : (refs : List Bytes) → All IsReference refs → All NoBlank refs → All IsWord refs
words [] h b = tt
words (r ∷ refs) h b = ((check_msg_id_header-given r h.0, b.0), words refs h.1 b.1)

module _ (P : Bytes → Type 0) where
  drop-All : (n : ℕ) (refs : List Bytes) → All P refs → All P (drop n refs)
  drop-All n [] h = tt
  drop-All n (r ∷ refs) h = elim (Bool-cases (n == 0)) [
    | inl e ↦ rw e h
    | inr e ↦ rw e (drop-All (n - 1) refs h.1)
  ]

  cap_references-All : (refs : List Bytes) → All P refs → All P (cap_references refs)
  unfolding cap_references
  cap_references-All refs h = elim (Bool-cases (leb (length refs) max_references)) [
    | inl e ↦ rw e h
    | inr e ↦ rw e (drop-All (length refs - max_references) refs h)
  ]

join-IsLine : (refs : List Bytes) → All IsReference refs → IsLine (join (codes " ") refs)
unfolding join
join-IsLine [] h = tt
join-IsLine (r ∷ []) h = check_msg_id_header-IsLine r h.0
join-IsLine (r ∷ q ∷ refs) h =
    All-append (λ c. c ≢ newline) r (32 ∷ join (codes " ") (q ∷ refs))
      (check_msg_id_header-IsLine r h.0) ((λ e. omega arith), join-IsLine (q ∷ refs) h.1)

read_headers-append :
    (ls ms : List Bytes) (s : Seen)
    → read_headers (ls ++ ms) s ≡ read_headers ms (read_headers ls s)
unfolding read_headers
read_headers-append [] ms s = refl
read_headers-append (l ∷ ls) ms s = read_headers-append ls ms (read_header l s)

-- The lines read, one kind after another
read_headers-reply :
    (v : Bytes) (m : Message) (saw : Bool)
    → m.in_reply_to ≡ []
    → read_headers (reply_lines v) (m, saw) ≡ (record m { in_reply_to = v }, saw)
unfolding reply_lines read_headers
read_headers-reply [] m saw e = ground (arith, e)
read_headers-reply (c ∷ v) m saw e = unfold read_header same cut cut_prefix in refl

references_read :
    (refs : List Bytes) (m : Message) (saw : Bool)
    → read_header (codes "References: " ++ join (codes " ") refs) (m, saw)
      ≡ (record m { references = fields (join (codes " ") refs) }, saw)
unfolding read_header same cut cut_prefix
references_read refs m saw = refl

read_headers-references :
    (refs : List Bytes) (m : Message) (saw : Bool)
    → m.references ≡ []
    → All IsWord refs
    → read_headers (reference_lines refs) (m, saw) ≡ (record m { references = refs }, saw)
unfolding reference_lines read_headers
read_headers-references [] m saw e h = ground (arith, e)
read_headers-references (r ∷ refs) m saw e h =
    references_read (r ∷ refs) m saw
    ∙ ap (λ f. (record m { references = f }, saw)) (fields-join (r ∷ refs) h)

named_read :
    (msg_id from subject date : Bytes) (rest : List Bytes) (m : Message)
    → read_headers
        ((codes "Message-Id: " ++ msg_id)
          ∷ (codes "From: " ++ from)
          ∷ (codes "Subject: " ++ subject)
          ∷ (codes "Date: " ++ date)
          ∷ rest)
        (m, false)
      ≡ read_headers rest
          (record m { from = from; subject = subject; date = date; message_id = msg_id }, true)
unfolding read_headers read_header same cut cut_prefix
named_read msg_id from subject date rest m = refl

-- the message that is read
abbrev pub read_back : Bytes → Bytes → Bytes → Bytes → Bytes → Bytes → SendOpts → Message
read_back id msg_id from subject date body opts = record {
  id = id;
  from = from;
  subject = subject;
  date = date;
  body = trim_blank body;
  read = false;
  message_id = msg_id;
  in_reply_to = opts.in_reply_to;
  references = cap_references opts.references;
}

read_headers-header_lines :
    (id msg_id from subject date body : Bytes) (opts : SendOpts)
    → All IsReference opts.references
    → All NoBlank opts.references
    → read_headers
        (header_lines msg_id from subject date opts)
        (bare_message id (trim_blank body), false)
      ≡ (read_back id msg_id from subject date body opts, true)
unfolding header_lines
read_headers-header_lines id msg_id from subject date body opts h w =
    let m : Message = record (bare_message id (trim_blank body)) {
      from = from;
      subject = subject;
      date = date;
      message_id = msg_id;
    } in
    let m' : Message = record m { in_reply_to = opts.in_reply_to } in
    let refs = cap_references opts.references in
    named_read msg_id from subject date (reply_lines opts.in_reply_to ++ reference_lines refs)
      (bare_message id (trim_blank body))
    ∙ read_headers-append (reply_lines opts.in_reply_to) (reference_lines refs) (m, true)
    ∙ ap (read_headers (reference_lines refs)) (read_headers-reply opts.in_reply_to m true refl)
    ∙ read_headers-references refs m' true refl (
        words refs (cap_references-All IsReference opts.references h)
          (cap_references-All NoBlank opts.references w))

keyed : (k v : Bytes) → IsLine k → IsLine v → IsLine (k ++ v)
keyed k v = All-append (λ c. c ≢ newline) k v

first_stays : (c : ℕ) (l : Bytes) → c ≢ newline → IsUnmarked (codes "\n") (c ∷ l)
unfolding cut_prefix
first_stays c l h t = ground (arith, h)

reply_lines-All :
    (v : Bytes)
    → IsLine v
    → All IsLine (reply_lines v) × All (IsUnmarked (codes "\n")) (reply_lines v)
unfolding reply_lines cut_prefix
reply_lines-All [] h = (tt, tt)
reply_lines-All (c ∷ v) h =
    ((keyed (codes "In-Reply-To: ") (c ∷ v) (omega arith) h, tt), ((λ t. refl), tt))

reference_lines-All :
    (refs : List Bytes)
    → All IsReference refs
    → All IsLine (reference_lines refs) × All (IsUnmarked (codes "\n")) (reference_lines refs)
unfolding reference_lines cut_prefix
reference_lines-All [] h = (tt, tt)
reference_lines-All (r ∷ refs) h = (
  (
    keyed (codes "References: ") (join (codes " ") (r ∷ refs)) (omega arith)
        (join-IsLine (r ∷ refs) h),
    tt,
  ),
  ((λ t. refl), tt),
)

-- A message whose sender, subject and references pass the checks of SendWithOpts, whose references have no
-- Unicode space in them, and whose id, date and reply are one line each, is read back from the content
-- built for it: its fields are those given, the references the last twenty, and the body is trimmed.
pub parse_message-build_content :
    (id msg_id from subject date body : Bytes) (opts : SendOpts)
    → IsLine msg_id
    → IsLine date
    → check_header_value from ≡ none
    → check_header_value subject ≡ none
    → IsLine opts.in_reply_to
    → All IsReference opts.references
    → All NoBlank opts.references
    → parse_message id (build_content msg_id from subject date body opts)
      ≡ some (read_back id msg_id from subject date body opts)
unfolding parse_message build_content parse_parts headed header_lines
parse_message-build_content id msg_id from subject date body opts i d f s r h w =
    let refs = cap_references opts.references in
    let a = reply_lines-All opts.in_reply_to r in
    let b = reference_lines-All refs (cap_references-All IsReference opts.references h) in
    let ls =
      (codes "From: " ++ from)
      ∷ (codes "Subject: " ++ subject)
      ∷ (codes "Date: " ++ date)
      ∷ (reply_lines opts.in_reply_to ++ reference_lines refs) in
    let lines : All IsLine ((codes "Message-Id: " ++ msg_id) ∷ ls) = (
      keyed (codes "Message-Id: ") msg_id (omega arith) i,
      (
        keyed (codes "From: ") from (omega arith) (check_header_value-IsLine from f),
        (
          keyed (codes "Subject: ") subject (omega arith) (check_header_value-IsLine subject s),
          (
            keyed (codes "Date: ") date (omega arith) d,
            All-append IsLine (reply_lines opts.in_reply_to) (reference_lines refs) a.0 b.0,
          ),
        ),
      ),
    ) in
    let unmarked : All (IsUnmarked (codes "\n")) ls = (
      first_stays b'F' (codes "rom: " ++ from) (omega arith),
      (
        first_stays b'S' (codes "ubject: " ++ subject) (omega arith),
        (
          first_stays b'D' (codes "ate: " ++ date) (omega arith),
          All-append (IsUnmarked (codes "\n")) (reply_lines opts.in_reply_to) (reference_lines refs)
              a.1 b.1,
        ),
      ),
    ) in
    ap (parse_parts id) (
      cut-text_lines (codes "\n") (codes "Message-Id: " ++ msg_id) ls (body ++ codes "\n") lines
        unmarked)
    ∙ ap (λ t. headed (read_headers t (bare_message id (trim_blank (body ++ codes "\n")), false)))
        (split_lines-join_lines ((codes "Message-Id: " ++ msg_id) ∷ ls) (cc) lines)
    ∙ ap
        (λ b.
          headed (read_headers ((codes "Message-Id: " ++ msg_id) ∷ ls) (bare_message id b, false)))
        (trim_blank-newline body)
    ∙ ap headed (read_headers-header_lines id msg_id from subject date body opts h w)
