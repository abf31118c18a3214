-- ===== src/Mail/Delivery.antt =====
-- internal/mail/mail.go, SendWithOpts: where a message goes, and what becomes of the rest.
use macguffin.Prelude.{
  ℕ, zero, suc, ◌+◌, ◌≡◌, refl, sym, ap, ◌∙◌, arith, subst, Bool, true, false, not, ◌&&◌, ◌∷◌,
  Option, none, some, Bytes, if◌then◌else◌, Bool-cases, Option-cases, inl, inr, is_some, any, same,
}
use macguffin.Mgerr.{Answer, good, bad}
use macguffin.Mail.Message.{SendOpts, build_content}
use macguffin.Mail.Tree.{
  tmp, fresh, FilePath, Tree, at, remove, same_path, same_path_iff, same_sub, at-remove, at-cons,
  create_exclusive, link,
}
use macguffin.Mail.Box.{
  path, Post, ensure_maildir, Delivery, delivered, collision, publish, deliver_once, io_error,
  deliver, send_checks, max_delivery_attempts, send,
}

-- The same files under every path.
abbrev pub Same : Tree → Tree → Type 0
Same t u = (q : FilePath) → at q u ≡ at q t

-- One file more, under a path, and every other as it was.
abbrev pub Added : FilePath → Bytes → Tree → Tree → Type 0
Added p c t u = (q : FilePath) → at q u ≡ (if same_path p q then some c else at q t)

-- An id is free if neither tmp/ nor new/ has it.
unfoldable pub is_free : Bytes → Tree → Bytes → Bool
is_free recipient t id =
    not (is_some (at (path recipient tmp id) t)) && not (is_some (at (path recipient fresh id) t))

-- The first free id of `left` ids, from the k-th on
unfoldable pub first_free : ℕ → ℕ → (ℕ → Bytes) → Bytes → Tree → Option Bytes
unfolding is_free
first_free zero k mint recipient t = none
first_free (suc left) k mint recipient t =
    let rest = first_free left (k + 1) mint recipient t in
    if is_free recipient t (mint k) then some (mint k) else rest

tmp-apart : (r id : Bytes) → same_path (path r fresh id) (path r tmp id) ≡ false
unfolding same_path same_sub
tmp-apart r id = ground arith

apart-tmp : (r id : Bytes) → same_path (path r tmp id) (path r fresh id) ≡ false
unfolding same_path same_sub
apart-tmp r id = ground arith

-- What one attempt does
abbrev Attempt : Bytes → Bytes → Bytes → Tree → Delivery → Type 0
Attempt r id c t (delivered u) = (is_free r t id ≡ true) × Added (path r fresh id) c t u
Attempt r id c t (collision u) = (is_free r t id ≡ false) × Same t u

-- the temporary file goes again
untouched :
    (p q : FilePath) (c : Bytes) (t : Tree) → at p t ≡ none → at q (remove p ((p, c) ∷ t)) ≡ at q t
untouched p q c t h =
    at-remove p q ((p, c) ∷ t)
    ∙ ground (arith, at-cons p q c t, same_path_iff p q, ap (λ x. at x t), h)

deliver_once-tmp :
    (r id c d : Bytes) (t : Tree)
    → at (path r tmp id) t ≡ some d
    → deliver_once r id c t ≡ collision t
unfolding deliver_once create_exclusive
deliver_once-tmp r id c d t e = ground (arith, e)

fresh_beside :
    (r id c : Bytes) (t : Tree)
    → at (path r fresh id) ((path r tmp id, c) ∷ t) ≡ at (path r fresh id) t
fresh_beside r id c t =
    at-cons (path r tmp id) (path r fresh id) c t ∙ ground (arith, apart-tmp r id)

deliver_once-fresh :
    (r id c d : Bytes) (t : Tree)
    → at (path r tmp id) t ≡ none
    → at (path r fresh id) t ≡ some d
    → deliver_once r id c t ≡ collision (remove (path r tmp id) ((path r tmp id, c) ∷ t))
unfolding deliver_once create_exclusive publish link
deliver_once-fresh r id c d t e f = ground (arith, e, fresh_beside r id c t, f)

deliver_once-free :
    (r id c : Bytes) (t : Tree)
    → at (path r tmp id) t ≡ none
    → at (path r fresh id) t ≡ none
    → deliver_once r id c t
      ≡ delivered (remove (path r tmp id) ((path r fresh id, c) ∷ (path r tmp id, c) ∷ t))
unfolding deliver_once create_exclusive publish link
deliver_once-free r id c t e f = ground (arith, e, fresh_beside r id c t, f)

published :
    (r id c : Bytes) (t : Tree)
    → at (path r tmp id) t ≡ none
    → Added
        (path r fresh id)
        c
        t
        (remove (path r tmp id) ((path r fresh id, c) ∷ (path r tmp id, c) ∷ t))
published r id c t e q =
    at-remove (path r tmp id) q ((path r fresh id, c) ∷ (path r tmp id, c) ∷ t)
    ∙ ground (
      arith,
      at-cons (path r fresh id) q c ((path r tmp id, c) ∷ t),
      at-cons (path r tmp id) q c t,
      same_path_iff (path r tmp id) q,
      same_path_iff (path r fresh id) q,
      tmp-apart r id,
      ap (λ x. at x t),
      ap (λ x. same_path (path r fresh id) x),
      e,
    )

deliver_once-Attempt : (r id c : Bytes) (t : Tree) → Attempt r id c t (deliver_once r id c t)
deliver_once-Attempt r id c t = elim (Option-cases (at (path r tmp id) t)) [
  | inr (d, e) ↦
      subst (Attempt r id c t) (sym (deliver_once-tmp r id c d t e))
        (unfold is_free in ground (arith, e), λ q. refl)
  | inl e ↦ elim (Option-cases (at (path r fresh id) t)) [
    | inr (d, f) ↦
        subst (Attempt r id c t) (sym (deliver_once-fresh r id c d t e f))
          (unfold is_free in ground (arith, e, f), λ q. untouched (path r tmp id) q c t e)
    | inl f ↦
        subst (Attempt r id c t) (sym (deliver_once-free r id c t e f))
          (unfold is_free in ground (arith, e, f), published r id c t e)
  ]
]

first_free_stays :
    (left k : ℕ) (mint : ℕ → Bytes) (r : Bytes) (t u : Tree)
    → Same t u
    → first_free left k mint r u ≡ first_free left k mint r t
unfolding first_free is_free
first_free_stays zero k mint r t u h = refl
first_free_stays (suc left) k mint r t u h = ground (
  arith,
  h (path r tmp (mint k)),
  h (path r fresh (mint k)),
  first_free_stays left (k + 1) mint r t u h,
)

-- What sending does, given the first free id
abbrev pub Sent : Bytes → (Bytes → Bytes) → Tree → Option Bytes → Answer Bytes × Tree → Type 0
Sent r content t none out = (out.0 ≡ bad io_error) × Same t out.1
Sent r content t (some id) out = (out.0 ≡ good id) × Added (path r fresh id) (content id) t out.1

Sent-Same :
    (r : Bytes) (content : Bytes → Bytes) (t u : Tree) (o : Option Bytes)
    (out : Answer Bytes × Tree)
    → Same t u
    → Sent r content u o out
    → Sent r content t o out
Sent-Same r content t u none out h s = (s.0, λ q. s.1 q ∙ h q)
Sent-Same r content t u (some id) out h s = (
  s.0,
  λ q. s.1 q ∙ ap (λ x. if same_path (path r fresh id) q then some (content id) else x) (h q),
)

deliver-Sent :
    (left k : ℕ) (mint : ℕ → Bytes) (r : Bytes) (content : Bytes → Bytes) (t : Tree)
    → Sent r content t (first_free left k mint r t) (deliver left k mint r content t)
unfolding deliver first_free
deliver-Sent zero k mint r content t = (refl, λ q. refl)
deliver-Sent (suc left) k mint r content t =
    go (deliver_once r (mint k) (content (mint k)) t)
      (deliver_once-Attempt r (mint k) (content (mint k)) t)
      (λ u. deliver-Sent left (k + 1) mint r content u)
  where
    go :
        (d : Delivery)
        → Attempt r (mint k) (content (mint k)) t d
        → ((u : Tree)
            → Sent r content u
                (first_free left (k + 1) mint r u)
                (deliver left (k + 1) mint r content u))
        → Sent r content t
            (if is_free r t (mint k) then some (mint k) else first_free left (k + 1) mint r t)
            (elim d as (λ x. Answer Bytes × Tree) [
              | delivered t' ↦ (good (mint k), t')
              | collision t' ↦ deliver left (k + 1) mint r content t'
            ])
    go (delivered u) h more = rw h.0 (refl, h.1)
    go (collision u) h more = rw h.0 (
        Sent-Same r content t u (first_free left (k + 1) mint r t)
          (deliver left (k + 1) mint r content u) h.1
          (subst (λ o. Sent r content u o (deliver left (k + 1) mint r content u))
            (first_free_stays left (k + 1) mint r t u h.1) (more u)))

ensure_maildir-files : (r : Bytes) (p : Post) → (ensure_maildir r p).files ≡ p.files
unfolding ensure_maildir
ensure_maildir-files r p = elim (Bool-cases (any (same r) p.boxes)) [
  | inl e ↦ rw e refl
  | inr e ↦ rw e refl
]

abbrev pub content_of : Bytes → Bytes → Bytes → Bytes → SendOpts → Bytes → Bytes
content_of date from subject body opts id = build_content id from subject date body opts

-- A message that passes the checks is delivered if one of the first five ids that are minted is free: it is
-- then in new/ under the first such id, with its text, and no other file has changed. If none is,
-- the answer is an error and every file is as it was.
pub send-Sent :
    (mint : ℕ → Bytes) (date recipient from subject body : Bytes) (opts : SendOpts) (p : Post)
    → send_checks recipient from subject body opts ≡ none
    → let out = send mint date recipient from subject body opts p in
      Sent recipient
        (content_of date from subject body opts)
        p.files
        (first_free max_delivery_attempts 1 mint recipient p.files)
        (out.0, out.1.files)
unfolding send
send-Sent mint date recipient from subject body opts p h =
    rw (h, send, ensure_maildir-files recipient p)
      (deliver-Sent max_delivery_attempts 1 mint recipient (content_of date from subject body opts)
        p.files)
