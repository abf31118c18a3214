-- ===== src/Mail/Answers.antt =====
-- internal/mail/mail.go, Archive, Peek and Read: what they answer, and what becomes of the files.
use macguffin.Prelude.{
  ◌≡◌, ◌≢◌, refl, ap, ◌∙◌, arith, true, false, Option, none, some, Bytes, same_iff, Option-cases,
  inl, inr, ◌⊎◌,
}
use macguffin.Mgerr.{Answer, good, bad}
use macguffin.Mail.Message.{Message, parse_message, check_msg_id}
use macguffin.Mail.Tree.{
  Sub, fresh, cur, archived, FilePath, Tree, at, rename, same_path, same_path_iff, at-rename,
}
use macguffin.Mail.Box.{
  malformed_message, path, Post, source, archive_at, archive, read_at, read, peek,
}
use macguffin.Mail.Delivery.{Same}

-- One of the directories where Archive looks has the message.
abbrev pub Had : Bytes → Bytes → Bytes → Tree → Type 0
Had agent id c t =
    (at (path agent cur id) t ≡ some c)
    ⊎ ((at (path agent fresh id) t ≡ some c) ⊎ (at (path agent archived id) t ≡ some c))

-- What Archive leaves, by its answer
abbrev pub Archived : Bytes → Bytes → Tree → Answer Message → Tree → Type 0
Archived agent id t (bad e) u = Same t u
Archived agent id t (good m) u =
    (c : Bytes) × (m' : Message) × (parse_message id c ≡ some m')
    × (m ≡ record m' { read = true })
    × Had agent id c t
    × (at (path agent archived id) u ≡ some c)
    × ((q : FilePath) → q.name ≢ id → at q u ≡ at q t)

rename-other :
    (agent id c : Bytes) (a b : Sub) (q : FilePath) (t : Tree)
    → q.name ≢ id
    → at q (rename (path agent a id) c (path agent b id) t) ≡ at q t
unfolding same_path
rename-other agent id c a b q t n =
    at-rename (path agent a id) (path agent b id) q c t ∙ ground (arith, same_iff id q.name, n)

rename-there : (src dst : FilePath) (c : Bytes) (t : Tree) → at dst (rename src c dst t) ≡ some c
rename-there src dst c t = at-rename src dst dst c t ∙ ground (arith, same_path_iff dst dst)

source-cases :
    (agent id : Bytes) (t : Tree)
    → ((sub : Sub) × (c : Bytes) × (source agent id t ≡ some (sub, c)) × Had agent id c t)
      ⊎ (source agent id t ≡ none)
unfolding source
source-cases agent id t = elim (Option-cases (at (path agent cur id) t)) [
  | inr (c, e) ↦ inl (cur, c, rw (e, source) refl, inl e)
  | inl e ↦ elim (Option-cases (at (path agent fresh id) t)) [
    | inr (c, f) ↦ inl (fresh, c, (rw (e, f, source) refl), inr (inl f))
    | inl f ↦ inr (rw (e, f, source) refl)
  ]
]

archive_at-Archived :
    (agent id : Bytes) (t : Tree)
    → Archived agent id t (archive_at agent id t).0 (archive_at agent id t).1
unfolding archive_at
archive_at-Archived agent id t = elim (source-cases agent id t) [
  | inl (sub, c, e, h) ↦ elim (Option-cases (parse_message id c)) [
    | inl p ↦ rw (e, p, archive_at) (λ q. refl)
    | inr (m, p) ↦
        rw (e, p, archive_at)
          (
            c,
            m,
            p,
            refl,
            h,
            rename-there (path agent sub id) (path agent archived id) c t,
            λ q n. rename-other agent id c sub archived q t n,
          )
  ]
  | inr e ↦ elim (Option-cases (at (path agent archived id) t)) [
    | inl a ↦ rw (e, a, archive_at) (λ q. refl)
    | inr (c, a) ↦ elim (Option-cases (parse_message id c)) [
      | inl p ↦ rw (e, a, p, archive_at) (λ q. refl)
      | inr (m, p) ↦ rw (e, a, p, archive_at) (c, m, p, refl, inr (inr a), a, λ q n. refl)
    ]
  ]
]

-- If Archive answers an error, no file has changed. If it answers a message, that is what cur/, new/ or
-- archive/ had under the id, marked as read; archive/ now has its text under the id, and every file
-- of another name is as it was.
pub archive-Archived :
    (agent id : Bytes) (p : Post)
    → let out = archive agent id p in Archived agent id p.files out.0 out.1.files
unfolding archive
archive-Archived agent id p = elim (Option-cases (check_msg_id agent id)) [
  | inr (e, h) ↦ rw (h, archive) (λ q. refl)
  | inl h ↦ rw (h, archive) (archive_at-Archived agent id p.files)
]

abbrev pub unmarked : Answer Message → Answer Message
unmarked (bad e) = bad e
unmarked (good m) = good (record m { read = false })

abbrev answered : Option Message → Answer Message
answered o = elim o [ none ↦ bad malformed_message | some m ↦ good m ]

mark-apart :
    (o : Option Message)
    → unmarked (elim o [ none ↦ bad malformed_message | some m ↦ good (record m { read = true }) ])
      ≡ unmarked (elim o [ none ↦ bad malformed_message | some m ↦ good m ])
mark-apart none = refl
mark-apart (some m) = refl

-- Peek answers what Read would answer, errors included, but for the mark that the message was read.
pub peek-read :
    (agent id : Bytes) (p : Post) → unmarked (peek agent id p) ≡ unmarked (read agent id p).0
unfolding peek read read_at
peek-read agent id p = elim (Option-cases (check_msg_id agent id)) [
  | inr (e, h) ↦ rw (h, peek, read) refl
  | inl h ↦ elim (Option-cases (at (path agent fresh id) p.files)) [
    | inr (c, f) ↦ elim (Option-cases (parse_message id c)) [
      | inl m ↦ rw (h, f, m, peek, read, read_at) (ap (λ o. unmarked (answered o)) m)
      | inr (m, e) ↦ rw (h, f, e, peek, read, read_at) (ap (λ o. unmarked (answered o)) e)
    ]
    | inl f ↦ elim (Option-cases (at (path agent cur id) p.files)) [
      | inl g ↦ rw (h, f, g, peek, read, read_at) refl
      | inr (c, g) ↦ rw (h, f, g, peek, read, read_at) (mark-apart (parse_message id c))
    ]
  ]
]
