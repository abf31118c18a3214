-- ===== src/Workitem/Modify.antt =====
-- internal/workitem/backend.go, modifyItem: read, change, and write under the hash that was read, again
-- if another process came between. `others n` is what other processes do to the store before the
-- write of the n-th attempt; `digest` is HashOf, and the times are as in Item.
use macguffin.Prelude.{
  ℕ, zero, suc, ◌+◌, Bool, true, false, ◌||◌, List, Option, none, some, Bytes, codes, if◌then◌else◌,
}
use macguffin.Store.{Status, Actor, Err, changed, ok, err}
use macguffin.Mgerr
use macguffin.Workitem.Item.{Item, render}
use macguffin.Workitem.Resolve.{
  Access, Match, Outcome, good, bad, Failure, refusal, resolve, resolve_unique, match_in,
}
use macguffin.Workitem.Lifecycle.{is_lost, io_error, writer, read_match}

-- what the apply of modifyItem answers
pub data Applied : Type 0 where
  refused_by : Failure → Applied
  left_alone : Item → Applied
  rewritten : Item → Applied

-- maxEditAttempts, less the last attempt
abbrev pub max_edit_retries : ℕ
max_edit_retries = 2

-- errRaced
abbrev pub raced : Failure
raced = refusal Mgerr.conflict (codes "edit_raced") true

-- errors.As(err, &changedErr)
unfoldable pub is_changed : Err → Bool
is_changed (changed id h c) = true
is_changed _ = false

-- one round of the loop: an answer, or another round
pub data Attempt (S : Type 0) : Type 0 where
  finished : Outcome (Item × Match) → S → Attempt S
  again : S → Attempt S

-- the record, as the write leaves it
abbrev pub rewrite_match : (Bytes → Bytes) → Bytes → Match → Match
rewrite_match digest content m = record m {
  doc = record m.doc { content = content; hash = digest content };
}

-- matchIn, on what Resolve answered
unfoldable pub match_now : Status → Outcome (List Match) → Outcome Match
unfolding match_in
match_now st (bad e) = bad e
match_now st (good ms) = match_in st ms

-- rematch; resolveUnique without its warning is resolve_unique
unfoldable pub rematch : {S : Type 0} → Access S → Bytes → Option Status → S → Outcome Match × S
unfolding match_now resolve resolve_unique
rematch b id none s = resolve_unique b id s
rematch b id (some st) s = let r = resolve b id s in (match_now st r.0, r.1)

module _ {S : Type 0} (b : Access S) (digest : Bytes → Bytes) (parse_time : Bytes → Option ℕ)
    (format_time : ℕ → Bytes) where
  -- the write of one round
  unfoldable pub write_back : ℕ → Actor → Match → Item → S → Attempt S
  unfolding render is_changed is_lost writer
  write_back now who m it s =
      let content = render format_time it in
      let w = b.backend.edit now m.id m.doc.hash content (writer who 0) s in
      elim w.0 [
        | ok done_now ↦ finished (good (it, rewrite_match digest content m)) w.1
        | err e ↦ if is_changed e || is_lost e then again w.1 else finished (bad io_error) w.1
      ]

  -- one round of the loop of modifyItem
  unfoldable pub attempt : (Item → Applied) → (ℕ → S → S) → ℕ → Actor → ℕ → Match → S → Attempt S
  unfolding read_match write_back
  attempt apply others now who n m s = elim (read_match b parse_time m) [
    | bad f ↦ finished (bad f) s
    | good it ↦ elim (apply it) [
      | refused_by f ↦ finished (bad f) s
      | left_alone it' ↦ finished (good (it', m)) s
      | rewritten it' ↦ write_back now who m it' (others n s)
    ]
  ]

  module _ (apply : Item → Applied) (others : ℕ → S → S) (now : ℕ) (who : Actor) where
    -- the loop of modifyItem, with the rounds left after the next, and the number of the next
    unfoldable pub modify_from : Option Status → ℕ → ℕ → Match → S → Outcome (Item × Match) × S
    unfolding attempt rematch
    modify_from stay zero n m s = elim (attempt apply others now who n m s) [
      | finished o t ↦ (o, t)
      | again t ↦ (bad raced, t)
    ]
    modify_from stay (suc left) n m s = elim (attempt apply others now who n m s) [
      | finished o t ↦ (o, t)
      | again t ↦
          let r = rematch b m.id stay t in
          elim r.0 [ bad f ↦ (bad raced, r.1) | good m' ↦ modify_from stay left (n + 1) m' r.1 ]
    ]

    -- modifyItem
    unfoldable pub modify_item : Option Status → Match → S → Outcome (Item × Match) × S
    unfolding modify_from
    modify_item stay m s = modify_from stay max_edit_retries 1 m s
