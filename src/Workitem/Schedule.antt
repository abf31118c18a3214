-- ===== src/Workitem/Schedule.antt =====
-- internal/workitem/schedule.go and promote.go: filing pending items whose gate has opened. `list` is List
-- of the backend, `id_lister` its optional IDs, `clock` is snoozeNow. Whether a spent snooze was
-- cleared, which the event and the returned item show, is not modelled.
use macguffin.Prelude.{
  ℕ, Bool, true, false, List, [], ◌∷◌, ◌++◌, Option, none, some, Bytes, codes, same, is_nil, any,
  if◌then◌else◌,
}
use macguffin.Store.{
  Status, available, done, archived, pending, in_status, Actor, Doc, Result, ok, err,
}
use macguffin.Workitem.Item.{Item}
use macguffin.Workitem.Resolve.{
  Access, Match, Outcome, good, bad, Failure, refusal, malformed, backend_error, resolve, match_of,
  match_state,
}
use macguffin.Workitem.Lifecycle.{is_lost, writer, read_match}
use macguffin.Workitem.Modify.{Applied, left_alone, rewritten, match_now, modify_item}
use macguffin.Workitem.Snooze.{gate_open, clear_snooze}

abbrev ids_of : List Doc → List Bytes
ids_of [] = []
ids_of (d ∷ ds) = d.id ∷ ids_of ds

abbrev ids_listed : Result (List Doc) → Result (List Bytes)
ids_listed (ok ds) = ok (ids_of ds)
ids_listed (err e) = err e

-- idsIn
unfoldable pub ids_in :
    {S : Type 0}
    → (Status → S → Result (List Doc) × S)
    → Option (Status → S → Result (List Bytes) × S)
    → Status
    → S
    → Result (List Bytes) × S
ids_in list (some ids) st s = ids st s
ids_in list none st s = let r = list st s in (ids_listed r.0, r.1)

-- doneIDSet, as the list of its members
unfoldable pub done_id_set :
    {S : Type 0}
    → (Status → S → Result (List Doc) × S)
    → Option (Status → S → Result (List Bytes) × S)
    → S
    → Result (List Bytes) × S
unfolding ids_in
done_id_set list id_lister s =
    let d = ids_in list id_lister done s in
    let a = ids_in list id_lister archived d.1 in
    elim d.0 [
      | err e ↦ (err e, d.1)
      | ok ds ↦ elim a.0 [ err e ↦ (err e, a.1) | ok as_ids ↦ (ok (ds ++ as_ids), a.1) ]
    ]

-- the change of clearSpentSnooze
unfoldable pub woken : Item → Applied
unfolding clear_snooze
woken it = if is_nil it.snooze_raw then left_alone it else rewritten (clear_snooze it)

-- mgerr.Coerce(err).Code == "edit_raced"
unfoldable pub is_raced : Failure → Bool
unfolding same
is_raced f = elim f [
  | refusal c code r ↦ same code (codes "edit_raced")
  | backend_error e ↦ false
  | malformed ↦ false
]

module _ {S : Type 0} (b : Access S) (digest : Bytes → Bytes) (parse_time : Bytes → Option ℕ)
    (format_time : ℕ → Bytes) (others : ℕ → S → S) (now : ℕ) (who : Actor) where
  -- what clearSpentSnooze makes of the modification
  abbrev pub cleared : {A : Type 0} → Outcome A → Outcome (Unit {0})
  unfolding is_raced
  cleared (good x) = good tt
  cleared (bad f) = if is_raced f then good tt else bad f

  -- clearSpentSnooze, once the record is looked up
  unfoldable pub clear_match : Status → Outcome Match → S → Outcome (Unit {0}) × S
  unfolding modify_item woken is_raced
  clear_match st (bad f) s = (good tt, s)
  clear_match st (good m) s =
      let r = modify_item b digest parse_time format_time woken others now who (some st) m s in
      (cleared r.0, r.1)

  -- clearSpentSnooze
  unfoldable pub clear_spent_snooze : Bytes → Status → S → Outcome (Unit {0}) × S
  unfolding match_now resolve clear_match
  clear_spent_snooze id st s = let r = resolve b id s in clear_match st (match_now st r.0) r.1

  abbrev pub promoted_as : Outcome (Unit {0}) → Outcome Bool
  promoted_as (good x) = good true
  promoted_as (bad f) = bad f

  -- promote, after its transition
  unfoldable pub promoted : Bytes → Result (Unit {0}) × S → Outcome Bool × S
  unfolding is_lost clear_spent_snooze
  promoted id (ok done_now, s) = let c = clear_spent_snooze id available s in (promoted_as c.0, c.1)
  promoted id (err e, s) = (if is_lost e then good false else bad (backend_error e), s)

  -- promote
  unfoldable pub promote : Match → Item → S → Outcome Bool × S
  unfolding promoted writer match_state
  promote m it s =
      promoted it.id
        (b.backend.transition now m.id (match_state m) (in_status available) (writer who 0) s)

  abbrev pub add_promoted : Item → Bool → Outcome (List Item) → Outcome (List Item)
  add_promoted it moved (bad f) = bad f
  add_promoted it moved (good its) = good (if moved then it ∷ its else its)

  module _ (done_ids : Bytes → Bool) (clock : ℕ) where
    -- the loop of Schedule
    unfoldable pub promote_all : List Doc → S → Outcome (List Item) × S
    unfolding read_match match_of gate_open promote
    promote_all [] s = (good [], s)
    promote_all (d ∷ ds) s = elim (read_match b parse_time (match_of d.id d)) [
      | bad f ↦ promote_all ds s
      | good it ↦
          let p = promote (match_of d.id d) it s in
          elim (gate_open done_ids clock it) [
            | false ↦ promote_all ds s
            | true ↦ elim p.0 [
              | bad f ↦ (bad f, p.1)
              | good moved ↦ let rest = promote_all ds p.1 in (add_promoted it moved rest.0, rest.1)
            ]
          ]
    ]

  -- Schedule, with what the listings answered
  unfoldable pub schedule_listed : ℕ → List Doc → Result (List Bytes) → S → Outcome (List Item) × S
  unfolding promote_all same
  schedule_listed clock ds (err e) s = (bad (backend_error e), s)
  schedule_listed clock ds (ok ids) s = promote_all (λ id. any (same id) ids) clock ds s

  -- Schedule
  unfoldable pub schedule :
      (Status → S → Result (List Doc) × S)
      → Option (Status → S → Result (List Bytes) × S)
      → ℕ
      → S
      → Outcome (List Item) × S
  unfolding schedule_listed done_id_set
  schedule list id_lister clock s =
      let l = list pending s in
      let i = done_id_set list id_lister l.1 in
      elim l.0 [ err e ↦ (bad (backend_error e), l.1) | ok ds ↦ schedule_listed clock ds i.0 i.1 ]
