-- ===== src/Memstore.antt =====
-- internal/memstore/memstore.go: the in-memory backend. Its mutex makes each method one step, so a
-- method is a function from the store to its answer and the new store. `calls`, which counts the
-- methods invoked, is part of the store. Byte slices are values here: every slice is cloned on its
-- way in and out. `now` is what time.Now answers, `digest` is hex of crypto/sha256.
pub mod Companions
pub mod Listing
pub mod Lookup
pub mod Refines
pub mod Travel
use macguffin.Prelude.{
  ℕ, zero, suc, ◌+◌, Bool, true, false, not, ◌&&◌, ◌||◌, List, [], ◌∷◌, ◌++◌, Option, none, some,
  Bytes, codes, same, lookup, insert, itoa, is_nil, ◌==◌, if◌then◌else◌, length, ltb,
}
use macguffin.Store.{
  Status, claimed, done, archived, State, in_status, satisfies, same_status, Actor, Doc, Err,
  not_found, exists, lost, changed, refused, Result, ok, err,
}
use macguffin.Store.Backend.{Backend}

-- record
pub record Record : Type 0 where
  pub state : State
  pub partition : Bytes
  pub content : Bytes
  pub mtime : ℕ

-- Mem
pub record Mem : Type 0 where
  pub items : List (Bytes × Record)
  pub events : Bytes
  pub calls : List (Bytes × ℕ)
  pub auto_promote : Bool
  pub results : List (Bytes × Bytes)
  pub bodies : List (Bytes × List (Bytes × Bytes))
  pub stamp : Option Bytes

-- New
unfoldable pub new : Mem
new = record {
  items = [];
  events = [];
  calls = [];
  auto_promote = true;
  results = [];
  bodies = [];
  stamp = none;
}

-- m.calls[op]++
unfoldable pub count_call : Bytes → Mem → Mem
count_call op m = record m {
  calls = insert op (elim (lookup op m.calls) [ none ↦ 1 | some n ↦ n + 1 ]) m.calls;
}

-- Mem.Len
unfoldable pub len : Mem → ℕ
len m = length m.items

-- holderFor: fmt.Sprintf("%s@%s/%d/%s", …) for a claim that names no holder
unfoldable pub holder_for : State → Actor → State
unfolding same_status
holder_for st by =
    if same_status st.status claimed && is_nil st.holder && not (by.pid == 0)
    then record st {
      holder = by.name ++ codes "@" ++ by.host ++ codes "/" ++ itoa by.pid ++ codes "/" ++ by.nonce;
    }
    else st

-- Mem.lost
unfoldable pub lost_at : Bytes → State → Mem → Err
lost_at id expect m =
    lost id expect (elim (lookup id m.items) [ none ↦ none | some r ↦ some r.state ])

-- Create
unfoldable pub create : ℕ → Bytes → State → Bytes → Actor → Mem → Result (Unit {0}) × Mem
unfolding same_status
create now id st content by m =
    let m' = count_call (codes "Create") m in
    if same_status st.status archived then (err (refused id), m') else elim (lookup id m.items) [
      | some r ↦ (err (exists id), m')
      | none ↦ (
        ok tt,
        record m' {
          items =
              insert id
                (record {
                  state = holder_for st by;
                  partition = [];
                  content = content;
                  mtime = now;
                })
                m.items;
        },
      )
    ]

-- Transition: a compare-and-swap
unfoldable pub transition : ℕ → Bytes → State → State → Actor → Mem → Result (Unit {0}) × Mem
unfolding same_status
transition now id expect to by m =
    let m' = count_call (codes "Transition") m in
    if same_status expect.status archived || same_status to.status archived
    then (err (refused id), m')
    else elim (lookup id m.items) [
      | none ↦ (err (lost_at id expect m'), m')
      | some r ↦
          if satisfies r.state expect
          then (
            ok tt,
            record m' {
              items = insert id (record r { state = holder_for to by; mtime = now }) m.items;
            },
          )
          else (err (lost_at id expect m'), m')
    ]

-- Archive
unfoldable pub archive : Bytes → Bytes → Actor → Mem → Result (Unit {0}) × Mem
archive id partition by m =
    let m' = count_call (codes "Archive") m in
    elim (lookup id m.items) [
      | none ↦ (err (lost_at id (in_status done) m'), m')
      | some r ↦
          if satisfies r.state (in_status done)
          then (
            ok tt,
            record m' {
              items =
                  insert id (record r { state = in_status archived; partition = partition })
                    m.items;
            },
          )
          else (err (lost_at id (in_status done) m'), m')
    ]

module _ (digest : Bytes → Bytes) where
  -- Mem.doc
  unfoldable pub doc : Bytes → Record → Doc
  doc id r = record {
    id = id;
    state = r.state;
    partition = r.partition;
    content = r.content;
    hash = digest r.content;
    mtime = r.mtime;
    place = [];
  }

  -- Get
  unfoldable pub get : Bytes → Mem → Result Doc × Mem
  unfolding doc
  get id m =
      let m' = count_call (codes "Get") m in
      elim (lookup id m.items) [ none ↦ (err (not_found id), m') | some r ↦ (ok (doc id r), m') ]

  docs_in : Status → List (Bytes × Record) → List Doc
  docs_in st [] = []
  docs_in st ((id, r) ∷ rest) =
      if same_status r.state.status st then doc id r ∷ docs_in st rest else docs_in st rest

  -- List
  unfoldable pub list : Status → Mem → Result (List Doc) × Mem
  unfolding docs_in
  list st m = (ok (docs_in st m.items), count_call (codes "List") m)

  -- Edit: the state is never touched.
  unfoldable pub edit : ℕ → Bytes → Bytes → Bytes → Actor → Mem → Result (Unit {0}) × Mem
  edit now id if_unchanged content by m =
      let m' = count_call (codes "Edit") m in
      elim (lookup id m.items) [
        | none ↦ (err (not_found id), m')
        | some r ↦
            if is_nil if_unchanged || same (digest r.content) if_unchanged
            then (
              ok tt,
              record m' { items = insert id (record r { content = content; mtime = now }) m.items },
            )
            else (err (changed id if_unchanged (digest r.content)), m')
      ]

  -- Mem as a store.Backend
  abbrev pub backend : Backend Mem
  backend = record {
    create = create;
    get = get;
    transition = transition;
    edit = edit;
    archive = archive;
  }
