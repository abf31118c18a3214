-- ===== src/Memstore/Travel.antt =====
-- The companions of the in-memory store travel with the item, and saved bodies are kept by name.
use macguffin.Prelude.{
  ◌≡◌, ap, arith, none, some, Bytes, same, same_refl, lookup, insert, lookup-insert, if◌then◌else◌,
}
use macguffin.Store.{Ref, ok, err, not_found}
use macguffin.Memstore.{Mem, count_call}
use macguffin.Memstore.Companions.{save_body, read_body, bodies_of}

saved :
    (ref : Ref) (name body : Bytes) (m : Mem)
    → bodies_of ref.id (save_body ref name body m).1 ≡ insert name body (bodies_of ref.id m)
unfolding save_body count_call bodies_of
saved ref name body m = ground (
  arith,
  lookup-insert ref.id ref.id (insert name body (bodies_of ref.id m)) m.bodies,
  same_refl ref.id,
)

read_body_of :
    (ref : Ref) (name : Bytes) (m : Mem)
    → (read_body ref name m).0
      ≡ (elim (lookup name (bodies_of ref.id m)) [ none ↦ err (not_found ref.id) | some b ↦ ok b ])
unfolding read_body
read_body_of ref name m = ground arith

-- A saved body is read back under its name, and every other name reads as before.
pub read_body-save_body :
    (ref : Ref) (name other body : Bytes) (m : Mem)
    → (read_body ref other (save_body ref name body m).1).0
      ≡ (if same name other then ok body else (read_body ref other m).0)
read_body-save_body ref name other body m = ground (
  arith,
  read_body_of ref other (save_body ref name body m).1,
  read_body_of ref other m,
  ap (lookup other) (saved ref name body m),
  lookup-insert name other body (bodies_of ref.id m),
)
