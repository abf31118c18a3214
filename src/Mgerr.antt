-- ===== src/Mgerr.antt =====
-- internal/mgerr/mgerr.go: the errors of the command line. The wrapped Go error is not kept. Messages
-- and hints are ASCII, so strings.TrimSpace trims the six ASCII space bytes.
pub mod Utf8
use macguffin.Prelude.{ℕ, Bool, false, ◌++◌, Bytes, codes, is_nil, if◌then◌else◌, trim_space}

-- Category
pub data Category : Type 0 where
  internal usage not_found conflict : Category

-- Category.ExitCode
unfoldable pub exit_code : Category → ℕ
exit_code usage = 2
exit_code not_found = 3
exit_code conflict = 4
exit_code internal = 1

-- Category.String
unfoldable pub category_name : Category → Bytes
category_name usage = codes "usage"
category_name not_found = codes "not_found"
category_name conflict = codes "conflict"
category_name internal = codes "internal"

-- Error
pub record Error : Type 0 where
  pub category : Category
  pub code : Bytes
  pub message : Bytes
  pub hint : Bytes
  pub retryable : Bool

-- an error less its texts, for the packages whose texts are not modelled
pub record Fault : Type 0 where
  pub category : Category
  pub code : Bytes

pub data Answer {ℓ} (A : Type ℓ) : Type ℓ where
  good : A → Answer A
  bad : Fault → Answer A

-- Usage, NotFound and Conflict
unfoldable pub refusal : Category → Bytes → Bytes → Bytes → Error
refusal c code msg hint = record {
  category = c;
  code = code;
  message = msg;
  hint = hint;
  retryable = false;
}

-- Error.WithRetryable
unfoldable pub with_retryable : Bool → Error → Error
with_retryable v e = record e { retryable = v }

-- Error.AppendHint
unfoldable pub append_hint : Bytes → Error → Error
append_hint extra e =
    let x = trim_space extra in
    let h = trim_space e.hint in
    if is_nil x
    then e
    else if is_nil h
    then record e { hint = x }
    else record e { hint = h ++ (codes " " ++ x) }
