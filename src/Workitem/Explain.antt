-- ===== src/Workitem/Explain.antt =====
-- internal/workitem/errors.go: why an operation could not be done, from where the item is now. `none`
-- is an id that does not resolve.
use macguffin.Prelude.{true, Option, none, some, codes}
use macguffin.Store.{Status, available, claimed, done, pending, shelved, archived}
use macguffin.Mgerr
use macguffin.Workitem.Resolve.{Failure, refusal, conflict, no_such_item}

-- the answer to a race: it may be tried again
abbrev pub claim_race : Failure
claim_race = refusal Mgerr.conflict (codes "claim_race") true

-- explainClaimFailure
unfoldable pub explain_claim_failure : Option Status → Failure
explain_claim_failure none = no_such_item
explain_claim_failure (some claimed) = conflict (codes "already_claimed")
explain_claim_failure (some done) = conflict (codes "already_done")
explain_claim_failure (some pending) = conflict (codes "unmet_dependencies")
explain_claim_failure (some shelved) = conflict (codes "item_shelved")
explain_claim_failure (some archived) = conflict (codes "item_archived")
explain_claim_failure (some available) = claim_race

-- explainDoneFailure
unfoldable pub explain_done_failure : Option Status → Failure
explain_done_failure none = no_such_item
explain_done_failure (some available) = conflict (codes "not_claimed")
explain_done_failure (some pending) = conflict (codes "not_claimed")
explain_done_failure (some done) = conflict (codes "already_done")
explain_done_failure (some shelved) = conflict (codes "item_shelved")
explain_done_failure (some archived) = conflict (codes "item_archived")
explain_done_failure (some claimed) = claim_race

-- explainUnclaimFailure
unfoldable pub explain_unclaim_failure : Option Status → Failure
explain_unclaim_failure none = no_such_item
explain_unclaim_failure (some available) = conflict (codes "not_claimed")
explain_unclaim_failure (some pending) = conflict (codes "not_claimed")
explain_unclaim_failure (some done) = conflict (codes "already_done")
explain_unclaim_failure (some shelved) = conflict (codes "item_shelved")
explain_unclaim_failure (some archived) = conflict (codes "item_archived")
explain_unclaim_failure (some claimed) = claim_race

-- explainReclaimFailure
unfoldable pub explain_reclaim_failure : Option Status → Failure
explain_reclaim_failure none = no_such_item
explain_reclaim_failure (some available) = conflict (codes "not_claimed")
explain_reclaim_failure (some pending) = conflict (codes "not_claimed")
explain_reclaim_failure (some done) = conflict (codes "already_done")
explain_reclaim_failure (some shelved) = conflict (codes "item_shelved")
explain_reclaim_failure (some archived) = conflict (codes "item_archived")
explain_reclaim_failure (some claimed) = claim_race

-- explainReopenFailure
unfoldable pub explain_reopen_failure : Option Status → Failure
explain_reopen_failure none = no_such_item
explain_reopen_failure (some available) = conflict (codes "not_done")
explain_reopen_failure (some claimed) = conflict (codes "not_done")
explain_reopen_failure (some pending) = conflict (codes "not_done")
explain_reopen_failure (some shelved) = conflict (codes "item_shelved")
explain_reopen_failure (some archived) = conflict (codes "item_archived")
explain_reopen_failure (some done) = claim_race

-- explainArchiveFailure
unfoldable pub explain_archive_failure : Option Status → Failure
explain_archive_failure none = no_such_item
explain_archive_failure (some available) = conflict (codes "not_done")
explain_archive_failure (some claimed) = conflict (codes "not_done")
explain_archive_failure (some pending) = conflict (codes "not_done")
explain_archive_failure (some shelved) = conflict (codes "item_shelved")
explain_archive_failure (some archived) = conflict (codes "already_archived")
explain_archive_failure (some done) = claim_race

-- explainUnshelveFailure
unfoldable pub explain_unshelve_failure : Option Status → Failure
explain_unshelve_failure none = no_such_item
explain_unshelve_failure (some shelved) = claim_race
explain_unshelve_failure (some st) = conflict (codes "not_shelved")
