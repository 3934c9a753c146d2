-- ===== src/Approval/Batch/Atomic.antt =====
-- `_batch_approve` of backend/src/home_compass/main.py: all drafts of a request, or none.
use home_compass.Prelude.{String, ◌≡◌, Option, List}
use home_compass.Store.Models.{DateTime, Db, RuleDraft}
use home_compass.Store.Action.{Result, ok, err}
use home_compass.Auth.Sessions.{Session}
use home_compass.Approval.Decide.{Outcome, Reply, done, failed, Outside}
use home_compass.Approval.Batch.Claims.{ids}
use home_compass.Approval.Batch.Held.{Claims, Held}
use home_compass.Approval.Batch.Steps.{Applied, IsBroken}

-- a draft that is found has the id that was asked for
abbrev IsNamed : String → Reply RuleDraft → Type 0
IsNamed id (done d) = d.id ≡ id
IsNamed id (failed status code) = Unit

abbrev AreNamed : List String → Reply (List RuleDraft) → Type 0
AreNamed names (done drafts) = ids drafts ≡ names
AreNamed names (failed status code) = Unit

module _ (out : Outside) (session : Session) (reason : Option String) (now : DateTime) where
  -- What the end of `_batch_approve` says of the drafts that the request names.
  abbrev pub Batches : List String → Db → Result (Reply (List Outcome)) × Db → Type 0
  Batches names a (ok (failed status code), c) = Held a c
  Batches names a (ok (done os), c) =
      (drafts : List RuleDraft) × (ids drafts ≡ names)
      × ((b : Db) × Claims drafts a b × Applied out session reason now drafts b os c)
  Batches names a (err e, c) =
      (drafts : List RuleDraft) × (ids drafts ≡ names)
      × ((b : Db) × Claims drafts a b × IsBroken out session reason now drafts b c)
