-- ===== src/Store/Approvals.antt =====
-- `_Approvals`, `_Users` and `_AuditLog` of backend/src/home_compass/store/sqlite_store.py.
use home_compass.Prelude.{
  String, Bool, true, false, ◌&&◌, Option, List, [], ◌∷◌, ◌++◌, ◌==◌, is_none, find_where,
  filter_where,
}
use home_compass.Store.Models.{Db, ApprovalRecord, approved, User}
use home_compass.Store.Action.{Action, store_error, pure, gets, require, modify, ◌>>=◌, ◌>>◌}
use home_compass.Store.Validation.{require_aware, validate_approval, validate_role}

abbrev has_record_id : String → ApprovalRecord → Bool
has_record_id id r = r.id == id

-- `_Approvals.add`; the key refuses a second row with the same id
unfoldable pub add_approval : ApprovalRecord → Action ApprovalRecord
add_approval record' = do
  require (require_aware record'.at) store_error
  require (validate_approval record'.decision record'.reason) store_error
  old ← gets (λ db. find_where (has_record_id record'.id) db.approvals)
  require (is_none old) store_error
  modify (λ db. record db { approvals = db.approvals ++ record' ∷ [] })
  pure record'

abbrev pub is_for : String → ApprovalRecord → Bool
is_for target_id r = r.target_id == target_id

abbrev pub approves : String → ApprovalRecord → Bool
approves target_id r = is_for target_id r && (elim r.decision [ approved ↦ true | _ ↦ false ])

-- `_Approvals.list_for`
pub list_for : String → Db → List ApprovalRecord
list_for target_id db = filter_where (is_for target_id) db.approvals

abbrev has_username : String → User → Bool
has_username name u = u.username == name

-- `_Users.get_by_username`
unfoldable pub get_by_username : String → Db → Option User
get_by_username name db = find_where (has_username name) db.users

-- `_Users.add`; the id and the username are keys of the table
unfoldable pub add_user : User → Action User
unfolding get_by_username
add_user user = do
  require (validate_role user.role) store_error
  require (require_aware user.created_at) store_error
  same_id ← gets (λ db. find_where (λ (u : User). u.id == user.id) db.users)
  require (is_none same_id) store_error
  same_name ← gets (get_by_username user.username)
  require (is_none same_name) store_error
  modify (λ db. record db { users = db.users ++ user ∷ [] })
  pure user
