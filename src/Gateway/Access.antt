-- ===== src/Gateway/Access.antt =====
-- Who may act on a task (`membership`, `require_member`, `require_admin`, `require_owner`,
-- `require_service` and `require_task_consumer` of src/vgen/gateway/repository.py).
use vgen.Base.{
  ℕ, Bool, true, false, ◌&&◌, ◌||◌, Option, none, some, List, [], ◌∷◌, ◌==◌, if◌then◌else◌,
}
use vgen.Gateway.Db.{Db, Task, Membership, Role, PrincipalType}
use vgen.Gateway.Tx.{
  Result, ok, ◌>>=◌, ◌>>◌, require, found, workspace_access_denied, service_workspace_access_denied,
  task_access_denied, workspace_admin_required, workspace_owner_required,
}

abbrev find_membership : ℕ → ℕ → List Membership → Option Membership
find_membership workspace_id user_id [] = none
find_membership workspace_id user_id (m ∷ ms) =
    if m.workspace_id == workspace_id && m.user_id == user_id
    then some m
    else find_membership workspace_id user_id ms

unfoldable pub membership : Db → ℕ → Option ℕ → Option Membership
membership db workspace_id none = none
membership db workspace_id (some user_id) = find_membership workspace_id user_id db.memberships

unfoldable pub require_member : Db → ℕ → Option ℕ → Result Membership
unfolding membership
require_member db workspace_id user_id =
    found (membership db workspace_id user_id) workspace_access_denied

abbrev pub is_owner : Role → Bool
is_owner Role.owner = true
is_owner _ = false

abbrev pub is_admin : Role → Bool
is_admin Role.member = false
is_admin _ = true

unfoldable pub require_admin : Db → ℕ → Option ℕ → Result Membership
unfolding require_member
require_admin db workspace_id user_id = do
  row ← require_member db workspace_id user_id
  require (is_admin row.role) workspace_admin_required
  ok row

unfoldable pub require_owner : Db → ℕ → Option ℕ → Result Membership
unfolding require_member
require_owner db workspace_id user_id = do
  row ← require_member db workspace_id user_id
  require (is_owner row.role) workspace_owner_required
  ok row

abbrev has_service : ℕ → ℕ → List (ℕ × ℕ) → Bool
has_service workspace_id service_id [] = false
has_service workspace_id service_id ((s, w) ∷ rest) =
    (s == service_id && w == workspace_id) || has_service workspace_id service_id rest

unfoldable pub require_service : Db → ℕ → ℕ → Result (Unit {0})
require_service db workspace_id service_id =
    require (has_service workspace_id service_id db.services) service_workspace_access_denied

abbrev is_service : PrincipalType → Bool
is_service PrincipalType.service = true
is_service PrincipalType.device = false

abbrev same_user : Option ℕ → Option ℕ → Bool
same_user none none = true
same_user (some a) (some b) = a == b
same_user _ _ = false

-- The principal behind a request, as the HTTP layer authenticated it.
pub record Principal : Type 0 where
  pub principal_type : PrincipalType
  pub principal_id : ℕ
  pub user_id : Option ℕ

unfoldable pub require_task_consumer : Db → Task → Principal → Bool → Result (Unit {0})
unfolding require_service require_member
require_task_consumer db task p allow_workspace_admin =
    if is_service p.principal_type
    then (do
      require_service db task.workspace_id p.principal_id
      require
          (is_service task.consumer_principal_type && task.consumer_principal_id == p.principal_id)
          task_access_denied)
    else (do
      row ← require_member db task.workspace_id p.user_id
      require
          (same_user task.consumer_user_id p.user_id
            || (allow_workspace_admin && is_admin row.role))
          task_access_denied)
