-- ===== src/Roles.antt =====
-- src/users/user-roles.service.ts: administrators grant and revoke roles. A change runs alone, under
-- an advisory lock, so a sequence of changes is a sequence of these transactions. The columns of a
-- user other than the id are left out.
pub mod Laws
mod Examples
use flyer_g_be.Base.{
  ℕ, ◌+◌, ◌==◌, Bool, true, false, not, ◌&&◌, ◌||◌, if◌then◌else◌, Option, none, some, List, [],
  ◌∷◌, ◌++◌, any, map, filter, length,
}
use flyer_g_be.Failure.{
  AppException, exception, forbidden, not_found, conflict, Action, get, modify, throw_if, pure,
  transaction, ◌>>=◌, ◌>>◌,
}

-- `grantedRoleEnum`
pub data GrantedRole : Type 0 where
  reviewer super_admin : GrantedRole

abbrev pub same_role : GrantedRole → GrantedRole → Bool
same_role reviewer reviewer = true
same_role super_admin super_admin = true
same_role _ _ = false

-- `userRoles`
pub record UserRole : Type 0 where
  pub user_id : ℕ
  pub role : GrantedRole
  pub created_at : ℕ

-- The entries `USER_ROLE_GRANTED` and `USER_ROLE_REVOKED` of the audit log
pub data RoleAction : Type 0 where
  user_role_granted user_role_revoked : RoleAction

pub record RoleEntry : Type 0 where
  pub actor : ℕ
  pub action : RoleAction
  pub target : ℕ
  pub role : GrantedRole
  pub at : ℕ

-- The tables: the ids of `users`, the roles, and the audit log.
pub record Db : Type 0 where
  pub users : List ℕ
  pub user_roles : List UserRole
  pub audit_logs : List RoleEntry

abbrev pub Service : Type 0 → Type 0
Service A = Action Db AppException A

-- `where user_id = … and role = …`
abbrev pub is_grant : ℕ → GrantedRole → UserRole → Bool
is_grant user_id role row = row.user_id == user_id && same_role row.role role

unfoldable pub has_role : ℕ → GrantedRole → Db → Bool
has_role user_id role db = any (is_grant user_id role) db.user_roles

-- `hasSuperAdmin`
unfoldable pub has_super_admin : Db → Bool
has_super_admin db = any (λ row. same_role row.role super_admin) db.user_roles

-- `assertUserExists`
unfoldable pub assert_user_exists : ℕ → Service Unit
assert_user_exists user_id = do
  db ← get
  throw_if (not (any (λ id. id == user_id) db.users)) (exception 404 not_found)

-- `withRoleLock`: the administrator must still be one.
unfoldable pub with_role_lock : ℕ → Service Unit → Service Unit
with_role_lock admin change =
    transaction (do
      db ← get
      throw_if (not (has_role admin super_admin db)) (exception 403 forbidden)
      change)

abbrev pub record_audit : RoleEntry → Service Unit
record_audit entry = modify (λ db. record db { audit_logs = db.audit_logs ++ entry ∷ [] })

abbrev pub entry : ℕ → RoleAction → ℕ → GrantedRole → ℕ → RoleEntry
entry admin action user_id role now = record {
  actor = admin;
  action = action;
  target = user_id;
  role = role;
  at = now;
}

abbrev insert_role : ℕ → GrantedRole → ℕ → Service Unit
insert_role user_id role now = modify (λ db. record db {
  user_roles = db.user_roles ++ record { user_id = user_id; role = role; created_at = now } ∷ [];
})

abbrev grant_new : ℕ → ℕ → GrantedRole → ℕ → Service Unit
grant_new admin user_id role now = do
  insert_role user_id role now
  record_audit (entry admin user_role_granted user_id role now)

-- `grant` in its transaction: a role that is there already stays as it is.
unfoldable pub grant_change : ℕ → ℕ → GrantedRole → ℕ → Service Unit
grant_change admin user_id role now = do
  assert_user_exists user_id
  db ← get
  if has_role user_id role db then pure tt else grant_new admin user_id role now

-- `AdminUserDto`
pub record AdminUserDto : Type 0 where
  pub id : ℕ
  pub granted_roles : List GrantedRole

-- `rolesOf`, for one user: ordered by the role
unfoldable pub roles_of : ℕ → Db → List GrantedRole
roles_of user_id db =
    map (λ row. row.role)
      (filter (is_grant user_id reviewer) db.user_roles
        ++ filter (is_grant user_id super_admin) db.user_roles)

-- `findOne`
unfoldable pub find_one : ℕ → Service AdminUserDto
find_one user_id = do
  assert_user_exists user_id
  db ← get
  pure (record { id = user_id; granted_roles = roles_of user_id db })

-- `grant`
unfoldable pub grant : ℕ → ℕ → GrantedRole → ℕ → Service AdminUserDto
grant admin user_id role now = do
  with_role_lock admin (grant_change admin user_id role now)
  find_one user_id

abbrev pub is_admin_role : GrantedRole → Bool
is_admin_role role = same_role role super_admin

abbrev delete_role : ℕ → GrantedRole → Service Unit
delete_role user_id role =
    modify (λ db. record db {
      user_roles = filter (λ row. not (is_grant user_id role row)) db.user_roles;
    })

-- After a role was deleted: an administrator must be left.
abbrev revoke_held : ℕ → ℕ → GrantedRole → ℕ → Service Unit
revoke_held admin user_id role now = do
  db ← get
  throw_if (is_admin_role role && not (has_super_admin db)) (exception 409 conflict)
  record_audit (entry admin user_role_revoked user_id role now)

-- `revoke` in its transaction: a role that is not there changes nothing.
unfoldable pub revoke_change : ℕ → ℕ → GrantedRole → ℕ → Service Unit
revoke_change admin user_id role now = do
  assert_user_exists user_id
  before ← get
  delete_role user_id role
  if has_role user_id role before then revoke_held admin user_id role now else pure tt

-- `revoke`
unfoldable pub revoke : ℕ → ℕ → GrantedRole → ℕ → Service Unit
revoke admin user_id role now = do
  throw_if (user_id == admin) (exception 403 forbidden)
  with_role_lock admin (revoke_change admin user_id role now)
