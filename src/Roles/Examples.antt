-- ===== src/Roles/Examples.antt =====
-- The roles of src/users/user-roles.service.ts with two administrators.
use flyer_g_be.Base.{◌≡◌, refl, true, false, [], ◌∷◌, ◌++◌}
use flyer_g_be.Failure.{exception, forbidden, ok, throw}
use flyer_g_be.Roles.{
  reviewer, super_admin, Db, entry, user_role_revoked, user_role_granted, has_role, has_super_admin,
  assert_user_exists, with_role_lock, grant_change, roles_of, find_one, grant, revoke_change,
  revoke,
}
use flyer_g_be.Roles.Laws.{revoked, after_changes, after_changes-has_super_admin, not_admin_refused}

abbrev start : Db
start = record {
  users = 1 ∷ 2 ∷ 3 ∷ [];
  user_roles =
      record { user_id = 1; role = super_admin; created_at = 0 }
      ∷ record { user_id = 2; role = super_admin; created_at = 0 }
      ∷ [];
  audit_logs = [];
}

-- The second administrator's role is revoked by the first.
abbrev after : Db
after = record {
  users = 1 ∷ 2 ∷ 3 ∷ [];
  user_roles = record { user_id = 1; role = super_admin; created_at = 0 } ∷ [];
  audit_logs = entry 1 user_role_revoked 2 super_admin 5 ∷ [];
}

revoking : revoke 1 2 super_admin 5 start ≡ (ok tt, after)
unfolding revoke with_role_lock revoke_change assert_user_exists has_role has_super_admin
revoking = refl

has_admin : has_super_admin start ≡ true
unfolding has_super_admin
has_admin = refl

after_changes-has_super_admin_example :
    has_super_admin
      (after_changes (revoked 2 1 super_admin 6 ∷ revoked 1 2 super_admin 5 ∷ []) start)
    ≡ true
after_changes-has_super_admin_example =
    after_changes-has_super_admin (revoked 2 1 super_admin 6 ∷ revoked 1 2 super_admin 5 ∷ []) start
      has_admin

no_admin : has_role 3 super_admin start ≡ false
unfolding has_role
no_admin = refl

not_admin_refused_example :
    (grant 3 1 reviewer 5 start ≡ (throw (exception 403 forbidden), start))
    × (revoke 3 1 reviewer 5 start ≡ (throw (exception 403 forbidden), start))
not_admin_refused_example = not_admin_refused 3 1 reviewer 5 start no_admin

abbrev appointed : Db
appointed = record {
  users = 1 ∷ 2 ∷ 3 ∷ [];
  user_roles = start.user_roles ++ record { user_id = 3; role = reviewer; created_at = 5 } ∷ [];
  audit_logs = entry 1 user_role_granted 3 reviewer 5 ∷ [];
}

appointing :
    grant 1 3 reviewer 5 start ≡ (ok (record { id = 3; granted_roles = reviewer ∷ [] }), appointed)
unfolding grant with_role_lock grant_change assert_user_exists has_role find_one roles_of
appointing = refl
