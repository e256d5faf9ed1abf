-- ===== src/Roles/Laws.antt =====
-- src/users/user-roles.service.ts: the service cannot lose its last administrator, and an
-- administrator whose role is gone can change nothing more.
use flyer_g_be.Base.{
  ℕ, ◌≡◌, ◌≢◌, refl, Bool, true, false, not, if◌then◌else◌, List, [], ◌∷◌, ◌++◌, any, filter, arith,
}
use flyer_g_be.Failure.{exception, forbidden, conflict, ok, throw}
use flyer_g_be.Roles.{
  GrantedRole, super_admin, same_role, UserRole, Db, is_grant, has_role, has_super_admin,
  assert_user_exists, with_role_lock, grant_change, find_one, AdminUserDto, grant, is_admin_role,
  revoke_change, revoke,
}

-- A change of one administrator.
pub data RoleChange : Type 0 where
  granted revoked : (admin user_id : ℕ) → GrantedRole → (now : ℕ) → RoleChange

abbrev pub admin_of : RoleChange → ℕ
admin_of (granted admin user_id role now) = admin
admin_of (revoked admin user_id role now) = admin

-- The tables after it, whether it succeeds or throws.
unfoldable pub after_change : RoleChange → Db → Db
after_change (granted admin user_id role now) db = (grant admin user_id role now db).1
after_change (revoked admin user_id role now) db = (revoke admin user_id role now db).1

-- From the newest change to the oldest.
abbrev pub after_changes : List RoleChange → Db → Db
after_changes [] db = db
after_changes (c ∷ cs) db = after_change c (after_changes cs db)

any-append :
    {A : Type 0} (p : A → Bool) (xs ys : List A) → any p xs ≡ true → any p (xs ++ ys) ≡ true
any-append p [] ys h = cc
any-append p (x ∷ xs) ys h = ground (arith, any-append p xs ys)

grant-has_super_admin :
    (admin user_id : ℕ) (role : GrantedRole) (now : ℕ) (db : Db)
    → has_super_admin db ≡ true
    → has_super_admin (grant admin user_id role now db).1 ≡ true
unfolding grant with_role_lock grant_change find_one assert_user_exists has_super_admin
grant-has_super_admin admin user_id role now db h =
    let more =
      any-append (λ row. same_role row.role super_admin) db.user_roles
        (record { user_id = user_id; role = role; created_at = now } ∷ []) h in
    ground (arith, more)

-- Without the rows of another role, every administrator stays.
any-filter :
    (user_id : ℕ) (role : GrantedRole) (rows : List UserRole)
    → is_admin_role role ≡ false
    → any
        (λ row. same_role row.role super_admin)
        (filter (λ row. not (is_grant user_id role row)) rows)
      ≡ any (λ row. same_role row.role super_admin) rows
any-filter user_id role [] h = refl
any-filter user_id role (r ∷ rows) h = ground (arith, any-filter user_id role rows h)

-- Without the rows of one user, every other user keeps all roles.
any-filter-other :
    (user_id other : ℕ) (role role' : GrantedRole) (rows : List UserRole)
    → user_id ≢ other
    → any (is_grant other role') (filter (λ row. not (is_grant user_id role row)) rows)
      ≡ any (is_grant other role') rows
any-filter-other user_id other role role' [] n = refl
any-filter-other user_id other role role' (r ∷ rows) n =
    ground (arith, any-filter-other user_id other role role' rows n)

any-weaken :
    (user_id : ℕ) (rows : List UserRole)
    → any (is_grant user_id super_admin) rows ≡ true
    → any (λ row. same_role row.role super_admin) rows ≡ true
any-weaken user_id [] h = cc
any-weaken user_id (r ∷ rows) h = ground (arith, any-weaken user_id rows)

any-filter_self :
    (user_id : ℕ) (role : GrantedRole) (rows : List UserRole)
    → any (is_grant user_id role) (filter (λ row. not (is_grant user_id role row)) rows) ≡ false
any-filter_self user_id role [] = refl
any-filter_self user_id role (r ∷ rows) = ground (arith, any-filter_self user_id role rows)

revoke-has_super_admin :
    (admin user_id : ℕ) (role : GrantedRole) (now : ℕ) (db : Db)
    → has_super_admin db ≡ true
    → has_super_admin (revoke admin user_id role now db).1 ≡ true
unfolding revoke with_role_lock revoke_change assert_user_exists has_super_admin has_role
revoke-has_super_admin admin user_id role now db h = ground (
  arith,
  any-filter user_id role db.user_roles,
  any-filter-other user_id admin role super_admin db.user_roles,
  any-weaken admin (filter (λ row. not (is_grant user_id role row)) db.user_roles),
)

-- Whatever administrators grant and revoke, in any order, an administrator is left if there was
-- one.
pub after_changes-has_super_admin :
    (cs : List RoleChange) (db : Db)
    → has_super_admin db ≡ true
    → has_super_admin (after_changes cs db) ≡ true
unfolding after_change
after_changes-has_super_admin [] db h = h
after_changes-has_super_admin (granted admin user_id role now ∷ cs) db h =
    grant-has_super_admin admin user_id role now (after_changes cs db)
      (after_changes-has_super_admin cs db h)
after_changes-has_super_admin (revoked admin user_id role now ∷ cs) db h =
    revoke-has_super_admin admin user_id role now (after_changes cs db)
      (after_changes-has_super_admin cs db h)

-- A revocation never comes to the 409 for the last administrator: the checks before it exclude
-- that.
revoke-ne-conflict :
    (admin user_id : ℕ) (role : GrantedRole) (now : ℕ) (db after : Db)
    → revoke admin user_id role now db ≢ (throw (exception 409 conflict), after)
unfolding revoke with_role_lock revoke_change assert_user_exists has_super_admin has_role
revoke-ne-conflict admin user_id role now db after h = ground (
  arith,
  any-filter-other user_id admin role super_admin db.user_roles,
  any-weaken admin (filter (λ row. not (is_grant user_id role row)) db.user_roles),
)

-- A change by a user who is no administrator, or no more one, is refused with 403.
pub not_admin_refused :
    (admin user_id : ℕ) (role : GrantedRole) (now : ℕ) (db : Db)
    → has_role admin super_admin db ≡ false
    → (grant admin user_id role now db ≡ (throw (exception 403 forbidden), db))
      × (revoke admin user_id role now db ≡ (throw (exception 403 forbidden), db))
unfolding grant revoke with_role_lock
not_admin_refused admin user_id role now db h = (ground arith, ground arith)

revoke-has_role :
    (admin user_id : ℕ) (role : GrantedRole) (now : ℕ) (db after : Db)
    → revoke admin user_id role now db ≡ (ok tt, after)
    → has_role user_id role after ≡ false
unfolding revoke with_role_lock revoke_change assert_user_exists has_role
revoke-has_role admin user_id role now db after h =
    ground (arith, any-filter_self user_id role db.user_roles)

-- Of two administrators who revoke each other, the one whose change comes second is refused with
-- 403.
revoke_each_other :
    (a b : ℕ) (role : GrantedRole) (now now' : ℕ) (db after : Db)
    → revoke a b super_admin now db ≡ (ok tt, after)
    → revoke b a role now' after ≡ (throw (exception 403 forbidden), after)
revoke_each_other a b role now now' db after h =
    (not_admin_refused b a role now' after (revoke-has_role a b super_admin now db after h)).1

any-snoc :
    {A : Type 0} (p : A → Bool) (xs : List A) (y : A)
    → any p (xs ++ y ∷ []) ≡ (if any p xs then true else p y)
any-snoc p [] y = ground arith
any-snoc p (x ∷ xs) y = ground (arith, any-snoc p xs y)

-- A grant that succeeds leaves the user with the role, and changes no role of another user.
grant-has_role :
    (admin user_id other : ℕ) (role role' : GrantedRole) (now : ℕ) (db after : Db)
    (dto : AdminUserDto)
    → user_id ≢ other
    → grant admin user_id role now db ≡ (ok dto, after)
    → (has_role user_id role after ≡ true) × (has_role other role' after ≡ has_role other role' db)
unfolding grant with_role_lock grant_change assert_user_exists has_role find_one
grant-has_role admin user_id other role role' now db after dto n h =
    let row : UserRole = record { user_id = user_id; role = role; created_at = now } in
    (
      ground (arith, any-snoc (is_grant user_id role) db.user_roles row),
      ground (arith, any-snoc (is_grant other role') db.user_roles row),
    )

-- A revocation that succeeds takes the role from the user, and changes no role of another user.
revoke_takes :
    (admin user_id other : ℕ) (role role' : GrantedRole) (now : ℕ) (db after : Db)
    → user_id ≢ other
    → revoke admin user_id role now db ≡ (ok tt, after)
    → (has_role user_id role after ≡ false) × (has_role other role' after ≡ has_role other role' db)
unfolding revoke with_role_lock revoke_change assert_user_exists has_role
revoke_takes admin user_id other role role' now db after n h = (
  revoke-has_role admin user_id role now db after h,
  ground (arith, any-filter-other user_id other role role' db.user_roles),
)
