-- ===== src/Submission/Calls/Approval.antt =====
-- `approve` of src/reviews/reviews.service.ts: what it requires, and what it decides.
use flyer_g_be.Base.{ℕ, String, ◌<◌, ◌≤◌, ◌≡◌, ◌≢◌, ◌⊎◌, refl, true, Option, none, some, arith}
use flyer_g_be.Failure.{ok}
use flyer_g_be.Submission.Data.{pending_review, scheduled, published, Asset, ready, Db}
use flyer_g_be.Submission.Store.{find_row, find_pending}
use flyer_g_be.Submission.Reviews.{
  Approval, approve_check, approved_period, find_asset, checksum_of, is_available,
}

-- The media that an approval fixes: none for a row without media, and else the checksum of an
-- asset that is there and ready.
abbrev pub MediaFixed : Db → Option ℕ → Option String → Type 0
MediaFixed db none checksum = checksum ≡ none
MediaFixed db (some id) checksum =
    (asset : Asset) × (find_asset (some id) db.assets ≡ some asset)
    × (asset.status ≡ ready)
    × (asset.checksum ≡ checksum)
    × (checksum ≢ none)

pub record IsApprovable (id revision now : ℕ) (db : Db) (plan : Approval) : Type 0 where
  pub read : find_row id db.submissions ≡ some plan.current
  pub pending : plan.current.status ≡ pending_review
  pub seen : plan.current.version ≡ revision
  pub period : plan.period ≡ approved_period plan.current now
  pub lasting : now < plan.period.end_at
  pub media : MediaFixed db plan.current.asset_id plan.asset_checksum
  pub decided :
      ((plan.status ≡ published) × (plan.period.start_at ≤ now))
      ⊎ ((plan.status ≡ scheduled) × (now < plan.period.start_at))

media_of :
    (db : Db) (id : Option ℕ) (asset : Option Asset) (checksum : Option String)
    → find_asset id db.assets ≡ asset
    → checksum ≡ checksum_of asset
    → is_available id asset ≡ true
    → MediaFixed db id checksum
unfolding find_asset
media_of db none asset checksum e c a = ground arith
media_of db (some id) none checksum e c a = cc
media_of db (some id) (some asset) checksum e c a =
    (asset, e, ground arith, ground arith, ground arith)

-- The checks of an approval let through only a row that waits for review in the version that the
-- reviewer saw, whose period is not over and whose media, if it has any, is ready and has a
-- checksum; the checksum is fixed, and the row is to be published if its period has begun and
-- scheduled if not.
pub approve_check-IsApprovable :
    (id revision now : ℕ) (db after : Db) (plan : Approval)
    → approve_check id revision now db ≡ (ok plan, after)
    → IsApprovable id revision now db plan
unfolding approve_check find_pending
approve_check-IsApprovable id revision now db after plan h = record {
  read = ground arith;
  pending = ground arith;
  seen = ground arith;
  period = ground arith;
  lasting = ground arith;
  media =
      media_of db plan.current.asset_id (find_asset plan.current.asset_id db.assets)
        plan.asset_checksum refl (ground arith) (ground arith);
  decided = ground arith;
}
