-- ===== src/Submission/Update/Unchanged.antt =====
-- A form that is sent back as it was read, in `update` of src/submissions/submissions.service.ts.
use flyer_g_be.Base.{
  ℕ, String, ◌==◌, ◌≡◌, refl, sym, ap, Bool, true, false, ◌&&◌, Option, none, some, List, [], ◌∷◌,
  any, all, All, filter, arith,
}
use text.Mathlib.TextEquality
use flyer_g_be.Failure.{ok}
use flyer_g_be.Submission.Data.{poster, Submission, AuthUser, Db}
use flyer_g_be.Submission.Rules.{is_editable, has_started_publishing}
use flyer_g_be.Submission.Kinds.{kind_of}
use flyer_g_be.Submission.Text.{same_string, Url, parsed, parse_detail_url}
use flyer_g_be.Submission.Content.{
  Field, null, value, KindColumns, no_detail, patched, first_of, same_id, is_new_category,
  has_problem,
}
use flyer_g_be.Submission.Content.Resolve.{link_of, resolve, resolve_poster}
use flyer_g_be.Submission.Store.{find_row}
use flyer_g_be.Submission.View.{to_dto, detail}
use flyer_g_be.Submission.Create.{
  InputField, category_id, asset_id, detail_url, organizer_name, subtitle, location, description,
  kind_input_fields, is_given, is_unaccepted, unaccepted_fields,
}
use flyer_g_be.Submission.Update.{
  UpdateSubmission, same_text, same_set, if_new_time, detail_of, target_groups_of, changes_of,
  changed_names, kind_columns_of,
}
use flyer_g_be.Submission.Update.Call.{plan_edit, update}
use flyer_g_be.Submission.Update.Laws.{Passes, update_check-Passes}

-- What a page fills its form with
abbrev pub form_value : Option String → Field String
form_value none = null
form_value (some s) = value s

abbrev pub form_of : Submission → List ℕ → UpdateSubmission
form_of row groups = record {
  version = row.version;
  input = record {
    title = some row.title;
    category_id = row.category_id;
    asset_id = row.asset_id;
    detail_url = form_value row.detail_url;
    organizer_name = form_value row.organizer_name;
    subtitle = form_value row.subtitle;
    location = form_value row.location;
    description = form_value row.description;
    event_banner = none;
    story = none;
  };
  start_at = row.start_at;
  end_at = row.end_at;
  target_group_ids = some groups;
}

-- A link that `parseDetailUrl` gives back as it is, with its notice
abbrev pub IsLinked : (String → Option Url) → (url notice : Option String) → Type 0
IsLinked new_url none notice = notice ≡ none
IsLinked new_url (some url) notice = parse_detail_url (new_url url) ≡ parsed url notice

same_string_refl : (s : String) → same_string s s ≡ true
same_string_refl s = (TextEquality.eq_iff s s).1 refl

same_id_refl : (o : Option ℕ) → same_id o o ≡ true
same_id_refl none = refl
same_id_refl (some a) = ground arith

same_text_refl : (o : Option String) → same_text o o ≡ true
same_text_refl none = refl
same_text_refl (some s) = same_string_refl s

patched-form_value : (o : Option String) → patched (form_value o) o ≡ o
patched-form_value none = refl
patched-form_value (some s) = refl

first_of-same : (o : Option ℕ) → first_of o o ≡ o
first_of-same none = refl
first_of-same (some a) = refl

category-old : (o : Option ℕ) (db : Db) → is_new_category o o db ≡ false
category-old none db = refl
category-old (some id) db = let same = same_id_refl (some id) in ground arith

media-old :
    (actor : AuthUser) (o : Option ℕ) (allow_video : Bool) (db : Db)
    → has_problem actor o o allow_video db ≡ false
media-old actor none allow_video db = refl
media-old actor (some id) allow_video db = let same = same_id_refl (some id) in ground arith

-- The link that comes out is the link of the row.
link_of-same :
    (new_url : String → Option Url) (url notice : Option String) (columns : KindColumns)
    → columns.detail_url ≡ url
    → columns.ziggle_notice_id ≡ notice
    → IsLinked new_url url notice
    → link_of new_url (form_value url) columns ≡ (false, url, notice)
link_of-same new_url none notice columns e f h = ap (λ n. (false, none, n)) (sym h)
link_of-same new_url (some u) notice columns e f h = rw (link_of, h) refl

resolve_poster-form :
    (new_url : String → Option Url) (actor : AuthUser) (row : Submission) (groups : List ℕ)
    (db : Db)
    → IsLinked new_url row.detail_url row.ziggle_notice_id
    → resolve_poster new_url actor
        ((form_of row groups).input)
        (some (record { columns = kind_columns_of row; detail = no_detail }))
        db
      ≡ record { errors = []; columns = kind_columns_of row; detail = no_detail }
unfolding resolve_poster
resolve_poster-form new_url actor row groups db linked =
    let link =
      link_of-same new_url row.detail_url row.ziggle_notice_id (kind_columns_of row) refl refl
        linked in
    rw
      (
        link,
        first_of-same row.category_id,
        first_of-same row.asset_id,
        category-old row.category_id db,
        media-old actor row.asset_id true db,
        patched-form_value row.organizer_name,
        patched-form_value row.subtitle,
        patched-form_value row.location,
        patched-form_value row.description,
      )
      refl

and_false : (b : Bool) → (b && false) ≡ false
and_false true = refl
and_false false = refl

-- Nothing is new.
if_new_time-same : (t : Option ℕ) → if_new_time t t ≡ none
if_new_time-same none = refl
if_new_time-same (some t) = let same = same_id_refl (some t) in ground arith

changes_of-same :
    (row : Submission)
    → changed_names (changes_of (kind_columns_of row) row.start_at row.end_at row) ≡ []
unfolding changes_of changed_names
changes_of-same row =
    rw
      (
        same_string_refl row.title,
        same_id_refl row.category_id,
        same_id_refl row.asset_id,
        same_text_refl row.detail_url,
        same_text_refl row.ziggle_notice_id,
        same_text_refl row.organizer_name,
        same_text_refl row.subtitle,
        same_text_refl row.location,
        same_text_refl row.description,
        if_new_time-same row.start_at,
        if_new_time-same row.end_at,
      )
      refl

all-weaker :
    (p q : ℕ → Bool) (ids : List ℕ)
    → ((x : ℕ) → p x ≡ true → q x ≡ true)
    → all p ids ≡ true
    → all q ids ≡ true
all-weaker p q [] weaker h = refl
all-weaker p q (x ∷ ids) weaker h =
    let first = weaker x (ground arith) in
    let rest = all-weaker p q ids weaker (ground arith) in ground arith

all-within : (ids : List ℕ) → all (λ x. any (λ y. y == x) ids) ids ≡ true
all-within [] = refl
all-within (x ∷ ids) =
    let rest =
      all-weaker (λ z. any (λ y. y == z) ids) (λ z. any (λ y. y == z) (x ∷ ids)) ids
        (λ z e. ground arith) (all-within ids) in
    ground arith

same_set_refl : (ids : List ℕ) → same_set ids ids ≡ true
same_set_refl ids = let within = all-within ids in ground arith

filter-none :
    (p : InputField → Bool) (fields : List InputField)
    → All (λ field. p field ≡ false) fields
    → filter p fields ≡ []
filter-none p [] h = refl
filter-none p (field ∷ fields) (h, hs) = ground (arith, filter-none p fields hs)

accepted :
    (row : Submission) (groups : List ℕ)
    → row.type ≡ poster
    → unaccepted_fields poster ((form_of row groups).input) row.start_at row.end_at (some groups)
      ≡ []
unfolding unaccepted_fields kind_of
accepted row groups e =
    let input = (form_of row groups).input in
    rw
      (filter-none (is_unaccepted poster input) kind_input_fields (
        refl,
        (
          and_false (is_given input category_id),
          (
            and_false (is_given input asset_id),
            (
              and_false (is_given input detail_url),
              (
                and_false (is_given input organizer_name),
                (
                  and_false (is_given input subtitle),
                  (
                    and_false (is_given input location),
                    (and_false (is_given input description), (refl, (refl, tt))),
                  ),
                ),
              ),
            ),
          ),
        ),
      ))
      refl

-- The form of a poster plans nothing.
plan_edit-form :
    (new_url : String → Option Url) (actor : AuthUser) (row : Submission) (now : ℕ) (db : Db)
    → row.type ≡ poster
    → IsLinked new_url row.detail_url row.ziggle_notice_id
    → plan_edit new_url actor row (form_of row (target_groups_of row.id db.targets)) now db
      ≡ record { errors = []; edit = none }
unfolding plan_edit resolve detail_of changed_names changes_of
plan_edit-form new_url actor row now db e linked =
    let groups = target_groups_of row.id db.targets in
    rw
      (
        e,
        resolve_poster-form new_url actor row groups db linked,
        accepted row groups e,
        changes_of-same row,
        same_set_refl groups,
      )
      refl

detail-found :
    (id : ℕ) (actor : AuthUser) (db : Db) (row : Submission)
    → find_row id db.submissions ≡ some row
    → detail id actor db ≡ (ok (to_dto actor row), db)
unfolding detail
detail-found id actor db row there = ground arith

-- A poster's form that is sent back as it was read changes nothing: an editable poster of the user
-- whose publishing has not begun, and whose link is one that the parser of links gives back with
-- its notice, stays approved if it was, and the answer is the poster as it stands.
pub update-form :
    (new_url : String → Option Url) (actor : AuthUser) (id now : ℕ) (row : Submission) (db : Db)
    → find_row id db.submissions ≡ some row
    → row.requester_id ≡ actor.id
    → row.type ≡ poster
    → is_editable row.status ≡ true
    → has_started_publishing row.status row.start_at now ≡ false
    → IsLinked new_url row.detail_url row.ziggle_notice_id
    → update new_url actor id (form_of row (target_groups_of row.id db.targets)) now db
      ≡ (ok (to_dto actor row), db)
unfolding update kind_of
update-form new_url actor id now row db there owner kind editable not_started linked =
    let dto = form_of row (target_groups_of row.id db.targets) in
    let planned = plan_edit-form new_url actor row now db kind linked in
    let passes : Passes new_url actor row dto now db = record {
      owner = ground arith;
      seen = ground arith;
      editable = editable;
      not_started = not_started;
      again = rw kind refl;
      sound = rw planned refl;
    } in
    let checked = update_check-Passes new_url actor row dto now db id there passes in
    rw (checked, planned) (detail-found id actor db row there)
