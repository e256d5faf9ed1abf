-- ===== src/Playlist/Rows.antt =====
-- The rows that `liveSubmissions` of src/playlist/playlist.service.ts gives.
use flyer_g_be.Base.{
  ℕ, ◌≡◌, refl, Bool, true, ◌&&◌, Bool-cases, inl, inr, some, List, [], ◌∷◌, ◌++◌, All, filter,
  find?, any, arith,
}
use flyer_g_be.Base.Keyed.{All-filter, In}
use flyer_g_be.Submission.Data.{Submission, Db}
use flyer_g_be.Playlist.{is_live, goes_first, insert_row, in_order, live_submissions}

-- What holds of the rows holds of them in order.
module _ (P : Submission → Type 0) where
  insert_row-All :
      (row : Submission) (rows : List Submission) → P row → All P rows → All P (insert_row row rows)
  unfolding insert_row
  insert_row-All row [] h hs = (h, tt)
  insert_row-All row (other ∷ rows) h (k, ks) = elim (Bool-cases (goes_first row other)) [
    | inl e ↦ rw (e) (h, (k, ks))
    | inr e ↦ rw (e) (k, insert_row-All row rows h ks)
  ]

  in_order-All : (rows : List Submission) → All P rows → All P (in_order rows)
  unfolding in_order
  in_order-All [] h = tt
  in_order-All (row ∷ rows) (h, hs) = insert_row-All row (in_order rows) h (in_order-All rows hs)

filter-All :
    (keep : Submission → Bool) (rows : List Submission)
    → All (λ row. keep row ≡ true) (filter keep rows)
filter-All keep [] = tt
filter-All keep (row ∷ rows) = elim (Bool-cases (keep row)) [
  | inl e ↦ rw (e) (e, filter-All keep rows)
  | inr e ↦ rw (e) (filter-All keep rows)
]

pub live_submissions-All :
    (now : ℕ) (where_ : Submission → Bool) (db : Db)
    → All (λ row. (where_ row && is_live now db.assets row) ≡ true) (live_submissions now where_ db)
unfolding live_submissions
live_submissions-All now where_ db =
    let keep : Submission → Bool = λ row. where_ row && is_live now db.assets row in
    in_order-All (λ row. keep row ≡ true) (filter keep db.submissions)
      (filter-All keep db.submissions)

pub any-append :
    (p : Submission → Bool) (rows : List Submission) (row : Submission)
    → p row ≡ true
    → any p (rows ++ row ∷ []) ≡ true
any-append p [] row h = ground arith
any-append p (r ∷ rows) row h = ground (arith, any-append p rows row h)

pub first-holds :
    (p : Submission → Bool) (rows : List Submission) (row : Submission)
    → All (λ r. p r ≡ true) rows
    → find? (λ r. true) rows ≡ some row
    → p row ≡ true
first-holds p [] row h e = absurd (ground arith)
first-holds p (r ∷ rows) row (h, hs) e = ground arith

own_rows : (rows : List Submission) → All (λ row. In row rows) rows
own_rows rows = in_part rows (λ row i. i)
  where
    in_part :
        (part : List Submission)
        → ((row : Submission) → In row part → In row rows)
        → All (λ row. In row rows) part
    in_part [] h = tt
    in_part (r ∷ part) h = (h r (inl refl), in_part part (λ row i. h row (inr i)))

pub live_submissions-In :
    (now : ℕ) (where_ : Submission → Bool) (db : Db)
    → All (λ row. In row db.submissions) (live_submissions now where_ db)
unfolding live_submissions
live_submissions-In now where_ db =
    in_order-All (λ row. In row db.submissions)
      (filter (λ row. where_ row && is_live now db.assets row) db.submissions)
      (All-filter (λ row. In row db.submissions) (λ row. where_ row && is_live now db.assets row)
        db.submissions (own_rows db.submissions))
