-- ===== src/Submission.antt =====
-- The submissions of src/submissions and src/reviews: a posting that a user requests, that a
-- reviewer decides on, and that is shown for a period. `Data` is the tables; `Rules`, `Kinds` and
-- `Store` what the operations share; the other children are the operations and the proofs.
pub mod Data
pub mod Text
pub mod Rules
pub mod Kinds
pub mod Store
mod Examples
pub mod Content
pub mod View
pub mod Create
pub mod Update
pub mod Requests
pub mod Reviews
pub mod StatusJob
pub mod History
pub mod Writes
pub mod Calls
pub mod Life
