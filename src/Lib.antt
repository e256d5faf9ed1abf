-- ===== src/Lib.antt =====
-- A model of the signage server, and what holds of it. The server takes requests for postings,
-- has reviewers decide on them, shows the accepted ones on displays for a period, relays messages
-- between a display and the phones around it, and reports displays that are out to Slack.
--
-- The parts, the files that model them, and the code:
--   Base            lists, options, Boolean tests and maps (`Map` of JavaScript) shared by all
--   Failure         src/common/errors; `Failure.Effects` is code that reads and writes a state and
--                   may throw: a throw leaves what was written, and `transaction` rolls it back
--   Time            src/common/time/seoul-time.ts, on the calendar of `Date` (`Time.Calendar`)
--   Submission      src/submissions/submissions.service.ts, submission-rules.ts and kinds/,
--                   src/reviews/reviews.service.ts, src/jobs/submission-status.job.ts, and the
--                   tables of src/db/schema.ts that they use
--     Data          the tables; Rules, Kinds: what each status and each kind allows
--     Text          titles and addresses; Content: what `resolve` of each kind makes of a form
--     Create        create and the daily limit; Update: update and what it changes; Life: both
--                   together with the other calls and the job
--     Store         findRow, findOwnRow, findPending, applyTransition, the audit log
--     View          toDto, detail, findOne
--     Requests      submit, cancel, revealAuthor; Reviews: approve, reject, suspend
--     StatusJob     SubmissionStatusJob: sync, move, run
--     History       how rows change in time; Writes: the transactions, in any order with the job
--     Calls         the five calls as values: their checks, and the whole call
--   Idempotency     src/common/idempotency: the table of keys and the loop of the interceptor
--   Roles           src/users/user-roles.service.ts
--   Pagination      src/common/pagination/page.ts, with the list of src/users/user-roles.service.ts
--   Lineup          src/lineups/resolve-lineup.ts
--   Live            src/live/resolve-live.ts; Service: src/live/live.service.ts
--   Playlist        src/playlist/playlist.service.ts
--   Notification    the outbox of src/notifications: Dispatcher is notification-dispatcher.service.ts
--                   with slack-notification.service.ts, and the jobs that fill the outbox are
--                   src/jobs/device-offline-alert.job.ts and review-reminder.job.ts
--   TargetGroups    src/target-groups/target-groups.service.ts, with the foreign keys of src/db/schema.ts
--   Device          src/devices/device-status.ts, src/lineups/quiet-hours.ts; Alert:
--                   src/notifications/device-alert-policy.ts and src/jobs/device-offline-alert.job.ts
--   Relay           src/realtime/game-relay.ts (Rooms: GameRelay, Budget: MessageBudget, Counter:
--                   ConnectionCounter) and the admission of connections in
--                   src/realtime/realtime-socket.service.ts
--
-- How they interact: Requests and Reviews change the rows that the other has read through one
-- conditional write on the version; StatusJob changes them by statements of its own, which count
-- the version up too. `Submission.Writes` has a step for each transaction and each
-- run of the job, and `Reach` is the states that sequences of them lead to; a request that has read
-- a row and writes it later is a step at any later state. A call that shows on the displays counts
-- up `emitted`, which stands for `SignageChanges.emit`. The playlist reads the rows of Submission, the
-- lineup of Lineup and what Live makes effective. Several processes work on one outbox: `run` of
-- `Notification.Runs` is any sequence of their transactions.
--
-- How the code corresponds to the definitions:
--   - A uuid, a slug, an address or a fingerprint is only compared, and is a number. A time is
--     milliseconds since 1970, from 1970-01-02 on, so that the offset of Seoul can be taken off.
--   - A table is the list of its rows. `update … set … where … returning` is the list after it and
--     the number of rows that it changed; a unique key is a hypothesis where a theorem needs it.
--   - The texts of errors are left out; of the errors of fields, the names of the fields are kept.
--   - A socket is told from others by its reference, as `===` does. What an operation sends and
--     closes is a list, in order. The contents of messages are a parameter.
--   - MessageBudget counts in thousandths of a token what is missing to a full bucket; the rounding
--     of the floating-point numbers of the source is left out.
--   - The loop of the interceptor runs on fuel. 101 claims are enough, since it sleeps for 100 ms
--     between two of them and gives up after 10 seconds.
--   - `new URL` is a parameter `new_url` of create and update: the parts of an address, or nothing.
--     The fields of a form that its decorators demand are taken as they come.
--   - The dispatcher's call of Slack is how it ended: sent, or failed with a code, whether a further
--     try is of use, and how long to wait. What a process does between its transactions is nothing
--     that another one sees.
--   - The services that refer to groups are, for TargetGroups, writes of references under foreign keys;
--     SQL's `lower` is a parameter. A group's live state has no foreign key and is not among them.
--   - An item of a playlist is the columns of its row, and a program is its id.
--
-- Not modelled: the queries that list, the advisory lock around jobs, the sequence's gap after a
-- rollback, the upload and conversion of media, the storage of lineups, programs, the registration
-- of devices, categories, statistics, and the glue of the framework (controllers,
-- DTOs, guards, modules, configuration). These are calls of libraries or are left for later
-- extensions.
pub mod Base
pub mod Device
pub mod Failure
pub mod Idempotency
pub mod Lineup
pub mod Live
pub mod Notification
pub mod Pagination
pub mod Playlist
pub mod Relay
pub mod Roles
pub mod Submission
pub mod TargetGroups
pub mod Time
