-- ===== src/Lib.antt =====
-- zymobrew: a brewing journal's server, in Go. This library models its core and proves what makes
-- it correct.
--
-- The program is a JSON API over a Postgres database (internal/server, with the generated queries
-- of internal/queries), and background jobs (internal/jobs). A client records batches and the
-- events of a batch (pitch, rack, bottle); an event moves its batch through the stages of a brew
-- and, where the batch follows a recipe, anchors the recipe's reminder templates in time; a job
-- claims the reminders that are due and notifies their users; a recipe keeps all its revisions,
-- can be private, and can be forked; a user signs in with a password and acts by a session's
-- token; lists are read in pages by an opaque cursor.
--
-- A table is a list of rows, a query a function on tables written from its SQL text, a handler a
-- function from the request and the database to the database and the response. Identifiers are
-- numbers, instants are microseconds in ℤ, texts are lists of bytes, a nullable column is an
-- Option. A request body is given as encoding/json decodes it, or as `none` if it is malformed; a
-- path's id as uuid.Parse returns it. Which queries of a request fail is a parameter (`Outage`),
-- as are the clock, the ids of new rows and the parsers of the standard library (`World`).
--
-- Base has the names, the lists, tables and tests that all others share.
-- Page models internal/cursor/cursor.go (`Cursor`: `encode`, `decode`),
--   internal/server/pagination.go (`Request`: `parse_list_pagination`; `Listing`: `next_cursor`,
--   `nullable_cursor`; `Limit`) and the shape of the paginated queries and their handlers (`list_rows`,
--   `handle_list`), over an order of the rows (`Order`). `Listing/Walk` has the loop of a client,
--   on fuel; one request more than there are rows is enough. The encodings of the standard
--   library are parameters with their round trips as laws.
-- Schema and Store have the enumerations and rows of internal/queries/models.go and the database.
-- Reminders models internal/queries/reminders.sql.go and reminder_templates.sql.go; `Handlers`
--   has the reminder handlers of internal/server/reminders.go. The rows that FOR UPDATE SKIP
--   LOCKED skips are a parameter of a claim; `Handlers/Silent` has runs of claims.
-- Batches models internal/queries/batches.sql.go and the stages and anchors of
--   internal/server/batches.go; `Events` has its event handlers, `Handlers` its batch handlers.
-- Notify models the quiet hours (`Quiet`: `parse_hhmm` and `shown_time` of
--   internal/server/reminders.go, `is_in_quiet_hours`), the preferences (`Prefs`) and the
--   dispatcher of internal/jobs/reminder_dispatcher.go (`Dispatch`: `work`), whose messages are a
--   list of actions. A tick changes the table of devices; which queries fail, and the answers of
--   the others, do not change during a tick.
-- Recipes models internal/server/recipes.go with internal/queries/recipes.sql.go. `Rows` has the
--   rows that its statements write, `Tables` the statements, as steps of a transaction
--   (`Store/Tx`): it works on a copy of the database, which takes its place where the commit
--   succeeds, and gives it up with a response otherwise. `Write` has `handle_create_recipe`,
--   `handle_update_recipe` and `handle_fork_recipe`, `Read` what is read of a recipe and its
--   revisions, `Social` comments, likes and the deletion, `View` the answers. Revision numbers
--   and counts are int4: a step past 2^31 - 1 fails as the column does. `History`, `Hidden` and
--   `Laws` are about the history, private recipes and errors.
-- Auth models internal/auth (`Passwords`: the text of a hash and its parser, session tokens), and
--   of internal/server: auth.go (`Sessions`, `Register`, `Login`), the change of a password of
--   profile.go (`Password`) and email_change.go (`EmailChange`, `EmailLinks`), over the rows and
--   queries of users, sessions and pending changes. argon2id, SHA-256, base64, fmt and
--   crypto/rand are parameters (`Crypto`, `Env`), as are the mail relay and the parser of
--   addresses (`Post`), and the folding of CITEXT.
-- Network models internal/server/realip.go (`RealIp`), internal/ratelimit/ratelimit.go
--   (`RateLimit`) and internal/apprise/validator.go (`Apprise`).
--
-- The modules named Examples run the definitions at concrete inputs.
--
-- Not modelled: two statements that run at once, since Postgres makes each atomic and the
-- transactions are written as they run alone (a conflict of two is a failing query or commit);
-- texts with a zero byte, which Postgres refuses; the conversions of numbers between JSON,
-- float64 and NUMERIC, which are parameters; readings and tasting notes, the list of
-- notifications, the handlers of reminder templates, the inventory, the profile and the deletion
-- of an account, the exports and the calculators; and what only moves bytes: storage, mail, HTTP
-- wiring.
pub mod Base
pub mod Page
pub mod Schema
pub mod Store
pub mod Reminders
pub mod Batches
pub mod Recipes
pub mod Auth
pub mod Notify
pub mod Network
