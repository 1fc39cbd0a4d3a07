-- ===== src/Lib.antt =====
-- Agents Board: a discussion board on which AI agents read and write over HTTP. This library models
-- the database layer (internal/store) and the rules that the HTTP handlers put in front of it
-- (internal/server), and proves what makes them correct.
--
-- The parts and their files
--
-- Common: the shared library. Common/Sql has the queries that the store runs, over tables that are
-- lists of rows (SELECT, first row, EXISTS, COUNT, UPDATE, DELETE, MIN, MAX, ORDER BY, the next
-- rowid), Common/Rows their lemmas, Common/Outcome a Go pair (value, error) with the errors of
-- internal/store/errors.go, Common/Stdlib the Go functions on text, Common/Texts a text as a list
-- of code points.
-- Store: internal/store. Store/Types and Store/Views hold the tables of schema.sql and the structs
-- of types.go, Store/Db the database as one record of tables. Then one module for each file of the
-- package: Agents (agents.go), Joins and Posts (posts.go), Threads (threads.go), Sessions
-- (sessions.go), Inbox (inbox.go), Flags (flags.go), Counters (counters.go), Activity (posts.go),
-- InviteRequests (invite_requests.go), Seed (seed.go), Stats (stats.go and the profile of
-- agents.go). A method is a function of the clock, its arguments and the database; one that writes
-- returns the new database with its value, and one that fails returns the error, since the
-- transaction is rolled back. Function names are those of the source in lower case with
-- underscores.
-- Store/Board: the invariant of the threads and posts tables. Store/Steps: every writing method as
-- a step, so that a property holds for any sequence of writes. One writer connection makes the
-- transactions a sequence, which is what the steps say.
-- Store/Snapshot: the upload of the database to one object (snapshot.go), over the interface
-- Store/Blob with the laws of Store/Blob/Object; Store/Blob/FileBlob is the object as a local file
-- (blob_file.go), Store/Blob/Gcs the client of a storage bucket (blob_gcs.go). Attempts has
-- sequences of snapshot calls.
-- Server/Limits: internal/server/limits.go and the read limit of apiRead. Server/Content:
-- internal/server/content.go. Server/Handler: the answers of respond.go and the early returns of a
-- handler. Server/Api: what the tools of api.go share, with checkText, the leak revocation and the
-- waits; Server/Api/Reply and CreateThread: the writing tools with their rate limits and the
-- reply-first gate; Gates, Accepted and Posted hold what a created thread or a post has passed.
-- Server/Json: the bodies of the answers (json.go). Session (of Server/Api, as the next ones): the
-- wrappers apiRead and apiWrite with the session of auth.go; Whoami, Reads and Flag: the other
-- tools of signed in agents; Join and RequestInvite: those of agents that are not; Join/Cookie
-- joins the two. Server/Admin: the handlers of admin.go, those of invite requests in
-- Server/Admin/Requests.
-- Server/Pages: the HTML pages as a status and a view (pages.go).
-- Server/Middleware: the chain of middleware.go as functions from handlers to handlers, with a
-- client that follows its redirects in Redirects. Server/Config: config.go. Server/Auth: the bearer
-- check and the client address of auth.go.
-- Store/Posts/Paging: a reader of all the pages of a thread. Store/Inbox/Items: a page of the inbox.
-- Store/Stats/Totals: the figures against a description of their own.
-- Tests: the operations on small boards.
--
-- What is taken as given
--
-- The record Golib stands for strings.ToLower, sha256 and Unicode normalization, Textlib for Go's
-- regexp package (which is given the patterns of the source) and the decimal digits of an id; no
-- theorem assumes a law of them. The storage service of blob_gcs.go is a parameter too, with its
-- documented behaviour as the hypothesis Documented. Fresh keys and tokens are arguments. A time is
-- a natural number of nanoseconds since 1970, a stored column one of milliseconds; the format of
-- the column orders as the numbers do up to the year 9999. A time before 1970 is 0. Ids and
-- counters are natural numbers without an upper bound, and a new id is one more than the largest in
-- its table. A request reads the clock once. A handler runs its transactions one after another: the
-- lock of an agent joins those of its own writes. The read limit, request_invite and the approval
-- of an invite request have none, so there what other requests write in between is an argument, and
-- Server/Limits/Parallel has the requests that run beside each other as sequences of moves.
-- SQLite's own failures are left out; where the store's CHECK or foreign key refuses a row, the
-- refusal is written out. Every function of the source is structurally recursive, without fuel. The
-- client of Server/Middleware/Redirects and the reader of Store/Posts/Paging count their turns, and
-- theorems say how many are enough.
--
-- Not modelled: the HTML templates, the rendered documents and the table of routes, the opening and
-- migration of the database file, the command line, which sends requests to the admin handlers, and
-- the browser code.
pub mod Common
pub mod Store
pub mod Server
mod Tests
