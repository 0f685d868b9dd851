-- ===== src/Lib.antt =====
-- The skill registry: skills of an organization, their numbered and immutable versions, the review,
-- activation, granting and disabling of versions, and an append-only audit log, behind an HTTP API
-- whose every request is one database session of one authenticated user.
--
-- How the parts interact. A router of app/api/routers calls one operation of `SkillService` or
-- `ActivationService`. The operation reads through the `SkillRepository`, which is pinned to the
-- user's organization, checks its conditions in order, assigns to the loaded objects and adds new
-- rows, records audit entries and commits. A flush sends the session's pending writes: the
-- `before_update` guard sees the loaded object, then the row trigger sees the stored row, then the
-- table's constraints see the result. An exception that escapes rolls the session back.
--
-- The files, and the code that each is about:
--   Core/Enums        app/core/enums.py
--   Core/Errors       app/core/errors.py, with the exceptions of the ORM and the database
--   Core/Tools        app/core/tools.py: the allowlist and `validate_requested_tools`;
--                     Allowlist and Accepted are about what it returns,
--                     Rejected about its errors
--   Core/Security     app/core/security.py: tokens and passwords
--   Models            app/models: the rows, and the assignments to a loaded object
--   Models/Guard      app/models/events.py: the `before_update` guard
--   Database          alembic/versions 0001 to 0003: Constraints (the keys and checks), Trigger (the
--                     row trigger), Write (one INSERT or UPDATE, and the writes of one flush),
--                     Inversion (what an accepted write did), Layers (the guard and the trigger),
--                     Updates (the keys of a table after an UPDATE), Statements and Run (the SQL
--                     statements of any client: privileges, triggers, cascades and foreign keys),
--                     AppendOnly and TamperProof (what no client can do)
--   Session           app/db/session.py and the unit of work: a monad of state and exceptions with
--                     flush, commit and rollback; Keeps and Yields are its proof rules
--   Repository        app/db/repository.py: `SkillRepository`; Reads has a rule for each
--                     read, Selection is about the runtime selection, Numbering about the next
--                     version number; Unscoped is `UnscopedAuthRepository`
--   Services/Hashing  app/services/hashing.py, with the JSON text that it hashes; Hex, Json and
--                     Injective read the texts back
--   Services/Audit    app/services/audit.py, and `ScopedRepository.add`; Newest is about a page
--   Services/Skills   app/services/skills.py, whose `grant_tools` is in Services/Grants
--   Services/Activation  app/services/activation.py
--   Api/Routes        app/api/routers/skills.py and audit.py, app/api/deps.py, the request bodies of
--                     app/schemas/skill.py; `handle` is one whole request
--                     of a user that is known
--   Api/Auth          app/api/routers/auth.py and `get_current_user` of app/api/deps.py; `serve` is a
--                     request from its token on, `serve_login` a login; Authenticated and Login are
--                     about them; Confidential is about whose rows an
--                     answer has
--   Api/Errors        app/api/errors.py: the handlers; `respond` is a request up to its answer; Opaque
--                     is about what the answers tell
--   Seed              app/seed.py; Again is about a second run
--   Services/Discipline, Walk, Stable
--                     the proof interface: Discipline lists the rows and the updates that the
--                     services ever write, Walk shows that every route keeps to it, and
--                     Stable turns a property of the tables that each of these writes keeps into one
--                     that holds after every request
--   Services/Visibility, Settled, Barred
--                     what is answered about a skill that is not visible, the activations that
--                     change nothing, and the other refusals
--   Invariants        the properties of every request: Consistency of the keys, Immutability and
--                     Integrity of the versions, AuditTrail, Roles and Isolation, Lifecycle of the
--                     versions by kinds of request, Granting, Ownership of the skills, Reading,
--                     OneOwner of a skill and its versions; Moves is the relation of a table and a later one, row by row
--   Effects           what a review, an activation and a disabling that succeed leave, as equations:
--                     Review, Activation and Disable, with Succession and Disabled as descriptions of
--                     the last two; Accepted is about the writes that the database takes, Fresh about
--                     new ids, and Steps, Ready, Incumbent, Retire, Install, Switch, Withdraw and
--                     Close about the parts of the three
--   History           any sequence of requests and logins, as a relation of databases; Always and
--                     Onward are about it
--   Samples, Tests    a small registry, and the theorems on it
--
-- State and operations. `Db` has the six tables as lists of rows in the order of insertion.
-- `Session` has the durable tables, the tables as the open transaction sees them, the writes that
-- are not yet flushed, and a counter. An operation is a function from a session to a result and the
-- next session. The counter numbers the answers of what is outside the repository, collected in
-- `World`: fresh identifiers, the clock, `str.lower`, SHA-256 and the order of the database's text
-- collation. Nothing is assumed of them, except in Effects, where identifiers do not repeat. `Security` collects PyJWT, passlib, `uuid.UUID`, the
-- database's `lower` and the settings; its laws, `IsSound`, are a hypothesis where they are used, and
-- Samples/Tokens is one `Security`. An update names the loaded object and the assignments, and reaches
-- every stored row with that object's id, so the guard (on the object) and the trigger (on the row)
-- can differ.
--
-- Text is a list of code points; identifiers and times are numbers. The recursion is structural,
-- except for the digits of a number in Services/Hashing, whose fuel is one more than the number, and
-- a number has no more decimal digits than that.
--
-- Not modelled: two requests interleaved on one database (a request runs alone, as the row lock of
-- `lock_skill` makes the operations that take it run); the messages of errors and the log; the
-- validation of request bodies by the schemas; the scripts, the settings, the migration runner and
-- the wiring of the frameworks; DDL, by which the owner of the schema could drop a trigger; the foreign
-- keys to users and organizations in a request's own writes, since no request removes either
-- (Database/Statements has them); and the column types of the database, which bound the length of a
-- text.
pub mod Prelude
pub mod Core
pub mod Models
pub mod Database
pub mod Session
pub mod Repository
pub mod Services
pub mod Api
pub mod Seed
pub mod Invariants
pub mod Effects
pub mod History
mod Samples
mod Tests
