-- ===== src/Lib.antt =====
-- FlowPanel is an admin framework: a configuration declares resources, pages and actions; the
-- server checks every request against it and answers with rows, forms or results; the browser shows
-- them and listens to realtime messages. This library models the parts that decide: who may do what,
-- which handler runs, what a text means.
--
-- A request enters through `handlers` (Routing), which picks a handler from the method and the path.
-- Every handler stands behind `withGuards` (Guards), which checks the origin, makes the request
-- context, asks the rate limiter (RateLimit), and asks the policies (Policy). What is thrown becomes
-- a status and a body (Errors), and is reported once. Handlers send realtime messages (Realtime). An
-- export and an import exchange tables as texts (Csv). Migrations are texts split into statements
-- (MigrationSql). A read of another resource goes through Related, and rows leave the server through
-- Rows. A write goes through Writes, an action on rows through RowActions, the edit of a cell through
-- Inline, a restoration through Restore, and server code reads and writes through Controller. A configuration is checked
-- before it serves (Config), and a name that it does not know is answered with a suggestion (Suggest).
-- The command line writes files as a transaction (Changes).
--
-- - Base: shared names, lists, results, texts, association lists, dynamic values.
-- - Errors, Errors/Report, Errors/Statuses: packages/core/src/types/error.ts, types/result.ts and
--   runtime/result.ts. `FlowpanelError` has a constructor for each class; `error_result` is
--   `errorResult`, `report` is `reportUnexpectedError`.
-- - Policy and its children: packages/core/src/policy/access.ts, policy/fields.ts, runtime/auth.ts,
--   runtime/scope.ts, types/policy.ts. `access_allows` is `accessAllows`, `filter_readable` is
--   `filterReadableProjection`, `assert_writable_input` is `assertWritableInput`.
-- - RateLimit and its children: packages/core/src/runtime/rate-limit.ts. The clock is an argument;
--   the Redis client is a parameter.
-- - Realtime, Realtime/Bodies, Realtime/Memory and its children: packages/core/src/runtime/envelope.ts and publish.ts.
--   `JSON` is a parameter; handler sets are objects in a store, since a subscription's end keeps its set.
-- - Realtime/Redis and its children: packages/core/src/runtime/redis-publisher.ts. The state has the
--   variables of `createRedisPublisher`, the calls made on connections, and the tasks that wait at an
--   `await`; Redis/Steps has the interleavings as a step relation. `ioredis` is that list of calls.
-- - Routing and its children: packages/next/src/handlers.ts. `match_route` is `matchRoute`, `get`,
--   `post`, `put` and `delete_route` are the handlers of the methods up to the handler they pick.
-- - Guards and its children: packages/next/src/runtime/with-guards.ts, request-setup.ts,
--   request-origin.ts, and `requireAuthorized` of require-authorized.ts. `URL` and `trim` are a
--   parameter; the limiter is the one in memory or the one over Redis, whose client is a parameter. What a handler does is a function of the context and of a state of any type.
-- - Rows, Rows/Projection: packages/next/src/runtime/project-row.ts and readable-fields.ts.
-- - Related and its children: the reads of other resources in require-authorized.ts, with
--   scope-binding.ts and packages/core/src/internal/count-where.ts; the adapter is a parameter.
-- - Config, Config/Names: packages/core/src/compiler/route-graph.ts and validate-config.ts; lower case
--   and the environment are parameters.
-- - Selection, Selection/Toggles: packages/react/src/_data/useDataTableSelection.ts.
-- - RequestBody, RequestBody/Limits: packages/next/src/runtime/request-body.ts; the parsers are a
--   parameter.
-- - Writes and its children: packages/next/src/actions/resource-actions.ts and field-pipeline.ts, with
--   runtime/read-row.ts, delete-row.ts, scope-binding.ts (what these hand to the adapter is said again,
--   without them, in Writes/Scopes and Related/Scopes), and packages/core/src/runtime/audit.ts and
--   internal/write-fields.ts. `create_row`, `update_row` and `delete_row` are the functions of
--   `makeActions`; each is a preparation that only reads and a commit. The database is of any type,
--   and its adapter a parameter, as are Zod, the callbacks, the audit sink and the publisher; what is
--   sent to them is in the state, the latest call first.
-- - RowActions and its children: packages/next/src/actions/row-action.ts and bulk-action.ts from the lookup of
--   the action on, with runtime/action-schema.ts, action-helpers.ts and apply-action-result.ts. What an action
--   runs is a function of the state of the writes.
-- - Inline, Inline/Guarded: packages/next/src/actions/inline-update.ts; Zod's `pick` is a parameter.
-- - Restore: packages/next/src/actions/restore.ts; the adapter's `restore` is a parameter.
-- - Controller and its children: packages/next/src/controllers/resource-controller.ts, with
--   `sanitizeReadableListSearchParams` of runtime/readable-fields.ts (Controller/Params) and
--   `declaredFieldSet` of runtime/parse-list-params.ts. `list` and `get` are functions of the adapter's.
-- - Series, Series/Days: packages/core/src/runtime/series.ts; the calendar and the numbers added up are
--   parameters.
-- - Pagination, Pagination/Control: `pageItems` of packages/react/src/_data/PaginationDefault.tsx.
-- - Suggest and its children: packages/core/src/suggest.ts, on texts as lists of UTF-16 units.
-- - MigrationSql and its children: packages/core/src/internal/migration-sql.ts.
-- - Csv and its children: packages/react/src/_data/csv-export.tsx and
--   packages/next/src/runtime/parse-import.ts.
-- - Changes and its children: packages/cli/src/plan/types.ts, filesystem-plan.ts and transaction.ts.
--   The files are a map from relative paths; which hook call, write or restoring step fails is an
--   argument.
-- - Tests: the results at concrete inputs.
--
-- Asynchronous code is modelled as it runs without interleaving, but for the publisher over Redis; a
-- callback is a function that answers or throws. Loops are structural recursion on their input; that of
-- `fillDays` has fuel, one more than the days of its range, which is proved to be enough. Times,
-- counts and lengths are natural numbers and do not wrap. Not modelled, since they render, call other
-- libraries or only pass things on: the interface, the rest of the command line, the database
-- adapters, charts, the client and the documentation site; nor are the other handlers.
mod Base
pub mod Errors
pub mod RateLimit
pub mod Realtime
pub mod Routing
pub mod Guards
pub mod MigrationSql
pub mod Csv
pub mod Policy
pub mod Changes
pub mod Rows
pub mod Related
pub mod Selection
pub mod Config
pub mod RequestBody
pub mod Writes
pub mod Suggest
pub mod RowActions
pub mod Controller
pub mod Series
pub mod Pagination
pub mod Inline
pub mod Restore
mod Tests
