-- ===== src/Lib.antt =====
-- The ACCP web console (web/src): its logic outside the React views, modelled and proved correct.
--
-- The console shows the projects of the control plane. It talks to the server through one client
-- class (web/src/api.ts), follows a project's event feed (web/src/app/useEventStream.ts), and keeps
-- small pure modules beside its views.
--
-- Texts are lists of UTF-16 code units (Text.antt), as JavaScript has them; numbers are natural.
-- What the browser or the engine provides and the sources only call is a parameter.
--
-- Prelude: names passed on, Boolean tests, lists over the native numbers.
-- Text: the string methods that the sources use; Text/Search has the laws of `startsWith` and
--   `indexOf`, Text/Parts those of `split` and `join`.
-- Json: the values that `JSON.parse` gives. Assoc: a `Map` with strings as its keys.
-- Api: web/src/api.ts. `call` is cut at the wait for the response into `prepare` and `settle`, so
--   that calls may overlap; the map of idempotency keys is the state that they share. Api/Keys is
--   about the keys, Api/Outcomes about what a call gives, Api/Download about `download` and `short`,
--   Api/Pages about `all`, whose loop has as fuel the number of pages that it may read: any number
--   from that of the server's pages on will do. `fetch`, `crypto.randomUUID`, `JSON.stringify` and `encodeURIComponent` are parameters.
-- Diff: `lineDiff` of web/src/diff.ts. Diff/Lcs says what a longest common subsequence is,
--   Diff/Table proves the filling loops, Diff/Walk the loop that walks the table, whose fuel, the
--   sum of the sides of the table, is never used up.
-- SavedViews: web/src/tasks/savedViewModel.ts, with `toLowerCase`, the engine's JSON and the
--   storage of the browser as parameters; SavedViews/Menu is web/src/tasks/SavedViews.tsx. Bulk: web/src/tasks/bulkActions.ts,
--   and Bulk/Transfer is web/src/tasks/BulkTransfer.tsx, whose results the list of TaskList takes.
-- Notifications: web/src/app/useNotifications.ts, the state of the hook as a record; a request and
--   the answer to it are two steps, between which others may come.
-- ReturnTo: web/src/returnTo.ts, with the constructor of `URL` as a parameter.
-- Routing: web/src/routing.ts, with `encodeURIComponent` and `decodeURIComponent` as parameters.
-- ProjectData: web/src/app/useProjectData.ts. The requests on their way are part of the state;
--   ProjectData/Steps has the machine, in which answers come in any order and the effect that
--   follows a change of the project or of the user belongs to the step that makes the change. A
--   refresh is the one of any render, with its project, since a form may have waited with it.
--   ProjectData/Merge and ProjectData/Sorted are about the list of tasks behind a poll;
--   `localeCompare` and the arithmetic of dates are parameters.
-- TaskQuery: web/src/tasks/taskListSearchParams.ts, with `URLSearchParams` as its list of pairs and
--   the browser's form of them as a parameter.
-- TaskList: web/src/tasks/Tasks.tsx: the variables of the component, its timer and the requests on
--   their way are a record, the handlers are in TaskList/Handlers, what is shown in TaskList/View.
--   TaskList/Steps has the machine of all that can happen to it, a step being a handler and the
--   effects that follow it; the server is a parameter that answers the parameters of a request.
-- Audit: the helpers of web/src/workspace/AuditRecords.tsx, web/src/workspace/reviewer.ts and
--   web/src/tasks/TaskToolTimeline.tsx.
-- Mentions: the helpers of web/src/tasks/TaskComments.tsx, with the test for letters and digits as a
--   parameter.
-- Session: web/src/app/useAuthSession.ts with what sets its state in web/src/app/App.tsx and
--   web/src/app/LoginScreen.tsx: the answers of the OIDC manager, the navigation, the logout and the
--   expiry are events, in any order. Session/Safe is about the address, Session/Tokens about the
--   token. Frame: the access of web/src/app/App.tsx and the screen for a route and the data, which
--   are the state of ProjectData.
-- Forms: the form of web/src/ui.tsx and the action of web/src/tasks/CreateTask.tsx. Forms/Once puts
--   the form beside a server that creates something under a key once, and that may have created it
--   although no answer came or the answer was an error of the server.
-- GitLinks: the addresses of repositories in web/src/gitProviders.ts and web/src/archiveBlockers.ts,
--   with the parser of addresses as a parameter. GitLinks/Blockers reads the message of
--   internal/controlplane/management.go about what blocks an archive.
-- Translation: web/src/i18n.tsx: the choice of the locale, messages and relative times, and in
--   Translation/Provider the provider with the storage. The catalogues, what the browser formats,
--   and what every object has under a name are parameters.
-- MyWork: web/src/app/MyWork.tsx, its requests as part of the state, answered in any order.
-- Stream: web/src/app/useEventStream.ts. Stream/Frames has `splitFrames` and `parseFrame` (the loop
--   of `splitFrames` has fuel for the length of its text, which is enough), Stream/Connection the
--   effect as a machine: its variables are a record, the response, the chunks, the timers, the
--   visibility and the cleanup are inputs, in any order.
--
-- Not modelled: rendering, styles, the message catalogues, and the parts of the repository that are
-- not the web console.

pub mod Prelude
pub mod Text
pub mod Json
pub mod Assoc
pub mod Api
pub mod Diff
pub mod SavedViews
pub mod Bulk
pub mod Notifications
pub mod Routing
pub mod ProjectData
pub mod TaskQuery
pub mod Mentions
pub mod TaskList
pub mod Audit
pub mod ReturnTo
pub mod Stream
pub mod Frame
pub mod Session
pub mod Forms
pub mod MyWork
pub mod GitLinks
pub mod Translation
