-- ===== src/Lib.antt =====
-- The permission bridge, the pairing and token security, the rate limiter, the agent tasks, the
-- file debouncer, the event hub, the image storage, the RPC dispatcher and the table of sessions
-- of cdev, a daemon that lets a mobile app supervise coding agents on a developer's machine.
--
-- The parts and how they interact
-- - Base: Boolean tests, Go maps as association lists, strings as lists of code points, and the
--   functions of Go's strings package that the code calls.
-- - Permission (internal/permission, internal/rpc/handler/methods/permission.go). A hook asks
--   permission/request whether a tool may run. Permission/Pattern.antt is pattern.go
--   (GeneratePattern, MatchPattern), on Permission/Paths.antt for path/filepath;
--   Permission/Memory.antt and Permission/Pending.antt are MemoryManager of memory.go: remembered
--   decisions per session, and requests that wait; Permission/Service.antt is the handlers Request
--   and Respond, which call them. Permission/Calls.antt runs the manager's methods in any order.
-- - Security (internal/security). Security/Token.antt is token.go (TokenManager),
--   Security/Approval.antt is pairing_approval.go (PairingApprovalManager), Security/Registry.antt
--   is auth_registry.go (AuthRegistry).
-- - RateLimit (internal/server/http/middleware/ratelimit.go): Allow, Remaining, cleanup and the
--   middleware that answers 429. RateLimit/Key.antt is the extraction of the key: the address of
--   the client, from IPKeyExtractor.
-- - Task (internal/domain/task): statuses, transitions and timeline of an agent task.
-- - Watcher (internal/adapters/watcher/debounce.go): the debouncer of file changes, with the timers
--   that the runtime keeps for it.
-- - Hub (internal/hub/hub.go, subscriber.go): events go to the channel subscribers, slow ones are
--   removed. Taking events out of a channel is not a step: a buffer has the places it began with. Hub/Filter.antt is filter.go: a subscriber that sees only the workspaces it asked for.
-- - Images (internal/services/imagestorage/storage.go): uploaded images on disk. Images.antt has
--   the state, the limits, Delete, Cleanup and eviction, Images/Load.antt what New finds in the
--   directory, Images/Upload.antt is Store, Images/Stats.antt GetStats.
-- - Rpc (internal/rpc): Rpc.antt has the messages of message/jsonrpc.go and errors.go,
--   Rpc/Registry.antt is handler/registry.go, Rpc/Dispatch.antt is handler/dispatcher.go
--   (Dispatch, DispatchBytes, HandleMessage and batches). A handler is a function of the state of
--   the services behind it.
-- - Sessions (internal/session/session.go, manager.go): Sessions.antt has the sessions, the
--   manager's maps and the aliases of ids, Sessions/Update.antt is updateSessionID,
--   Sessions/Idle.antt the stopping of sessions, Sessions/Watch.antt who watches which session,
--   Sessions/GitWatch.antt the counts of the git watchers.
-- - Git (internal/adapters/git/diff_truncate.go): TruncateDiff.
--
-- How code and model correspond
-- - A method that holds its mutex is one function from state to state, under the method's name in
--   snake case. The time it reads and what it draws at random are arguments. A handler that waits
--   in a select is two functions, with the case that is taken as an argument. Errors are values.
-- - A map is a list of entries; its order is the one a range loop takes, and the theorems hold for
--   every order. Channels with a buffer are part of the state that shares them.
-- - Times are natural numbers; a comparison with now minus a duration has the duration on the
--   other side. Expiry durations are natural numbers. No machine integer of the modelled code
--   comes near its bounds in use, and wrapping is not modelled. All loops are recursion on a list
--   or on the index that counts down, but one: following the aliases of a session id takes as fuel
--   one more turn than there are aliases, which Sessions/Resolve.antt shows to be enough.
-- - Parameters: filepath.Match; JSON, base64 and HMAC as a record of functions with the laws that
--   decoding undoes encoding and an encoded object is not empty; the JSON of RPC messages and
--   SHA-256 as functions without laws; file and random-source results.
--
-- Not modelled: logging, JSON of the handlers' parameters, published events, the secret file of
-- the token manager, texts for display, trusted proxy networks, ValidatePath and the order of
-- List of the image storage, the OpenRPC description, of the session manager starting agents,
-- prompts, file watchers and the history, and the other packages (workspaces, adapters, servers,
-- command line). A token exchange releases its lock between the check and the record of the use;
-- Security/Token/Overlap.antt runs these two steps of many calls in any order. Other calls that
-- overlap inside one method (a response between removal and storing) are not interleaved.
pub mod Base
pub mod Permission
pub mod Security
pub mod RateLimit
pub mod Task
pub mod Watcher
pub mod Hub
pub mod Images
pub mod Rpc
pub mod Sessions
pub mod Git
