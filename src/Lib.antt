-- ===== src/Lib.antt =====
-- A verification library of singlecloud, the server that creates, updates and destroys Kubernetes
-- clusters and shows them through a REST API.
--
-- Base holds the names and lemmas that all parts share. Kv is the key-value store that the parts
-- keep their state in, github.com/zdnscloud/kvzoo, as a record of operations and documented laws:
-- a transaction is all or nothing, and a call may fail. Kv/Memory fills the record with a store
-- in memory whose transactions may be told to fail, Kv/Reliable with one that never fails.
--
-- Zke is pkg/zke, the life of a cluster:
--   Types       pkg/types/cluster.go and pkg/types/node.go: Cluster, Node, TrimFieldSpace
--   Config      pkg/zke/zke.go and ToScCluster: the configuration of a cluster and back
--   Validation  pkg/zke/validation.go and validation_util.go: the checks of a request
--   Fsm         pkg/zke/fsm.go: the events and the table of the state machine
--   World       the objects of cluster.go and manager.go: clusters on a heap, the manager's list,
--               the table, what was published
--   Db          pkg/zke/db.go: the table of cluster states
--   Lifecycle   the callbacks of fsm.go and the goroutines Create, Update and Destroy of cluster.go
--   Manager     pkg/zke/manager.go: Create, Update, Delete, CancelCluster, loadDB and the rest
--   Invariant   what holds of the manager between two steps
--   Invariant/Starts  the world that the manager starts with, over the rounds of Invariant/Loads
--   Runs        requests, checks and ends of goroutines in any order
--   Checks      a round of the check of the connection
--   Settled     the end of a goroutine
-- A request validates what it is given, stores the new state, sends an event to the cluster's
-- state machine and starts a goroutine; the goroutine calls the zke library and sends the event
-- that ends the work, whose callback stores the result. An event is a change of the status and
-- then a callback. A world is what all of them share; a step is a function from worlds to worlds.
--
-- Auth is pkg/authorization: the users in memory and in their table, and what each is authorized
-- for (authorizer.go, db.go). Auth/Sync is about the two copies, Auth/Access about the rights, and
-- Auth/Covers about what the projects of a user are for.
--
-- Events is pkg/k8seventwatcher/eventwatcher.go: the last events of a cluster, numbered, and what a
-- listener reads that has seen them up to some id. Ids are `uint64` and wrap at 2 ^ 64.
--
-- Audit is pkg/auditlog: a table of the last records (storage/storage.go, with Audit/Window about
-- its bound), and what of a request is recorded and who reads it (auditlog.go, in Audit/Logger).
--
-- Alarm is pkg/alarm/alarmcache.go and table.go: the alarms in a list and in a table. Alarm/Find is
-- about the searches, Alarm/Sync about the two copies.
--
-- Jwt is pkg/authentication/jwt and pkg/authentication/session: passwords, tokens (Jwt/Token) and
-- sessions. Jwt/Passwords is about the passwords in memory and in their table, Jwt/Access about who
-- a request is from. Login is pkg/authentication/authenticator.go and middleware.go, which ask Jwt
-- first and CAS then; Login/Entry is about who gets past them.
--
-- Handler is pkg/handler, where it has rules of its own over these parts:
--   Users       user_manager.go: a user has a password (Jwt) and rights (Auth)
--   Clusters    cluster_manager.go: the rights (Auth) in front of the clusters (Zke), and the handler
--               that checks every request
--   Quota       userquota_manager.go, with the helpers of namespace_manager.go,
--               resourcequota_manager.go and k8sutil.go: a user asks for a namespace, the
--               administrator approves or rejects it. Quota/Approve and Quota/Requests are approval
--               and deletion, which call Kubernetes; Quota/Life is the life of a stored quota,
--               Quota/Moves, Quota/Administer and Quota/Steps follow it through the requests, and
--               Quota/Rights is about rights and Quota/Namespaces about deleted namespaces.
-- A request passes the middleware of Login, which sets its current user or answers with a redirect,
-- then in any case the check of Clusters, the audit handler, and the handler of its resource.
--
-- A cluster's pointer is a number and the heap a function, so two pointers may name one object.
-- Every handler holds the manager's lock from its start to its end, so it is one step. A goroutine
-- is one step too, from its start to its end, with the result of the zke library as an argument:
-- a cancellation, a request and a check of the connection come before or after it, and what
-- could happen between two statements of a goroutine is not modelled. `crashed` is
-- set where Go would panic in a handler and `overlapped` where a second goroutine would work on
-- one cluster; the invariant says that neither is ever set.
--
-- Parameters, as records of functions with what is relied on: cement/fsm (Fsm), kvzoo (Kv),
-- encoding/json (Codec), jwt-go (TokenLib),
-- the clients of Kubernetes (Client), the answer of CAS (Cas), net, strconv and strings.Split (Net),
-- cement/set (StringSet). Theorems
-- on the stored states of the invariant suppose a store none of whose calls fails (IsReliable),
-- since the program only logs a failed write of a callback. The other theorems
-- hold for a store any of whose calls may fail.
--
-- No loop needs fuel: all are recursions on lists. Strings are compared, not parsed. Times are
-- numbers. The calls of Kubernetes, the REST library and the event bus are seen through their
-- results. Not modelled are the CAS client, which is a copy of a library, the listeners and mails of
-- the alarms, the handlers of the other resources and the parts that only move
-- bytes (charts, shells, logs, agents).
pub mod Base
pub mod Kv
pub mod Zke
pub mod Auth
pub mod Audit
pub mod Alarm
pub mod Jwt
pub mod Events
pub mod Login
pub mod Handler
