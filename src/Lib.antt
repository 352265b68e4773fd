-- ===== src/Lib.antt =====
-- The control plane of storebirth: users, their workers (containers on Kubernetes) and databases.
--
-- An outer gateway answers users over HTTP, writes to PostgreSQL through `dblayer`, and posts
-- tasks to an inner gateway, whose processor runs them against the database and the Kubernetes
-- API.
--
-- Base: texts as lists of code points, Boolean tests, lists measured by native numbers, integers.
-- Names: the names of databases, users, schemas and workers (k8s/rdb.go, `sanitize` and `userRDB`;
-- k8s/controller/worker.go, `WorkerName`; handlers/worker.handler.go, `workerURL`). The table of
-- unicode.ToLower beyond ASCII is a parameter.
-- Uid: `GenerateUID` of handlers/auth.utils.go. The random bytes are arguments. `decimal` has one
-- round of fuel more than the number, which is enough as no number has more digits than that.
-- Processor: k8s/processor.go. The channel is a list with a capacity; what the goroutines and the
-- callers of `Submit` do is a sequence of events. A panic of a job is not modelled.
-- Cron: k8s/cron.go, and the order of the calls in cmd/inner/main.go. The clock of a ticker is an
-- event. `timerMap`, which is only written, is left out.
-- Store: dblayer/models.go, dblayer/worker.actions.go and, in `Store/Users`, the users and codes
-- of dblayer/actions.go, over scripts/init.sql. A table is the list of its rows and the next value
-- of its SERIAL; a statement is a function on it; `Store/Sql` has the calls. `fault` decides for
-- each call, Begin and Commit included, whether the driver fails, without any restriction; a
-- commit that fails is rolled back. A value of SERIAL that a failed INSERT uses up is not
-- modelled, nor are two transactions at once. `Store/Tasks` has dblayer/task.actions.go.
-- Jobs: the job types, the factory (handlers/jobs/basic.jobs.go) and AcceptTask
-- (handlers/jobs.handler.go). JSON is a parameter; a map of texts is the list of its entries in
-- the order of their keys. `Jobs/Worker` has the jobs of workers (handlers/jobs/worker.jobs.go,
-- with CreateWorkerAppCR and DeleteWorkerAppCR of k8s/controller/worker.controller.go).
-- Platform: the network between the gateways, as `SendTask` meets it, and the Kubernetes API,
-- which is a parameter with the laws of `IsStore`.
-- Rdb: the administrator's connection of k8s/rdb.go (tryGetRootDB, with its two checks and three
-- attempts, InitUserRDB, DeleteUserRDB, DropDatabase and RootListUserDatabases), and
-- registerUserJob. The statements write names without quotes, and how CockroachDB reads such a
-- name, with its capital letters folded or as no name at all, is `reads`, without any restriction.
-- Another goroutine between the two locks is not modelled. `Rdb/Pool` is the pool of the users'
-- connections (getOrCreateUserDB), where a call runs without another one in between, with
-- closeAll.
-- Audit: handlers/jobs/auth.cron.go, with ListUserUIDsPaged of dblayer/actions.go. The calls of
-- CockroachDB and of Kubernetes fail by `root_fault` and `api_fault`. The order in which the
-- runtime goes through a map, and the order of texts in PostgreSQL, are parameters. The pages have
-- one round of fuel more than there are users, which is enough as every page but the last has
-- 1000; the users do not change while the pages are read.
-- Combinator: handlers/jobs/combinator.jobs.go and the operations on schemas of k8s/rdb.go
-- (`Combinator/Schemas` has ListSchemas), over the administrator's connection and the pool of the
-- users' connections. The POST to a pod is recorded; that it fails is only logged. The names of
-- schemas are made of hexadecimal ids and stand for themselves. The handlers are in
-- `Handlers/CombinatorHandler`, where sizes and the way PostgreSQL reads an integer are
-- parameters.
-- Credentials: the rest of handlers/auth.utils.go, with bcrypt, JWT, HMAC and base64 as
-- parameters. Times are nanoseconds; PostgreSQL keeps microseconds, which is not modelled.
-- Domains: k8s/customdomain.go and handlers/jobs/customdomain.jobs.go. The goroutines of
-- StartVerification are a list, and what happens next is an event; a random id that a running
-- verification has is not drawn again. `Handlers/DomainHandler` has
-- handlers/customdomain.handler.go, where one request, or one round, runs without another in
-- between.
-- Kube: the Kubernetes API as the controller meets it, a parameter with the laws of `IsApi`;
-- `Serves` says of an API server that it answers. What other clients of the API do between two
-- calls is not modelled.
-- Controller: k8s/controller/worker.go, worker.controller.go and, of controller.go, updateStatus.
-- The spec and the status of a WorkerApp have the types of its CRD (crd.go). `Controller/Events`
-- has the handlers of the informers; what a handler is given that is of another type is
-- `not_seen`. A namespace is part of the kind of an object. `int32` keeps the low 32 bits of a
-- port. `Controller/Ensured` is the effect of the Ensure functions on what is stored.
-- `Controller/Crd` has EnsureCRD, with the answers of the API as arguments and the thirty rounds
-- of its loop, and `Controller/Listing` ListWorkers.
-- Handlers: handlers/worker.handler.go, each handler as a function from the request and the world
-- to the response and the world. The text of a binding error is left out, and so are the logs.
-- `port` is a natural number. `Handlers/AuthHandler` has handlers/auth.handler.go: the time of a
-- request is one value, and what is drawn at random is an argument. `Handlers/HealthHandler` has
-- the health handlers of handlers/jobs.handler.go.
-- Tests: concrete inputs for the theorems.
--
-- Not modelled: the web client, the routers and the start of the two programs, and the sizes and
-- statistics of the databases.
pub mod Base
pub mod Names
pub mod Uid
pub mod Processor
pub mod Cron
pub mod Store
pub mod Platform
pub mod Jobs
pub mod Rdb
pub mod Audit
pub mod Combinator
pub mod Credentials
pub mod Domains
pub mod Kube
pub mod Controller
pub mod Handlers
pub mod Tests
