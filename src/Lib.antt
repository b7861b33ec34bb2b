-- ===== src/Lib.antt =====
-- A model of the provisioning backend: the service that launches virtual machines on AWS, Azure and GCP.
--
-- The program. An HTTP handler (internal/services) checks a request, stores a reservation through the data
-- access objects (internal/dao) and pushes a job to a Redis list (pkg/worker). A worker pops the job and runs
-- its handler (internal/jobs): a few steps against a cloud, each of which updates the status of the
-- reservation, then a notification (internal/notifications) and the result of the reservation. Requests pass
-- the permissions of the principal (internal/clients/access.go, internal/clients/http/rbac,
-- internal/middleware/enforce_permissions.go), and errors of clients become statuses for the user
-- (internal/payloads/error_payload.go).
--
-- The files. Common and its children are helpers. Errors models error values, their chains and the statuses
-- made of them, and Errors/Positions where an error of the database is in a text
-- (internal/db/error_line_extract.go); Access the permissions; Models the records of internal/models, of
-- internal/clients and of jobs. World is the state that requests and jobs change (tables, the Redis list,
-- notifications, responses) and the environment, with the actions that the rest is written in; World/Keeps has
-- rules for what actions leave alone. Dao/Reservations, Dao/Pubkeys, Dao/Accounts and Dao/Rows model
-- internal/dao/pgx; Notifications the notification client; Jobs/Common, Jobs/Noop, Jobs/Aws, Jobs/Azure and
-- Jobs/Gcp the package jobs, where HandleLaunchInstanceAWS is handle_launch_instance_aws and so on;
-- Services/Render, Services/Requests, Services/Aws, Services/Azure, Services/Gcp, Services/Noop,
-- Services/Reservations, Services/Pubkeys, Services/Lookups and Services/Uploads the package services, and
-- Services/Responses the bodies of the responses about reservations
-- (internal/payloads/reservation_payload.go); Worker the Redis worker, and Worker/Pool its polling goroutines
-- (pkg/worker/redis.go). Kafka models messages, the sending of them and the loop of a consumer
-- (internal/kafka), Background the batches of availability checks (internal/background/availability_queue.go),
-- Statuser the process that makes the checks (cmd/pbackend/statuser.go), Iam the check of AWS permissions
-- (internal/clients/http/ec2/iam_client.go), Backends/Sources and Backends/ImageBuilder the clients of Sources
-- and of Image Builder above the generated code, Clouds/Ec2, Clouds/Azure and Clouds/Gcp the clients of the
-- three clouds above their SDKs (internal/clients/http/ec2, azure and gcp), Middleware what stands before the
-- handlers (internal/middleware/enforce_identity.go, account.go and etag_middleware.go), InstanceTypes the
-- preloaded instance types (internal/clients), and Logging the writer that censors logs
-- (internal/logging/sentry_replacer.go). The other children of these hold lemmas and theorems, and Examples
-- applies the theorems to concrete inputs.
--
-- The statuser takes a message of the sender of availability checks, asks Sources for the authentication
-- (Backends/Sources), puts the source on the channel of its provider, checks it (AWS: Iam), and hands the
-- results to Kafka in batches. Statuser is stated over these modules. What a `select` takes up is a list of
-- events, so that a theorem holds for every interleaving.
--
-- The clients of the clouds (Clouds) are actions that keep the list of all requests made so far, which
-- outlives an error, and on which an answer may depend; what an SDK does with a request is a parameter. The
-- pages of a listing are a list, of what each page answers. The handlers of jobs take the results of these
-- clients from their environment.
--
-- The environment. PostgreSQL, Redis, Kafka, the clouds, Sources, Image Builder, the renderer, templates, SSH
-- keys, random names and the configuration are functions of an environment. Each call takes the number of
-- calls made before it, so that the same call may answer differently each time, and each call of the database,
-- of Redis, of Kafka and of the renderer may fail. A deadline or cancellation is likewise a function of that
-- number; in a job a call of the database or of Kafka with the context fails once its deadline has passed
-- (World.on_context), and the status and the end of the reservation are written with a copy of the context then
-- (World.copy_context). A request or job runs alone: what others do to the tables meanwhile is not modelled, but for the
-- goroutines of the worker, whose schedule is a list of turns (Worker/Pool). Times and the intervals between
-- retries change nothing else.
--
-- Loops are recursions on the list that they go through, or on the number of rounds, which the source bounds
-- (ten rounds of GetPrincipalAccess, the intervals of waitAndRetry). The loop of SentryReplacer.Write has the
-- length of its buffer for fuel, which is enough since every round takes a byte at least.
--
-- Not modelled: the bodies of other responses and the text of an error (a row holds the error itself), Go's
-- panics but those named in Access, Backends, Clouds, InstanceTypes, Services/Lookups and Statuser, other
-- logging, metrics, tracing, the JSON of jobs and messages, the generated clients, the SDKs of the clouds and
-- their options, configuration, routing, migrations, start-up and shutdown.
pub mod Access
pub mod Background
pub mod Clouds
pub mod Backends
pub mod Common
pub mod Dao
pub mod Errors
pub mod Examples
pub mod Iam
pub mod InstanceTypes
pub mod Jobs
pub mod Kafka
pub mod Logging
pub mod Middleware
pub mod Models
pub mod Notifications
pub mod Services
pub mod Statuser
pub mod Worker
pub mod World
