-- ===== src/Lib.antt =====
-- ImageForge: an asynchronous image processing service in Go.
--
-- An upload stores the original image, records a pending job and puts its id on a queue. Workers
-- take ids, claim the job, transform the image, store the result, and mark the job done or failed.
-- The domain and the use cases call storage, queue, job repository and image processor through the
-- interfaces of internal/ports; internal/adapters implements each for a laptop and for AWS.
--
-- Files and what they model:
--   Errors           Go's error values: errors.New, Errorf with %w, errors.Join, errors.Is, Error()
--   Domain/Job       internal/domain/job.go
--   Domain/Spec      internal/domain/transformation.go; Domain/Validation is about Validate
--   Ports            internal/ports/ports.go, with the contract of JobRepository as laws
--   Usecase/*        internal/usecase: the storage keys (Keys), CreateJob.Execute (CreateJob),
--                    ProcessJob.Execute (ProcessJob), each with children about its runs
--   Memrepo          internal/adapters/memrepo/memrepo.go
--   Memqueue         internal/adapters/memqueue/memqueue.go, as a step relation
--   Forward          the goroutines between two channels in pool.go, memqueue.go and sqsqueue.go, as a
--                    step relation; Worker/Consume, Memqueue/Consume and Sqsqueue/Consume start them
--   Local            the in-memory repository as an instance of its port; Local/Expiry and Local/Race
--                    are about a context that ends during the work and about two workers on one job
--   Sqsqueue/*       internal/adapters/sqsqueue: backoff.go (Backoff), the queue and its receipts
--                    (Queue), the receive loop of ConsumeDeliveries (Loop), New and Depth (Open)
--   Dynamorepo       internal/adapters/dynamorepo/dynamorepo.go: the items of the table; its calls of
--                    DynamoDB in Dynamorepo/Table, over the client and the SDK's marshalling
--   Worker/Pool      internal/worker/pool.go: settings, counters, handle and the loop of one worker
--   Worker/Run       Run of pool.go with its workers as a step relation: Accounts is about the
--                    deliveries, Drain about its end, Returns about what it returns
--   Localstorage     internal/adapters/localstorage/localstorage.go; FilePath is what it uses of
--                    path/filepath, Confined and Slash are about resolve, Atomic and
--                    Objects about Put and Get
--   S3storage        internal/adapters/s3storage/s3storage.go
--   Imageproc/*      internal/adapters/imageproc: imageproc.go in Size and Pipeline (Process),
--                    purego.go with the options in Purego, vips.go in Vips
--   Httpapi/*        internal/adapters/httpapi: ratelimit.go (RateLimit, Budget), media.go (Media),
--                    problem.go and handlers.go (Answers, Upload), auth.go (Auth), the settings of
--                    api.go (Settings), and its routes with requireAuth and rateLimit around
--                    the handlers (Serve); how problem.go writes to the response (Writer), and
--                    middleware.go around a handler that may panic (Middleware); all of it together in
--                    Service; Finished and Upload/Fulfilled are about a read after a
--                    worker's run, which Usecase/ProcessJob/Completes is about
--   Telemetry/*      internal/telemetry: where spans are exported (Endpoint) and what Setup installs
--                    (Setup) of telemetry.go, logging.go (Logging), propagate.go (Carrier)
--   Metrics          internal/metrics/metrics.go; Counted is about a scrape beside the pool's counters
--   Config/*         how the programs read the environment: the settings of awscfg.go and the choice of
--                    backend.go in Aws, the client options in Aws/Clients, `Open` of
--                    backend.go with Load in Backend; env.go of internal/telemetry in
--                    Telemetry; loadConfig, newIssuer and seed of
--                    cmd/api/main.go and cmd/worker/main.go, and normalizeAddr of
--                    internal/healthcheck, in Programs
--   Programs/*       run of cmd/api/main.go (Api) and of cmd/worker/main.go (Worker) over the calls of
--                    their parts; internal/healthcheck and main (Health)
--   Examples/*       the theorems at concrete inputs, and tests
--
-- How the code is read. A method that changes state is a function from the old state to the new one
-- and its results; a Go error is an Option of Error, and a (T, error) that carries nothing beside an
-- error is a Result. Where the source looks at an error and returns early there is a helper by
-- clauses. Use cases run over an abstract world, so the port calls, and the context between them, may
-- behave in any way that the named laws allow. A Go string is its bytes. Strings that stand for
-- enumerations are data types with a constructor for any other string. Instants and durations are
-- numbers of nanoseconds. A mutex makes the section that it guards one step.
--
-- Bounds. The size arithmetic of imageproc wraps at 64 bits; its rounding theorems are for sizes
-- below 2 ^ 31, where no product overflows. The pool's counters wrap at 2 ^ 64. The backoff's powers
-- of two are exact: its shift is capped at 32; the source computes on floats, which are exact for
-- ceilings below 2 ^ 53 nanoseconds. No definition runs on fuel, but for decimal printing, which gets
-- more digits than a number has. The end of a pool that has stopped taking deliveries is a measure that
-- every step lowers.
--
-- A handler's panic is a value beside the exchange that it leaves, so that a deferred function reads
-- both; the deferred calls of a `run` are applied to what is returned, the latest first.
--
-- Not modelled: the SDK clients, the JWT and token bucket libraries, the multipart and JSON parsers,
-- the image libraries, Prometheus, the OpenTelemetry SDK, slog's handlers and the HTTP client, which
-- are parameters; what the parts log, but for the request log; CORS and chi's own middleware; how the
-- runtime delivers a signal; a panic inside the API's own handlers, though the middleware is modelled
-- around any handler; the web front-end. The quoting of %q in messages is plain quotation marks, which
-- is what Go prints for printable text without quotes or backslashes.
pub mod Prelude
pub mod Errors
pub mod Domain
pub mod Ports
pub mod Usecase
pub mod Memrepo
pub mod Localstorage
pub mod S3storage
pub mod Local
pub mod Imageproc
pub mod Sqsqueue
pub mod Memqueue
pub mod Worker
pub mod Dynamorepo
pub mod Httpapi
pub mod Config
pub mod Telemetry
pub mod Metrics
pub mod Forward
pub mod Programs
pub mod Examples
