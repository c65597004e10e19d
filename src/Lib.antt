-- ===== src/Lib.antt =====
-- Distributed Fraud Detection Engine: the two Go planes of the repository, the stream processor that
-- turns events into features and the serving plane that turns features into decisions.
--
-- How the program works. stream_processor/ingestion reads events from Kafka, hands each one to a
-- handler and commits it behind that. The handler is Window.ApplyAndMaterialize of
-- stream_processor/aggregations: it keeps a sliding window per entity, computes count, sum and
-- maximum, and writes them to a sink, in production Redis. serving_plane/gateway answers
-- POST /v1/score: it reads the entity's features from serving_plane/feature_store, submits a request
-- to serving_plane/scheduler, which makes batches of them, and serving_plane/worker scores a batch
-- on one of a pool of workers. Whatever fails on the way ends in a denial.
--
-- Files and code. Names are the code's in snake_case (`prepareLocked` is `prepare_locked`), fields
-- too. Each directory has an Examples.antt with runs and the theorems at an input, Worker also
-- ScorerExamples.antt.
--   Prelude            tests on numbers, lists, association lists, signed integers, results.
--   Float, Float/Whole float64 as an interface with the laws the code relies on, and an instance of
--                      whole amounts to run the code on.
--   Text, Text/*       strings as lists of bytes: UTF-8, control characters, white space, digits.
--   Window, Window/*   stream_processor/aggregations/window.go. State and Prepare hold the data and
--                      `prepareLocked`; Window the other methods; Search, Sort and Oldest are
--                      sort.Search, sort.SliceStable and `oldestEntityLocked`. The rest are proofs:
--                      Invariant, Steps and Base the well-formedness of a window, Served, Totals and
--                      Reads its features, Redelivery offsets and duplicates, Sink the materializer.
--   Ingestion/*        stream_processor/ingestion/ingestion.go: Memory is MemoryConsumer, Kafka the
--                      consumer's loops, Backoff and Metadata its helpers, Config, Dialer and Secure
--                      NewKafka with TLS and SASL; Commits and Attempts are proofs.
--   Features/*         stream_processor/aggregations/materialize.go (Materialize) and
--                      serving_plane/feature_store/store.go (Store), with the vector's text (Vector),
--                      the Redis clients of both (Redis) and their probes (Probe); Accepted and
--                      RoundTrip join the window, the sink and the store.
--   Scheduler/*        serving_plane/scheduler/scheduler.go: State the queue, Collect the loop that
--                      makes batches, Dispatch one batch, Metrics the counters, Race the interleaving
--                      of one submitter with the loop; Once, Progress, Replies, Calls and Delivery are
--                      proofs.
--   Worker/*           serving_plane/worker/worker.go: Types and Validate its data and limits, Scorer
--                      CPUScorer, Pool the round robin; Labels, Sound, Scored, Ranked, Failover and
--                      Seats are proofs.
--                      serving_plane/worker/grpc.go: Messages the results as messages, Rpc the
--                      service's Score, Client GRPCClient, Credentials the transport; Hop is a client
--                      over the service.
--   Gateway/*          serving_plane/gateway/gateway.go: Request the checks, Identity the request's ID,
--                      Handler the scoring handler, Operations /healthz, /readyz and /metrics;
--                      FailClosed, Denial and Counters are proofs.
--   Tls, Process       what both planes use of crypto/tls, of the environment and of strconv.
--   Stream/*           stream_processor/cmd/stream-processor/main.go: Settings its configuration, Start
--                      what it sets up, Handler the function given to `Consume` and the operational
--                      endpoints. Secured and Production are proofs on the start, Delivered, Served
--                      and Decided on events from the consumer to the window, the sink, the feature
--                      store and the gateway.
--   Serving/*          serving_plane/cmd/gateway/main.go (Gateway, Start) and
--                      serving_plane/cmd/worker/main.go (Worker), their endpoints and ends
--                      (Operations) and health checks (Probe); Parts, Guarded, Mutual and Measures are proofs.
--   LoadTester/*       load_tester/main.go: Settings, Mix, Schedule, Payload, Perform and Summary; Turns is a
--                      proof on Mix.
--
-- How state is modelled. A method returns the new state beside its result; a mutex or an atomic
-- makes it one step. What a file calls elsewhere (Kafka, Redis, the decoder of JSON, strconv's
-- floats, contexts, clocks, other planes) is an argument over a world that the calls pass on, and
-- where an order of calls matters they are noted in a log. Scheduler/Race has a step relation, since
-- there two goroutines share an item.
--
-- Bounds and fuel. `consume` takes a number of rounds, since the code's loop ends by an error alone,
-- and its theorem holds for every number. `run` of Scheduler/Collect is proved for as many rounds as
-- there are arrivals, `consume_memory` for one round more than there are events. The retry loops run
-- over the attempts that are left, as the code's do. uint64 counters wrap around at 2^64; a
-- uint64 is printed in at most 16 rounds in hexadecimal and 20 in decimal. Times and
-- durations are natural numbers of nanoseconds; where one may be negative the model says what stands
-- for it.
--
-- Not modelled: what the servers do once ListenAndServe, ListenAndServeTLS or Serve is called, and
-- their shutdown, which belong to net/http and grpc-go; the JSON
-- encoder's text; the load tester's goroutines, percentiles and files; the Close methods of ingestion,
-- which hand over to kafka-go. Generated protocol code and tests are left out. The Rust gateway, the C++ and
-- CUDA engines, training in Python, infrastructure and scripts are other programs. A float64 is
-- abstract, its arithmetic an interface of operations and laws: no theorem speaks of rounding but
-- through these.
pub mod Prelude
pub mod Float
pub mod Text
pub mod Tls
pub mod Process
pub mod Ingestion
pub mod Scheduler
pub mod Features
pub mod Gateway
pub mod Window
pub mod Worker
pub mod Stream
pub mod Serving
pub mod LoadTester
