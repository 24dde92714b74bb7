-- ===== src/Lib.antt =====
-- The risk gateway that stands between New API and the model providers (ckbkdj/newapi-risk-platform,
-- a Go program). A request to a route is authenticated, limited in rate, size and number, read, audited
-- by rules and models, and, unless the audit blocks it, sent to the provider; the answer is relayed, as
-- a body or as an event stream, and a trace of the request is queued for the database.
--
-- The parts, with the files below internal/platform/ that they model:
--   Ingress        request_limit_source.go and markRequestTooLarge of gateway.go: how large a body may be.
--   Gateway        gateway.go. Types has its records; Text the helpers on header values; Serve is
--                  ServeHTTP, whose stages (Serve/Admit up to the body, Serve/Forward from the audit on) are
--                  functions on a run, which keeps a log of effects, the trace and the state of the other
--                  parts; Stream is proxySSE, a function of the list of stimuli (events, heartbeats, errors,
--                  the end) that its select statements receive.
--                  RouteCache is getRoute and InvalidateRoute, one call after the other. Upstream is
--                  buildUpstreamRequest with the copied headers, and Upstream/Buffered is proxyBuffered.
--                  Usage: the merge of token counts and the observations of upstream_usage.go. Lines:
--                  nextSSEEvent and its calls by the reader of proxySSE.
--   Limits         redis.go: Limits/Semaphore is Acquire, the local fallback and the releases that it
--                  hands out; Redis is a reply that each operation is given.
--   Trace          trace_writer.go: Trace/Writer is the bounded queue, the four workers and their shutdown
--                  as steps on one state, with the rows that InsertTraceBatch of store_traces.go skips as known
--                  and the entries that PushDLQ of redis.go trims off its streams; which worker moves, and
--                  what the database and Redis answer, is part of the step, so that a list of steps is an
--                  interleaving. Timeline: trace_timeline.go.
--   Audit          Types: types.go and audit_diagnostics.go. Failover: audit_failover.go, with
--                  audit_recovery.go. Chunks: audit_long_context.go, from the cut of the text (Split) over
--                  the collection of the answers (Collect) to the rounds of callModel (Rounds). Fusion:
--                  audit_fusion.go. Budget: audit_request_budget.go. Texts: the functions of the strings
--                  package that the audit calls, on ASCII letters. Deny is the audit of a request: Normalize
--                  has the tests and normalizations of a decision (audit_v24_scope_precision.go,
--                  audit_v28_defensive_scope.go, audit_v29_uncertainty_fail_open.go), Rules the loop over rules
--                  (matchCyberDenyRulesContext and matchCyberRuleStructuredPreparedV31), Grounding one answer
--                  with its repair and the state of the reviews (audit_operation_grounding.go and
--                  audit_semantic_review.go), Model the model and its verifiers (callCyberDenyModel and
--                  semanticAdjudicateCyberCandidateV25), and Pipeline is
--                  AuditEngine.Audit. Output is audit_output_decode.go: the JSON of an answer from the tokens
--                  of the decoder, and Output/Policy the policy that the answer holds.
--   Security       security.go: Encrypt and Decrypt, with the cipher as the record Gcm and its laws.
--   Events         kafka.go and the outbox of store_traces.go: the queue, the write worker and the outbox as
--                  steps on one state. A write to Kafka that fails may have taken some of its events.
--   Adaptive       adaptive_rules.go and adaptive_admin.go: the candidate rules that failures of the provider
--                  suggest, from the first sight to the promotion, on the tables of the database.
--
-- How the parts meet: ServeHTTP takes the rest of the program as the record Services, whose fields are
-- the calls of the handler (the lookup of the route, the rate limiter, the semaphores, the audit, the
-- upstream); the failover takes the record Surroundings (the context, the profiles, callModel, the wait)
-- and callModel the record Model (the single call, the workers of the chunks). The audit takes the record
-- Platform (the extraction of the text, the Matcher of the rules, the lookup of a profile, the
-- Surroundings of the failover), callCyberDenyModel the record Models, the decoder the record Reader and
-- buildUpstreamRequest the record Libraries. Each field that has an effect takes and returns a state of any
-- type, so what is shown holds for any behaviour of the other parts.
--
-- Numbers: int64 is ℤ with the wrap-around of each operation written out in Ingress, and modulo 2 ^ 64 in
-- Audit/Budget; an instant is ℤ, and a duration wraps around in Trace/Timeline; counts and lengths are ℕ.
-- A confidence is a number of which only the order is used; the thresholds of the source are multiples of
-- a unit of 0.05 in Audit/Deny and of 0.005 in Adaptive.
-- Fuel: splitAuditTextWithOffsets takes the length of the text, which is enough because each round starts
-- later than the one before it. The reader of JSON takes twice the number of tokens and one more, which
-- Audit/Output/Total shows to be enough. The matches of one rule are counted down from the source's limit of
-- 1024 candidates. The reader of events is called once more often than there are lines. All other loops
-- follow their list or a count.
--
-- Not modelled: the token buckets of the rate limiter (floating-point numbers), the regular expressions of
-- the rules and of the tests of evidence, the split of a text into units, the extraction of the text from a
-- request, the prompts, the tokenizer of JSON, PostgreSQL, Redis and Kafka (whose answers are given), TLS
-- and the administration pages.
-- The tests of an event for an error or a final event, which read JSON, are parameters of Stream. The
-- texts of errors, latencies, output diagnostics and the metadata of a trace are left out.
mod Base
pub mod Ingress
pub mod Gateway
pub mod Audit
pub mod Limits
pub mod Trace
pub mod Events
pub mod Adaptive
pub mod Security
