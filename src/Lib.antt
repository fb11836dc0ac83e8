-- ===== src/Lib.antt =====
-- The core of the kubezap operator, a Kubernetes operator (Go) that runs Flows, graphs of steps, as
-- FlowRuns that Triggers create.
--
-- The parts and how they interact. A gateway, a cron schedule or a user creates a FlowRun, which
-- names a Flow. FlowRunReconciler (internal/controller/flowrun_controller.go) is called with each
-- FlowRun again and again: a call advances it by one wave of steps, writes its status and says when
-- to be called next; a finished FlowRun is garbage collected.
--
-- Which file models what:
--   Base          shared names, and Base/Lists, Base/Int, Base/Assoc, Base/Text: what the source
--                 uses of Go's slices, signed integers, maps and strings.
--   Api           the data of api/v1alpha1: Api/Flow, Api/FlowRun, Api/Trigger, Api/WebhookTrigger,
--                 Api/Integration.
--   Run           FlowRunReconciler.Reconcile: Run/Plan the writes and the result of a reconcile,
--                 Run/Runtime what it takes from outside, Run/Steps the statuses of steps and their
--                 dependencies (dependenciesMet, allDepsSkipped, upsertStepStatus), Run/Wave with
--                 Inline, Batch and Ready the choice and the execution of a wave, Run/Wait the wait
--                 steps (executeWaitStep), Run/Finish the ends of a FlowRun (finishFlowRun), Run/Gc
--                 the garbage collection (reconcileGC), Run/Reconcile the whole call.
--   Template      placeholders: Template/Token (resolveInterpolationToken), Template/Interpolate
--                 (interpolateTemplate), Template/Body (parseTriggerBody, resolveBodyPath),
--                 Template/Params (resolveFlowParams), Template/Library what they use of Go's
--                 standard library.
--   When          evaluateWhen and its cache of CEL programs.
--   Step          executeStep; Step/Http executeHTTPStep, Step/Retry retryDelay.
--   Flows         validateFlowSpec (internal/controller/flow_controller.go).
--   Cron          one fire of a cron Trigger (internal/controller/cron_scheduler.go).
--   Ssrf          checkSSRF (internal/controller/ssrf.go) with Ssrf/Address, what it uses of Go's
--                 package net; Ssrf/Executor resolveAndValidate and dialContext of
--                 internal/executor/http.
--   Gateway       the gateways: Gateway/Cooldown cooldownTracker of the webhook gateway
--                 (internal/gateway/webhook/handler.go); Gateway/SecretIndex the Index of
--                 internal/gateway/secretindex; Gateway/Watcher the watchers of the gateways of
--                 brokers (internal/gateway/{kafka,amqp,nats}/watcher.go), with Resolve their
--                 credentials and Brokers what each of them does in its own way; Gateway/Messages the
--                 FlowRun of a message (internal/gateway/{kafka,amqp,nats}/handler.go).
--   Webhook       the webhook gateway (internal/gateway/webhook): Webhook/Route the RouteRegistry,
--                 Webhook/ClientIp realClientIP, Webhook/Auth and Webhook/Authenticate the checks of
--                 authenticateRequest and authFailureReason, Webhook/Serve ServeHTTP;
--                 Webhook/Watcher the TriggerWatcher, with Build its buildRouteEntry and Handle the
--                 handlers of its informers;
--                 Webhook/Redact the headers and bodies of internal/gateway/redact.
--   Resource      the watcher of `type: resource` Triggers (internal/controller/resource_watcher.go):
--                 Resource/Watchers its registrations and cooldowns, Resource/Events the handlers of
--                 its informers, Resource/Names parseAPIVersion and sanitizeName.
--   Operator      the reconciler put together from Run, Template, When and Step; Operator/Rest the
--                 reconciles of a FlowRun one after the other, with what the API server has between.
--
-- A reconcile is a function from the FlowRun that was read to a plan: the writes that it sends, in
-- order, and its result. What the API server answers to each write is a parameter, so that a theorem
-- on the writes that land holds for each place at which a reconcile is cut short. The goroutines of a
-- wave each write their own result, so that the order in which they end plays no part; a reconcile
-- that the workqueue repeats is a new call. The clock is read once for a call.
--
-- Numbers: a Duration and an instant are unbounded signed nanoseconds, counts natural numbers; in
-- retryDelay, which multiplies durations, the wrap-around of int64 is written out. A formatted
-- message is kept as its format with the arguments, a data type. Every loop of the source is
-- structural recursion over its slice, or, for the retries, over the attempts that are left; the loop
-- of interpolateTemplate has fuel, the length of the template, which is enough as each round takes
-- three characters at least.
--
-- Not modelled: metrics, logs and tracing spans, which no result depends on; the resourceVersion, of
-- which a conflict shows as a refused write; the third-party libraries (apimachinery's
-- SetStatusCondition, cel-go, sarama, jwx) and time.ParseDuration, encoding/json, net, net/url, mime
-- and crypto, which are parameters; the calls of the reconciler that are modelled on their own or not
-- yet (callExecutor, executePublishStep, applyHTTPIntegration, checkSSRF, fetchSecretValue), which are
-- parameters of Step; and the parts of the repository that only move data between libraries: the
-- connections of the gateways with their SCRAM clients, the conditions of Triggers and Integrations,
-- the command line, the deployments of gateways and executors.
pub mod Base
pub mod Api
pub mod Run
pub mod Step
pub mod Webhook
pub mod Flows
pub mod Cron
pub mod Gateway
pub mod Operator
pub mod Resource
pub mod Ssrf
pub mod Template
pub mod When
