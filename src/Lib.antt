-- ===== src/Lib.antt =====
-- vllm-chill: a proxy in front of vLLM that starts the vLLM pod on demand, switches it between model
-- profiles, stops it when it is idle, and repairs the tool calls in vLLM's answers.
--
-- The parts, and the files that model them:
--
-- * Model profiles (pkg/kubernetes/models.go): Kubernetes/Models. ModelConfig with the source's
--   fields; Validate, ToConfigMapData and FromConfigMapData are functions on it.
-- * The CRD client (pkg/kubernetes/crd_client.go): Kubernetes/Crd has GetModel and ListModels over the
--   unstructured objects that the API server lists, Kubernetes/Watch the start of WatchModel, and
--   Proxy/Watch its goroutine with the autoscaler's callback, over any sequence of what it receives.
-- * The Kubernetes manager (pkg/kubernetes/k8s_manager.go): Kubernetes/Args has buildVLLMArgs and
--   argsToMap, Kubernetes/Pod the pod and the service that are built, Kubernetes/Manager the calls of
--   the cluster and VerifyPodConfig.
-- * The API server: Kubernetes/Api, a record of operations with no laws. The server may answer as it
--   likes and change between two calls, so what is shown holds for every server. A call takes the
--   state of the server and gives the next one.
-- * The response writer (pkg/proxy/response_writer.go): Proxy/Writer has the scan of a write's lines,
--   Proxy/Writer/Dedupe deduplicateToolCallChunks, Proxy/Writer/Write the method Write. The state is
--   the record Writer with the source's fields and the writes that the client has had. What the
--   code takes from encoding/json, crypto/sha256, the tool call parser and the client's connection
--   is the record Env. JSON values are in Proxy/Json. Proxy/Body has bodyReader over any reader.
-- * The autoscaler (pkg/proxy/autoscaler.go): Proxy/Scaler has managePod, waitForReady,
--   ensureScaledUp and SwitchModel, Proxy/Handler the path of a request through proxyHandler,
--   Proxy/Loading sendLoadingMessage, Proxy/Replies the error replies, Proxy/Background the idle
--   checker, the drift check, the restart and NewAutoScaler. The state is the record Scaler: the fields of AutoScaler that change,
--   the state of the server, and the calls of the metrics recorder in their order. The handler uses
--   the scaler, the scaler the manager and the CRD client.
-- * The mutex, the flag and the condition of ensureScaledUp: Proxy/Concurrent has the function as steps
--   of any number of goroutines, in any order, with Proxy/Concurrent/SingleFlight what they
--   implement. Proxy/Scaler has one whole call, and leaves to a parameter what the others do while
--   it waits.
-- * The tool call parser (pkg/parser/xmltool_parser.go): Parser/Parameters has parseParameters,
--   Parser/Legacy parseLegacyFormat, Parser/Standard parseStandardXMLFormat with what it calls,
--   Parser/Extract extractTagContent, Parser/Arguments parseArguments and its helpers, Parser/Ids
--   generateToolCallID, Parser/Entry the entry. Parser/Text has the functions of package strings,
--   Parser/Call the record Packages of what is called of regexp, html, json and fmt. Parser/Run is
--   what a run comes to; a slice out of range panics. Parser/Reference and Parser/Legacy/Reading
--   read the legacy format by cutting the text, with no indices. Proxy/ToolCalls is the writer with
--   the parser behind it.
-- * The configuration (pkg/proxy/config.go, pkg/kubernetes/config.go): Proxy/Config and
--   Kubernetes/Config. time.ParseDuration is a parameter.
-- * The deployment scaler (pkg/scaling/autoscaler.go): Scaling, with its own interface of the cluster.
-- * The server (pkg/proxy/autoscaler.go): Proxy/Server has the target, the version, the routes, their
--   log and the page of the metrics.
-- * The metrics recorder (pkg/stats/metrics.go): Metrics, the account of the current model,
--   Metrics/Recorded, what each operation records, Metrics/Declared, the declarations of the metrics,
--   and Metrics/Idle, the goroutine that shows the idle time, as steps. Metrics/Series has the vectors
--   of Prometheus.
-- * The statistics of the graphics cards (pkg/stats/gpu_stats.go, gin_gpu_stats.go, gpu_utils.go):
--   Gpu/Device has queryDeviceStats, Gpu/Handler the handler with its cache, Gpu/Utils the functions
--   that count the cards. NVML is the record Nvml, a call of which takes the state of the driver and
--   gives the next one; float64 is the record Floats. What the proofs use of either is named.
--   Gpu/Mock has the mock of NVML (gpu_dummy.go) with its handler (gpu_stats_dummy.go), and Gpu/Stub
--   the handlers of a build without cgo (gpu_stats_stub.go).
-- * The parser of vLLM's logs (pkg/stats/vllm_log_parser.go): Logs, with its patterns written out.
-- * The command line (cmd/autoscaler/cmd): Command has the defaults of the flags from the environment,
--   and serve, which checks the permissions and makes the autoscaler.
-- * The permission check (pkg/rbac/verify.go): Rbac.
-- * The operation handlers (pkg/operation): Operation, over the record Manager of the operations that
--   they ask for; scaler_manager is the autoscaler as such a manager.
-- * The model handlers (pkg/models/handler.go): Proxy/Models, over the scaler.
-- * Prelude has what they share: byte strings as lists of numbers with Go's functions on them, maps as
--   association lists, Go's int, and Result, which is a value, an error or a panic. Examples applies
--   the theorems at concrete values.
--
-- Time is a number that the server's state determines; where time.Since could be negative the model
-- has 0. A wait of waitForReady takes a number of ticks, how often its ticker fires before the context
-- is done; the statements hold for every number. The loops over lists are structural. What other
-- goroutines do while one waits for the condition variable is a function that is a parameter;
-- otherwise a call runs from its start to its end, but for two requests in Proxy/Handler/Overtaken. The
-- two endless loops of the parser have one more unit of fuel than the text has bytes, which is enough,
-- since each round passes an opening tag.
--
-- Not modelled: the headers of the replies of the proxy, gin's router, the parsing of the flags, what
-- is logged, the dummy backend for tests, and generated code. The machine integers of the source only
-- count bytes, replicas and settings, and are integers without a bound, except where their size
-- decides: in the parser of the logs, in the settings from the environment, and in the sizes of the
-- memory of a card.
mod Prelude
pub mod Kubernetes
pub mod Proxy
pub mod Scaling
pub mod Metrics
pub mod Rbac
pub mod Operation
pub mod Parser
pub mod Gpu
pub mod Logs
pub mod Command
mod Examples
