-- ===== src/Lib.antt =====
-- A model of the Python package src/cloudnative_threatguard, which watches a Kubernetes cluster and
-- the cloud identities that reach into it.
--
-- The parts and how they interact. Adapters turn findings about cloud identities and detections in
-- the cluster into one schema of events (correlation/cross_domain/models/event.py). The correlation
-- engine takes them in without duplicates, groups them into clusters over the identity bindings of
-- a registry, and builds an attack chain for each cluster; the evaluator scores a cluster, and the
-- incident manager makes an incident of it. Apart from that, correlation/kubernetes.py groups the
-- events of one cluster by pod, reporting/risk.py scores a workload, reporting/workload_resolver.py
-- finds what a remediation must restart, the detection engine turns the sensor's events into detections
-- by the registered rules, cloudgraphguard/ analyses the policies of a principal, two
-- graphs answer which attack paths there are, and admission/live_check.py and runtime/scenarios.py
-- decide whether the policies and the detections work.
--
-- The files, with the code that each one models, below src/cloudnative_threatguard:
--   Prelude: the shared helpers: tests on numbers, lists, texts, dicts in insertion order, stable
--     sorting by a text key, parsed JSON, integers, scores, results of calls that may raise.
--   Graph: the depth-first search that correlation/cross_domain/graph/unified_graph.py and
--     cloudgraphguard/graph/iam_graph.py share; Graph/Unified and Graph/Iam are the two graphs, with
--     add_node, add_edge, find_attack_paths and find_paths.
--   CrossDomain: correlation/cross_domain. Event and Mapping are models/event.py and
--     models/mapping.py; Engine, Engine/Chain and Engine/Correlate are
--     engine/correlation_engine.py (ingest_event, ingest_events, _build_attack_chain and
--     correlate); Risk is engine/risk_evaluator.py; Incident and Incident/Manager are
--     models/incident.py.
--     CrossDomain/Adapters, with ThreatGuard and CloudGraphGuard below it, is adapters/tg_adapter.py and
--     adapters/cgg_adapter.py.
--   Correlation/Kubernetes: correlation/kubernetes.py (correlate_incidents).
--   CloudGraph: cloudgraphguard/models and cloudgraphguard/analysis/escalation.py.
--   Runtime/Events: runtime/events.py, on events of the declared types; Runtime/Dicts and
--     Runtime/Dicts/Keywords: the same events with whatever a dict held (to_dict, from_dict, and the
--     constructor of ThreatGuardDetection); Runtime/Scenarios: runtime/scenarios.py (evaluate_scenario);
--     Runtime/SensorCheck: runtime/sensor_check.py, from the readings of the counters to the exit code;
--     Runtime/Collector: runtime/collector.py; Runtime/Pipeline and Runtime/Pipeline/Run:
--     runtime/pipeline.py (_evaluate_all and run_pipeline), over the engine, the collector and the scenarios.
--   Detection: detection/rules.py (Rules and Rules/Defaults) and detection/engine.py: Exec is
--     _handle_process_exec, Kprobe is _handle_kprobe, Engine is the rest of the class; Events is the
--     ThreatGuardDetection of runtime/events.py as the engine makes it.
--   Admission/LiveCheck: admission/live_check.py (run_live, summarize, exit_code_for); Admission/Validator:
--     admission/validator.py, eval_policy of admission/opa_client.py and run_offline of admission/live_check.py.
--   Reporting/Factors and Reporting/Risk: reporting/risk.py, the six factors and the assessment;
--     Reporting/Workload: reporting/workload_resolver.py;
--     Reporting/Incidents: reporting/incidents.py; Reporting/Metrics:
--     reporting/cross_domain_metrics.py (compute_snapshot); Reporting/Scorecard: reporting/scorecard.py
--     (generate_scorecard).
--   Examples: the theorems at concrete inputs, and tests.
-- The other modules, below these, hold the proofs.
--
-- State. An object is a record and a method a function that returns the changed record; a dict is an
-- association list in insertion order, a set a list of which only the members count. Exceptions are
-- values of a result type. The shared state of a search (visited, path and paths) is passed along.
--
-- Numbers and fuel. The scores of events, findings, chains and incidents are floats: here they are whole
-- numbers of a small unit (Prelude/Points), of which 2 ^ 100 are a tenth of a point, so that every float from
-- 2 ^ -48 on is one, and rounding to a tenth is modelled; the score of a cluster is in hundredths of the unit.
-- Sums and products are exact: the rounding of float arithmetic itself is not modelled. The score of a workload
-- is in hundredths of a point. The search of a graph recurses on the number of edges that max_depth leaves, so it
-- needs no other fuel. The pipeline's wait for late events has as many rounds of fuel as seconds; each round
-- waits two of them. str(n) recurses on n + 1 rounds, each of which drops a digit.
--
-- Parameters. Dates and their differences, rounding to a tenth with its laws, matches of regular
-- expressions, int() on a text, the lines and words of a table, kubectl, a run of the OPA
-- binary, the text of an enum or another value inside an f-string, json.loads, the clock and random
-- identifiers are arguments. Lower and upper case are those of ASCII letters.
--
-- Not modelled: reading and writing files, processes, HTTP, the command line, printing and
-- rendering, and the validation that pydantic does of a schema, but for the numbers of an event, and the technique
-- of a finding and the risk of an incident;
-- the kubectl calls of the sensor's diagnosis, the check of the network, and the reports.
pub mod Admission
pub mod CloudGraph
pub mod Correlation
pub mod CrossDomain
pub mod Detection
pub mod Examples
pub mod Graph
pub mod Prelude
pub mod Reporting
pub mod Runtime
