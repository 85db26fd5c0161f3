-- ===== src/Lib.antt =====
-- kubewhy explains why a Kubernetes object does not work. A collector reads the objects around it into
-- a snapshot, rules turn the snapshot into findings, and a report puts the findings in order and
-- derives a verdict. The rules read nothing but the snapshot, so this development models them, the
-- engine that runs them and the report as functions, and its theorems quantify over all snapshots.
--
-- The files, and the paths of the repository that they model:
--
--   Base             what the program takes from Go: tests, lists, the stable sort, int32 and int64,
--                    times, text. Sort/Laws has the laws of the sort.
--   Diagnosis        internal/diagnosis/model.go: Severity, Confidence, Diagnosis, Evidence.
--     Engine         engine.go: Evaluate (run_rules, evaluate) and Prioritize (before_in, weight,
--                    prioritize). Engine/Order is about the order, Engine/Rules about the rules run,
--                    Engine/Runs about tests of what they find.
--     Aggregate      aggregate.go: AggregateByRule (collect, collect_all, aggregate_by_rule).
--                    Aggregate/Problems and Aggregate/Widespread are about what is listed and counted.
--     Report         report.go: Report, AddSection, DeriveStatus. Report/Verdict is about the verdict.
--   Format           internal/format/format.go: Duration and Count.
--   Snapshot         internal/snapshot/snapshot.go: Existence, Event.
--     Api            the fields that are read of the types of k8s.io/api.
--     Events         Sort, WithReason, Warnings, Latest, Dedup, Event.Container. Events/Recency is
--                    about their order, Events/Repeats about Dedup.
--     Collection     Collection.Degrade and Collection.Inspect. Collection/Steps is about the steps
--                    that are recorded, Collection/Calls about sequences of calls.
--     Pod            internal/snapshot/pod.go: Pod, Container, PVCRef and their methods.
--     StatefulSet    internal/snapshot/statefulset.go: StatefulSet and its methods.
--                    StatefulSet/Ordinals is about the Pods that are missing or not ready,
--                    StatefulSet/Names about the names of Pods and claims.
--     Deployment     internal/snapshot/deployment.go: Deployment, its conditions and ReplicaSets.
--     Service        internal/snapshot/service.go: Service, EndpointSet. Service/Endpoints is about
--                    the counts.
--     Ingress        internal/snapshot/ingress.go: Ingress, IngressPath, IngressService.
--     Pvc            internal/snapshot/pvc.go: PVC, StorageClassInfo.
--   Rules/Pod        internal/diagnosis/rules/pod: pod.go, with a child for each rule: Oom (oom.go),
--                    CrashLoop (crashloop.go), Stopped (terminated.go), ImagePull (imagepull.go),
--                    Scheduling with Scheduling/Message (scheduling.go), Probes (probes.go),
--                    ConfigRefs (config.go), Mounts (mount.go), Claims (claim.go), NodeHealth
--                    (node.go), History (restarts.go), Unexplained (fallback.go); Ids and Helpers
--                    (pod.go, helpers.go). Laws is about the rules together.
--   Rules/Texts      the helpers on names and selectors that the following packages declare each.
--   Rules/Pvc        internal/diagnosis/rules/pvc/pvc.go: Classes (storageClassRule), Provisioning,
--                    Consumers (waitForConsumerRule) and Losses (lostRule). Laws is about the rules
--                    together, here and in the following.
--   Rules/Service    internal/diagnosis/rules/service: service.go, and of rules.go Selecting
--                    (selectorRule), Serving (endpointsRule) and Ports (targetPortRule).
--   Rules/Deployment internal/diagnosis/rules/deployment/deployment.go; Conditions has conditionRule.
--   Rules/StatefulSet
--                    internal/diagnosis/rules/statefulset/statefulset.go: availability and
--                    PodFindings; Ordering, Volumes (claimRule), Identity (serviceRule), Updates.
--   Rules/Ingress    internal/diagnosis/rules/ingress/ingress.go: Routing (backendRule) and Classes
--                    (classRule, addressRule).
--   Analyze          internal/analyze/analyze.go: headline.
--     PodReport      internal/analyze/pod.go: PodReport and its sections. PodVerdict and PodSilence
--                    are about its verdict.
--     Workload       what ServiceReport, DeploymentReport, StatefulSetReport and IngressReport share:
--                    the link from symptoms to their cause, the order, the verdict and the headline.
--                    Workload/Verdict is about the verdict.
--     Backends       the state of a Pod in one phrase and the sections that list Pods.
--     PvcReport, ServiceReport, DeploymentReport, StatefulSetReport, IngressReport
--                    the files of those kinds, each with its sections. ReportVerdicts is about their
--                    verdicts.
--     Unread         is about the report on a Service of which something could not be read.
--   Collect          internal/collect: collect.go (degrade, existence), with a child for the reads of
--                    each kind: EventReads (events.go), EndpointReads (endpoints.go), ClassReads
--                    (storageclass.go), BackendReads and ServiceReads (service.go), PvcReads
--                    (pvc.go). Laws is about what they record of reads that fail,
--                    BackendReads/Bounds about how much is read.
--   Kube             internal/kube: resolver.go (ResolveKind) and errors.go (Classify).
--   Cli              internal/cli: root.go (RunE, options.run, execute, reportError) and exit.go.
--                    Cli/ExitCodes is about the exit code of a
--                    report and of an error, Cli/Runs about whole runs.
--   Tests            runs at concrete findings, events, Pods and reads.
--
-- How state corresponds. The program's rules keep no state: a Go slice that a loop appends to is
-- the list that a function returns, a map that a loop fills is the search through what was put in,
-- and a map that a loop ranges over is a list of its entries in the order of the visit, which Go
-- leaves open. A nil pointer is none. The context of Evaluate is the list of what ctx.Err() answers
-- before each rule; a report on several Pods takes one such list for each of them. A method that
-- writes a field of a report returns the report with that field.
--
-- Numbers. int32 is an integer whose sum is wrapped to 32 bits; a time is a number of nanoseconds,
-- 0 the zero time; a difference of times saturates at the ends of int64, as Time.Sub does. Digits
-- are printed by recursion on fuel: a round drops one digit, and the n + 1 rounds given for a
-- number n are more than it has digits. The hours of a duration are whole numbers where the source
-- truncates a float64. Upper and lower case are those of ASCII. The stable sort is insertion from
-- the right, which every stable sort agrees with where the comparison is a weak order; for
-- severities that the program does not declare it is not one.
--
-- Parameters. QuantityOps holds the operations of resource.Quantity that the scheduling rule calls,
-- ApiErrors the tests of errors of the API server, Cluster what the client answers to the reads of
-- the collectors, and Outside what a run of the command calls: the help, the client, the analysis
-- and the output. What a theorem needs them to answer is a condition of it. A collector hands its
-- collection on from read to read; the goroutines that read the events of Pods take their lock in
-- the order of the Pods here.
--
-- Not modelled: the client and the rendering of a report, which are input and output; the
-- collectors of Pods, Deployments, StatefulSets and Ingresses, over whose snapshots the theorems
-- quantify; the declaration of the command's flags; the metadata of rules and the texts of errors.
pub mod Analyze
pub mod Base
pub mod Cli
pub mod Collect
pub mod Diagnosis
pub mod Format
pub mod Kube
pub mod Rules
pub mod Snapshot
pub mod Tests
