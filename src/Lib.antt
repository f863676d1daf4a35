-- ===== src/Lib.antt =====
-- A verification of podpool-controller, the Kubernetes controller that spreads the replicas of a
-- PodPool over groups of workloads.
--
-- The parts of the program and how they interact. The custom resource (api/v1alpha1) declares how many
-- replicas a pool wants and how each group is bounded. On a write the admission webhook
-- (internal/webhook/v1alpha1) fills in defaults, validates the spec, renders every child on trial and
-- asks the cluster whether the user could create such workloads. On every pass the reconciler
-- (internal/controller) reads the children, turns what it sees of opportunistic groups into capacities,
-- has internal/workload distribute the replicas, lets the probes raise a group by one, renders and
-- applies a child for each group, and writes counts, shares, conditions and the time of the next pass.
--
-- Which file models what:
--   Prelude      shared names, tests on numbers, lists, texts, the 32-bit additions
--   Json         decoded documents, and the three outcomes of decoding (`Raw`)
--   Api          api/v1alpha1/podpool_types.go, a record for each struct
--   Workload     internal/workload. Percent, Scaling and Distribution are algorithm.go: `raise` and the
--                four `..._round` functions are the bodies of the phases of ComputeGroupTargets, which
--                `compute_group_targets` puts together. Merge and Render are render.go: MergeMaps,
--                stripPastedMetadata, ExtractGVK, ReadInt32Checked, and below them
--                BuildChildWorkload (Child) and ChildDetail (Detail). The merge is that of the code, in
--                which a list replaces a list, not the strategic merge patch of REQUIREMENTS.md
--   Workload/Object
--                what render.go calls of k8s.io/apimachinery, as a record of operations; Laws is what
--                the code relies on, Plain an instance that satisfies it and that can be run
--   Controller   internal/controller. Errors is errors.go and classifyGroupError. Timing and Probe are the
--                heartbeat, the probe records and capacityFrom of opportunistic.go, Observe is its
--                observeOpportunistic with childCounts and countUnschedulable, and Probing applyProbes of
--                podpool_controller.go. Progress is stampGroupProgress and the totals of
--                podpool_controller.go and conditions.go, and the deadline of opportunistic.go.
--                Conditions is setConditions of conditions.go, with its summary and messages. Events and
--                Reasons are the edge triggers of events, assignGroupReasons and diagnoseStatusMissing.
--                Watch is ensureWatch of watch.go, with setUpWatch and handleWatchFailure. Group is
--                reconcileGroup and below it reconcileWorkload, applyChild and observeChild. Sweep is
--                sweepAllOrphans. Metrics is metrics.go, and Cache cache_transform.go. Loop is the loop
--                of Reconcile over the groups, and Reconcile the pass itself: Body has its exits, Run
--                puts them together
--   Webhook      internal/webhook/v1alpha1/podpool_webhook.go: Default (Defaulting), validateScaling and
--                the rules that span groups (Groups), the template and the owned paths (Template),
--                validatePodPoolSpec (Spec), Warnings, validateRenderedChildren (Rendered),
--                downgradePreExisting (Downgrade), checkWorkloadAuthorization (Authorization), and the
--                handlers of a creation, an update and a deletion (Admission)
-- The proofs stand in child modules named for what they prove, runs at concrete inputs in the modules
-- called Tests.
--
-- State and errors. What the process remembers between passes is the record `Memory`: the probe
-- records, the kinds watched and waited for, the kinds whose failure was told, the kinds that have proved
-- to publish a ready count, the children reported out of range, and the gauges. A pass takes the memory
-- and gives it back in a `Pass`, with the log of what it asked for in order (applies, deletions, events),
-- the status it patched, the wait and the errors. The distribution threads the remaining replicas through
-- its loops; a probe record is passed in and out of each call. A pointer is an `Option`, an error that is
-- only tested for is `none`, one that is classified is a chain of wrapped errors (`Error`), an error of
-- validation is a record with kind, path, value and detail.
--
-- Bounds and fuel. Every loop of the model is a structural recursion, so there is no fuel. Counts are
-- natural numbers, since the schema bounds the fields they come from below by 0 or 1; additions and
-- conversions to int32 keep their wrap-around (`% 2 ^ 32`), and the theorems on the distribution ask
-- for a total that an int32 holds. A number that a child publishes may be of any sign and size. Times
-- are nanoseconds since the zero time.
--
-- What is a parameter: how a floating-point comparison turns out at an exact tie (`Rounding`,
-- `rounds_down`), the random jitter, the accessors of k8s.io/apimachinery, its reading of an apiVersion
-- and its lookup and update in a list of conditions, the strict decoding into registered types, the
-- semantic equality of specs and of statuses, the cluster's answers to reviews and to discovery, and how
-- values are spelled in messages (`Texts`). For a pass, `Libraries` holds the functions and `Answers` what
-- the outside says: the pool as it was read, the informer and the outcome of Watch, the cached and the
-- uncached reads, the outcome of each apply, of the sweep's lists, reads and deletions and of the status
-- patch, and the readings of the clock. The recorder of events is set, as cmd/main.go sets it.
--
-- What is not modelled. A pass is one step on the memory, so passes that run at once are not interleaved:
-- Reconcile/Life takes the passes of all pools one after the other, with what the cache does in between,
-- and Watch/Reach the calls of ensureWatch one by one, in any order; the mutexes, each of which guards
-- the body of one call, are left out with that. The wiring of the manager and of the watches
-- (cmd/main.go, SetupWithManager, poolPredicate), logging and generated code are left out. The order in
-- which Go yields the keys of a map is that of the list that stands for it.
pub mod Prelude
pub mod Json
pub mod Api
pub mod Workload
pub mod Webhook
pub mod Controller
