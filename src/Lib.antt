-- ===== src/Lib.antt =====
-- A model of the controllers and webhooks of the catalog's legacy traits and workloads, with the
-- theorems that make them correct.
--
-- The program is a set of Kubernetes controllers, one for each trait or workload type. A
-- controller's `Reconcile` is called with the name of an object; it reads the object and what
-- belongs to it from the API server, makes, patches or deletes other objects, writes the status,
-- and returns when it wants to be called again. Webhooks fill in defaults and validate an object
-- before the server stores it. The controllers share no state but the server's.
--
-- Base: the names that all modules share.
--   Base/Tests, Base/Lists, Base/Text: Boolean tests, lists and strings over native numbers.
--   Base/Int: integers, and Go's int32 with its wrap-around.
--   Base/Dict: Go's map[string]V as an association list. Base/Path: Go's filepath.
--   Base/Exec: functions that call the server, may return early and may panic. The state is the
--     list of the calls made so far; the answer of the server to a call is a function of them, so
--     that a server that changes between two calls is covered, and so is any error that it may
--     answer at any time. Base/Exec/Keeps has the rules for invariants of the calls made, and
--     Base/Exec/Ends and Base/Exec/Stops those for the way a function ends.
-- K8s: the values of Kubernetes that all controllers use. The client libraries, and the packages of
--   kubevela that the code imports, are not in the repository: what the code calls of them is a
--   field of `Kube`, and of the `Api` record of each controller. K8s/Admission has the handlers of
--   the webhooks, K8s/Sample sample libraries for the examples.
-- Rollout: legacy/traits/simplerollouttrait. Rollout/Scale models controllers/helper.go
--   (scaleUpGradually, scaleDownGradually, isScaleUpReady, isScaleDownReady), Rollout/Reconcile the
--   rest of it and simplerollouttrait_controller.go. A round of the scaling is one call; the
--   number of rounds is not bounded. Rollout/World puts the rounds and the cluster together as a
--   step relation over the two deployments, and has the specification that it implements.
-- Route: legacy/traits/routetrait. Route/Backends models controllers/util.go, Route/Ingress the two
--   providers and the choice between them (controllers/ingress), Route/Discover and Route/Reconcile
--   controllers/route_controller.go.
-- Metrics: legacy/traits/metricstrait. Metrics/Controller models controllers/, Metrics/Webhook
--   webhook/.
-- PodSpec: legacy/workloads/podspecworkload. PodSpec/Controller models controllers/,
--   PodSpec/Webhook webhook/.
-- Hpa: legacy/traits/hpatrait. Hpa/Render models renderHPA and renderReference of
--   controllers/horizontalpodautoscalertrait_controller_helper.go, Hpa/Reconcile the rest of
--   controllers/.
-- CronHpa: legacy/traits/cronhpatrait. CronHpa/Render models controllers/cronhpa.go,
--   CronHpa/Reconcile the rest of controllers/.
-- Autoscaler: legacy/traits/autoscalertrait. Autoscaler/Cron models
--   prepareKEDACronScalerTriggerSpec of controllers/keda.go, Autoscaler/Keda the rest of
--   controllers/.
-- Sidecar: legacy/traits/sidecartrait. Sidecar/Combine models combineContainers and combineVolumes
--   of controllers/sidecartrait_controller_helper.go, Sidecar/Locate locateField and its callers,
--   Sidecar/Reconcile controllers/sidecartrait_controller.go.
-- MetricHpa: legacy/traits/metrichpatrait. MetricHpa/Render models the objects that the controller
--   makes, MetricHpa/Reconcile the rest of controllers/.
-- Pdb: legacy/traits/poddisruptionbudgettrait. Pdb/Selector models getLabelSelector of
--   controllers/poddisruptionbudget.go, Pdb/Reconcile the rest of controllers/.
-- AddonTest: test/e2e-test/addon-test/main.go, the driver of the addons' tests. AddonTest/Slice models
--   MergeSlice, AddonTest/Dependency checkAddonDependency, AddonTest/Affected the choice of the
--   addons to be tested, AddonTest/Version checkUpgradeAddonVersion, AddonTest/Enable the
--   enabling of addons and the loop check, AddonTest/Main the main function.
-- Hack: hack/addons. Hack/Sync models syn_addon_package.go, Hack/Terraform terraform/gen.go,
--   Hack/UiSchema gen-addon-ui-schema.go. The driver and the scripts share nothing with the controllers.
-- Each of them has its data and its server in the file of its name, its tests and its theorems at
-- concrete inputs in Examples, and in the folders below what is proved.
--
-- A function of the model has the name of the Go function in snake case. An early return of a
-- Go function is a `return` of the model, a nil pointer that is followed a `fault`. A function that
-- changes an object through its pointer returns the changed object. The only recursion is over
-- lists, so that no fuel is used, but for two functions: the digits of a number (Base/Text), which
-- has one step for each unit of the number and so more than it has digits, and the walk over the
-- dependencies of an addon (AddonTest/Dependency), which calls itself with each dependency and does
-- not end on a cycle; without one, the longest chain of dependencies and one more step is enough.
--
-- Not modelled: events and logs, which nothing reads; the set-up of managers and the main programs
-- of the controllers, which only call libraries; the generated deep copies; the CUE and YAML addons,
-- which are data.
pub mod Base
pub mod K8s
pub mod AddonTest
pub mod Autoscaler
pub mod CronHpa
pub mod Hack
pub mod Hpa
pub mod MetricHpa
pub mod Metrics
pub mod Pdb
pub mod PodSpec
pub mod Rollout
pub mod Route
pub mod Sidecar
