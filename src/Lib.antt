-- ===== src/Lib.antt =====
-- The cluster stack operator (SovereignCloudStack/cluster-stack-operator), a Kubernetes operator in Go
-- that downloads releases of cluster stacks and applies them.
--
-- The parts, and how they interact:
--   * pkg/version, pkg/kubernetesversion and pkg/clusterstack read, print and compare versions and the
--     names of cluster stacks. A name has two notations: with dashes for releases, and with a dot in
--     front of the patch for cluster classes. Version.antt, KubernetesVersion.antt and ClusterStack.antt
--     have one function for each function of the source, with its name in lower case; the parsers of
--     regular expressions are written out as matchers (`match_string`).
--   * pkg/release opens a release on disk and finds its charts: Release/Open.antt, over a file system that
--     is a parameter. Release.antt converts the name of a cluster class to that of its release.
--   * api/v1alpha1 declares the objects. Api.antt has the fields that the code reads or writes, and
--     Api/Conditions.antt the functions of cluster-api on conditions, as a record with their laws.
--   * internal/controller/clusterstack_controller.go chooses which ClusterStackRelease objects a
--     ClusterStack has: those of the spec, the latest release, the latest ready one, and those in use.
--     ClusterStackController/Select.antt has the functions that read the objects,
--     ClusterStackController/Diff.antt has `makeDiff`, ClusterStackController/Provider.antt makes the
--     provider's object of a release, ClusterStackController/Loops.antt the loops over the lists of
--     `makeDiff`, and ClusterStackController/Reconcile.antt is the reconcile loop.
--     ClusterStackController/Watch.antt has the requests of its watch, and
--     ClusterStackController/Names.antt views the API server as what it has under the name of each release:
--     nothing, an object, or one that waits for its finalizer.
--   * internal/controller/clusterstackrelease_controller.go takes a release from its download to the
--     objects that are applied: ClusterStackRelease.antt; internal/clusterstackrelease/util.go is
--     ClusterStackRelease/Summary.antt.
--     `reconcile_body` is Reconcile without the deferred function, which is `finish`, and
--     ClusterStackRelease/Provider.antt has the update of the provider's object.
--   * pkg/kube applies and deletes the objects of templates. Kube/Template.antt has helpers.go, and
--     Kube/Client.antt the four operations of kube.go over an API server that is a parameter.
--   * internal/controller/clusteraddon_controller.go takes the stages of an addon through their phases.
--     ClusterAddon.antt has the addon and its stages, ClusterAddon/Execute.antt `executeStage`, with
--     `goto check` as a loop of at most three rounds, and ClusterAddon/Resources.antt the lists of
--     resources; a pointer is an address, since the code compares pointers. The reconcile loop is
--     ClusterAddon/Reconcile.antt, which goes on with ClusterAddon/Simple.antt for an addon of one chart
--     and with ClusterAddon/Staged.antt for one with stages, whose objects ClusterAddon/CleanUp.antt lists
--     and cleans up; ClusterAddon/Setup.antt has the calls that
--     prepare both, ClusterAddon/Untar.antt unpacks a chart, and ClusterAddon/Cel.antt evaluates the
--     conditions of stages. ClusterAddon/Create.antt is internal/controller/clusteraddoncreate_controller.go,
--     which creates the addon of each cluster.
--   * pkg/assetsclient lists and downloads releases from GitHub or an OCI registry: Assets.antt.
--   * extension/hooks.go answers the runtime hooks of cluster-api and sets the hook of an addon, which the
--     ClusterAddon controller then runs: Extension.antt.
--   * api/v1alpha1/*_webhook.go admit or refuse objects. Webhooks.antt and its children Stacks,
--     Releases, Clusters and Addons.
--
-- Conventions: a text is the list of its bytes (Strings.antt), so `<` on texts is Go's. `int` is ℤ, and
-- strconv.Atoi has the range check of 64 bits (Strconv.antt). An error is a value of a data type, and
-- `(value, error)` is `Result` (Base/Results.antt). A Go map is the list of its keys, in the order of a
-- range over it. Only the rounds of `executeStage` have fuel, and three are enough; every other loop runs
-- over a list.
--
-- Parameters: the functions on conditions, sort.Sort (Sort.antt: `Sorter`, with what its documentation
-- promises; Sort/Insertion.antt has a sorter that keeps it), schema.ParseGroupVersion, the API server
-- with its clients, the file system, Helm, the registry of releases, CEL, and the YAML decoder.
--
-- Not modelled: the messages of conditions and events, logging, the manager of cmd/main.go with the
-- set-up of the controllers, the creation of the registry clients, and the templates of values.
pub mod Base
pub mod Strings
pub mod Strconv
pub mod Version
pub mod KubernetesVersion
pub mod Sort
pub mod ClusterStack
pub mod Api
pub mod Release
pub mod Kube
pub mod ClusterStackRelease
pub mod ClusterAddon
pub mod Webhooks
pub mod Extension
pub mod Assets
pub mod ClusterStackController
pub mod Tests
