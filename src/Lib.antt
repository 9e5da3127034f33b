-- ===== src/Lib.antt =====
-- cluster-api-provider-bringyourowntalos: a Cluster API infrastructure provider for machines that
-- already run Talos Linux. The library models the three controllers of pkg/controller.
--
-- The program. A ByotHost (api/v1alpha1/byothost_types.go) is the registry record of one machine.
-- The host controller (pkg/controller/byothost_controller.go) discovers it, probes it and moves it
-- through the phases Probing, Available, Unavailable, Claimed and Releasing. A ByotMachine
-- (api/v1alpha1/byotmachine_types.go) is one machine of a cluster: its controller
-- (pkg/controller/byotmachine_controller.go) claims a host (pkg/controller/claim.go), checks whose
-- PKI bundle the machine carries, applies a machine configuration, links the workload Node and
-- upgrades Talos. When the ByotMachine is deleted it resets the machine and returns the host. The
-- controllers share nothing but the API objects.
--
-- The files.
--   Prelude    shared names: Boolean tests, int32 and int64 with their wrap-around (Int), the
--              operations of package strings (Text), the host of a URL (HostPort), Go's maps
--              (Dict), the order of strings (Order)
--   Go         error values with wrapping, ctrl.Result; Go.Action: actions with an explicit world
--   Api        the API objects as records; conditions and finalizers as a parameter (Util)
--   Client     the API server as a record of calls; Client.Journal keeps what a run sends
--   Endpoints  buildEndpoints, machineEndpoints, hostEndpoints, hostInternalIP
--   Discovery  pkg/controller/discovery.go: discoverHost (Run) over its parts, disks, GPUs,
--              addresses, the parts on single answers (Parts), rounding, labels; Run.host_seams
--              fills the record HostSeams of the host controller
--   HostController     pkg/controller/byothost_controller.go; Marks has what each
--              method assigns; the other children are about the phase diagram (Phases), the
--              threshold (Liveness), deletion (Deletion) and mixed GPUs (Mixed)
--   Claim      pkg/controller/claim.go up to claimHost; Acquire has the actions, and the other
--              children are about the choice, the race, the record and the lost record
--   Release    releaseHost and attemptReset
--   Registry   the writes of both controllers on one host, as steps; Refines is about the calls of
--              the controllers, Cycle about a host from its release to the next claim
--   Config     the edits of the machine configuration in pkg/controller/talos_apply.go; Codec
--              has the YAML library as an argument, with decodeMachineConfigDocs and
--              encodeMachineConfigDocs; the other children follow one edit over a whole stream
--   TalosApply the calls of pkg/controller/talos_apply.go over the Talos client, which fill the
--              record MachineSeams of the machine controller in MachineController.Wiring
--   MachineController  pkg/controller/byotmachine_controller.go, a child per part: Options, Seams,
--              Secrets, Preflight, Upgrade, Nodes, Watch, Link, IpDirect, Adopt, Delete; Trace
--              records the calls of a run, Trace.Keeps and Trace.Leads have the rules for their
--              properties; Upgrade.Diagram draws the states of an upgrade, Upgrade.Reboot has a
--              machine that takes one and comes back
--   ClusterController  pkg/controller/byotcluster_controller.go
--   Tests      concrete objects, and the theorems at inputs where their hypotheses hold
--
-- How code becomes definitions. A method that calls the outside is an action: a function from the
-- world to a result and the next world, also when it fails. The world is a type variable: the API
-- server (HostClient, MachineClient, WorkloadClient), the machine (HostSeams, MachineSeams) and the
-- YAML decoder and encoder (YamlCodec) are arguments, and may answer anything. What a theorem assumes
-- of the packages for conditions and finalizers is UtilLaws, of the YAML library YamlLaws and
-- YamlWrites. A method that changes the object it is given returns the new object; an error drops it,
-- since the next reconcile fetches it again. A patch helper is the snapshot that it was made from.
-- Errors keep their sentinels and wrapping; message texts, logging and contexts are left out.
-- Durations are nanoseconds.
--
-- Fuel and bounds. The loops of the code run over lists, and no definition of the code needs fuel.
-- Two helpers have it: decimal in Prelude/Text.antt prints a number with 20 as its fuel, and an int64
-- has at most 19 digits; the small YAML reader of the tests has the length of its text. Integers are
-- int32 or int64 as in the source; a theorem about a count names the bound that it needs.
--
-- Not modelled. The Talos client and its COSI state, the kubeconfig and URL parsers (IpDirect), which
-- are arguments; the timeouts of the Talos calls, whose streams are answered whole; the set-up of the
-- managers and their watches; the getters of conditions; the generated deep copies.
pub mod Prelude
pub mod Go
pub mod Api
pub mod Discovery
pub mod Endpoints
pub mod Client
pub mod HostController
pub mod Claim
pub mod ClusterController
pub mod Registry
pub mod Release
pub mod TalosApply
pub mod Config
pub mod MachineController
pub mod Tests
