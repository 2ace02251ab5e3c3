-- ===== src/Lib.antt =====
-- A model of aws-virtual-kubelet: the Virtual Kubelet provider that runs pods on EC2 instances.
--
-- The program and its parts. Kubernetes calls the provider (internal/ec2provider/ec2provider.go) with
-- pods to create, update and delete. The provider keeps the pods that it knows in a cache
-- (podcache.go), gets an instance for each from the compute manager (compute.go), which takes it from
-- the warm pool (warmpool.go) or launches it (internal/awsutils), launches the pod's application over
-- an agent in the instance (internal/vkvmaclient), and starts monitors of both
-- (internal/health), whose results a check handler turns into a status for Kubernetes. The node is
-- named after a network interface (eninode.go), and all of it reads one configuration
-- (internal/config).
--
-- The files and what they model:
--   Base, Base/*            shared names, lists, tests, and maps with text keys (a Go map is an
--                           association list; its order stands for the order of a range)
--   Kube, Cloud             the Kubernetes objects, and all calls that leave the program: the record
--                           `Env` over a state `W`, with Go's random numbers, map order and clock
--   KubeClient              internal/k8sutils/k8s_client.go
--   Process, Process/Frame  the state of a process, the monad of its methods (a result, or a panic),
--                           and what a step leaves alone
--   Utils, Utils/*          internal/utils, and the parts of Go's strings, encoding/base64 and
--                           encoding/json that the program uses, with tests
--   Config, Config/*        internal/config: the records, validate, the loaders, InitConfig
--   Metrics, Metrics/*      internal/metrics: the counters, and their registration
--   Health, Health/*        internal/health: Monitor (monitor.go), PodMonitor and Streams (health.go),
--                           Handler (handler.go), Loop (the goroutines of monitor.go and handler.go);
--                           theorems in Threshold, Addresses, Streams and Loop/*
--   Awsutils, Awsutils/*    internal/awsutils: UserData (ec2_client_utils.go), Instances and
--                           Interfaces (ec2_utils.go); theorems in Encoding and Bootstrap, with the
--                           lemmas on the text of user data in Revealing, Spelling, Transport,
--                           Delivery and Objects
--   Agent, Agent/*          internal/vkvmaclient/vkvmaclient.go
--   WarmPool, WarmPool/*    internal/ec2provider/warmpool.go: State, Tags, Launch (createWarmEC2),
--                           Depth (CheckWarmPoolDepth, pop), Refresh (checkEC2TagsForState,
--                           GetWarmPoolInstanceIfExist), Removal; theorems in Shrink, Grow,
--                           Allocation, Pages, Disjoint, Ready, Race; Mutex (the goroutines at
--                           the mutex of VKState) and Mutex/Programs, theorems in Mutex/Turns,
--                           Mutex/Progress and Mutex/Overlap
--   Compute, Cache          internal/ec2provider/compute.go and podcache.go; theorems in
--                           Compute/Placement and Cache/Population, and the soundness of a cache
--                           in Cache/Soundness
--   EniNode, EniNode/*      internal/ec2provider/eninode.go: the node's name, and Configure; theorems
--                           in Names and Announcement
--   Provider, Provider/*    internal/ec2provider/ec2provider.go: CreatePod, DeletePod and the others,
--                           Monitoring (the pod monitors and notifications), Upkeep (recreatePod,
--                           PopulateCache, the status loop), Startup (NewEc2Provider, and the callback
--                           of cmd/virtual-kubelet/main.go), Console (calls of the node's server,
--                           and the command line); theorems in Creation, Removal, Deletion,
--                           Orphans, Termination, Lifecycle, Lookup, Staleness, Soundness, Isolation,
--                           Rehydration, Status, NodeName; Goroutines (overlapping calls of CreatePod,
--                           UpdatePod and DeletePod), theorems in Goroutines/Alone, Sharing,
--                           Ownership, Isolation and Revival
--   SampleAgent, SampleAgent/*  examples/bootstrap_agent: both servers and the calls, Unmarshal (the
--                           user data); theorems in Refusal
--   Command, Command/*      cmd/virtual-kubelet/main.go: main and its callback, over node-cli; theorems
--                           in Loading and Serving
--   Scenario, Examples/*    a concrete world, and the theorems applied in it
--
-- A definition has the name of its function in lower case with underscores (CreatePod is create_pod,
-- createWarmEC2 is create_warm_ec2, CreateWarmEC2 is create_warm_ec2_instance). Pods, pod monitors and
-- check handlers are shared by pointers: they are numbers that lead into stores of the process. A
-- method is a function from the process to an outcome: `done` with a result, or `crash` with a panic
-- or the exit of klog.Fatalf. An `error` is its message; a result with an error is `Result`. Log lines
-- are left out, but for the nil pointers that they read.
--
-- The goroutines. The methods of the provider and the rounds of its tickers are functions, each of
-- which runs at once: between two of them any call may come (Provider.Soundness.Calls), within one
-- none does. The loops of the monitors and the receiver of the handler are a step relation
-- (Health.Loop.Step) instead: each loop has a program counter at its blocking points, and any of
-- them may move next; a receiver that handles a nil status panics, and has no step. So are the
-- methods that lock the state of the warm pool (WarmPool.Mutex.Step): each is a program of the
-- steps between Lock and Unlock, which interleave; a page of instances is imported in one step, and
-- so is a launch. Overlapping calls of CreatePod, UpdatePod and DeletePod have a program counter
-- each (Provider.Goroutines.Goroutine), and move in a given order; an access of the cache is one
-- step, and so is a call of the compute manager or of the agent. A `*MetaPod` that several of them
-- hold is one object there, which UpdatePod writes to. There the loops of the monitors do not move.
--
-- Bounds and fuel. Counters and lengths are natural numbers; none of them is near the range of an int.
-- The desired count of a pool, which may be configured to be negative, is an integer.
-- The loop over pages of DescribeInstances runs on fuel two, since its test reads a variable that
-- stays empty, and fails in the second round. All other loops run over a list or a count, and the
-- endless ones are steps.
--
-- Not modelled: data races; the time that a sleep takes; the metrics endpoint, generated code and the
-- vendored libraries, which only pass calls on or stand outside of the repository; the sample agent examples/vkvmagent, the deployment and the end-to-end
-- tests.
pub mod Base
pub mod Utils
pub mod Kube
pub mod Cloud
pub mod KubeClient
pub mod Config
pub mod Metrics
pub mod Health
pub mod Process
pub mod Awsutils
pub mod WarmPool
pub mod Agent
pub mod Cache
pub mod Compute
pub mod EniNode
pub mod Provider
pub mod SampleAgent
pub mod Command
pub mod Scenario
pub mod Examples
