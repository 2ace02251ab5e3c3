-- ===== src/Health/Streams.antt =====
-- internal/health/health.go: the functions that connect the streams of a pod's watchers.
use aws_virtual_kubelet.Base.{ℕ, ◌≡◌, Option, All, arith, refl, ◌⊎◌, inr}
use aws_virtual_kubelet.Cloud.{Env, Result, ok, err}
use aws_virtual_kubelet.Process.{Process, Go, ◌>>=◌, pure, panic, get, call, done, crash, Outcome}
use aws_virtual_kubelet.Process.Frame.{Keeps}
use aws_virtual_kubelet.Agent.{
  VkvmaClient, new_vkvma_pod_client, get_health_client, get_application_lifecycle_client,
}
use aws_virtual_kubelet.Health.Monitor.{Subject, vkvma, app}
use aws_virtual_kubelet.Health.PodMonitor.{create_monitors}
use aws_virtual_kubelet.Health.Loop.{Stream, nil_stream, health_stream, app_stream}

-- A stream of the monitor's kind, or nil.
abbrev pub IsOf : Subject → Stream → Type 0
IsOf vkvma stream = (stream ≡ health_stream) ⊎ (stream ≡ nil_stream)
IsOf app stream = (stream ≡ app_stream) ⊎ (stream ≡ nil_stream)
IsOf Subject.unknown stream = ⊥

-- a stream, or nil after an error
abbrev stream_or_nil : Stream → Result (Unit {0}) → Stream
stream_or_nil stream (ok _) = stream
stream_or_nil stream (err _) = nil_stream

module _ {W : Type 0} ⦃env : Env W⦄ where
  -- the call of `Watch`, once there may be a client
  unfoldable pub watch_health : Result (Option ℕ) → Go W Stream
  watch_health (err _) = pure nil_stream
  watch_health (ok connection) = do
    r ← call (env.watch connection)
    pure (stream_or_nil health_stream r)

  -- the call of `WatchApplicationHealth`
  unfoldable pub watch_application : Result (Option ℕ) → Go W Stream
  watch_application (err _) = pure nil_stream
  watch_application (ok connection) = do
    r ← call (env.watch_application_health connection)
    pure (stream_or_nil app_stream r)

  -- `m.getStream(ctx, m)` of the watchers that `createMonitors` makes; other monitors have none.
  unfoldable pub get_stream : Subject → ℕ → Go W Stream
  unfolding new_vkvma_pod_client watch_health watch_application
  get_stream Subject.unknown pod = panic "call of a nil function"
  get_stream vkvma pod = do
    s ← get
    client ←
        get_health_client
          (new_vkvma_pod_client (s.pods pod) s.config.vkvm_agent_connection_config.port)
    watch_health client
  get_stream app pod = do
    s ← get
    client ←
        get_application_lifecycle_client
          (new_vkvma_pod_client (s.pods pod) s.config.vkvm_agent_connection_config.port)
    watch_application client

  abbrev pub Connects : ℕ → Subject → Process W → Outcome W Stream → Type 0
  Connects q subject s (done stream t) = IsOf subject stream × Keeps q s t
  Connects q subject s (crash e t) = ⊥

  -- A call of the agent that returns.
  abbrev Answers : ℕ → Process W → Outcome W (Result (Option ℕ)) → Type 0
  Answers q s (done r t) = Keeps q s t
  Answers q s (crash e t) = ⊥

  get_health_client-Answers :
      (c : VkvmaClient) (q : ℕ) (s : Process W) → Answers q s (get_health_client c s)
  unfolding get_health_client
  get_health_client-Answers c q s = ground arith

  get_application_lifecycle_client-Answers :
      (c : VkvmaClient) (q : ℕ) (s : Process W) → Answers q s (get_application_lifecycle_client c s)
  unfolding get_application_lifecycle_client
  get_application_lifecycle_client-Answers c q s = ground arith

  watch_health-Connects :
      (q : ℕ) (s : Process W) (o : Outcome W (Result (Option ℕ)))
      → Answers q s o
      → Connects q vkvma s (elim o [ done r t ↦ watch_health r t | crash e t ↦ crash e t ])
  unfolding watch_health
  watch_health-Connects q s (done (ok c) t) k = ground arith
  watch_health-Connects q s (done (err e) t) k = (inr refl, k)
  watch_health-Connects q s (crash e t) k = absurd k

  watch_application-Connects :
      (q : ℕ) (s : Process W) (o : Outcome W (Result (Option ℕ)))
      → Answers q s o
      → Connects q app s (elim o [ done r t ↦ watch_application r t | crash e t ↦ crash e t ])
  unfolding watch_application
  watch_application-Connects q s (done (ok c) t) k = ground arith
  watch_application-Connects q s (done (err e) t) k = (inr refl, k)
  watch_application-Connects q s (crash e t) k = absurd k

  -- The connection of a pod's watcher always returns, whatever the agent answers: a stream of the
  -- watcher's kind or nil, and it leaves the pods' names, the cache, the monitors and what Kubernetes
  -- was told as they were. So a loop of such a watcher never meets a stream of an unknown type.
  get_stream-Connects :
      (pod q : ℕ) (s : Process W)
      → All (λ m. Connects q m.subject s (get_stream m.subject pod s)) (create_monitors pod)
  unfolding get_stream create_monitors
  get_stream-Connects pod q s =
      let c = new_vkvma_pod_client (s.pods pod) s.config.vkvm_agent_connection_config.port in
      (
        watch_health-Connects q s (get_health_client c s) (get_health_client-Answers c q s),
        (
          watch_application-Connects q s (get_application_lifecycle_client c s)
              (get_application_lifecycle_client-Answers c q s),
          tt,
        ),
      )
