-- ===== src/Examples/Lifecycles.antt =====
-- The theorems about the calls of a provider in any order, each applied at a concrete process.
use aws_virtual_kubelet.Base.{
  String, Entries, All, none, ◌≡◌, ◌≢◌, refl, true, false, some, Table, length, insert, [], ◌∷◌,
  ◌==◌, if◌then◌else◌, arith,
}
use aws_virtual_kubelet.Cloud.{ok}
use aws_virtual_kubelet.Process.{Process, MetaPod, done, after}
use aws_virtual_kubelet.Health.PodMonitor.{new_pod_monitor, started}
use aws_virtual_kubelet.Cache.{cache_get}
use aws_virtual_kubelet.Utils.{get_pod_cache_key}
use aws_virtual_kubelet.Provider.{create_pod, update_pod, delete_pod}
use aws_virtual_kubelet.Provider.Upkeep.{status_round}
use aws_virtual_kubelet.Provider.Startup.{
  Launch, equip, fill_and_maintain, new_ec2_provider, rehydrate,
}
use aws_virtual_kubelet.Provider.Soundness.{
  IsSoundProcess, no_call, then_call, update_call, delete_call, Calls-IsSound,
}
use aws_virtual_kubelet.EniNode.{get_or_create_eni_node, get_or_create_node_name}
use aws_virtual_kubelet.Config.Validate.{set_and_check, load, check_defaults}
use aws_virtual_kubelet.Awsutils.Interfaces.{last_interface}
use aws_virtual_kubelet.WarmPool.Disjoint.{pool_input}
use aws_virtual_kubelet.Provider.NodeName.{new_ec2_provider-pool_input}
use aws_virtual_kubelet.Examples.Nodes.{fargate}
use aws_virtual_kubelet.Provider.Isolation.{delete_pod-others}
use aws_virtual_kubelet.Provider.Orphans.{create_pod-orphan}
use aws_virtual_kubelet.Provider.Status.{rehydrate-IsWatched, status_round-total}
use aws_virtual_kubelet.Provider.Rehydration.{IsWatched}
use aws_virtual_kubelet.Cache.Population.{pod_in, last_listed}
use aws_virtual_kubelet.Provider.Lifecycle.{Over, delete_pod-create_pod}
use aws_virtual_kubelet.Examples.{creation}
use aws_virtual_kubelet.Examples.Deletions.{deletion}
use aws_virtual_kubelet.Scenario.{
  web_pod, World, process, placed_pod, entry, small_env, small_config,
}

abbrev pub db_entry : MetaPod
db_entry = record { pod = 1; monitor = some 1; notifier = true }

-- Two pods in the cache, both watched.
abbrev pub two_pods : Process World
two_pods = record (process 1) {
  pods = λ n. if n == 0 then placed_pod else record placed_pod { name = "db" };
  cache = ("default-web", entry) ∷ ("default-db", db_entry) ∷ [];
  pod_monitors = λ n. started (new_pod_monitor n 0);
  next_monitor = 2;
}

two_pods-IsSound : IsSoundProcess two_pods
two_pods-IsSound = record {
  table = (((cc), tt), (tt, tt));
  monitored = (omega arith, (omega arith, tt));
  apart = (((cc), tt), (tt, tt));
}

-- An UpdatePod, then a DeletePod.
abbrev updated : Process World
updated = after (update_pod 0 two_pods)

abbrev deleted : Process World
deleted = after (delete_pod 0 updated)

Calls-IsSound_example : IsSoundProcess deleted
unfolding deletion update_pod insert started
Calls-IsSound_example =
    Calls-IsSound two_pods deleted
      (then_call two_pods updated deleted
        (then_call two_pods two_pods updated (no_call two_pods) (update_call 0 (ok tt) refl))
        (delete_call 0 (ok tt) refl))
      two_pods-IsSound

delete_pod-others_example :
    (cache_get "default-db" (after (delete_pod 0 two_pods)) ≡ some db_entry)
    × ((after (delete_pod 0 two_pods)).pod_monitors 1 ≡ two_pods.pod_monitors 1)
unfolding deletion started
delete_pod-others_example =
    delete_pod-others 0 two_pods (after (delete_pod 0 two_pods)) entry 0 false refl refl refl
      two_pods-IsSound (ok tt) refl "default-db" db_entry 1 refl refl refl

create_pod-orphan_example :
    let t = after (create_pod 0 two_pods) in
    (t.pod_monitors 0 ≡ two_pods.pod_monitors 0)
    × ((key : String) (e : MetaPod) → cache_get key t ≡ some e → e.monitor ≢ some 0)
unfolding creation deletion
create_pod-orphan_example =
    create_pod-orphan 0 two_pods (after (create_pod 0 two_pods)) entry 0 refl refl two_pods-IsSound
      refl

rehydrate-IsWatched_example :
    let items = web_pod ∷ record web_pod { name = "db" } ∷ [] in
    let t = after (rehydrate items (process 1)) in
    (rehydrate items (process 1) ≡ done tt t)
    × IsSoundProcess t
    × Entries (IsWatched t) t.cache
    × All (λ p. cache_get (get_pod_cache_key p.namespace p.name) t ≢ none) items
    × ((key : String) → pod_in t.pods (cache_get key t) ≡ last_listed key items none)
rehydrate-IsWatched_example =
    rehydrate-IsWatched (web_pod ∷ record web_pod { name = "db" } ∷ []) (process 1)

status_round-total_example :
    (result : Table String) × (status_round two_pods
      ≡ done (result, length two_pods.cache) two_pods)
status_round-total_example = status_round-total two_pods two_pods-IsSound

-- The start of the processes of two pods of one cluster.
abbrev pub unnamed : Process World
unnamed = record (process 1) { node_name = "" }

abbrev pub launch_of : String → Launch
launch_of vk_pod_name = record {
  file = ok (small_config [], ok tt);
  set_defaults = λ c. (c, ok tt);
  arguments = "virtual-kubelet" ∷ "--klog.v" ∷ "2" ∷ [];
  vk_pod_name = vk_pod_name;
  kube_config_path = "";
  node_name = "";
}

new_ec2_provider-pool_input_example :
    pool_input (after (new_ec2_provider (launch_of "0") unnamed))
    ≡ pool_input (after (new_ec2_provider (launch_of "1") unnamed))
unfolding new_ec2_provider get_or_create_eni_node get_or_create_node_name set_and_check load
    check_defaults last_interface equip fill_and_maintain
new_ec2_provider-pool_input_example =
    new_ec2_provider-pool_input (launch_of "0") (launch_of "1") unnamed unnamed
      (after (new_ec2_provider (launch_of "0") unnamed))
      (after (new_ec2_provider (launch_of "1") unnamed)) fargate fargate refl refl refl refl refl

-- A pod is created in an empty cache, and deleted.
abbrev created : Process World
created = after (create_pod 0 (process 3))

delete_pod-create_pod_example : Over 0 (process 3) created (after (delete_pod 0 created))
unfolding creation deletion started
delete_pod-create_pod_example =
    delete_pod-create_pod 0 (process 3) created (after (delete_pod 0 created))
      (record { table = tt; monitored = tt; apart = tt }) refl refl refl
