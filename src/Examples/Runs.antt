-- ===== src/Examples/Runs.antt =====
-- The theorem about the run of the command, applied to a command that serves at once.
use aws_virtual_kubelet.Base.{refl, insert, [], ◌∷◌}
use aws_virtual_kubelet.Cloud.{Env, ok, err}
use aws_virtual_kubelet.Process.{◌>>=◌, pure, call, after}
use aws_virtual_kubelet.Config.Validate.{set_and_check, load, check_defaults}
use aws_virtual_kubelet.Awsutils.Interfaces.{last_interface}
use aws_virtual_kubelet.EniNode.{get_or_create_eni_node, get_or_create_node_name}
use aws_virtual_kubelet.Provider.Startup.{
  equip, fill_and_maintain, rehydrate, new_ec2_provider, get_k8s_pods, load_pods, pre_run,
}
use aws_virtual_kubelet.Provider.Upkeep.{populate_cache, monitor_all}
use aws_virtual_kubelet.Command.{
  NodeCli, Build, launch_with, name_node, pre_run_callback, or_fatal, main,
}
use aws_virtual_kubelet.Command.Serving.{Serves, main-Serves}
use aws_virtual_kubelet.Scenario.{World, small_env, web_pod}
use aws_virtual_kubelet.Examples.Lifecycles.{launch_of, unnamed}

-- The node has a name on the command line.
abbrev small_cli : NodeCli World
small_cli = record {
  from_env = λ w. (
    ok (record {
      provider = "";
      provider_config_path = "";
      version = "";
      node_name = "";
      kube_config_path = "";
    }),
    w,
  );
  new = λ _ w. (ok tt, w);
  flags = λ o w. (ok (record o { node_name = "custom" }), w);
  serve = λ _. pure (ok tt);
  run_command = λ o callback. do
    read ← call (λ w. (ok (record o { node_name = "custom" }), w))
    elim read [
      | err e ↦ pure (err e)
      | ok p ↦ do called ← callback p; elim called [ err e ↦ pure (err e) | ok q ↦ pure (ok tt) ]
    ];
  configure = λ w. (ok tt, w);
}

-- The node has a pod already.
abbrev listing : Env World
listing = record small_env { list_pods = λ _ _ w. (ok (web_pod ∷ []), w) }

abbrev build : Build
build = record { version = "v0"; arch = "amd64" }

main-Serves_example :
    Serves ⦃env = listing⦄ small_cli
      (λ _. launch_of "0")
      build
      unnamed
      (after (main ⦃env = listing⦄ small_cli (λ _. launch_of "0") build unnamed))
unfolding main or_fatal pre_run_callback name_node launch_with pre_run load_pods new_ec2_provider
    get_or_create_eni_node get_or_create_node_name set_and_check load check_defaults last_interface
    equip fill_and_maintain get_k8s_pods rehydrate populate_cache monitor_all insert
main-Serves_example =
    main-Serves ⦃env = listing⦄ small_cli (λ _. launch_of "0") (λ o callback s. refl) build unnamed
      (after (main ⦃env = listing⦄ small_cli (λ _. launch_of "0") build unnamed)) refl
