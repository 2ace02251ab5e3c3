-- ===== src/Command.antt =====
-- cmd/virtual-kubelet/main.go: the options of the command, its callback, and the run.
pub mod Loading
pub mod Serving
use aws_virtual_kubelet.Base.{String, str_append}
use aws_virtual_kubelet.Cloud.{Env, Result, ok, err}
use aws_virtual_kubelet.Process.{Go, ◌>>=◌, pure, panic, call}
use aws_virtual_kubelet.Provider.Startup.{Launch, pre_run}

-- `opts.Opts` of node-cli, as far as `main` reads and sets it.
pub record Options : Type 0 where
  pub provider : String
  pub provider_config_path : String
  pub version : String
  pub node_name : String
  pub kube_config_path : String

abbrev pub k8s_version : String
k8s_version = "v1.19.10"

abbrev pub default_config_location : String
default_config_location = "/etc/config/config.json"

-- vendor/github.com/virtual-kubelet/node-cli. The callback reads the options and changes them.
pub record NodeCli (W : Type 0) : Type 0 where
  -- opts.FromEnv
  pub from_env : W → Result Options × W
  -- cli.New
  pub new : Options → W → Result (Unit {0}) × W
  -- the processing of the flags, and the command itself, which calls the provider
  pub flags : Options → W → Result Options × W
  pub serve : Options → Go W (Result (Unit {0}))
  -- Run of the command that `New` has made
  pub run_command : Options → (Options → Go W (Result Options)) → Go W (Result (Unit {0}))
  -- logruscli.Configure
  pub configure : W → Result (Unit {0}) × W

-- The build: `buildVersion` and runtime.GOARCH.
pub record Build : Type 0 where
  pub version : String
  pub arch : String

-- the options that `main` sets
unfoldable pub with_defaults : Build → Options → Options
with_defaults build o = record o {
  provider = "ec2";
  provider_config_path = default_config_location;
  version =
      str_append k8s_version
        (str_append "-vk-aws-ec2-" (str_append build.version (str_append "-" build.arch)));
}

-- What the provider is started with: what the process finds, the file at the path of the options
-- among it, and the options that `main` hands on.
unfoldable pub launch_with : (String → Launch) → Options → Launch
launch_with found o = record (found o.provider_config_path) {
  kube_config_path = o.kube_config_path;
  node_name = o.node_name;
}

module _ {W : Type 0} ⦃env : Env W⦄ (cli : NodeCli W) (found : String → Launch) where
  -- the end of the callback: the name of the node replaces that of the command line
  unfoldable pub name_node : Options → Result String → Go W (Result Options)
  name_node o (err e) = pure (err e)
  name_node o (ok name) = do
    configured ← call cli.configure
    elim configured [ err e ↦ pure (err e) | ok _ ↦ pure (ok (record o { node_name = name })) ]

  -- the callback of `WithPersistentPreRunCallback`
  unfoldable pub pre_run_callback : Options → Go W (Result Options)
  unfolding name_node launch_with
  pre_run_callback o = do named ← pre_run (launch_with found o); name_node o named

  -- `Fatal` on an error
  unfoldable pub or_fatal : {A : Type 0} → Result A → Go W A
  or_fatal (err e) = panic e
  or_fatal (ok a) = pure a

  -- `main`
  unfoldable pub main : Build → Go W (Unit {0})
  unfolding pre_run_callback or_fatal with_defaults
  main build = do
    read ← call cli.from_env
    o ← or_fatal read
    made ← call (cli.new (with_defaults build o))
    _ ← or_fatal made
    ran ← cli.run_command (with_defaults build o) pre_run_callback
    or_fatal ran
