-- ===== src/Provisioner/Command.antt =====
-- `k8sprovisioner/command.go`: what the command reads before it runs the controller.
use shortrack.Base.{Bool, false, Option, none, some, []}
use shortrack.Go.Text.{Text, bytes, text_eq}
use shortrack.Host.{Returned}
use shortrack.Host.Io.{Io, os_error, branch, pure, fail, call, ◌>>=◌}
use shortrack.Env.{Parsers, Value, bool_value, bool_kind, EnvError, get_default}
use shortrack.Server.Pools.{or_default}

-- The Kubernetes libraries. `run` is the controller under its provisioner's name, with the
-- cluster's version and whether it elects a leader.
pub record Cluster : Type 1 where
  pub World : Type 0
  pub Err : Type 0
  pub Config : Type 0
  pub Clientset : Type 0
  pub build_config : Text → World → Returned Err Config × World
  pub in_cluster_config : World → Returned Err Config × World
  pub new_for_config : Config → World → Returned Err Clientset × World
  pub server_version : Clientset → World → Returned Err Text × World
  pub run : Clientset → Text → Text → Bool → World → World

-- The errors of the command: those of the libraries, and that of `env.GetDefault`.
pub data CommandError (E F : Type 0) : Type 0 where
  cluster_error : E → CommandError E F
  variable_error : EnvError F → CommandError E F

-- `env` is the environment; `os.Getenv` answers "" for what it has not.
module _ (C : Cluster) (P : Parsers) (env : Text → Option Text) where
  open C use {
    World, Config, Clientset, build_config, in_cluster_config, new_for_config, server_version, run,
  }

  abbrev Error : Type 0
  Error = CommandError C.Err P.Err

  library : {A : Type 0} → Returned C.Err A → Io World Error A
  library (Returned.value a) w = pure a w
  library (Returned.failed e) w = fail (os_error (cluster_error e)) w

  client_config : Io World Error Config
  client_config =
      let path = or_default (env (bytes "KUBECONFIG")) [] in
      branch (text_eq path []) (call in_cluster_config >>= library)
        (call (build_config path) >>= library)

  -- At the type `bool` the value is a `bool_value`.
  election : Value P.Float × Option (EnvError P.Err) → Io World Error Bool
  election (v, some e) w = fail (os_error (variable_error e)) w
  election (bool_value b, none) w = pure b w
  election (_, none) w = pure false w

  -- The command's action.
  unfoldable pub provisioner_command : Io World Error (Unit {0})
  unfolding client_config library election
  provisioner_command = do
    config ← client_config
    clientset ← call (new_for_config config) >>= library
    version ← call (server_version clientset) >>= library
    leader_election ←
        election (get_default P env (bytes "ENABLE_LEADER_ELECTION") bool_kind (bool_value false))
    call (λ w. (tt, run clientset (bytes "shortrack.sapslaj.xyz") version leader_election w))
