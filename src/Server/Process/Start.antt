-- ===== src/Server/Process/Start.antt =====
-- A restart of the process.
use shortrack.Base.{◌≡◌, sym, subst, true, false, Option, [], arith}
use shortrack.Go.Text.{Text, text_eq}
use shortrack.State.{ServerConfig}
use shortrack.Host.{Host, Returned}
use shortrack.Host.Io.{ok}
use shortrack.Server.Call.{Store}
use shortrack.Server.Invariant.{initial_state}
use shortrack.Server.Persist.{load_state, state_path}
use shortrack.Server.Persist.RoundTrip.{IsDurable, HasText}
use shortrack.Server.Order.{SameState}
use shortrack.Server.Service.{Request, serve, acknowledges, is_write}
use shortrack.Server.Service.Restart.{load_state-serve}
use shortrack.Server.Process.{Flags, start}

abbrev pub config_of : Flags → ServerConfig
config_of flags = record {
  base_iqn = flags.base_iqn;
  volumes_dir = flags.volume_dir;
  portal = flags.portal;
}

-- The store of a process that has not loaded its state.
abbrev pub unloaded : {W : Type 0} → W → Store W
unloaded w = record { state = initial_state; world = w }

module _ (H : Host) (hostname : H.World → Returned H.Err Text × H.World)
    (listen : Text → H.World → Option H.Err × H.World) where
  start-loaded :
      (flags : Flags) (cfg : ServerConfig) (s : Store H.World)
      → text_eq flags.base_iqn [] ≡ false
      → (start H hostname listen flags s).0 ≡ ok cfg
      → (start H hostname listen flags s).1.state ≡ (load_state H (config_of flags) s).1.state
  unfolding start
  start-loaded flags cfg s given h = ground arith

  -- Where the state file is durable: when the process stops after a call that changes the state and
  -- returns without error, and the command starts again with the same flags (the base IQN being
  -- given) and gets as far as serving, then it serves the state that the call has left, up to the
  -- order of the maps, the names in it being valid UTF-8.
  pub start-serve :
      (flags : Flags) (cfg : ServerConfig) (durable : IsDurable H (state_path (config_of flags)))
      → text_eq flags.base_iqn [] ≡ false
      → (r : Request) (s : Store H.World) → is_write r ≡ true
      → acknowledges H (config_of flags) r s ≡ true
      → HasText durable.utf8 (serve H (config_of flags) r s).state
      → (start H hostname listen flags (unloaded (serve H (config_of flags) r s).world)).0 ≡ ok cfg
      → SameState
          (serve H (config_of flags) r s).state
          (start H hostname listen flags (unloaded (serve H (config_of flags) r s).world)).1.state
  start-serve flags cfg durable given r s changes answered named started =
      subst (SameState (serve H (config_of flags) r s).state)
        (sym (start-loaded flags cfg _ given started))
        (load_state-serve H (config_of flags) durable r s changes answered named).1
