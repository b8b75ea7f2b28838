-- ===== src/Server/Process.antt =====
-- `sigma/command.go`: the start of the server, and the life of its process.
pub mod Laws
pub mod Start
use shortrack.Base.{Bool, true, false, Option, none, some, List, [], ◌∷◌, ◌++◌, if◌then◌else◌}
use shortrack.Go.Text.{Text, bytes, text_eq}
use shortrack.State.{ServerConfig}
use shortrack.Host.{Host, Returned, value, failed}
use shortrack.Host.Io.{Io, Outcome, ok, err, panic, os_error, branch, pure, fail, call, ◌>>=◌, ◌>>◌}
use shortrack.Server.Call.{Store}
use shortrack.Server.Persist.{load_state, save_state}
use shortrack.Server.Reconcile.{reconcile_all}
use shortrack.Server.Service.{Request, serve, panics}

-- The command's flags, with their defaults filled in.
pub record Flags : Type 0 where
  pub base_iqn : Text
  pub volume_dir : Text
  pub portal : Text
  pub listen : Text

-- Something that the process does: a call, or `ReconcileAll` by the ticker.
pub data Event : Type 0 where
  request : Request → Event
  tick : Event

-- A panic in a handler or in the ticker ends the process.
pub data Process (W : Type 0) : Type 0 where
  serving : Store W → Process W
  ended : W → Process W

module _ {W E : Type 0} where
  abbrev from_host : {A : Type 0} → Returned E A → Io W E A
  from_host (value a) w = pure a w
  from_host (failed e) w = fail (os_error e) w

  -- A call that leaves the state alone.
  abbrev pub on_world : {A : Type 0} → Io W E A → Io (Store W) E A
  on_world m s = let (r, w) = m s.world in (r, record s { world = w })

-- `os.Hostname` and `net.Listen` are the parameters.
module _ (H : Host) (hostname : H.World → Returned H.Err Text × H.World)
    (listen : Text → H.World → Option H.Err × H.World) where
  open H use {World, Err}

  base_iqn_of : Flags → Io World Err Text
  base_iqn_of flags =
      branch (text_eq flags.base_iqn [])
        (call hostname >>= from_host >>= λ name.
          pure (bytes "iqn.2003-01.xyz.sapslaj.shortrack." ++ name))
        (pure flags.base_iqn)

  listening : Option Err → Io World Err (Unit {0})
  listening none w = pure tt w
  listening (some e) w = fail (os_error e) w

  -- The start, up to the call of `Serve`. The configuration is the result.
  unfoldable pub start : Flags → Io (Store World) Err ServerConfig
  unfolding base_iqn_of listening
  start flags = do
    iqn ← on_world (base_iqn_of flags)
    let cfg : ServerConfig = record {
      base_iqn = iqn;
      volumes_dir = flags.volume_dir;
      portal = flags.portal;
    }
    load_state H cfg
    λ s. on_world (reconcile_all H cfg s.state) s
    λ s. on_world (save_state H cfg s.state) s
    on_world (call (listen flags.listen) >>= listening)
    pure cfg

module _ (H : Host) (cfg : ServerConfig) where
  open H use {World, Err}

  -- The error of a background `ReconcileAll` is logged.
  ticked : Store World → Outcome Err (Unit {0}) × World → Process World
  ticked s (ok a, w) = serving (record s { world = w })
  ticked s (err e, w) = serving (record s { world = w })
  ticked s (panic, w) = ended w

  unfoldable pub happens : Event → Store World → Process World
  unfolding ticked
  happens (request r) s =
      if panics H cfg r s then ended (serve H cfg r s).world else serving (serve H cfg r s)
  happens tick s = ticked s (reconcile_all H cfg s.state s.world)

  next_event : Event → Process World → Process World
  next_event e (serving s) = happens e s
  next_event e (ended w) = ended w

  unfoldable pub run : List Event → Process World → Process World
  unfolding next_event
  run [] p = p
  run (e ∷ es) p = run es (next_event e p)
