-- ===== src/Server/Persist.antt =====
-- `LoadState` and `SaveState`.
pub mod RoundTrip
use shortrack.Base.{Option, none, some, [], ◌∷◌, ◌++◌, if◌then◌else◌}
use shortrack.Go.Text.{Text, bytes}
use shortrack.Go.Path.{join}
use shortrack.State.{ServerConfig, SigmaState}
use shortrack.Host.{Host, Returned, value, failed}
use shortrack.Host.Io.{Io, Outcome, ok, err, os_error, wrapped, pure, fail, call, ◌>>=◌}
use shortrack.Server.Call.{Store}

-- `path.Join(s.Config.VolumesDir, fmt.Sprintf("shortrack-state.%s.json", s.Config.BaseIQN))`
abbrev pub state_path : ServerConfig → Text
state_path cfg =
    join (cfg.volumes_dir ∷ (bytes "shortrack-state." ++ cfg.base_iqn ++ bytes ".json") ∷ [])

module _ (H : Host) where
  open H use {World, Err, Fd, is_not_exist, read_file, open_truncated, write, close}
  open H use {marshal_indent, unmarshal}

  -- What follows `json.Unmarshal`, which writes into the state that is there.
  parsed_state : SigmaState × Option Err → World → Outcome Err (Unit {0}) × Store World
  parsed_state (st, none) w = (ok tt, record { state = st; world = w })
  parsed_state (st, some e) w = (
    err (wrapped "unable to parse state data: %w" (os_error e)),
    record { state = st; world = w },
  )

  read_state : (Text × Option Err) × World → SigmaState → Outcome Err (Unit {0}) × Store World
  unfolding parsed_state
  read_state ((text, none), w) st = parsed_state (unmarshal text st) w
  read_state ((text, some e), w) st =
      if is_not_exist e then (ok tt, record { state = st; world = w }) else (
        err (wrapped "unable to read state file: %w" (os_error e)),
        record { state = st; world = w },
      )

  -- `LoadState`
  unfoldable pub load_state : ServerConfig → Io (Store World) Err (Unit {0})
  unfolding read_state
  load_state cfg s = read_state (read_file (state_path cfg) s.world) s.state

  written : Option Err → Io World Err (Unit {0})
  written none w = pure tt w
  written (some e) w = fail (wrapped "unable to write state file: %w" (os_error e)) w

  -- What follows `json.MarshalIndent`. The deferred close drops its error.
  save_marshalled : Fd → Returned Err Text → Io World Err (Unit {0})
  unfolding written
  save_marshalled fd (failed e) w =
      (call (close fd) >>= λ _. fail (wrapped "unable to marshal state: %w" (os_error e))) w
  save_marshalled fd (value text) w =
      (call (write fd (text ++ (10 ∷ []))) >>= λ e. call (close fd) >>= λ _. written e) w

  save_opened : SigmaState → Returned Err Fd → Io World Err (Unit {0})
  unfolding save_marshalled
  save_opened st (failed e) w = fail (wrapped "unable to save state file: %w" (os_error e)) w
  save_opened st (value fd) w = save_marshalled fd (marshal_indent st) w

  -- `SaveState`
  unfoldable pub save_state : ServerConfig → SigmaState → Io World Err (Unit {0})
  unfolding save_opened
  save_state cfg st = call (open_truncated (state_path cfg) 0o644) >>= save_opened st
