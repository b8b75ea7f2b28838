-- ===== src/Telemetry.antt =====
-- `pkg/telemetry/telemetry.go`: the loggers, the context that carries one, and the exporter of
-- traces. A logger is what it was made with; what it prints goes to the world.
pub mod Exporter
pub mod Laws
use shortrack.Base.{
  ℕ, ◌-◌, Bool, true, false, ◌&&◌, Option, none, some, List, [], ◌∷◌, ◌++◌, map, ltb, leb,
  if◌then◌else◌, not,
}
use shortrack.Go.Text.{Text, bytes, text_eq}
use shortrack.Host.{Returned, value, failed}
use shortrack.Env.{Parsers, Value, string_kind, string_value, EnvError, get_default}

-- The levels of `log/slog` that the code names.
pub data Level : Type 0 where
  level_debug level_info level_warn level_error : Level

-- The errors of `LogLevelFromEnv`, and those of a library. `joined` is the result of `errors.Join`.
pub data Failure (E L : Type 0) : Type 0 where
  could_not_parse : EnvError E → Failure E L
  invalid_level : Text → Failure E L
  joined : EnvError E → Text → Failure E L
  variable : EnvError E → Failure E L
  library : L → Failure E L

-- `slog.String(key, …)` or `attribute.String(key, …)`, and `slog.Any("error", err)`.
pub data Attr (F : Type 0) : Type 0 where
  string_attr : Text → Text → Attr F
  error_attr : F → Attr F

-- A `*slog.Logger` on a text handler for standard error: whether `otelslog` wraps the handler, its
-- options, and the attributes of `With`.
pub record Logger (F : Type 0) : Type 0 where
  pub traced : Bool
  pub add_source : Bool
  pub level : Level
  pub attrs : List (Attr F)

-- The key of a context's value: a `ContextKey`, or a key of another type.
pub data Key : Type 0 where
  context_key foreign_key : Text → Key

abbrev pub same_key : Key → Key → Bool
same_key (context_key k) (context_key l) = text_eq k l
same_key (foreign_key k) (foreign_key l) = text_eq k l
same_key _ _ = false

-- A value of a context: a `*slog.Logger`, which may be nil, or a value of another type.
pub data Held (F : Type 0) : Type 0 where
  held_logger : Option (Logger F) → Held F
  held_other : Text → Held F

-- A `context.Context`: the values that `context.WithValue` has put around `context.TODO()`.
abbrev pub Context : Type 0 → Type 0
Context F = List (Key × Held F)

abbrev pub logger_context_key : Key
logger_context_key = context_key (bytes "sapslaj.shortrack.logger")

-- `ctx.Value(key).(*slog.Logger)`; `none` where there is no value, one of another type, or nil.
unfoldable pub logger_value : {F : Type 0} → Context F → Key → Option (Logger F)
logger_value [] key = none
logger_value ((k, held_logger l) ∷ ctx) key =
    let later = logger_value ctx key in if same_key k key then l else later
logger_value ((k, held_other v) ∷ ctx) key =
    let later = logger_value ctx key in if same_key k key then none else later

-- `strings.ToUpper` on one ASCII letter.
abbrev pub upper : ℕ → ℕ
upper c = if leb b'a' c && leb c b'z' then c - 32 else c

unfoldable pub is_ascii : Text → Bool
is_ascii [] = true
is_ascii (c ∷ s) = ltb c 128 && is_ascii s

-- The switch on the level's name.
unfoldable pub level_named : Text → Option Level
level_named s =
    if text_eq s (bytes "DEBUG")
    then some level_debug
    else if text_eq s (bytes "INFO")
    then some level_info
    else if text_eq s []
    then some level_info
    else if text_eq s (bytes "WARN")
    then some level_warn
    else if text_eq s (bytes "ERROR")
    then some level_error
    else none

-- The libraries: what a logger prints, `strings.ToUpper` on text that is not ASCII, JSON,
-- `time.Sleep`, and OpenTelemetry. `new_exporter` is given the endpoint, and returns a pointer and
-- an error.
pub record Tracing (E : Type 0) : Type 1 where
  pub World : Type 0
  pub Err : Type 0
  pub Exporter : Type 0
  pub Resource : Type 0
  pub Data : Type 0
  pub marshal : Data → Returned Err Text
  pub emit : Logger (Failure E Err) → Level → Text → List (Attr (Failure E Err)) → World → World
  pub to_upper_unicode : Text → Text
  pub error_text : Err → Text
  pub sleep_seconds : ℕ → World → World
  pub new_exporter : Context (Failure E Err) → Text → World → (Option Exporter × Option Err) × World
  pub new_resource : List (Attr (Failure E Err)) → World → (Resource × Option Err) × World
  pub set_tracer_provider : Option Exporter → Resource → World → World
  pub shutdown_exporter : Exporter → Context (Failure E Err) → World → Option Err × World

module _ (P : Parsers) (T : Tracing P.Err) (env : Text → Option Text) where
  open T use {World, Exporter, Resource, emit, to_upper_unicode, error_text, sleep_seconds}
  open T use {new_exporter, new_resource, set_tracer_provider, shutdown_exporter}

  abbrev pub Fault : Type 0
  Fault = Failure P.Err T.Err

  -- `strings.ToUpper`
  unfoldable pub to_upper : Text → Text
  unfolding is_ascii
  to_upper s = if is_ascii s then map upper s else to_upper_unicode s

  -- The string of a variable of type `string`.
  abbrev text_of : Value P.Float → Text
  text_of (string_value s) = s
  text_of v = []

  -- `env.GetDefault(name, def)` at a string.
  unfoldable pub text_variable : Text → Text → Text × Option (EnvError P.Err)
  text_variable name def =
      let (v, e) = get_default P env name string_kind (string_value def) in (text_of v, e)

  -- `slog.New(slog.NewTextHandler(os.Stderr, &slog.HandlerOptions{Level: slog.LevelInfo}))`
  abbrev pub bootstrap_logger : Logger Fault
  bootstrap_logger = record { traced = false; add_source = false; level = level_info; attrs = [] }

  -- `errors.Join` of an error that may be nil and that of the level's name.
  abbrev join_invalid : Option (EnvError P.Err) → Text → Fault
  join_invalid none s = invalid_level s
  join_invalid (some e) s = joined e s

  -- `LogLevelFromEnv`. An error of `GetDefault` is dropped where the name is that of a level.
  unfoldable pub log_level_from_env : World → Level × World
  unfolding text_variable to_upper
  log_level_from_env w =
      let (raw, e) = text_variable (bytes "SHORTRACK_LOG_LEVEL") (bytes "INFO") in
      let s = to_upper raw in
      elim (level_named s) [
        | some l ↦ (l, w)
        | none ↦ (
          level_info,
          emit bootstrap_logger level_error
              (bytes "error encountered parsing log level, defaulting to INFO")
              (error_attr (join_invalid e s) ∷ []) w,
        )
      ]

  -- `NewLogger`
  unfoldable pub new_logger : World → Logger Fault × World
  new_logger w =
      let (l, w') = log_level_from_env w in
      (record { traced = true; add_source = true; level = l; attrs = [] }, w')

  abbrev or_todo : Option (Context Fault) → Context Fault
  or_todo none = []
  or_todo (some ctx) = ctx

  abbrev or_new_logger : Option (Logger Fault) → World → Logger Fault × World
  or_new_logger none w = new_logger w
  or_new_logger (some l) w = (l, w)

  -- `ContextWithLogger`, whose arguments may be nil.
  unfoldable pub context_with_logger :
      Option (Context Fault) → Option (Logger Fault) → World → Context Fault × World
  context_with_logger ctx logger w =
      let (l, w') = or_new_logger logger w in
      ((logger_context_key, held_logger (some l)) ∷ or_todo ctx, w')

  -- `LoggerFromContext`
  unfoldable pub logger_from_context : Option (Context Fault) → World → Logger Fault × World
  logger_from_context ctx w = or_new_logger (logger_value (or_todo ctx) logger_context_key) w
