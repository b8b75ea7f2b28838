-- ===== src/Telemetry/Exporter.antt =====
-- `SlogJSON`, `OtelJSON`, `Error`, `StartTelemetry` and `Shutdown` of
-- `pkg/telemetry/telemetry.go`.
use shortrack.Base.{◌≡◌, arith, Option, none, some, List, [], ◌∷◌, ◌++◌, if◌then◌else◌}
use shortrack.Go.Text.{Text, bytes, text_eq}
use shortrack.Host.{Returned, value, failed}
use shortrack.Env.{Parsers, EnvError, get, get_default}
use shortrack.Telemetry.{
  Tracing, Logger, Context, Attr, string_attr, error_attr, library, variable, level_debug,
  level_info, level_error, new_logger, text_variable, Fault,
}

-- `TelemetryStuff`
pub record TelemetryStuff (C L X : Type 0) : Type 0 where
  pub context : C
  pub logger : L
  pub otlp_exporter : Option X

module _ (P : Parsers) (T : Tracing P.Err) (env : Text → Option Text) where
  open T use {World, Err, Exporter, Resource, Data, marshal, error_text, emit, sleep_seconds}
  open T use {new_exporter, new_resource, set_tracer_provider, shutdown_exporter}

  abbrev Problem : Type 0
  Problem = Fault P T env

  abbrev pub Stuff : Type 0
  Stuff = TelemetryStuff (Context Problem) (Logger Problem) Exporter

  -- The text of `SlogJSON` and `OtelJSON`, from the result of `json.Marshal`.
  abbrev json_text : Returned Err Text → Text
  json_text (value text) = text
  json_text (failed e) = bytes "err!" ++ error_text e

  -- `SlogJSON`
  unfoldable pub slog_json : Text → Data → Attr Problem
  slog_json key data_value = string_attr key (json_text (marshal data_value))

  -- `OtelJSON`
  unfoldable pub otel_json : Text → Data → Attr Problem
  otel_json key data_value = string_attr key (json_text (marshal data_value))

  -- `Error`
  abbrev pub error : Problem → Attr Problem
  error e = error_attr e

  -- `logger.With(attr)`
  abbrev with_attr : Attr Problem → Logger Problem → Logger Problem
  with_attr a l = record l { attrs = l.attrs ++ (a ∷ []) }

  -- A message without attributes.
  abbrev debug : Stuff → Text → World → World
  debug ts msg = emit ts.logger level_debug msg []

  abbrev emit_library : Logger Problem → Text → Option Err → World → World
  emit_library l msg none w = w
  emit_library l msg (some e) w = emit l level_error msg (error_attr (library e) ∷ []) w

  abbrev emit_variable : Logger Problem → Option (EnvError P.Err) → World → World
  emit_variable l none w = w
  emit_variable l (some e) w =
      emit l level_error (bytes "error getting otel OTLP endpoint") (error_attr (variable e) ∷ []) w

  stopped : Stuff → Option Err × World → World
  stopped ts (e, w) =
      debug ts (bytes "OTLP exporter stopped")
        (emit_library ts.logger (bytes "error shutting down OTLP exporter") e w)

  -- `Shutdown`, from the test of the exporter on.
  stop_exporter : Stuff → Option Exporter → World → World
  unfolding stopped
  stop_exporter ts none w = w
  stop_exporter ts (some x) w = stopped ts (
      shutdown_exporter x ts.context
        (sleep_seconds 10 (debug ts (bytes "stopping OTLP exporter") w)))

  -- `Shutdown`
  unfoldable pub shutdown : Stuff → World → World
  unfolding stop_exporter
  shutdown ts w = stop_exporter ts ts.otlp_exporter (debug ts (bytes "stopping telemetry") w)

  -- The attributes of `resource.New`.
  abbrev pub service_attributes : List (Attr Problem)
  service_attributes =
      string_attr (bytes "service.name") (bytes "shortrack")
      ∷ (string_attr (bytes "library.language") (bytes "go") ∷ [])

  -- What follows `resource.New`.
  provided : Stuff → (Resource × Option Err) × World → Stuff × World
  provided ts ((res, some e), w) =
      (ts, emit_library ts.logger (bytes "error setting up otel resource") (some e) w)
  provided ts ((res, none), w) = (ts, set_tracer_provider ts.otlp_exporter res w)

  -- What follows `otlptrace.New`, whose pointer is kept whatever the error.
  exported : Stuff → (Option Exporter × Option Err) × World → Stuff × World
  unfolding provided
  exported ts ((x, some e), w) = (
    record ts { otlp_exporter = x },
    emit_library ts.logger (bytes "error setting up otlptrace") (some e) w,
  )
  exported ts ((x, none), w) =
      provided (record ts { otlp_exporter = x }) (new_resource service_attributes w)

  -- The branch where there is an endpoint.
  enabled : Stuff → Text → World → Stuff × World
  unfolding exported
  enabled ts endpoint w =
      let named = record ts {
        logger = with_attr (string_attr (bytes "otlp_endpoint") endpoint) ts.logger;
      } in
      exported named (
        new_exporter named.context endpoint
          (emit named.logger level_info (bytes "telemetry enabled") [] w))

  -- `StartTelemetry`
  unfoldable pub start_telemetry : Context Problem → World → Stuff × World
  unfolding enabled
  start_telemetry ctx w =
      let (l, w') = new_logger P T env w in
      let ts : Stuff = record { context = ctx; logger = l; otlp_exporter = none } in
      let (endpoint, e) = text_variable P T env (bytes "OTEL_EXPORTER_OTLP_ENDPOINT") [] in
      let reported = emit_variable l e w' in
      if text_eq endpoint []
      then (ts, debug ts (bytes "telemetry disabled") reported)
      else enabled ts endpoint reported

  -- Where OTEL_EXPORTER_OTLP_ENDPOINT is not set or empty, `StartTelemetry` answers no exporter,
  -- and with the `Shutdown` of its answer it does no more than make a logger and print with it:
  -- OpenTelemetry is not called, and `Shutdown` does not wait.
  pub shutdown-start_telemetry :
      (ctx : Context Problem) (w : World)
      → (text_variable P T env (bytes "OTEL_EXPORTER_OTLP_ENDPOINT") []).0 ≡ []
      → let (l, made) = new_logger P T env w in
        let (ts, w') = start_telemetry ctx w in
        (ts.otlp_exporter ≡ none)
        × (shutdown ts w'
            ≡ emit l level_debug
                (bytes "stopping telemetry")
                []
                (emit l level_debug (bytes "telemetry disabled") [] made))
  unfolding start_telemetry shutdown text_variable text_eq get_default get
  shutdown-start_telemetry ctx w empty = ground arith
