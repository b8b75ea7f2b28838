-- ===== src/Tests/Telemetry.antt =====
-- Tests of the package `telemetry`.
use shortrack.Base.{◌≡◌, refl, true, Option, none, some, List, [], ◌∷◌}
use shortrack.Go.Text.{Text, bytes}
use shortrack.Host.{value}
use shortrack.Env.{Parsers}
use shortrack.Telemetry.{
  Tracing, Level, level_debug, level_info, level_warn, level_error, Logger, foreign_key, Fault,
  held_other, logger_value, text_variable, log_level_from_env, new_logger, context_with_logger,
  logger_from_context,
}
use shortrack.Telemetry.Laws.{
  new_logger-level_name, logger_from_context-context_with_logger, EqualFold,
}
use shortrack.Telemetry.Exporter.{start_telemetry}
use shortrack.Tests.Packages.{no_parsers}

-- A world that holds what has been printed, the last message first, and an OpenTelemetry whose
-- exporter cannot be made.
abbrev printing : Tracing no_parsers.Err
printing = record {
  World = List (Level × Text);
  Err = Unit {0};
  Exporter = Unit {0};
  Resource = Unit {0};
  Data = Text;
  marshal = value;
  emit = λ logger level msg attrs w. (level, msg) ∷ w;
  to_upper_unicode = λ s. s;
  error_text = λ e. [];
  sleep_seconds = λ n w. w;
  new_exporter = λ ctx endpoint w. ((none, some tt), w);
  new_resource = λ attrs w. ((tt, none), w);
  set_tracer_provider = λ x res w. w;
  shutdown_exporter = λ x ctx w. (none, w);
}

-- Every variable holds the text "wArN".
abbrev warn_everywhere : Text → Option Text
warn_everywhere name = some (bytes "wArN")

abbrev warning : Logger (Fault no_parsers printing warn_everywhere)
warning = record { traced = true; add_source = true; level = level_warn; attrs = [] }

warn_folded : EqualFold (bytes "wArN") (bytes "WARN")
unfolding shortrack.Telemetry.is_ascii bytes
warn_folded = (refl, refl)

new_logger-level_name_example :
    (log_level_from_env no_parsers printing warn_everywhere [] ≡ (level_warn, []))
    × (new_logger no_parsers printing warn_everywhere [] ≡ (warning, []))
unfolding shortrack.Telemetry.Laws.level_name
new_logger-level_name_example =
    new_logger-level_name no_parsers printing warn_everywhere level_warn (bytes "wArN") [] refl
      warn_folded

-- A level that does not exist is reported.
abbrev loud_everywhere : Text → Option Text
loud_everywhere name = some (bytes "loud")

loud_reported :
    (log_level_from_env no_parsers printing loud_everywhere []).1
    ≡ (level_error, bytes "error encountered parsing log level, defaulting to INFO") ∷ []
unfolding log_level_from_env shortrack.Telemetry.text_variable shortrack.Telemetry.to_upper
    shortrack.Telemetry.level_named shortrack.Telemetry.is_ascii shortrack.Env.get_default
    shortrack.Env.get bytes shortrack.Go.Text.text_eq
loud_reported = refl

-- An exporter that cannot be made is reported, and there is none to stop.
abbrev always_set : Text → Option Text
always_set name = some (bytes "info")

exporter_reported :
    (start_telemetry no_parsers printing always_set [] []).1
    ≡ (level_error, bytes "error setting up otlptrace")
      ∷ ((level_info, bytes "telemetry enabled") ∷ [])
unfolding start_telemetry text_variable new_logger log_level_from_env
    shortrack.Telemetry.level_named shortrack.Telemetry.to_upper shortrack.Telemetry.is_ascii
    shortrack.Env.get_default shortrack.Env.get bytes shortrack.Go.Text.text_eq
exporter_reported = refl
