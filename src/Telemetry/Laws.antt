-- ===== src/Telemetry/Laws.antt =====
-- The level that the environment sets, and the logger that a context carries.
use shortrack.Base.{
  ℕ, ◌≡◌, refl, sym, ap, ◌∙◌, ◌+◌, true, false, ◌&&◌, Option, none, some, [], ◌∷◌, map, leb,
  if◌then◌else◌, arith,
}
use shortrack.Go.Text.{Text, bytes, text_eq}
use shortrack.Env.{Parsers, get_default, get}
use shortrack.Telemetry.{
  Tracing, Level, level_debug, level_info, level_warn, level_error, Logger, Context, Key, same_key,
  logger_context_key, logger_value, upper, is_ascii, level_named, to_upper, text_variable,
  log_level_from_env, new_logger, context_with_logger, logger_from_context, Fault,
}

-- `Level.String` of `log/slog`
unfoldable pub level_name : Level → Text
level_name level_debug = bytes "DEBUG"
level_name level_info = bytes "INFO"
level_name level_warn = bytes "WARN"
level_name level_error = bytes "ERROR"

abbrev lower : ℕ → ℕ
lower c = if leb b'A' c && leb c b'Z' then c + 32 else c

-- `strings.EqualFold` on ASCII text.
abbrev pub EqualFold : Text → Text → Type 0
EqualFold s t = (is_ascii s ≡ true) × (map lower s ≡ map lower t)

upper-lower : (c : ℕ) → upper (lower c) ≡ upper c
upper-lower c = ground arith

map-upper : (s : Text) → map upper (map lower s) ≡ map upper s
map-upper [] = refl
map-upper (c ∷ s) = rw (upper-lower c, map-upper s) refl

upper-level_name : (l : Level) → map upper (map lower (level_name l)) ≡ level_name l
unfolding level_name bytes
upper-level_name level_debug = refl
upper-level_name level_info = refl
upper-level_name level_warn = refl
upper-level_name level_error = refl

level_named-level_name : (l : Level) → level_named (level_name l) ≡ some l
unfolding level_named level_name bytes text_eq
level_named-level_name level_debug = refl
level_named-level_name level_info = refl
level_named-level_name level_warn = refl
level_named-level_name level_error = refl

module _ (P : Parsers) (T : Tracing P.Err) (env : Text → Option Text) where
  text_variable-some :
      (name def raw : Text) → env name ≡ some raw → text_variable P T env name def ≡ (raw, none)
  unfolding text_variable get_default get
  text_variable-some name def raw held = ground arith

  to_upper-EqualFold :
      (s : Text) (l : Level) → EqualFold s (level_name l) → to_upper P T env s ≡ level_name l
  unfolding to_upper
  to_upper-EqualFold s l (ascii, same) =
      rw ascii (sym (map-upper s) ∙ ap (map upper) same ∙ upper-level_name l)

  -- Where SHORTRACK_LOG_LEVEL holds the name of a level, in any mix of upper and lower case,
  -- `LogLevelFromEnv` answers that level and prints nothing, and a new logger has it.
  pub new_logger-level_name :
      (l : Level) (raw : Text) (w : T.World)
      → env (bytes "SHORTRACK_LOG_LEVEL") ≡ some raw
      → EqualFold raw (level_name l)
      → (log_level_from_env P T env w ≡ (l, w))
        × (new_logger P T env w
            ≡ (record { traced = true; add_source = true; level = l; attrs = [] }, w))
  unfolding new_logger log_level_from_env
  new_logger-level_name l raw w held same =
      let shown = text_variable-some (bytes "SHORTRACK_LOG_LEVEL") (bytes "INFO") raw held in
      let shouted = to_upper-EqualFold raw l same in
      let named = level_named-level_name l in ground arith

  -- `LoggerFromContext` gets back from the result of `ContextWithLogger`, whose arguments may be
  -- nil, the logger that was given, or else the one that was made there; it makes no other. What
  -- the context holds under any other key is not changed.
  pub logger_from_context-context_with_logger :
      (ctx : Option (Context (Fault P T env))) (given : Option (Logger (Fault P T env)))
      (w : T.World) (key : Key)
      → same_key logger_context_key key ≡ false
      → let (inner, w') = context_with_logger P T env ctx given w in
        (logger_from_context P T env (some inner) w'
          ≡ (elim given [ none ↦ (new_logger P T env w).0 | some l ↦ l ], w'))
        × (logger_value inner key ≡ elim ctx [ none ↦ none | some outer ↦ logger_value outer key ])
  unfolding context_with_logger logger_from_context logger_value text_eq bytes
  logger_from_context-context_with_logger none none w key other = rw other (refl, refl)
  logger_from_context-context_with_logger none (some l) w key other = rw other (refl, refl)
  logger_from_context-context_with_logger (some c) none w key other = rw other (refl, refl)
  logger_from_context-context_with_logger (some c) (some l) w key other = rw other (refl, refl)
