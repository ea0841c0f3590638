-- ===== src/Logger.antt =====
-- relayer/logger/zap.go: the logger that counts errors.
use tx_xrpl_token_migrator.Base.{List, [], ◌∷◌, ◌++◌}
use tx_xrpl_token_migrator.Base.Str.{Str}
use tx_xrpl_token_migrator.Metric.Recorder.{Recorder, increment_error}

-- The levels of the interface `Logger`.
pub data Level : Type 0 where
  debug info warn error : Level

-- `ZapLogger`: what it has written, and its recorder.
pub record ZapLogger : Type 0 where
  pub written : List (Level × Str)
  pub metric_recorder : Recorder

-- `Debug`, `Info` and `Warn` of the zap logger, and `Error`, which counts the error too.
unfoldable pub log : Level → Str → ZapLogger → ZapLogger
unfolding increment_error
log Level.error msg l = record {
  written = l.written ++ ((Level.error, msg) ∷ []);
  metric_recorder = increment_error l.metric_recorder;
}
log level msg l = record l { written = l.written ++ ((level, msg) ∷ []) }
