-- ===== src/Core/Logging.antt =====
-- mangle-api-core/src/lib.rs: which log records go where, by `setup_logger`. Crate regex is a parameter:
-- whether a pattern matches a text somewhere.
mod Laws
mod Tests
use mangle_apis.Base.{ℕ, Bool, true, false, List, [], ◌∷◌, ◌++◌, not, ◌&&◌, ◌||◌, leb, ◌==◌}
use mangle_apis.Base.Text.{Text, bytes}

-- `log::Level`, from the most severe to the least, as numbers from 1; `LevelFilter::Off` is 0.
abbrev pub Level : Type 0
Level = ℕ

abbrev pub info : Level
info = 3

-- What the filters look at, and the message.
pub record Record : Type 0 where
  pub level : Level
  pub target : Text
  pub message : Text

-- `CRITICAL_LOG_LEVEL`, `STDERR_LOG_LEVEL`, `ROUTING_LOG_LEVEL`.
pub record Levels : Type 0 where
  pub critical : Level
  pub stderr : Level
  pub routing : Level

abbrev pub default_levels : Levels
default_levels = record { critical = info; stderr = info; routing = info }

-- What has been written.
pub record Logs : Type 0 where
  pub stderr : List Record
  pub stderr_file : List Record
  pub routing_file : List Record
  pub security_file : List Record

abbrev pub security : Text
security = bytes "suspicious_security"

abbrev pub routing_regex_raw : Text
routing_regex_raw = bytes "^(tower_http::trace|hyper::proto|mio|tracing|routing)"

-- `str::starts_with`.
unfoldable pub starts_with : Text → Text → Bool
starts_with [] s = true
starts_with (c ∷ prefix) [] = false
starts_with (c ∷ prefix) (d ∷ s) = let rest = starts_with prefix s in (c == d) && rest

-- A branch of the dispatch: it writes what its filter lets through.
abbrev pub chain : Bool → Record → List Record → List Record
chain true r log = log ++ r ∷ []
chain false r log = log

module _ (is_match : Text → Text → Bool) where
  -- `RegexSet::is_match` of the set of the two patterns.
  unfoldable pub non_stderr : Text → Bool
  non_stderr target = is_match routing_regex_raw target || is_match (bytes "^" ++ security) target

  unfoldable pub dispatch : Levels → Record → Logs → Logs
  dispatch levels r logs = record {
    stderr = chain (not (non_stderr r.target) && leb r.level levels.critical) r logs.stderr;
    stderr_file = chain (not (non_stderr r.target) && leb r.level levels.stderr) r logs.stderr_file;
    routing_file =
        chain (is_match routing_regex_raw r.target && leb r.level levels.routing) r
          logs.routing_file;
    security_file = chain (starts_with security r.target) r logs.security_file;
  }
