-- ===== src/Config.antt =====
-- internal/config/config.go: the configuration that every node runs with. Durations, integers, their
-- parsers and the environment are parameters; "" stands for a variable that is not set.
use text.Mathlib.Text.{◌==◌ as str_eq}
use suffren.Base.{ℕ, Option, none, some, String, if◌then◌else◌}

pub record Parsers (Duration Int : Type 0) : Type 0 where
  pub milliseconds : ℕ → Duration
  pub int : ℕ → Int
  pub parse_duration : String → Option Duration
  pub atoi : String → Option Int

pub record EngineConfig (Duration Int : Type 0) : Type 0 where
  pub round_timeout : Duration
  pub startup_sync_timeout : Duration
  pub batch_timeout : Duration
  pub max_batch_size : Int
  pub snapshot_interval : Duration

pub record Config (Duration Int : Type 0) : Type 0 where
  pub engine : EngineConfig Duration Int
  pub msg_chan_size : Int

module _ {Duration Int : Type 0} (go : Parsers Duration Int) where
  abbrev pub built_in : Config Duration Int
  built_in = record {
    engine = record {
      round_timeout = go.milliseconds 2000;
      startup_sync_timeout = go.milliseconds 20000;
      batch_timeout = go.milliseconds 1;
      max_batch_size = go.int 100;
      snapshot_interval = go.milliseconds 5000;
    };
    msg_chan_size = go.int 1024;
  }

  -- A variable that is set and parses replaces the value, and any other does not.
  unfoldable pub override : {A : Type 0} → (String → Option A) → String → A → A
  override parse text value =
      if str_eq text "" then value else elim (parse text) [ some parsed ↦ parsed | none ↦ value ]

  unfoldable pub default_config : (String → String) → Config Duration Int
  unfolding override
  default_config getenv = record built_in {
    engine = record built_in.engine {
      batch_timeout =
          override go.parse_duration (getenv "SUFFREN_BATCH_TIMEOUT") built_in.engine.batch_timeout;
      max_batch_size =
          override go.atoi (getenv "SUFFREN_BATCH_SIZE") built_in.engine.max_batch_size;
    };
  }

  -- `LoadConfig`, by what the reading of the file and its JSON give; `none` is an error.
  abbrev pub load_config :
      {File : Type 0}
      → Option File
      → (File → Option (Config Duration Int))
      → Option (Config Duration Int)
  load_config none unmarshal = none
  load_config (some file) unmarshal = unmarshal file
