-- ===== src/Config/Load.antt =====
-- LoadConfig and SetupLogger of internal/config/config.go. The packages viper and zap are
-- parameters.
use discord_proxy_rpc.Base.{
  ℕ, ◌≡◌, ◌≢◌, Bool, Option, none, some, List, [], Text, codes, text_eq, if◌then◌else◌, Result, ok,
  err, Result-cases, inl, inr, All, arith,
}
use discord_proxy_rpc.Config.{Config, ConfigError, defaults, config_file_search_paths, validate}
use discord_proxy_rpc.Config.Digits.{IsDigit, validate-valid}

-- What ReadInConfig finds in the directories that are searched.
pub data ConfigFile : Type 0 where
  found unreadable : Text → ConfigFile
  missing : ConfigFile

pub data LoadError : Type 0 where
  reading unmarshalling : Text → LoadError
  invalid : ConfigError → LoadError

-- `home` is the configuration directory below the home directory, and `unmarshal` overlays the
-- defaults with the file, if there is one, and the environment.
module _ (read_in_config : List Text → ConfigFile)
    (unmarshal : Config → Option Text → Result Text Config) where
  abbrev pub validated : Result Text Config → Result LoadError Config
  validated (err e) = err (unmarshalling e)
  validated (ok cfg) = elim (validate cfg) [ err e ↦ err (invalid e) | ok valid ↦ ok valid ]

  -- A missing file is no error.
  abbrev pub load_from : ConfigFile → Result LoadError Config
  load_from (unreadable e) = err (reading e)
  load_from missing = validated (unmarshal defaults none)
  load_from (found t) = validated (unmarshal defaults (some t))

  unfoldable pub load_config : Option Text → Result LoadError Config
  load_config home = load_from (read_in_config (config_file_search_paths home))

  validated-valid :
      (r : Result Text Config) (c : Config)
      → validated r ≡ ok c
      → (c.discord.client_id ≢ []) × All IsDigit c.discord.client_id × (validate c ≡ ok c)
  validated-valid (err e) c h = absurd (ground (arith, h))
  validated-valid (ok cfg) c h = elim (Result-cases (validate cfg)) [
    | inl (e, p) ↦ absurd (ground (arith, h, p))
    | inr (v, p) ↦
        let q : validate cfg ≡ ok c = ground (arith, h, p) in
        let (_, a, b, i) = validate-valid cfg c q in (a, b, i)
  ]

  -- A configuration that was loaded has a client id of digits, and is one that Validate accepts
  -- and leaves as it is.
  pub load_config-valid :
      (home : Option Text) (c : Config)
      → load_config home ≡ ok c
      → (c.discord.client_id ≢ []) × All IsDigit c.discord.client_id × (validate c ≡ ok c)
  unfolding load_config
  load_config-valid home c h = of_file (read_in_config (config_file_search_paths home)) h
    where
      of_file :
          (f : ConfigFile)
          → load_from f ≡ ok c
          → (c.discord.client_id ≢ []) × All IsDigit c.discord.client_id × (validate c ≡ ok c)
      of_file (unreadable e) p = absurd (ground (arith, p))
      of_file missing p = validated-valid (unmarshal defaults none) c p
      of_file (found t) p = validated-valid (unmarshal defaults (some t)) c p

-- A logger is given by its level and by what it is built for.
pub record LoggerConfig : Type 0 where
  pub level : ℕ
  pub is_development : Bool

pub data LoggerError : Type 0 where
  invalid_level : Text → LoggerError
  building : LoggerError

-- `build` tells whether Build succeeds.
module _ (unmarshal_level : Text → Option ℕ) (build : LoggerConfig → Bool) where
  abbrev pub setup_logger : Text → Text → Result LoggerError LoggerConfig
  setup_logger level format = elim (unmarshal_level level) [
    | none ↦ err (invalid_level level)
    | some lvl ↦
        let cfg : LoggerConfig = record {
          level = lvl;
          is_development = text_eq format (codes "console");
        } in
        if build cfg then ok cfg else err building
  ]
