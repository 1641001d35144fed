-- ===== src/Config.antt =====
-- internal/config/config.go: the configuration, its defaults and what Validate accepts. How viper
-- reads files and the environment is not part of this.
pub mod Digits
pub mod Load
mod Examples
use discord_proxy_rpc.Base.{
  ℕ, ◌≡◌, Bool, true, false, not, ◌&&◌, ◌||◌, Option, none, some, List, [], ◌∷◌, Text, codes,
  is_nil, ℤ, pos, leb, if◌then◌else◌, Result, ok, err, all, trim_space,
}
use discord_proxy_rpc.Auth.{AuthConfig}

-- Durations are nanoseconds.
pub record DiscordConfig : Type 0 where
  pub client_id : Text
  pub auto_reconnect : Bool
  pub reconnect_base_interval : ℤ
  pub max_reconnect_interval : ℤ
  pub health_check_interval : ℤ
  pub health_check_timeout : ℤ
  pub coalesce_interval : ℤ

pub record ServerConfig : Type 0 where
  pub host : Text
  pub port : ℤ
  pub ws_path : Text
  pub read_timeout : ℤ
  pub write_timeout : ℤ
  pub max_ws_connections : ℤ
  pub rate_limit_per_ip : ℤ
  pub rate_limit_window : ℤ

pub record MdnsConfig : Type 0 where
  pub enabled : Bool
  pub instance_name : Text
  pub service_type : Text

pub record LoggingConfig : Type 0 where
  pub level : Text
  pub format : Text

pub record Config : Type 0 where
  pub discord : DiscordConfig
  pub server : ServerConfig
  pub auth : AuthConfig
  pub mdns : MdnsConfig
  pub logging : LoggingConfig
  pub metrics_enabled : Bool

-- setDefaults.
unfoldable pub defaults : Config
defaults = record {
  discord = record {
    client_id = [];
    auto_reconnect = true;
    reconnect_base_interval = pos 5_000_000_000;
    max_reconnect_interval = pos 60_000_000_000;
    health_check_interval = pos 30_000_000_000;
    health_check_timeout = pos 10_000_000_000;
    coalesce_interval = pos 5_000_000_000;
  };
  server = record {
    host = codes "0.0.0.0";
    port = pos 8_765;
    ws_path = codes "/ws";
    read_timeout = pos 10_000_000_000;
    write_timeout = pos 10_000_000_000;
    max_ws_connections = pos 100;
    rate_limit_per_ip = pos 10;
    rate_limit_window = pos 60_000_000_000;
  };
  auth = record { enabled = false; token = [] };
  mdns = record { enabled = true; instance_name = []; service_type = codes "_discord-proxy._tcp" };
  logging = record { level = codes "info"; format = codes "json" };
  metrics_enabled = false;
}

-- The directories that are searched, given the one below the home directory, .config and
-- discord-proxy-rpc, where os.UserHomeDir finds a home.
pub config_file_search_paths : Option Text → List Text
config_file_search_paths none = codes "." ∷ codes "/etc/discord-proxy-rpc" ∷ []
config_file_search_paths (some dir) = codes "." ∷ dir ∷ codes "/etc/discord-proxy-rpc" ∷ []

pub data ConfigError : Type 0 where
  client_id_required : ConfigError
  not_digits : Text → ConfigError

-- A rune outside '0' to '9' has a byte outside them, and conversely.
abbrev pub is_digit : ℕ → Bool
is_digit b = leb b'0' b && leb b b'9'

-- Validate, which trims the client id.
unfoldable pub validate : Config → Result ConfigError Config
validate c =
    let id = trim_space c.discord.client_id in
    if is_nil id
    then err client_id_required
    else if not (all is_digit id)
    then err (not_digits id)
    else ok (record c { discord = record c.discord { client_id = id } })
