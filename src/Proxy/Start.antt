-- ===== src/Proxy/Start.antt =====
-- `main` of cmd/proxy/main.go up to the HTTP server: what it needs to start, and each failure that
-- ends it. A failed first connection to Discord is not one: it is only logged.
use discord_proxy_rpc.Base.{
  ℕ, ◌≡◌, ◌≢◌, sym, ap, ◌∙◌, Bool, true, Bool-cases, inl, inr, Option, none, some, is_some, List,
  [], ◌++◌, Text, codes, ℤ, show_int, if◌then◌else◌, Result, ok, err, Result-cases, All, subst,
  arith,
}
use discord_proxy_rpc.Config.{Config}
use discord_proxy_rpc.Config.Digits.{IsDigit}
use discord_proxy_rpc.Config.Load.{
  ConfigFile, LoadError, LoggerConfig, LoggerError, load_config, load_config-valid, setup_logger,
}
use discord_proxy_rpc.Mdns.{Advertiser, MdnsError, new_advertiser, advertise}
use discord_proxy_rpc.Http.{ServerOption}
use discord_proxy_rpc.Proxy.{server_options}

data StartError : Type 0 where
  loading : LoadError → StartError
  logging : LoggerError → StartError
  advertising : MdnsError → StartError

-- The packages viper, zap and zeroconf, and the host.
record Host : Type 0 where
  pub read_in_config : List Text → ConfigFile
  pub unmarshal : Config → Option Text → Result Text Config
  pub unmarshal_level : Text → Option ℕ
  pub build : LoggerConfig → Bool
  pub register_service : Text → Text → ℤ → Result Text ℕ
  pub hostname : Option Text
  pub home : Option Text

record Started : Type 0 where
  pub config : Config
  pub logger : LoggerConfig
  pub options : List ServerOption
  pub addr : Text
  pub advertiser : Option Advertiser

module _ (host : Host) where
  abbrev advertised : Advertiser × Option MdnsError → Result StartError (Option Advertiser)
  advertised (adv, none) = ok (some adv)
  advertised (adv, some e) = err (advertising e)

  abbrev advertise_with : Result MdnsError Advertiser → Result StartError (Option Advertiser)
  advertise_with (err e) = err (advertising e)
  advertise_with (ok adv) = advertised (advertise host.register_service host.hostname adv)

  abbrev start_mdns : Config → Result StartError (Option Advertiser)
  start_mdns cfg =
      if cfg.mdns.enabled then advertise_with (new_advertiser cfg.mdns cfg.server.port) else ok none

  abbrev started : Config → LoggerConfig → Option Advertiser → Started
  started cfg logger adv = record {
    config = cfg;
    logger = logger;
    options = server_options cfg;
    addr = cfg.server.host ++ (codes ":" ++ show_int cfg.server.port);
    advertiser = adv;
  }

  abbrev start_logged : Config → Result LoggerError LoggerConfig → Result StartError Started
  start_logged cfg (err e) = err (logging e)
  start_logged cfg (ok logger) = elim (start_mdns cfg) [
    | err e ↦ err e
    | ok adv ↦ ok (started cfg logger adv)
  ]

  abbrev start_loaded : Result LoadError Config → Result StartError Started
  start_loaded (err e) = err (loading e)
  start_loaded (ok cfg) =
      start_logged cfg
        (setup_logger host.unmarshal_level host.build cfg.logging.level cfg.logging.format)

  start : Result StartError Started
  start = start_loaded (load_config host.read_in_config host.unmarshal host.home)

  -- What holds of a proxy that started with a configuration.
  abbrev Runs : Config → Started → Type 0
  Runs cfg s =
      (s.config ≡ cfg)
      × (s.options ≡ server_options cfg)
      × (is_some s.advertiser ≡ cfg.mdns.enabled)

  advertised-some :
      (r : Advertiser × Option MdnsError) (o : Option Advertiser)
      → advertised r ≡ ok o
      → is_some o ≡ true
  advertised-some (adv, none) o h = ground (arith, h)
  advertised-some (adv, some e) o h = absurd (ground (arith, h))

  advertise_with-some :
      (r : Result MdnsError Advertiser) (o : Option Advertiser)
      → advertise_with r ≡ ok o
      → is_some o ≡ true
  advertise_with-some (err e) o h = absurd (ground (arith, h))
  advertise_with-some (ok adv) o h =
      advertised-some (advertise host.register_service host.hostname adv) o h

  start_mdns-enabled :
      (cfg : Config) (o : Option Advertiser) → start_mdns cfg ≡ ok o → is_some o ≡ cfg.mdns.enabled
  start_mdns-enabled cfg o h = elim (Bool-cases cfg.mdns.enabled) [
    | inl e ↦
        advertise_with-some (new_advertiser cfg.mdns cfg.server.port) o (ground (arith, h, e))
        ∙ sym e
    | inr e ↦ ground (arith, h, e)
  ]

  start_logged-Runs :
      (cfg : Config) (r : Result LoggerError LoggerConfig) (s : Started)
      → start_logged cfg r ≡ ok s
      → Runs cfg s
  start_logged-Runs cfg (err e) s h = absurd (ground (arith, h))
  start_logged-Runs cfg (ok logger) s h = elim (Result-cases (start_mdns cfg)) [
    | inl (e, p) ↦ absurd (ground (arith, h, p))
    | inr (adv, p) ↦
        let q : started cfg logger adv ≡ s = ground (arith, h, p) in
        (
          sym (ap (λ x. x.config) q),
          sym (ap (λ x. x.options) q),
          sym (ap (λ x. is_some x.advertiser) q) ∙ start_mdns-enabled cfg adv p,
        )
  ]

  -- A proxy that has started has a client id of digits and the options of its own configuration,
  -- and is advertised exactly when its configuration enables that.
  start-runs :
      (s : Started)
      → start ≡ ok s
      → (s.config.discord.client_id ≢ [])
        × All IsDigit s.config.discord.client_id
        × (s.options ≡ server_options s.config)
        × (is_some s.advertiser ≡ s.config.mdns.enabled)
  unfolding start
  start-runs s h = elim (Result-cases (load_config host.read_in_config host.unmarshal host.home)) [
    | inl (e, p) ↦ absurd (ground (arith, sym (ap start_loaded p) ∙ h))
    | inr (cfg, p) ↦
        let (q, o, m) =
          start_logged-Runs cfg
            (setup_logger host.unmarshal_level host.build cfg.logging.level cfg.logging.format) s
            (sym (ap start_loaded p) ∙ h) in
        let (n, d, _) = load_config-valid host.read_in_config host.unmarshal host.home cfg p in
        (
          subst (λ (c : Config). c.discord.client_id ≢ []) (sym q) n,
          subst (λ (c : Config). All IsDigit c.discord.client_id) (sym q) d,
          o ∙ ap server_options (sym q),
          m ∙ ap (λ c. c.mdns.enabled) (sym q),
        )
  ]
