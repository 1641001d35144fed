-- ===== src/Mdns.antt =====
-- internal/mdns/announce.go and internal/mdns/signal.go: the mDNS advertisement. zeroconf.Register
-- is a parameter: the handle of a server, or its error.
mod Registered
mod Examples
use discord_proxy_rpc.Base.{
  ℕ, ◌+◌, ◌-◌, ◌≡◌, Bool, true, false, not, ◌||◌, Option, none, some, List, [], ◌∷◌, Text, codes,
  is_nil, ℤ, pos, leb_ℤ, ltb_ℤ, if◌then◌else◌, Result, ok, err, ◌==◌,
}
use discord_proxy_rpc.Config.{MdnsConfig}

-- `live` are the servers that were registered and not shut down.
pub record Advertiser : Type 0 where
  pub server : Option ℕ
  pub cfg : MdnsConfig
  pub port : ℤ
  pub live : List ℕ

pub data MdnsError : Type 0 where
  invalid_port : ℤ → MdnsError
  already_advertising : MdnsError
  register_failed : Text → MdnsError

unfoldable pub new_advertiser : MdnsConfig → ℤ → Result MdnsError Advertiser
new_advertiser cfg port =
    if leb_ℤ port (pos 0) || ltb_ℤ (pos 65_535) port
    then err (invalid_port port)
    else ok (record {
      server = none;
      cfg =
          (if is_nil cfg.service_type
            then record cfg { service_type = codes "_discord-proxy._tcp" }
            else cfg);
      port = port;
      live = [];
    })

abbrev pub is_enabled : Advertiser → Bool
is_enabled a = a.cfg.enabled

-- The hostname, where os.Hostname finds one.
pub resolve_instance_name : Advertiser → Option Text → Text
resolve_instance_name a hostname =
    let fallback : Text = elim hostname [
      | none ↦ codes "discord-proxy"
      | some h ↦ if is_nil h then codes "discord-proxy" else h
    ] in
    if is_nil a.cfg.instance_name then fallback else a.cfg.instance_name

-- `register` answers for an instance, a service type and a port.
unfoldable pub advertise :
    (Text → Text → ℤ → Result Text ℕ) → Option Text → Advertiser → Advertiser × Option MdnsError
advertise register hostname a = if not (is_enabled a) then (a, none) else elim a.server [
  | some h ↦ (a, some already_advertising)
  | none ↦ elim (register (resolve_instance_name a hostname) a.cfg.service_type a.port) [
    | err e ↦ (a, some (register_failed e))
    | ok h ↦ (record a { server = some h; live = h ∷ a.live }, none)
  ]
]

abbrev pub remove_server : ℕ → List ℕ → List ℕ
remove_server h [] = []
remove_server h (j ∷ js) = let rest = remove_server h js in if j == h then rest else j ∷ rest

unfoldable pub shutdown : Advertiser → Advertiser
shutdown a = elim a.server [
  | none ↦ a
  | some h ↦ record a { server = none; live = remove_server h a.live }
]

-- deregisterOnSignal, once a signal came or the context is done: both shut the advertiser down.
pub deregister_on_signal : Advertiser → Advertiser
deregister_on_signal a = shutdown a
