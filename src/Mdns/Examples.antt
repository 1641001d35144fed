-- ===== src/Mdns/Examples.antt =====
-- An advertiser that starts, is started again, and is shut down.
use discord_proxy_rpc.Base.{
  ℕ, ◌≡◌, refl, true, none, some, [], ◌∷◌, Text, codes, ℤ, pos, Result, ok, err,
}
use discord_proxy_rpc.Config.{MdnsConfig}
use discord_proxy_rpc.Mdns.{
  Advertiser, invalid_port, already_advertising, new_advertiser, resolve_instance_name, advertise,
  shutdown,
}

abbrev settings : MdnsConfig
settings = record { enabled = true; instance_name = []; service_type = codes "_x._tcp" }

abbrev advertiser : Advertiser
advertiser = record { server = none; cfg = settings; port = pos 8_765; live = [] }

abbrev registering : Text → Text → ℤ → Result Text ℕ
registering name service port = ok 7

made : new_advertiser settings (pos 8_765) ≡ ok advertiser
unfolding new_advertiser
made = refl

port_refused : new_advertiser settings (pos 65_536) ≡ err (invalid_port (pos 65_536))
unfolding new_advertiser
port_refused = refl

hostname_used : resolve_instance_name advertiser (some (codes "den")) ≡ codes "den"
unfolding resolve_instance_name
hostname_used = refl

advertised_twice :
    advertise registering none (advertise registering none advertiser).0
    ≡ (record advertiser { server = some 7; live = 7 ∷ [] }, some already_advertising)
unfolding advertise
advertised_twice = refl

advertiser_shut : shutdown (advertise registering none advertiser).0 ≡ advertiser
unfolding advertise shutdown
advertiser_shut = refl
