-- ===== src/Http/Examples.antt =====
-- A server with a token and a limit of two upgrades per window of 100, and the theorems at it.
use discord_proxy_rpc.Base.{
  Option, All, cut, ◌++◌, ◌≤◌, ◌≡◌, ◌↔◌, refl, true, false, none, some, List, [], ◌∷◌, Text, codes,
  text_eq, pos, trim_space, drop_spaces, arith,
}
use discord_proxy_rpc.Activity.{source_none}
use discord_proxy_rpc.RateLimit.{new_rate_limiter, run}
use discord_proxy_rpc.RateLimit.Window.{allowance}
use discord_proxy_rpc.Connections.{succeeds}
use discord_proxy_rpc.Auth.{
  Request, AuthConfig, bearer_auth, extract_token, extract_bearer_token, extract_subprotocol_token,
  extract_cookie_token, extract_query_token, encode_auth_cookie_value, set_auth_cookie,
}
use discord_proxy_rpc.Auth.Base64.{encode}
use discord_proxy_rpc.Auth.Tokens.{IsToken}
use discord_proxy_rpc.Http.{
  Server, with_ws_path, apply_options, new_server, Moment, dashboard, serve_http, dispatch,
  require_auth, match_route, extract_ip, serve_dashboard_index, replace_first, escape_string,
}
use discord_proxy_rpc.Http.Gate.{
  IsRefusal, cookie_value, unauthorized_sees_nothing, cookie_keeps_query_token,
}
use discord_proxy_rpc.Http.Upgrades.{Arrival, IsFromPeer, reached, upgrades_bounded}

abbrev secret : Text
secret = codes "s3cret"

abbrev config : AuthConfig
config = record { enabled = true; token = secret }

abbrev server : Server
server = record {
  auth = some config;
  ws_path = codes "/ws";
  rate_limiter = some (run (new_rate_limiter (pos 2) (pos 100)) []);
  ws_handler = record { tracker = none };
  metrics = false;
}

abbrev plain : Request
plain = record {
  path = codes "/api/presence";
  content_length = pos 0;
  remote_addr = codes "10.0.0.1:5000";
  tls = false;
  authorization = [];
  websocket_protocol = [];
  cookie = none;
  query_token = [];
}

abbrev moment : Moment
moment = record {
  now = 10;
  stamp = 11;
  upgrade = succeeds;
  current = record { source = source_none; activity = none };
  ipc_state = codes "connected";
  index = some (codes "<p>__WS_PATH__</p>");
  split_host_port = λ addr. some (codes "10.0.0.1");
}

path_injected :
    serve_dashboard_index (record server { ws_path = codes "/a&b" }) moment
    ≡ dashboard (codes "<p>/a&amp;b</p>")
unfolding serve_dashboard_index replace_first escape_string
path_injected = refl

ip_without_port :
    extract_ip (record moment { split_host_port = λ addr. none }) (codes "[::1]") ≡ codes "::1"
unfolding extract_ip
ip_without_port = refl

-- The path of a health endpoint cannot be that of the upgrades.
taken_path : new_server (with_ws_path (codes "/health") ∷ []) ≡ none
unfolding new_server apply_options text_eq
taken_path = refl

plain_refused : bearer_auth config plain ≡ false
unfolding bearer_auth extract_token extract_bearer_token extract_subprotocol_token
    extract_cookie_token extract_query_token trim_space drop_spaces
plain_refused = refl

unauthorized_sees_nothing_example : IsRefusal server (serve_http server moment plain)
unauthorized_sees_nothing_example =
    unauthorized_sees_nothing server moment plain config refl plain_refused

-- The header has the right token and the URL a wrong one.
abbrev wrong_in_url : Request
wrong_in_url = record plain { authorization = codes "Bearer s3cret"; query_token = codes "wrong" }

abbrev with_cookie : Request
with_cookie = record plain { cookie = some (encode (codes "wrong")) }

header_accepted : bearer_auth config wrong_in_url ≡ true
unfolding bearer_auth extract_token extract_bearer_token trim_space drop_spaces text_eq
header_accepted = refl

wrong-IsToken : IsToken (codes "wrong")
wrong-IsToken = record { bytes = ground arith; present = cc; front = refl; back = refl }

cookie_given : with_cookie.cookie ≡ cookie_value (serve_http server moment wrong_in_url)
unfolding serve_http dispatch require_auth match_route text_eq bearer_auth extract_token
    extract_bearer_token extract_query_token set_auth_cookie encode_auth_cookie_value trim_space
    drop_spaces
cookie_given = refl

no_header : extract_bearer_token with_cookie ≡ []
unfolding extract_bearer_token
no_header = refl

no_protocol : extract_subprotocol_token with_cookie ≡ []
unfolding extract_subprotocol_token
no_protocol = refl

cookie_keeps_query_token_example :
    (bearer_auth config with_cookie ≡ true) ↔ (codes "wrong" ≡ config.token)
unfolding match_route text_eq
cookie_keeps_query_token_example =
    cookie_keeps_query_token server moment wrong_in_url with_cookie config (codes "wrong") refl refl
      header_accepted refl tt wrong-IsToken refl no_header no_protocol cookie_given

-- A host without a colon ends at the first one.
abbrev split_at_colon : Text → Option Text
split_at_colon addr = elim (cut b':' addr) [ none ↦ none | some parts ↦ some parts.0 ]

-- An upgrade from a port of 10.0.0.1, and what the server reads meanwhile.
abbrev from_port : Text → Arrival
from_port port = record {
  moment = record moment { split_host_port = split_at_colon };
  request = record plain { path = codes "/ws"; remote_addr = codes "10.0.0.1:" ++ port };
  host = codes "10.0.0.1";
  port = port;
}

abbrev arrivals : List Arrival
arrivals = from_port (codes "5000") ∷ from_port (codes "5001") ∷ from_port (codes "5002") ∷ []

from_peers : All IsFromPeer arrivals
from_peers = ((refl, refl), ((refl, refl), ((refl, refl), tt)))

upgrades_bounded_example : reached (codes "10.0.0.1") server arrivals ≤ allowance (pos 2)
upgrades_bounded_example =
    upgrades_bounded (codes "10.0.0.1") server (pos 2) 100 0 [] arrivals refl from_peers
      (ground arith)
