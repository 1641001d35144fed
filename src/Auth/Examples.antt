-- ===== src/Auth/Examples.antt =====
-- Requests that present the token "s3cret".
use discord_proxy_rpc.Base.{
  ◌≡◌, ◌↔◌, refl, true, false, none, some, [], ◌∷◌, All, Text, codes, pos, trim_space, drop_spaces,
  arith,
}
use discord_proxy_rpc.Auth.{
  Request, AuthConfig, set_auth_cookie, bearer_auth, extract_token, extract_bearer_token,
  extract_subprotocol_token, subprotocol_token, extract_cookie_token, decode_auth_cookie_value,
  extract_query_token,
}
use discord_proxy_rpc.Auth.Base64.{encode, decode, chars, sextets, read_chars, bytes, IsByte}
use discord_proxy_rpc.Auth.Tokens.{
  IsToken, by_header, presented_token_decides, extract_cookie_token-set_auth_cookie,
}

abbrev secret : Text
secret = codes "s3cret"

abbrev config : AuthConfig
config = record { enabled = true; token = secret }

abbrev plain : Request
plain = record {
  path = codes "/";
  content_length = pos 0;
  remote_addr = codes "10.0.0.1:5000";
  tls = false;
  authorization = [];
  websocket_protocol = [];
  cookie = none;
  query_token = [];
}

abbrev with_header : Request
with_header = record plain { authorization = codes "bEARER s3cret" }

encoded : encode secret ≡ codes "czNjcmV0"
unfolding encode chars sextets
encoded = refl

short_refused : decode (codes "c") ≡ none
unfolding decode read_chars bytes
short_refused = refl

header_read : extract_token with_header ≡ secret
unfolding extract_token extract_bearer_token trim_space drop_spaces
header_read = refl

none_presented : bearer_auth config plain ≡ false
unfolding bearer_auth extract_token extract_bearer_token extract_subprotocol_token
    extract_cookie_token extract_query_token trim_space drop_spaces
none_presented = refl

second_protocol :
    extract_subprotocol_token
      (record plain { websocket_protocol = codes "chat, proxy-token-czNjcmV0" })
    ≡ secret
unfolding extract_subprotocol_token subprotocol_token trim_space drop_spaces
    decode_auth_cookie_value decode read_chars bytes
second_protocol = refl

-- A token of bytes that base64 needs its last two digits for, and that starts with a space.
abbrev odd_token : Text
odd_token = 32 ∷ 251 ∷ 255 ∷ []

odd_token-bytes : All IsByte odd_token
odd_token-bytes = ground arith

extract_cookie_token-set_auth_cookie_example :
    extract_cookie_token (record plain { cookie = some (set_auth_cookie plain odd_token).value })
    ≡ odd_token
extract_cookie_token-set_auth_cookie_example =
    extract_cookie_token-set_auth_cookie plain plain odd_token odd_token-bytes

secret-IsToken : IsToken secret
secret-IsToken = record { bytes = ground arith; present = cc; front = refl; back = refl }

presented_token_decides_example : (bearer_auth config with_header ≡ true) ↔ (secret ≡ config.token)
presented_token_decides_example =
    presented_token_decides config with_header secret refl secret-IsToken
      (by_header (codes "bEARER") refl refl)
