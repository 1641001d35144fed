-- ===== src/Auth.antt =====
-- internal/server/auth.go: the bearer token of a request, from four sources.
pub mod Base64
pub mod Tokens
mod Subprotocol
mod Examples
use discord_proxy_rpc.Base.{
  ℕ, ◌≡◌, Bool, true, false, not, Option, none, some, List, [], ◌∷◌, ◌++◌, Text, codes, text_eq, ℤ,
  is_nil, if◌then◌else◌, cut, split, strip_prefix, trim_space, equal_fold,
}
use discord_proxy_rpc.Auth.Base64.{encode, decode}

-- What the server reads of a request. A header is "" where it is absent; `cookie` is the value of the
-- first cookie named proxy-rpc-token, and `query_token` that of the first `token` of the query, both
-- as net/http parsed them.
pub record Request : Type 0 where
  pub path : Text
  pub content_length : ℤ
  pub remote_addr : Text
  pub tls : Bool
  pub authorization : Text
  pub websocket_protocol : Text
  pub cookie : Option Text
  pub query_token : Text

pub record AuthConfig : Type 0 where
  pub enabled : Bool
  pub token : Text

abbrev pub subprotocol_token_prefix : Text
subprotocol_token_prefix = codes "proxy-token-"

-- 15 minutes, in seconds.
abbrev pub auth_cookie_max_age : ℕ
auth_cookie_max_age = 900

unfoldable pub extract_bearer_token : Request → Text
extract_bearer_token r = elim (cut b' ' r.authorization) [
  | none ↦ []
  | some parts ↦ if equal_fold parts.0 (codes "bearer") then trim_space parts.1 else []
]

-- decodeAuthCookieValue, which is also what is done with the value of a token subprotocol.
unfoldable pub decode_auth_cookie_value : Text → Text
decode_auth_cookie_value value = elim (decode value) [ none ↦ [] | some decoded ↦ decoded ]

-- The loop over the subprotocols: the first with the prefix decides.
unfoldable pub subprotocol_token : List Text → Text
subprotocol_token [] = []
subprotocol_token (proto ∷ protos) =
    let rest = subprotocol_token protos in
    elim (strip_prefix subprotocol_token_prefix (trim_space proto)) [
      | none ↦ rest
      | some value ↦ decode_auth_cookie_value value
    ]

unfoldable pub extract_subprotocol_token : Request → Text
extract_subprotocol_token r =
    if is_nil r.websocket_protocol then [] else subprotocol_token (split b',' r.websocket_protocol)

unfoldable pub extract_query_token : Request → Text
extract_query_token r = trim_space r.query_token

unfoldable pub encode_auth_cookie_value : Text → Text
encode_auth_cookie_value token = encode token

unfoldable pub extract_cookie_token : Request → Text
extract_cookie_token r = elim r.cookie [
  | none ↦ []
  | some value ↦ decode_auth_cookie_value (trim_space value)
]

-- The cookie of a response; its path, HttpOnly and SameSite are constants.
pub record Cookie : Type 0 where
  pub value : Text
  pub max_age : ℕ
  pub secure : Bool

unfoldable pub set_auth_cookie : Request → Text → Cookie
set_auth_cookie r token = record {
  value = encode_auth_cookie_value token;
  max_age = auth_cookie_max_age;
  secure = r.tls;
}

-- A token, or the next source where there is none.
abbrev pub or_else : Text → Text → Text
or_else [] next = next
or_else (b ∷ s) next = b ∷ s

unfoldable pub extract_token : Request → Text
extract_token r = or_else (extract_bearer_token r) (
    or_else (extract_subprotocol_token r)
      (or_else (extract_cookie_token r) (extract_query_token r)))

-- BearerAuthFunc. ConstantTimeCompare answers 1 exactly on equal bytes.
unfoldable pub bearer_auth : AuthConfig → Request → Bool
bearer_auth cfg r =
    let token = extract_token r in
    if not cfg.enabled then true else if is_nil token then false else text_eq token cfg.token
