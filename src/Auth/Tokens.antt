-- ===== src/Auth/Tokens.antt =====
-- A token that a client of internal/server/auth.go presents is the one that is compared.
use discord_proxy_rpc.Base.{
  ◌≡◌, ◌≢◌, ◌↔◌, refl, true, false, some, [], ◌∷◌, ◌++◌, Text, codes, text_eq_iff, is_nil, All, cut,
  split, trim_space, trim_space-trimmed, All-reverse, All-append, equal_fold, space_width,
  space_width_rev, reverse, arith,
}
use discord_proxy_rpc.Auth.{
  Request, AuthConfig, subprotocol_token_prefix, extract_bearer_token, decode_auth_cookie_value,
  subprotocol_token, extract_subprotocol_token, extract_query_token, encode_auth_cookie_value,
  extract_cookie_token, set_auth_cookie, or_else, extract_token, bearer_auth,
}
use discord_proxy_rpc.Auth.Base64.{encode, decode-encode, IsByte, IsCode, encode-All}

-- A token of bytes, not empty, and without a space at either end.
pub record IsToken (t : Text) : Type 0 where
  pub bytes : All IsByte t
  pub present : t ≢ []
  pub front : space_width t ≡ 0
  pub back : space_width_rev (reverse t) ≡ 0

-- The ways in which a client presents a token: the Authorization header with any spelling of the
-- scheme, the subprotocol as the dashboard sends it, the cookie as the server sets it, and the query
-- parameter; each where no source that goes before it has a token.
pub data Presents (r : Request) (t : Text) : Type 0 where
  by_header :
      (scheme : Text)
      → cut b' ' r.authorization ≡ some (scheme, t)
      → equal_fold scheme (codes "bearer") ≡ true
      → Presents r t
  by_subprotocol :
      extract_bearer_token r ≡ []
      → r.websocket_protocol ≡ subprotocol_token_prefix ++ encode t
      → Presents r t
  by_cookie :
      extract_bearer_token r ≡ []
      → extract_subprotocol_token r ≡ []
      → r.cookie ≡ some (encode_auth_cookie_value t)
      → Presents r t
  by_query :
      extract_bearer_token r ≡ []
      → extract_subprotocol_token r ≡ []
      → extract_cookie_token r ≡ []
      → r.query_token ≡ t
      → Presents r t

trim_space-token : (t : Text) → IsToken t → trim_space t ≡ t
trim_space-token t k = trim_space-trimmed t k.front k.back

space_width-codes : (s : Text) → All IsCode s → space_width s ≡ 0
space_width-codes [] h = refl
space_width-codes (a ∷ []) h = ground arith
space_width-codes (a ∷ b ∷ []) h = ground arith
space_width-codes (a ∷ b ∷ c ∷ s) h = ground arith

space_width_rev-codes : (s : Text) → All IsCode s → space_width_rev s ≡ 0
space_width_rev-codes [] h = refl
space_width_rev-codes (a ∷ []) h = ground arith
space_width_rev-codes (a ∷ b ∷ []) h = ground arith
space_width_rev-codes (a ∷ b ∷ c ∷ s) h = ground arith

trim_space-codes : (s : Text) → All IsCode s → trim_space s ≡ s
trim_space-codes s h =
    trim_space-trimmed s (space_width-codes s h)
      (space_width_rev-codes (reverse s) (All-reverse IsCode s h))

split-codes : (s : Text) → All IsCode s → split b',' s ≡ s ∷ []
split-codes [] h = refl
split-codes (b ∷ s) h = ground (arith, split-codes s h.1)

decode_auth_cookie_value-encode :
    (t : Text) → All IsByte t → decode_auth_cookie_value (encode t) ≡ t
unfolding decode_auth_cookie_value
decode_auth_cookie_value-encode t h = rw (decode_auth_cookie_value, decode-encode t h)

prefix-All : All IsCode subprotocol_token_prefix
prefix-All = ground arith

prefixed-All : (t : Text) → All IsByte t → All IsCode (subprotocol_token_prefix ++ encode t)
prefixed-All t h = All-append IsCode subprotocol_token_prefix (encode t) prefix-All (encode-All t h)

pub is_nil-token : (t : Text) → t ≢ [] → is_nil t ≡ false
is_nil-token [] h = absurd (h refl)
is_nil-token (b ∷ t) h = refl

or_else-token : (t next : Text) → t ≢ [] → or_else t next ≡ t
or_else-token [] next h = absurd (h refl)
or_else-token (b ∷ t) next h = refl

bearer-extracted :
    (r : Request) (scheme t : Text)
    → IsToken t
    → cut b' ' r.authorization ≡ some (scheme, t)
    → equal_fold scheme (codes "bearer") ≡ true
    → extract_bearer_token r ≡ t
unfolding extract_bearer_token
bearer-extracted r scheme t k c e = rw (extract_bearer_token, c) (rw e (trim_space-token t k))

subprotocol-extracted :
    (r : Request) (t : Text)
    → IsToken t
    → r.websocket_protocol ≡ subprotocol_token_prefix ++ encode t
    → extract_subprotocol_token r ≡ t
unfolding extract_subprotocol_token subprotocol_token
subprotocol-extracted r t k e =
    let all : All IsCode (subprotocol_token_prefix ++ encode t) = prefixed-All t k.bytes in
    rw (extract_subprotocol_token, e)
      (rw (split-codes (subprotocol_token_prefix ++ encode t) all) (
        rw (subprotocol_token, trim_space-codes (subprotocol_token_prefix ++ encode t) all)
          (decode_auth_cookie_value-encode t k.bytes)))

cookie-extracted :
    (r : Request) (t : Text)
    → IsToken t
    → r.cookie ≡ some (encode_auth_cookie_value t)
    → extract_cookie_token r ≡ t
unfolding extract_cookie_token encode_auth_cookie_value
cookie-extracted r t k e =
    rw (extract_cookie_token, e)
      (rw (trim_space-codes (encode t) (encode-All t k.bytes))
        (decode_auth_cookie_value-encode t k.bytes))

-- The cookie that setAuthCookie sets for a token, whatever bytes it has, is read back as that token
-- from a later request that brings the cookie.
pub extract_cookie_token-set_auth_cookie :
    (r later : Request) (t : Text)
    → All IsByte t
    → extract_cookie_token (record later { cookie = some (set_auth_cookie r t).value }) ≡ t
unfolding extract_cookie_token set_auth_cookie encode_auth_cookie_value
extract_cookie_token-set_auth_cookie r later t h =
    rw (extract_cookie_token, trim_space-codes (encode t) (encode-All t h))
      (decode_auth_cookie_value-encode t h)

pub query-extracted :
    (r : Request) (t : Text) → IsToken t → r.query_token ≡ t → extract_query_token r ≡ t
unfolding extract_query_token
query-extracted r t k e = rw (extract_query_token, e) (trim_space-token t k)

presented_extracted : (r : Request) (t : Text) → IsToken t → Presents r t → extract_token r ≡ t
unfolding extract_token
presented_extracted r t k (by_header scheme c e) =
    rw (extract_token, bearer-extracted r scheme t k c e) (or_else-token t _ k.present)
presented_extracted r t k (by_subprotocol b e) =
    rw (extract_token, b, subprotocol-extracted r t k e) (or_else-token t _ k.present)
presented_extracted r t k (by_cookie b p e) =
    rw (extract_token, b, p, cookie-extracted r t k e) (or_else-token t _ k.present)
presented_extracted r t k (by_query b p c e) = rw (extract_token, b, p, c) (query-extracted r t k e)

-- Where authentication is enabled, a request that presents a token in one of the four ways, and in
-- none that goes before it, is accepted exactly if that token is the configured one. The token is one
-- or more bytes without a space at either end.
pub presented_token_decides :
    (cfg : AuthConfig) (r : Request) (t : Text)
    → cfg.enabled ≡ true
    → IsToken t
    → Presents r t
    → (bearer_auth cfg r ≡ true) ↔ (t ≡ cfg.token)
unfolding bearer_auth
presented_token_decides cfg r t on k p =
    ground (arith, presented_extracted r t k p, is_nil-token t k.present, text_eq_iff t cfg.token)
