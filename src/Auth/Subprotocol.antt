-- ===== src/Auth/Subprotocol.antt =====
-- subprotocolResponse of internal/server/ws.go: the subprotocol that the upgrade answers with.
use discord_proxy_rpc.Base.{
  ◌≡◌, refl, Option, none, some, Option-cases, inl, inr, is_some, List, [], ◌∷◌, Text,
  if◌then◌else◌, All, strip_prefix, trim_space, arith,
}
use discord_proxy_rpc.Auth.{subprotocol_token_prefix, decode_auth_cookie_value, subprotocol_token}

-- Given what Subprotocols of gorilla/websocket lists of the request.
subprotocol_response : List Text → Option Text
subprotocol_response [] = none
subprotocol_response (proto ∷ protos) =
    let rest = subprotocol_response protos in
    if is_some (strip_prefix subprotocol_token_prefix proto) then some proto else rest

-- The token that a subprotocol carries.
abbrev carried : Option Text → Text
carried none = []
carried (some proto) = elim (strip_prefix subprotocol_token_prefix proto) [
  | none ↦ []
  | some value ↦ decode_auth_cookie_value value
]

-- Among subprotocols without spaces at their ends, the one that is echoed is the one whose token the
-- request was judged by; where none is echoed there is no such token.
subprotocol_response_lem :
    (protos : List Text)
    → All (λ p. trim_space p ≡ p) protos
    → carried (subprotocol_response protos) ≡ subprotocol_token protos
unfolding subprotocol_response subprotocol_token
subprotocol_response_lem [] h = refl
subprotocol_response_lem (p ∷ protos) (t, h) =
    elim (Option-cases (strip_prefix subprotocol_token_prefix p)) [
      | inl e ↦ ground (arith, e, t, subprotocol_response_lem protos h)
      | inr (v, e) ↦ ground (arith, e, t)
    ]
