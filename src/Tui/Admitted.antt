-- ===== src/Tui/Admitted.antt =====
-- What internal/tui/client.go sends, and how internal/server takes it.
use discord_proxy_rpc.Base.{
  ◌≡◌, ◌≢◌, ◌↔◌, refl, ◌∙◌, true, false, Option, some, List, [], ◌∷◌, ◌++◌, Text, codes, is_nil, ok,
  cut, All, arith, ap, inl, inr,
}
use discord_proxy_rpc.Auth.{Request, AuthConfig, bearer_auth}
use discord_proxy_rpc.Auth.Tokens.{IsToken, by_header, presented_token_decides}
use discord_proxy_rpc.Messages.{
  ClientMessage, new_subscribe_message, parse_client_message, msg_type_presence, msg_type_state,
}
use discord_proxy_rpc.Messages.Accepts.{made_requests_accepted}
use discord_proxy_rpc.Tui.Backend.{WsBackend, authorization, greeting}

bearer_cut : (t : Text) → cut b' ' (codes "Bearer " ++ t) ≡ some (codes "Bearer", t)
bearer_cut t = refl

not_nil : (t : Text) → t ≢ [] → is_nil t ≡ false
not_nil [] h = absurd (h refl)
not_nil (b ∷ t) h = refl

authorization-token : (b : WsBackend) → b.token ≢ [] → authorization b ≡ codes "Bearer " ++ b.token
unfolding authorization
authorization-token b h = rw (not_nil b.token h) refl

-- What a message is decoded to after the codec, and whether the server takes it.
abbrev pub IsKept : (ClientMessage → Text) → (Text → Option ClientMessage) → ClientMessage → Type 0
IsKept encode decode m = decode (encode m) ≡ some m

abbrev pub IsAccepted :
    (ClientMessage → Text) → (Text → Option ClientMessage) → ClientMessage → Type 0
IsAccepted encode decode m = parse_client_message decode (encode m) ≡ ok m

greeting-IsAccepted :
    (encode : ClientMessage → Text) (decode : Text → Option ClientMessage) (ms : List ClientMessage)
    → greeting ≡ ok ms
    → All (IsKept encode decode) ms
    → All (IsAccepted encode decode) ms
unfolding greeting new_subscribe_message
greeting-IsAccepted encode decode [] g k = tt
greeting-IsAccepted encode decode (m ∷ []) g k = absurd (ground arith)
greeting-IsAccepted encode decode (m ∷ n ∷ []) g (k, (l, u)) = (
  made_requests_accepted decode _ m (msg_type_presence ∷ msg_type_state ∷ []) k
      (inl (ground arith, (inl refl, (inr (inl refl), tt)))),
  (made_requests_accepted decode _ n [] l (inr (ground arith)), tt),
)
greeting-IsAccepted encode decode (m ∷ n ∷ o ∷ ms) g k = absurd (ground arith)

-- Where authentication is enabled, the request of a dial with a token is accepted exactly if the
-- token is the configured one; and the messages that the dial then writes are accepted if the codec
-- keeps them.
pub dial_admitted :
    (cfg : AuthConfig) (b : WsBackend) (r : Request) (encode : ClientMessage → Text)
    (decode : Text → Option ClientMessage) (ms : List ClientMessage)
    → cfg.enabled ≡ true
    → IsToken b.token
    → r.authorization ≡ authorization b
    → greeting ≡ ok ms
    → All (IsKept encode decode) ms
    → ((bearer_auth cfg r ≡ true) ↔ (b.token ≡ cfg.token)) × All (IsAccepted encode decode) ms
dial_admitted cfg b r encode decode ms on k e g kept = (
  presented_token_decides cfg r b.token on k (
      by_header (codes "Bearer")
        (ap (cut b' ') (e ∙ authorization-token b k.present) ∙ bearer_cut b.token) refl),
  greeting-IsAccepted encode decode ms g kept,
)
