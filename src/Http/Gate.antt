-- ===== src/Http/Gate.antt =====
-- What the routes of internal/server/http.go show without a valid token, and the cookie that stands
-- in for a token in the URL.
use discord_proxy_rpc.Base.{
  ◌≡◌, ◌↔◌, refl, ap, ◌∙◌, Bool, true, false, not, Option-cases, inl, inr, Option, none, some, [],
  Text, ltb_ℤ, if_cases, if_elim,
}
use discord_proxy_rpc.RateLimit.{allow}
use discord_proxy_rpc.Connections.{unauthorized}
use discord_proxy_rpc.Connections.Slots.{serve_http-refused}
use discord_proxy_rpc.Auth.{
  Request, AuthConfig, bearer_auth, extract_bearer_token, extract_subprotocol_token,
  encode_auth_cookie_value, set_auth_cookie,
}
use discord_proxy_rpc.Auth.Tokens.{
  IsToken, by_cookie, presented_token_decides, is_nil-token, query-extracted,
}
use discord_proxy_rpc.Http.{
  Server, Moment, Response, api_error, unauthorized_page, dashboard, asset, presence_json,
  state_json, health_json, healthz_json, readyz_json, metrics_text, from_ws, Handled, Route,
  to_dashboard, to_ws, to_presence, to_state, to_health, to_healthz, to_readyz, to_metrics,
  require_auth, serve_ws, rate_limit_ws, match_route, dispatch, serve_http, handle_readyz,
  extract_ip, max_request_body_bytes,
}

-- An error, or a health or metrics answer: nothing of the presence, the state route, the dashboard
-- or its files, and no connection.
abbrev pub IsClosed : Response → Type 0
IsClosed (api_error status code) = Unit
IsClosed unauthorized_page = Unit
IsClosed (dashboard body) = ⊥
IsClosed (asset path) = ⊥
IsClosed (presence_json p) = ⊥
IsClosed (state_json state) = ⊥
IsClosed (health_json state) = Unit
IsClosed healthz_json = Unit
IsClosed (readyz_json ready) = Unit
IsClosed metrics_text = Unit
IsClosed (from_ws reply) = reply ≡ unauthorized

-- A closed answer without a cookie, by a server whose handler of upgrades has not changed.
abbrev pub IsRefusal : Server → Handled → Type 0
IsRefusal s (s', (response, cookie)) =
    IsClosed response × (cookie ≡ none) × (s'.ws_handler ≡ s.ws_handler)

module _ (s : Server) (m : Moment) (r : Request) (cfg : AuthConfig) where
  module _ (on : s.auth ≡ some cfg) (refused : bearer_auth cfg r ≡ false) where
    require_auth-IsRefusal :
        (api_route : Bool) (next : Response) → IsRefusal s (require_auth s r api_route next)
    unfolding require_auth
    require_auth-IsRefusal api_route next =
        rw (on, refused) (if_elim (IsRefusal s) api_route (tt, refl, refl) (tt, refl, refl))

    serve_ws-IsRefusal :
        (s' : Server)
        → s'.auth ≡ s.auth
        → s'.ws_handler ≡ s.ws_handler
        → IsRefusal s (serve_ws s' m r)
    unfolding serve_ws
    serve_ws-IsRefusal s' e h =
        rw (e, on, refused, serve_http-refused s'.ws_handler m.upgrade) (refl, refl, h)

    rate_limit_ws-IsRefusal : IsRefusal s (rate_limit_ws s m r)
    unfolding rate_limit_ws serve_ws
    rate_limit_ws-IsRefusal = elim (Option-cases s.rate_limiter) [
      | inl e ↦ rw e (serve_ws-IsRefusal s refl refl)
      | inr (rl, e) ↦
          let a = allow rl (extract_ip m r.remote_addr) m.now m.stamp in
          rw e (
            if_cases (IsRefusal s) (not a.1) (λ b. (tt, refl, refl))
              (λ b. serve_ws-IsRefusal (record s { rate_limiter = some a.0 }) refl refl))
    ]

    dispatch-IsRefusal : (route : Route) → IsRefusal s (dispatch s m r route)
    unfolding dispatch handle_readyz
    dispatch-IsRefusal to_dashboard = require_auth-IsRefusal false _
    dispatch-IsRefusal to_ws = rate_limit_ws-IsRefusal
    dispatch-IsRefusal to_presence = require_auth-IsRefusal true _
    dispatch-IsRefusal to_state = require_auth-IsRefusal true _
    dispatch-IsRefusal to_health = (tt, refl, refl)
    dispatch-IsRefusal to_healthz = (tt, refl, refl)
    dispatch-IsRefusal to_readyz = (tt, refl, refl)
    dispatch-IsRefusal to_metrics = (tt, refl, refl)

  -- Where the server has an auth configuration, a request that it does not accept is answered with
  -- an error or with a health or metrics answer, never with the presence, the state, the dashboard,
  -- a file or a connection; it gets no cookie and takes no slot of the connection tracker.
  pub unauthorized_sees_nothing :
      s.auth ≡ some cfg → bearer_auth cfg r ≡ false → IsRefusal s (serve_http s m r)
  unfolding serve_http
  unauthorized_sees_nothing on refused =
      if_cases (IsRefusal s) (ltb_ℤ max_request_body_bytes r.content_length) (λ b. (tt, refl, refl))
        (λ b. dispatch-IsRefusal on refused (match_route s r.path))

-- A route behind `requireAuth`.
abbrev pub IsGated : Route → Type 0
IsGated to_dashboard = Unit
IsGated to_ws = ⊥
IsGated to_presence = Unit
IsGated to_state = Unit
IsGated to_health = ⊥
IsGated to_healthz = ⊥
IsGated to_readyz = ⊥
IsGated to_metrics = ⊥

abbrev pub cookie_value : Handled → Option Text
cookie_value (s, (response, none)) = none
cookie_value (s, (response, some c)) = some c.value

require_auth-cookie :
    (s : Server) (r : Request) (cfg : AuthConfig) (t : Text) (api_route : Bool) (next : Response)
    → s.auth ≡ some cfg
    → bearer_auth cfg r ≡ true
    → IsToken t
    → r.query_token ≡ t
    → cookie_value (require_auth s r api_route next) ≡ some (encode_auth_cookie_value t)
unfolding require_auth set_auth_cookie
require_auth-cookie s r cfg t api_route next on ok k q =
    rw (on, ok) (rw (query-extracted r t k q) (rw (is_nil-token t k.present) refl))

dispatch-cookie :
    (s : Server) (m : Moment) (r : Request) (cfg : AuthConfig) (t : Text) (route : Route)
    → IsGated route
    → s.auth ≡ some cfg
    → bearer_auth cfg r ≡ true
    → IsToken t
    → r.query_token ≡ t
    → cookie_value (dispatch s m r route) ≡ some (encode_auth_cookie_value t)
unfolding dispatch
dispatch-cookie s m r cfg t to_dashboard g = require_auth-cookie s r cfg t false _
dispatch-cookie s m r cfg t to_ws g = absurd g
dispatch-cookie s m r cfg t to_presence g = require_auth-cookie s r cfg t true _
dispatch-cookie s m r cfg t to_state g = require_auth-cookie s r cfg t true _
dispatch-cookie s m r cfg t to_health g = absurd g
dispatch-cookie s m r cfg t to_healthz g = absurd g
dispatch-cookie s m r cfg t to_readyz g = absurd g
dispatch-cookie s m r cfg t to_metrics g = absurd g

serve_http-small :
    (s : Server) (m : Moment) (r : Request)
    → ltb_ℤ max_request_body_bytes r.content_length ≡ false
    → serve_http s m r ≡ dispatch s m r (match_route s r.path)
unfolding serve_http
serve_http-small s m r e = rw e

-- An accepted request on a gated route with a token in its URL is answered with a cookie for that
-- token, whether or not it is the token that was accepted. A later request that presents nothing but
-- this cookie is accepted exactly if the token of the URL is the configured one.
pub cookie_keeps_query_token :
    (s : Server) (m : Moment) (r later : Request) (cfg : AuthConfig) (t : Text)
    → s.auth ≡ some cfg
    → cfg.enabled ≡ true
    → bearer_auth cfg r ≡ true
    → ltb_ℤ max_request_body_bytes r.content_length ≡ false
    → IsGated (match_route s r.path)
    → IsToken t
    → r.query_token ≡ t
    → extract_bearer_token later ≡ []
    → extract_subprotocol_token later ≡ []
    → later.cookie ≡ cookie_value (serve_http s m r)
    → (bearer_auth cfg later ≡ true) ↔ (t ≡ cfg.token)
cookie_keeps_query_token s m r later cfg t on enabled ok small g k q b p c =
    presented_token_decides cfg later t enabled k (
      by_cookie b p (
        c
        ∙ ap cookie_value (serve_http-small s m r small)
        ∙ dispatch-cookie s m r cfg t (match_route s r.path) g on ok k q))
