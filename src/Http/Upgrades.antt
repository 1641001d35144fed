-- ===== src/Http/Upgrades.antt =====
-- How many requests of an address internal/server/http.go lets through to the handler of upgrades,
-- whatever else the server answers meanwhile.
use discord_proxy_rpc.Base.{
  ◌++◌, ◌==◌, ◌||◌, ap, codes, ℕ, ◌+◌, ◌≤◌, ◌≡◌, refl, Bool, true, false, not, Option-cases, inl,
  inr, some, List, [], ◌∷◌, Text, text_eq, ℤ, pos, ltb_ℤ, if◌then◌else◌, if_cases, if_elim, All,
  arith,
}
use discord_proxy_rpc.RateLimit.{RateLimiter, new_rate_limiter, Call, request, allow, run}
use discord_proxy_rpc.RateLimit.Window.{
  admissions, admissions-request, allowance, IsWithin, window_bound,
}
use discord_proxy_rpc.Auth.{Request, bearer_auth}
use discord_proxy_rpc.Http.{
  Server, Moment, Response, api_error, unauthorized_page, dashboard, asset, presence_json,
  state_json, health_json, healthz_json, readyz_json, metrics_text, from_ws, Handled, Route,
  to_dashboard, to_ws, to_presence, to_state, to_health, to_healthz, to_readyz, to_metrics,
  require_auth, serve_ws, rate_limit_ws, match_route, dispatch, serve_http, handle_dashboard,
  serve_dashboard_index, handle_readyz, extract_ip, max_request_body_bytes,
}

-- The handler of upgrades has answered.
abbrev pub is_from_ws : Response → Bool
is_from_ws (api_error status code) = false
is_from_ws unauthorized_page = false
is_from_ws (dashboard body) = false
is_from_ws (asset path) = false
is_from_ws (presence_json p) = false
is_from_ws (state_json state) = false
is_from_ws (health_json state) = false
is_from_ws healthz_json = false
is_from_ws (readyz_json ready) = false
is_from_ws metrics_text = false
is_from_ws (from_ws reply) = true

-- A request with the address of the peer that sent it, and what the server reads meanwhile.
pub record Arrival : Type 0 where
  pub moment : Moment
  pub request : Request
  pub host : Text
  pub port : Text

-- net.JoinHostPort, which makes the RemoteAddr of a request.
abbrev pub has_colon : Text → Bool
has_colon [] = false
has_colon (b ∷ s) = b == b':' || has_colon s

abbrev pub peer_addr : Text → Text → Text
peer_addr host port =
    if has_colon host
    then codes "[" ++ (host ++ (codes "]:" ++ port))
    else host ++ (codes ":" ++ port)

-- The request is from this peer, and net.SplitHostPort takes its address apart again.
abbrev pub IsFromPeer : Arrival → Type 0
IsFromPeer a =
    (a.request.remote_addr ≡ peer_addr a.host a.port)
    × (a.moment.split_host_port (peer_addr a.host a.port) ≡ some a.host)

-- The requests of this host, from whichever port, that reach the handler of upgrades.
pub reached : Text → Server → List Arrival → ℕ
reached ip s [] = 0
reached ip s (a ∷ rest) =
    let h = serve_http s a.moment a.request in
    (if is_from_ws h.1.0 then (if text_eq a.host ip then 1 else 0) else 0) + reached ip h.0 rest

-- The clock is read within the window that begins at `t0`.
abbrev pub IsDuring : ℕ → ℕ → Arrival → Type 0
IsDuring t0 w a = (t0 ≤ a.moment.now) × (a.moment.now ≤ a.moment.stamp) × (a.moment.stamp ≤ t0 + w)

extract_ip-host : (a : Arrival) → IsFromPeer a → extract_ip a.moment a.request.remote_addr ≡ a.host
unfolding extract_ip
extract_ip-host a (e, f) = rw (extract_ip, e) (rw f refl)

-- A request is answered without the limiter, or it is a call of `Allow` and reaches the handler as
-- that says.
data Asks (m : Moment) (r : Request) (rl : RateLimiter) (h : Handled) : Type 0 where
  aside : h.0.rate_limiter ≡ some rl → is_from_ws h.1.0 ≡ false → Asks m r rl h
  counted :
      h.0.rate_limiter ≡ some (allow rl (extract_ip m r.remote_addr) m.now m.stamp).0
      → is_from_ws h.1.0 ≡ (allow rl (extract_ip m r.remote_addr) m.now m.stamp).1
      → Asks m r rl h

refused_answer : (b : Bool) → not b ≡ true → false ≡ b
refused_answer b h = ground arith

allowed_answer : (b : Bool) → not b ≡ false → true ≡ b
allowed_answer b h = ground arith

module _ (s : Server) (m : Moment) (r : Request) (rl : RateLimiter)
    (e : s.rate_limiter ≡ some rl) where
  require_auth-Asks :
      (api_route : Bool) (next : Response)
      → is_from_ws next ≡ false
      → Asks m r rl (require_auth s r api_route next)
  unfolding require_auth
  require_auth-Asks api_route next n = elim (Option-cases s.auth) [
    | inl on ↦ rw on (aside e n)
    | inr (cfg, on) ↦ rw on (
        if_elim (Asks m r rl) (bearer_auth cfg r) (aside e n)
          (if_elim (Asks m r rl) api_route (aside e refl) (aside e refl)))
  ]

  rate_limit_ws-Asks : Asks m r rl (rate_limit_ws s m r)
  unfolding rate_limit_ws serve_ws
  rate_limit_ws-Asks =
      let a = allow rl (extract_ip m r.remote_addr) m.now m.stamp in
      rw e (
        if_cases (Asks m r rl) (not a.1) (λ b. counted refl (refused_answer a.1 b))
          (λ b. counted refl (allowed_answer a.1 b)))

  handle_dashboard-file : is_from_ws (handle_dashboard s m r) ≡ false
  unfolding handle_dashboard serve_dashboard_index
  handle_dashboard-file = ground arith

  dispatch-Asks : (route : Route) → Asks m r rl (dispatch s m r route)
  unfolding dispatch handle_readyz
  dispatch-Asks to_dashboard = require_auth-Asks false _ handle_dashboard-file
  dispatch-Asks to_ws = rate_limit_ws-Asks
  dispatch-Asks to_presence = require_auth-Asks true _ refl
  dispatch-Asks to_state = require_auth-Asks true _ refl
  dispatch-Asks to_health = aside e refl
  dispatch-Asks to_healthz = aside e refl
  dispatch-Asks to_readyz = aside e refl
  dispatch-Asks to_metrics = aside e refl

  serve_http-Asks : Asks m r rl (serve_http s m r)
  unfolding serve_http
  serve_http-Asks =
      if_cases (Asks m r rl) (ltb_ℤ max_request_body_bytes r.content_length) (λ b. aside e refl)
        (λ b. dispatch-Asks (match_route s r.path))

-- The calls of `Allow` that the requests make.
reached-admissions :
    (ip : Text) (s : Server) (rl : RateLimiter) (arrivals : List Arrival) (t0 w : ℕ)
    → s.rate_limiter ≡ some rl
    → All IsFromPeer arrivals
    → All (IsDuring t0 w) arrivals
    → (cs : List Call) × All (IsWithin t0 w) cs × (reached ip s arrivals ≤ admissions ip rl cs)
unfolding reached
reached-admissions ip s rl [] t0 w e f h = ([], tt, omega arith)
reached-admissions ip s rl (a ∷ rest) t0 w e f h =
    let m = a.moment in
    let r = a.request in
    let from = extract_ip-host a f.0 in
    elim (serve_http-Asks s m r rl e) [
      | aside k o ↦
          let (cs, all, le) = reached-admissions ip (serve_http s m r).0 rl rest t0 w k f.1 h.1 in
          (cs, all, ground (arith, le))
      | counted k o ↦
          let q : RateLimiter × Bool = allow rl (extract_ip m r.remote_addr) m.now m.stamp in
          let (cs, all, le) = reached-admissions ip (serve_http s m r).0 q.0 rest t0 w k f.1 h.1 in
          (
            request (extract_ip m r.remote_addr) m.now m.stamp ∷ cs,
            (h.0, all),
            ground (
              arith,
              le,
              from,
              ap (λ x. text_eq x ip) from,
              admissions-request ip (extract_ip m r.remote_addr) rl m.now m.stamp cs,
            ),
          )
    ]

-- Whatever requests a server answers within one window, and whatever calls its limiter answered
-- before, at most `rate` requests of one host, or one where the rate is below one, reach the handler
-- of upgrades, from whichever ports they come. Each request has the RemoteAddr that net.JoinHostPort
-- makes of its peer's host and port, which net.SplitHostPort takes apart again.
pub upgrades_bounded :
    (ip : Text) (s : Server) (rate : ℤ) (w t0 : ℕ) (history : List Call) (arrivals : List Arrival)
    → s.rate_limiter ≡ some (run (new_rate_limiter rate (pos w)) history)
    → All IsFromPeer arrivals
    → All (IsDuring t0 w) arrivals
    → reached ip s arrivals ≤ allowance rate
upgrades_bounded ip s rate w t0 history arrivals e f h =
    let (cs, all, le) =
      reached-admissions ip s (run (new_rate_limiter rate (pos w)) history) arrivals t0 w e f h in
    omega (arith, le, window_bound rate w t0 ip history cs all)
