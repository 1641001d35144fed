-- ===== src/Ipc/Connecting.antt =====
-- `Connect` of internal/ipc/client.go takes the first path that can be dialled and logged in to.
use discord_proxy_rpc.Base.{
  ℕ, ◌≡◌, ◌≢◌, ◌⊎◌, inl, inr, refl, Option, none, some, List, [], ◌∷◌, ◌++◌, Text, ok, err, All,
  arith,
}
use discord_proxy_rpc.Ipc.{
  Client, Network, ReadyEvent, opened, connect, try_paths, set_state, disconnected,
}

-- A path on which the dial fails, or the dial succeeds and the login fails.
abbrev pub IsUnusable : Network → Text → Type 0
IsUnusable net path =
    ((e : Text) × (net.dial path ≡ some e))
    ⊎ ((net.dial path ≡ none) × ((e : Text) × (net.login path ≡ err e)))

abbrev pub IsUsable : Network → Text → Option ReadyEvent → Type 0
IsUsable net path ready = (net.dial path ≡ none) × (net.login path ≡ ok ready)

try_paths-first :
    (net : Network) (last_err : Option Text) (before after : List Text) (path : Text)
    (ready : Option ReadyEvent)
    → All (IsUnusable net) before
    → IsUsable net path ready
    → try_paths net last_err (before ++ path ∷ after) ≡ ok (path, ready)
unfolding try_paths
try_paths-first net last_err [] after path ready u (d, l) = rw (d, l)
try_paths-first net last_err (p ∷ before) after path ready (inl (e, d), u) us =
    rw d (try_paths-first net (some e) before after path ready u us)
try_paths-first net last_err (p ∷ before) after path ready (inr (d, (e, l)), u) us =
    rw (d, l) (try_paths-first net (some e) before after path ready u us)

-- The error is that of the last path, or the one so far where there is no path.
try_paths-none :
    (net : Network) (last_err : Option Text) (paths : List Text)
    → All (IsUnusable net) paths
    → (e : Option Text) × (try_paths net last_err paths ≡ err e)
      × ((e ≡ last_err) ⊎ (e ≢ none))
      × (paths ≢ [] → e ≢ none)
unfolding try_paths
try_paths-none net last_err [] u = (last_err, refl, inl refl, λ n. absurd (n refl))
try_paths-none net last_err (p ∷ paths) (inl (e, d), u) =
    let (x, t, k, f) = try_paths-none net (some e) paths u in
    (x, rw (try_paths, d) t, inr (ground arith), λ n. ground arith)
try_paths-none net last_err (p ∷ paths) (inr (d, (e, l)), u) =
    let (x, t, k, f) = try_paths-none net (some e) paths u in
    (x, rw (try_paths, d, l) t, inr (ground arith), λ n. ground arith)

-- `Connect` opens the session of the first path that dials and logs in, whatever the later paths
-- would do, and is then connected.
pub connect_first :
    (net : Network) (c : Client) (channel : ℕ) (before after : List Text) (path : Text)
    (ready : Option ReadyEvent)
    → c.paths ≡ before ++ path ∷ after
    → All (IsUnusable net) before
    → IsUsable net path ready
    → connect net c channel ≡ (opened c path ready channel, none)
unfolding connect set_state
connect_first net c channel before after path ready p u us =
    ground (arith, try_paths-first net none before after path ready u us)

-- Where no path is usable `Connect` returns an error and leaves the client disconnected, with its
-- earlier connection, user and channel; the error wraps one of a path, if there is a path.
pub connect_refused :
    (net : Network) (c : Client) (channel : ℕ)
    → All (IsUnusable net) c.paths
    → (e : Option Text) × (connect net c channel ≡ (record c { state = disconnected }, some e))
      × (c.paths ≢ [] → e ≢ none)
unfolding connect set_state
connect_refused net c channel u =
    let (e, t, k, f) = try_paths-none net none c.paths u in (e, rw (connect, t) refl, f)
