-- ===== src/Tui/Addr.antt =====
-- internal/tui/addr.go: the address, the token and the path from flags, environment and defaults.
use discord_proxy_rpc.Base.{
  Bool, ◌||◌, ◌∷◌, ◌++◌, Text, codes, is_nil, if◌then◌else◌, strip_prefix, cut, is_some,
}

-- The first of two texts that is not empty.
abbrev first_of : Text → Text → Text
first_of a b = if is_nil a then b else a

-- net.JoinHostPort.
pub join_host_port : Text → Text → Text
join_host_port host port =
    if is_some (cut b':' host)
    then codes "[" ++ (host ++ (codes "]:" ++ port))
    else host ++ (codes ":" ++ port)

-- os.Getenv is a parameter.
module _ (getenv : Text → Text) where
  pub resolve_addr : Text → Text
  resolve_addr addr =
      let host = first_of (getenv (codes "PROXY_HOST")) (codes "127.0.0.1") in
      let port =
        first_of (getenv (codes "PROXY_PORT"))
          (first_of (getenv (codes "PROXY_SERVER_PORT")) (codes "8765")) in
      if is_nil addr then join_host_port host port else addr

  pub resolve_token : Text → Text
  resolve_token token =
      first_of token (first_of (getenv (codes "PROXY_TOKEN")) (getenv (codes "PROXY_AUTH_TOKEN")))

  pub resolve_ws_path : Text → Text
  resolve_ws_path path =
      first_of path (first_of (getenv (codes "PROXY_SERVER_WS_PATH")) (codes "/ws"))

abbrev has_prefix : Text → Text → Bool
has_prefix p s = is_some (strip_prefix p s)

unfoldable pub ws_url : Text → Text → Text
ws_url addr path =
    if has_prefix (codes "ws://") addr || has_prefix (codes "wss://") addr
    then addr
    else codes "ws://" ++ (addr ++ (if has_prefix (codes "/") path then path else b'/' ∷ path))
