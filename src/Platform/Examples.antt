-- ===== src/Platform/Examples.antt =====
-- The paths of one environment.
use discord_proxy_rpc.Base.{◌≡◌, refl, false, List, [], ◌∷◌, Text, codes, show_nat, digits}
use discord_proxy_rpc.Platform.{paths_from, unix_paths, ipc_paths}

abbrev first : List Text → Text
first [] = []
first (p ∷ ps) = p

first_path : first (ipc_paths false (codes "/run/user/1000")) ≡ codes "/run/user/1000/discord-ipc-0"
unfolding ipc_paths unix_paths paths_from show_nat digits
first_path = refl

without_xdg : first (ipc_paths false []) ≡ codes "/tmp/discord-ipc-0"
unfolding ipc_paths unix_paths paths_from show_nat digits
without_xdg = refl
