-- ===== src/Platform.antt =====
-- internal/platform/ipc_path.go: the sockets that Discord may listen on.
mod Distinct
mod Examples
use discord_proxy_rpc.Base.{
  ℕ, zero, suc, ◌+◌, Bool, true, false, List, [], ◌∷◌, ◌++◌, Text, codes, is_nil, if◌then◌else◌,
  show_nat,
}

abbrev pub ipc_name_count : ℕ
ipc_name_count = 10

-- The loop: the paths of a base from an index on, for so many indices.
pub paths_from : Text → ℕ → ℕ → List Text
paths_from base i zero = []
paths_from base i (suc n) = (base ++ show_nat i) ∷ paths_from base (i + 1) n

-- `xdg` is $XDG_RUNTIME_DIR.
pub unix_paths : Text → List Text
unix_paths xdg =
    paths_from ((if is_nil xdg then codes "/tmp" else xdg) ++ codes "/discord-ipc-") 0
      ipc_name_count

abbrev backslash : Text
backslash = 92 ∷ []

pub windows_paths : List Text
windows_paths =
    paths_from
      (backslash
        ++ (backslash
            ++ (codes "." ++ (backslash ++ (codes "pipe" ++ (backslash ++ codes "discord-ipc-"))))))
      0 ipc_name_count

-- runtime.GOOS is a parameter.
pub ipc_paths : Bool → Text → List Text
ipc_paths is_windows xdg = if is_windows then windows_paths else unix_paths xdg
