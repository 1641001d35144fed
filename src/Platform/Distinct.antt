-- ===== src/Platform/Distinct.antt =====
-- The ten paths of internal/platform/ipc_path.go are distinct.
use discord_proxy_rpc.Base.{
  ℕ, zero, suc, ◌+◌, ◌<◌, ◌^◌, ◌≡◌, ◌≢◌, refl, sym, ap, ◌∙◌, Bool, List, [], ◌∷◌, ◌++◌, Text,
  if_elim, length, All, show_nat, value, value-show_nat, arith,
}
use discord_proxy_rpc.Platform.{paths_from, unix_paths, windows_paths, ipc_paths}

append-injective : (p s t : Text) → p ++ s ≡ p ++ t → s ≡ t
append-injective [] s t e = e
append-injective (b ∷ p) s t e = append-injective p s t (ap rest e)
  where
    rest : Text → Text
    rest [] = []
    rest (x ∷ l) = l

show_nat-injective : (i j : ℕ) → i < 2 ^ 64 → j < 2 ^ 64 → show_nat i ≡ show_nat j → i ≡ j
show_nat-injective i j h k e = sym (value-show_nat i h) ∙ ap (value 0) e ∙ value-show_nat j k

-- No path stands twice.
abbrev pub IsDistinct : List Text → Type 0
IsDistinct [] = Unit
IsDistinct (p ∷ ps) = All (λ q. q ≢ p) ps × IsDistinct ps

later-distinct :
    (base : Text) (i j n : ℕ)
    → i < j
    → j + n < 2 ^ 64
    → All (λ q. q ≢ base ++ show_nat i) (paths_from base j n)
unfolding paths_from
later-distinct base i j zero h k = tt
later-distinct base i j (suc n) h k = (
  λ e. omega (
    arith,
    h,
    show_nat-injective j i (omega (arith, k)) (omega (arith, h, k))
        (append-injective base (show_nat j) (show_nat i) e),
  ),
  later-distinct base i (j + 1) n (omega (arith, h)) (omega (arith, k)),
)

paths_from-IsDistinct : (base : Text) (i n : ℕ) → i + n < 2 ^ 64 → IsDistinct (paths_from base i n)
unfolding paths_from
paths_from-IsDistinct base i zero h = tt
paths_from-IsDistinct base i (suc n) h = (
  later-distinct base i (i + 1) n (omega arith) (omega (arith, h)),
  paths_from-IsDistinct base (i + 1) n (omega (arith, h)),
)

length-paths_from : (base : Text) (i n : ℕ) → length (paths_from base i n) ≡ n
unfolding paths_from
length-paths_from base i zero = refl
length-paths_from base i (suc n) = ap (λ k. suc k) (length-paths_from base (i + 1) n)

-- On each system and whatever the environment, IPCPaths returns ten distinct paths.
pub ipc_paths-IsDistinct :
    (is_windows : Bool) (xdg : Text)
    → (length (ipc_paths is_windows xdg) ≡ 10) × IsDistinct (ipc_paths is_windows xdg)
unfolding ipc_paths unix_paths windows_paths
ipc_paths-IsDistinct is_windows xdg =
    if_elim (λ ps. (length ps ≡ 10) × IsDistinct ps) is_windows
      (length-paths_from _ 0 10, paths_from-IsDistinct _ 0 10 (omega arith))
      (length-paths_from _ 0 10, paths_from-IsDistinct _ 0 10 (omega arith))
