-- ===== src/Mdns/Registered.antt =====
-- An advertiser of internal/mdns/announce.go has at most one live registration.
use discord_proxy_rpc.Base.{
  ℕ, ◌≡◌, Option-cases, inl, inr, Option, none, some, List, [], ◌∷◌, Text, ℤ, Result, arith,
}
use discord_proxy_rpc.Mdns.{Advertiser, advertise, shutdown}

-- The live registrations are that of the server, if it is there.
abbrev pub registrations : Option ℕ → List ℕ
registrations none = []
registrations (some h) = h ∷ []

abbrev pub IsRegistered : Advertiser → Type 0
IsRegistered a = a.live ≡ registrations a.server

module _ (register : Text → Text → ℤ → Result Text ℕ) (hostname : Option Text) where
  advertise-IsRegistered :
      (a : Advertiser) → IsRegistered a → IsRegistered (advertise register hostname a).0
  unfolding advertise
  advertise-IsRegistered a i = ground arith

shutdown-IsRegistered : (a : Advertiser) → IsRegistered a → IsRegistered (shutdown a)
unfolding shutdown
shutdown-IsRegistered a i = ground arith

-- Shutting down twice is the same as once.
shutdown-shutdown : (a : Advertiser) → shutdown (shutdown a) ≡ shutdown a
unfolding shutdown
shutdown-shutdown a = elim (Option-cases a.server) [
  | inl e ↦ ground arith
  | inr (h, e) ↦ ground arith
]
