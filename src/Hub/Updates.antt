-- ===== src/Hub/Updates.antt =====
-- Sets of ids without repetition, and a store after each of some clients has changed.
use mathlib.Core.Path.{fun_ext}
use discord_proxy_rpc.Base.{
  ℕ, ◌≡◌, true, false, not, ◌&&◌, List, [], ◌∷◌, ◌==◌, if◌then◌else◌, arith,
}
use discord_proxy_rpc.Hub.{Client, is_member, without, with_member, put}

abbrev pub IsUnique : List ℕ → Type 0
IsUnique [] = Unit
IsUnique (j ∷ js) = (is_member j js ≡ false) × IsUnique js

pub is_member-without :
    (j id : ℕ) (ids : List ℕ) → is_member j (without id ids) ≡ (not (id == j) && is_member j ids)
is_member-without j id [] = ground arith
is_member-without j id (k ∷ ks) = ground (arith, is_member-without j id ks)

pub is_member-with_member :
    (j id : ℕ) (ids : List ℕ)
    → is_member j (with_member id ids) ≡ (if id == j then true else is_member j ids)
is_member-with_member j id ids = ground arith

pub without-IsUnique : (id : ℕ) (ids : List ℕ) → IsUnique ids → IsUnique (without id ids)
without-IsUnique id [] u = tt
without-IsUnique id (k ∷ ks) u =
    ground (arith, without-IsUnique id ks u.1, is_member-without k id ks)

pub with_member-IsUnique : (id : ℕ) (ids : List ℕ) → IsUnique ids → IsUnique (with_member id ids)
with_member-IsUnique id ids u = ground arith

-- The store after `f` has been applied to each of these clients.
abbrev pub after : (ℕ → Client) → (Client → Client) → List ℕ → ℕ → Client
after store f ids j = if is_member j ids then f (store j) else store j

pub after-put :
    (store : ℕ → Client) (f : Client → Client) (id : ℕ) (ids : List ℕ)
    → is_member id ids ≡ false
    → after (put store id (f (store id))) f ids ≡ after store f (id ∷ ids)
after-put store f id ids new = fun_ext λ j. ground arith

pub put_self : (store : ℕ → Client) (id : ℕ) → put store id (store id) ≡ store
put_self store id = fun_ext λ j. ground arith
