-- ===== src/Networking.antt =====
-- internal/pkg/networking/resolve.go. `is_ip` is whether net.ParseIP accepts a text, and `lookup_ip`
-- what net.LookupIP answers, its addresses as texts.
use mathlib.Core.List.{append-nil}
use federation.Common.{
  ◌≡◌, refl, Bool, true, List, [], ◌∷◌, Text, Result, ok, err, if◌then◌else◌, concat_map, ◌++◌,
  Error, false, Bool-cases, inl, inr, ◌⊎◌,
}

pub record Network : Type 0 where
  pub is_ip : Text → Bool
  pub lookup_ip : Text → Result (List Text)

-- A failed lookup is logged, and its nil slice appended.
abbrev ips_or_nil : Result (List Text) → List Text
ips_or_nil (ok ips) = ips
ips_or_nil (err e) = []

unfoldable pub resolve_one : Network → Text → List Text
resolve_one n addr = if n.is_ip addr then addr ∷ [] else ips_or_nil (n.lookup_ip addr)

unfoldable pub resolve : Network → List Text → List Text
unfolding resolve_one concat_map
resolve n addrs = concat_map (resolve_one n) addrs

-- The IPs that an address stands for: itself if it is one, else what its lookup answers, and none if
-- the lookup fails.
pub data Gives (n : Network) : Text → List Text → Type 0 where
  is_one : (addr : Text) → n.is_ip addr ≡ true → Gives n addr (addr ∷ [])
  looked_up :
      (addr : Text) (ips : List Text)
      → n.is_ip addr ≡ false
      → n.lookup_ip addr ≡ ok ips
      → Gives n addr ips
  unknown :
      (addr : Text) (e : Error) → n.is_ip addr ≡ false → n.lookup_ip addr ≡ err e → Gives n addr []

-- The IPs that several addresses stand for, in their order.
pub data GivesAll (n : Network) : List Text → List Text → Type 0 where
  no_addresses : GivesAll n [] []
  and_address :
      (addr : Text) (rest : List Text) (ips others : List Text)
      → Gives n addr ips
      → GivesAll n rest others
      → GivesAll n (addr ∷ rest) (ips ++ others)

resolve_one-of_Gives :
    (n : Network) (addr : Text) (ips : List Text) → Gives n addr ips → resolve_one n addr ≡ ips
unfolding resolve_one
resolve_one-of_Gives n addr ips (is_one _ h) = rw h refl
resolve_one-of_Gives n addr ips (looked_up _ _ h l) = rw h (rw l refl)
resolve_one-of_Gives n addr ips (unknown _ e h l) = rw h (rw l refl)

pub resolve-of_Gives :
    (n : Network) (addr : Text) (ips : List Text) → Gives n addr ips → resolve n (addr ∷ []) ≡ ips
unfolding resolve
resolve-of_Gives n addr ips g = rw (resolve_one-of_Gives n addr ips g) (append-nil ips)

pub resolve-of_GivesAll :
    (n : Network) (addrs ips : List Text) → GivesAll n addrs ips → resolve n addrs ≡ ips
unfolding resolve
resolve-of_GivesAll n addrs ips no_addresses = refl
resolve-of_GivesAll n addrs ips (and_address addr rest here others g r) =
    rw (resolve_one-of_Gives n addr here g) (rw (resolve-of_GivesAll n rest others r) refl)

Result-cases :
    (r : Result (List Text)) → ((ips : List Text) × (r ≡ ok ips)) ⊎ ((e : Error) × (r ≡ err e))
Result-cases (ok ips) = inl (ips, refl)
Result-cases (err e) = inr (e, refl)

resolve_one-Gives : (n : Network) (addr : Text) → Gives n addr (resolve_one n addr)
unfolding resolve_one
resolve_one-Gives n addr = elim (Bool-cases (n.is_ip addr)) [
  | inl h ↦ rw h (is_one addr h)
  | inr h ↦ rw h (elim (Result-cases (n.lookup_ip addr)) [
    | inl (ips, l) ↦ rw l (looked_up addr ips h l)
    | inr (e, l) ↦ rw l (unknown addr e h l)
  ])
]

-- What the code finds are the IPs that the addresses stand for.
pub resolve-GivesAll : (n : Network) (addrs : List Text) → GivesAll n addrs (resolve n addrs)
unfolding resolve
resolve-GivesAll n [] = no_addresses
resolve-GivesAll n (addr ∷ rest) =
    and_address addr rest _ _ (resolve_one-Gives n addr) (resolve-GivesAll n rest)
