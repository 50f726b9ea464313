-- ===== src/Config/Peers.antt =====
-- What the methods on `MeshPeers` and `Remote` compute.
use mathlib.Core.List.{Memᴰ}
use federation.Common.{
  ◌≡◌, refl, sym, ap, ◌∙◌, ◌↔◌, true, List, [], ◌∷◌, inl, inr, Bool-cases, arith, text_eq_iff,
}
use federation.Config.{
  Remote, MeshPeers, openshift_router, is_router, any_router,
  any_remote_peer_with_openshift_router_ingress,
}

-- A remote of the list whose ingress is the OpenShift router.
abbrev pub SomeRouter : List Remote → Type 0
SomeRouter remotes = (r : Remote) × Memᴰ r remotes × (r.ingress_type ≡ openshift_router)

any_router-of_mem :
    (r : Remote) (rs : List Remote)
    → Memᴰ r rs
    → r.ingress_type ≡ openshift_router
    → any_router rs ≡ true
unfolding any_router
any_router-of_mem r [] m h = elim m [ ]
any_router-of_mem r (s ∷ rs) (Memᴰ.head e) h =
    let at_s = ap (λ (x : Remote). x.ingress_type) (sym e) ∙ h in
    rw ((text_eq_iff s.ingress_type openshift_router).1 at_s) refl
any_router-of_mem r (s ∷ rs) (Memᴰ.tail m) h = ground (arith, any_router-of_mem r rs m h)

SomeRouter-of_any_router : (rs : List Remote) → any_router rs ≡ true → SomeRouter rs
unfolding any_router
SomeRouter-of_any_router [] h = absurd (cc)
SomeRouter-of_any_router (s ∷ rs) h = elim (Bool-cases (is_router s.ingress_type)) [
  | inl e ↦ (s, Memᴰ.head refl, (text_eq_iff s.ingress_type openshift_router).0 e)
  | inr n ↦ let (r, m, e) = SomeRouter-of_any_router rs (ground arith) in (r, Memᴰ.tail m, e)
]

-- The test answers true exactly when one of the remotes has the OpenShift router as its ingress.
pub any_remote_peer_with_openshift_router_ingress_iff :
    (m : MeshPeers)
    → (any_remote_peer_with_openshift_router_ingress m ≡ true) ↔ SomeRouter m.remotes
unfolding any_remote_peer_with_openshift_router_ingress
any_remote_peer_with_openshift_router_ingress_iff m =
    (SomeRouter-of_any_router m.remotes, λ (r, mem, e). any_router-of_mem r m.remotes mem e)
