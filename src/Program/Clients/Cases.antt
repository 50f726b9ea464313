-- ===== src/Program/Clients/Cases.antt =====
-- What starting the discovery clients and the rest of `runLegacyMode` may come to.
use federation.Common.{◌≡◌, List, [], ◌∷◌, Text, map, ◌⊎◌, Error}
use mathlib.Core.List.{Memᴰ}
use federation.Common.Outcomes.{Outcome, done, fail, panic, ◌>>=◌}
use federation.Config.{Remote, service_fqdn}
use federation.Networking.{Network}
use federation.Xds.Client.Dial.{Grpc}
use federation.Fds.{Codec}
use federation.Program.Startup.{Startup}
use federation.Program.Clients.{FdsClient, client_of, make_client, Running}

-- A remote of the list has no address.
abbrev pub SomeUnaddressed : List Remote → Type 0
SomeUnaddressed remotes = (remote : Remote) × Memᴰ remote remotes × (remote.addresses ≡ [])

-- gRPC makes no client for a remote of the list, which has an address.
abbrev pub SomeUnmade : Network → Codec → Grpc → List Remote → Error → Type 0
SomeUnmade n c g remotes e =
    (remote : Remote) × Memᴰ remote remotes
    × (addr : Text) × (rest : List Text) × (remote.addresses ≡ addr ∷ rest)
    × (make_client g (client_of n c remote addr) ≡ fail e)

module _ (n : Network) (c : Codec) (g : Grpc) where
  -- What the loop over the remotes gives: a client for each, or a panic, or an exit.
  abbrev pub ClientsOf : List Remote → Outcome (List FdsClient) → Type 0
  ClientsOf remotes o =
      ((cs : List FdsClient) × (o ≡ done cs)
        × (map (λ (x : FdsClient). x.authority) cs ≡ map service_fqdn remotes)
        × (¬ SomeUnaddressed remotes))
      ⊎ ((SomeUnaddressed remotes × (o ≡ panic))
          ⊎ ((e : Error) × SomeUnmade n c g remotes e × (o ≡ fail e)))

-- How the legacy mode ends, for the outcome of the first run of the reconcilers: before that run by a
-- panic or an exit, and then with the state as it was, or as the run does.
abbrev pub StartsAs :
    {S : Type 0}
    → Network
    → Codec
    → Grpc
    → List Remote
    → S
    → S × Outcome (Unit {0})
    → S × Outcome Running
    → Type 0
StartsAs n c g remotes s (t, first) run =
    (SomeUnaddressed remotes × (run ≡ (s, panic)))
    ⊎ (((e : Error) × SomeUnmade n c g remotes e × (run ≡ (s, fail e)))
        ⊎ ((¬ SomeUnaddressed remotes)
            × (((first ≡ panic) × (run ≡ (t, panic)))
                ⊎ (((e : Error) × (first ≡ fail e) × (run ≡ (t, fail e)))
                    ⊎ ((first ≡ done tt)
                        × (r : Running) × (run ≡ (t, done r))
                        × (map (λ (x : FdsClient). x.authority) r.clients
                            ≡ map service_fqdn remotes))))))
