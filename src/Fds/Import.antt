-- ===== src/Fds/Import.antt =====
-- import_handler.go: a response of a peer replaces what was imported from it.
use federation.Common.{
  ◌≡◌, refl, ◌⊎◌, inl, inr, Option, none, some, List, [], ◌∷◌, Text, codes, Result, ok, err, Error,
  wrap, ◌>>=◌, with_context,
}
use federation.Xds.{
  Any, PushRequest, service_entry_type_url, workload_entry_type_url, destination_rule_type_url,
}
use federation.Fds.{FederatedService, Codec}
use federation.Fds.Store.{ImportedServiceStore, update}
use mathlib.Core.List.{Memᴰ}

abbrev pub decode_context : Text
decode_context = codes "unable to unmarshal exported service"

-- The loop of `Handle`: the first resource that cannot be decoded ends it.
unfoldable pub decode_all : Codec → List Any → Result (List FederatedService)
decode_all c [] = ok []
decode_all c (res ∷ rest) = do
  s ← with_context decode_context (c.unmarshal res.value)
  ss ← decode_all c rest
  ok (s ∷ ss)

-- The store after the call, what was sent on the push channel, and the error.
pub record Handled : Type 0 where
  pub store : ImportedServiceStore
  pub pushed : List PushRequest
  pub error : Option Error

-- The three requests, in the order of the sends.
abbrev pub import_pushes : List PushRequest
import_pushes =
    record { type_url = service_entry_type_url; resources = none }
    ∷ record { type_url = workload_entry_type_url; resources = none }
    ∷ record { type_url = destination_rule_type_url; resources = none }
    ∷ []

finish : ImportedServiceStore → Text → Result (List FederatedService) → Handled
finish s source (err e) = record { store = s; pushed = []; error = some e }
finish s source (ok services) = record {
  store = update source services s;
  pushed = import_pushes;
  error = none;
}

unfoldable pub handle : Codec → Text → List Any → ImportedServiceStore → Handled
unfolding finish
handle c source resources s = finish s source (decode_all c resources)

-- The resources decode, one by one, to the services.
abbrev pub Decodes : Codec → List Any → List FederatedService → Type 0
Decodes c [] [] = Unit
Decodes c (a ∷ as') (s ∷ ss) = (c.unmarshal a.value ≡ ok s) × Decodes c as' ss
Decodes c _ _ = ⊥

-- A resource that does not decode, with the library's error.
abbrev pub Undecodable : Codec → List Any → Error → Type 0
Undecodable c resources e = (a : Any) × Memᴰ a resources × (c.unmarshal a.value ≡ err e)

decode_all_cases :
    (c : Codec) (resources : List Any)
    → ((ss : List FederatedService) × Decodes c resources ss × (decode_all c resources ≡ ok ss))
      ⊎ ((e : Error) × Undecodable c resources e
          × (decode_all c resources ≡ err (wrap decode_context e)))
unfolding decode_all
decode_all_cases c [] = inl ([], tt, refl)
decode_all_cases c (a ∷ rest) = go (c.unmarshal a.value) refl (decode_all_cases c rest)
  where
    go :
        (r : Result FederatedService)
        → c.unmarshal a.value ≡ r
        → ((ss : List FederatedService) × Decodes c rest ss × (decode_all c rest ≡ ok ss))
          ⊎ ((e : Error) × Undecodable c rest e × (decode_all c rest ≡ err (wrap decode_context e)))
        → ((ss : List FederatedService) × Decodes c (a ∷ rest) ss
            × (decode_all c (a ∷ rest) ≡ ok ss))
          ⊎ ((e : Error) × Undecodable c (a ∷ rest) e
              × (decode_all c (a ∷ rest) ≡ err (wrap decode_context e)))
    go (err e) h t = inr (e, (a, Memᴰ.head refl, h), rw h)
    go (ok s) h (inl (ss, d, k)) = inl (s ∷ ss, (h, d), rw h (rw k))
    go (ok s) h (inr (e, (b, m, u), k)) = inr (e, (b, Memᴰ.tail m, u), rw h (rw k))

pub handle_cases :
    (c : Codec) (source : Text) (resources : List Any) (s : ImportedServiceStore)
    → ((ss : List FederatedService) × Decodes c resources ss
        × (handle c source resources s
            ≡ record { store = update source ss s; pushed = import_pushes; error = none }))
      ⊎ ((e : Error) × Undecodable c resources e
          × (handle c source resources s
              ≡ record { store = s; pushed = []; error = some (wrap decode_context e) }))
unfolding handle
handle_cases c source resources s = elim (decode_all_cases c resources) [
  | inl (ss, d, k) ↦ inl (ss, d, rw k)
  | inr (e, u, k) ↦ inr (e, u, rw k)
]
