-- ===== src/Examples/MeshFederations.antt =====
-- An example for the controller of mesh federations: a server of one of them, whose conditions are
-- numbers, and whose metadata is a version, made from the conditions.
use federation.Common.{
  ℕ, ◌≡◌, refl, sym, ap, ◌∙◌, ◌⊎◌, inl, inr, Bool, true, false, Bool-cases, Option, none, some,
  List, [], ◌∷◌, ◌++◌, Text, codes, text_eq, text_eq_iff, Error, conflict, not_found, Result, ok,
  err, if◌then◌else◌, ◌==◌,
}
use federation.Kube.Api.{NamespacedName, same_name, same_name_iff}
use federation.Controllers.{ObjectClient, World, interrupted}
use federation.Controllers.Retry.Kept.{Versioned}
use federation.Controllers.MeshFederation.{
  MeshFederation, MeshFederationSpec, Conditions, reconcile,
}
use federation.Controllers.MeshFederation.Outcomes.{Outcome, reconcile_cases}
use federation.Examples.Kube.{place}
use federation.Examples.Retries.{retry_times, retry_times-Retries}

abbrev Mesh : Type 0
Mesh = MeshFederation Text Text ℕ

abbrev spec : MeshFederationSpec Text
spec = record {
  network = codes "east-network";
  trust_domain = codes "cluster.local";
  control_plane_namespace = codes "istio-system";
  ingress_config = record {
    type_ = codes "istio";
    gateway_config = record {
      selector = [];
      port_config = record { name = codes "tls-passthrough"; number = 15443 };
    };
  };
  export_rules = none;
}

abbrev mesh : List ℕ → Mesh
mesh cs = record { object_meta = cs; spec = spec; status = record { conditions = cs } }

abbrev view : List ℕ → NamespacedName → Option Mesh
view s k = if same_name place k then some (mesh s) else none

abbrev found : Option Mesh → Result Mesh
found none = err not_found
found (some x) = ok x

abbrev write : Mesh → List ℕ → List ℕ × Option Error
write o s = if text_eq o.object_meta s then (o.status.conditions, none) else (s, some conflict)

abbrev client : ObjectClient (List ℕ) Mesh
client = record {
  key_of = λ o. place;
  deep_copy = λ o. some o;
  get = λ k s. found (view s k);
  update = λ o s. (s, none);
  update_status = write;
}

viewed :
    (k : NamespacedName) (s : List ℕ) (x : Mesh) → view s k ≡ some x → (place ≡ k) × (x ≡ mesh s)
viewed k s x h = elim (Bool-cases (same_name place k)) [
  | inl here ↦ ((same_name_iff place k).0 here, (let q = rw here at h in cc))
  | inr other ↦ absurd (let q = rw other at h in cc)
]

got : (o : Option Mesh) (x : Mesh) → found o ≡ ok x → o ≡ some x
got none x h = cc
got (some y) x h = cc

one_at :
    (k : NamespacedName) (s t : List ℕ) (x y : Mesh)
    → view s k ≡ some x
    → view t k ≡ some y
    → x.object_meta ≡ y.object_meta
    → x ≡ y
one_at k s t x y h h' e =
    let (p, r) = viewed k s x h in
    let (p', r') = viewed k t y h' in
    let v : s ≡ t =
      sym (ap (λ (z : Mesh). z.object_meta) r) ∙ e ∙ ap (λ (z : Mesh). z.object_meta) r' in
    r ∙ ap mesh v ∙ sym r'

place_same : same_name place place ≡ true
place_same = (same_name_iff place place).1 refl

over_version :
    (o : Mesh) (s : List ℕ)
    → (write o s).1 ≡ none
    → (x : Mesh) × (view s place ≡ some x) × (x.object_meta ≡ o.object_meta)
over_version o s h = elim (Bool-cases (text_eq o.object_meta s)) [
  | inl same ↦ (mesh s, rw place_same refl, sym ((text_eq_iff o.object_meta s).0 same))
  | inr other ↦ absurd (let q = rw other at h in cc)
]

stored :
    (o : Mesh) (s : List ℕ)
    → (write o s).1 ≡ none
    → ((y : Mesh) × (view (write o s).0 place ≡ some y)
        × (y.status.conditions ≡ o.status.conditions))
      ⊎ ((view (write o s).0 place ≡ none) × ⊥)
stored o s h = elim (Bool-cases (text_eq o.object_meta s)) [
  | inl same ↦ rw same (rw place_same (inl (mesh o.status.conditions, refl, refl)))
  | inr other ↦ absurd (let q = rw other at h in cc)
]

abbrev versioned : Versioned client write
versioned = record {
  view = view;
  version = λ x. x.object_meta;
  Same = λ x y. x.status.conditions ≡ y.status.conditions;
  Leaving = λ x. ⊥;
  got = λ k s x h. (s, got (view s k) x h);
  named = λ k s x h. (viewed k s x h).0;
  unchanged = one_at;
  over_version = over_version;
  stored = stored;
}

-- A condition is set by its being there.
has : ℕ → List ℕ → Bool
has n [] = false
has n (c ∷ cs) = if n == c then true else has n cs

abbrev util : Conditions ℕ
util = record {
  condition = λ t s r m. 1;
  set_status_condition = λ cs c. if has c cs then (cs, false) else (cs ++ c ∷ [], true);
}

-- Others set a condition before the first attempt.
abbrev world : World (List ℕ)
world = record { server = []; others = (λ s. s) ∷ (λ s. s ++ 7 ∷ []) ∷ [] }

reconcile_cases_example :
    Outcome util client
      (retry_times 4)
      (retry_times-Retries 4)
      versioned
      (λ f. record { key_of = λ x. refl; version = λ x. refl })
      (codes "failed fetching MeshFederation")
      (client.get place (interrupted world).server)
      (interrupted world)
      (reconcile util client (retry_times 4) place (codes "failed fetching MeshFederation") world)
reconcile_cases_example =
    reconcile_cases util client (retry_times 4) (retry_times-Retries 4) versioned
      (λ f. record { key_of = λ x. refl; version = λ x. refl }) place
      (codes "failed fetching MeshFederation") world
