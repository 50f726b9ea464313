-- ===== src/Kubernetes.antt =====
-- The Kubernetes objects that the controller reads, the listers of client-go as parameters, and the
-- loop over the export rules that four functions of the program share.
use federation.Common.{
  ◌≡◌, refl, List, [], ◌∷◌, ◌++◌, Text, Result, ok, err, Error, ◌>>=◌, with_context, concat_map,
  wrap, ap, sym, ◌∙◌, codes, concat_map-append,
}
use federation.Common.Decimal.{ℤ}
use federation.Config.{Labels, LabelSelectors}

-- corev1.ServicePort: `port` is an int32, `target_port` the `IntVal` of an IntOrString.
pub record ServicePort : Type 0 where
  pub name : Text
  pub port : ℤ
  pub target_port : ℤ

-- corev1.Service.
pub record Service : Type 0 where
  pub name : Text
  pub namespace : Text
  pub labels : Labels
  pub ports : List ServicePort

-- A `v1.ServiceLister`: `list` takes the labels of a `labels.SelectorFromSet`, `get` a namespace and
-- a name.
pub record ServiceLister : Type 0 where
  pub list : Labels → Result (List Service)
  pub get : Text → Text → Result Service

-- `for _, selector := range selectors { services, err := lister.List(…); if err != nil { return
-- context }; for _, svc := range services { emit } }`.
module _ {ℓ} {B : Type ℓ} (lister : ServiceLister) (context : Text) (emit : Service → List B) where
  unfoldable pub list_each : List LabelSelectors → Result (List B)
  list_each [] = ok []
  list_each (s ∷ ss) = do
    services ← with_context context (lister.list s.match_labels)
    rest ← list_each ss
    ok (concat_map emit services ++ rest)

-- The services that the selectors list, in the order of the selectors; a service is there once for
-- each selector that lists it.
module _ (lister : ServiceLister) where
  unfoldable pub exported_services : List LabelSelectors → Result (List Service)
  exported_services [] = ok []
  exported_services (s ∷ ss) = do
    services ← lister.list s.match_labels
    rest ← exported_services ss
    ok (services ++ rest)

-- What a caller of the loop gets from the services, or from the failure to list them.
abbrev pub emitted {ℓ} :
    {B : Type ℓ} → Text → (Service → List B) → Result (List Service) → Result (List B)
emitted context emit (ok services) = ok (concat_map emit services)
emitted context emit (err e) = err (wrap context e)

-- One more selector in front, whatever it and the others list.
emitted-append {ℓ} :
    {B : Type ℓ} (context : Text) (emit : Service → List B) (first rest : Result (List Service))
    → (do
      services ← with_context context first
      out ← emitted context emit rest
      ok (concat_map emit services ++ out))
      ≡ emitted context emit (do services ← first; out ← rest; ok (services ++ out))
emitted-append context emit (err e) rest = refl
emitted-append context emit (ok services) (err e) = refl
emitted-append context emit (ok services) (ok out) =
    ap ok (sym (concat_map-append emit services out))

-- The loop stops at the first selector whose services cannot be listed, and else emits for all.
pub list_each_lem {ℓ} :
    {B : Type ℓ} (lister : ServiceLister) (context : Text) (emit : Service → List B)
    (ss : List LabelSelectors)
    → list_each lister context emit ss ≡ emitted context emit (exported_services lister ss)
unfolding list_each exported_services concat_map
list_each_lem lister context emit [] = refl
list_each_lem lister context emit (s ∷ ss) =
    rw (list_each_lem lister context emit ss)
      (emitted-append context emit (lister.list s.match_labels) (exported_services lister ss))

-- `fmt.Sprintf("%s.%s.svc.cluster.local", name, namespace)`.
unfoldable pub cluster_local : Text → Text → Text
cluster_local name namespace = name ++ (codes "." ++ (namespace ++ codes ".svc.cluster.local"))

-- The label that the controller puts on everything it creates.
abbrev pub peer_label : Labels
peer_label = (codes "federation.openshift-service-mesh.io/peer", codes "todo") ∷ []

-- An object of the API server: the parts of its metadata that the code sets, and its spec.
pub record Object (Spec : Type 0) : Type 0 where
  pub name : Text
  pub namespace : Text
  pub labels : Labels
  pub spec : Spec

-- With the services listed, the loop emits for each of them.
pub list_each_ok {ℓ} :
    {B : Type ℓ} (lister : ServiceLister) (context : Text) (emit : Service → List B)
    (ss : List LabelSelectors) (services : List Service)
    → exported_services lister ss ≡ ok services
    → list_each lister context emit ss ≡ ok (concat_map emit services)
list_each_ok lister context emit ss services h =
    list_each_lem lister context emit ss ∙ ap (emitted context emit) h

-- A failure to list is returned in its context.
pub list_each_err {ℓ} :
    {B : Type ℓ} (lister : ServiceLister) (context : Text) (emit : Service → List B)
    (ss : List LabelSelectors) (e : Error)
    → exported_services lister ss ≡ err e
    → list_each lister context emit ss ≡ err (wrap context e)
list_each_err lister context emit ss e h =
    list_each_lem lister context emit ss ∙ ap (emitted context emit) h
