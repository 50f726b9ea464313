-- ===== src/Config/Cluster.antt =====
-- internal/pkg/config/cluster.go: the namespace that the controller runs in, and the cached answer
-- of `Federation.Namespace`. What the process reads from its environment is an argument.
use mathlib.Core.List.{reverse}
use federation.Common.{
  ℕ, ◌≡◌, ◌≢◌, Bool, ◌||◌, ◌&&◌, Text, codes, text_eq, text_eq_iff, if◌then◌else◌, arith, Result,
  ok, err, [], ◌∷◌, Option, none, some, leb, ◌==◌,
}
use federation.Config.{Federation}

-- The white space of ASCII.
is_space : ℕ → Bool
is_space c = (leb 9 c && leb c 13) || c == 32

trim_left : Text → Text
trim_left [] = []
trim_left (c ∷ s) = if is_space c then trim_left s else c ∷ s

-- `strings.TrimSpace` of an ASCII text.
unfoldable pub trim_space : Text → Text
unfolding trim_left is_space
trim_space s = reverse (trim_left (reverse (trim_left s)))

abbrev pub default_namespace : Text
default_namespace = codes "istio-system"

-- The mounted file's namespace, or the default where the file is missing or blank.
from_secret : Result Text → Text
from_secret (err e) = default_namespace
from_secret (ok content) =
    let ns = trim_space content in if text_eq ns [] then default_namespace else ns

-- `env` is the variable POD_NAMESPACE, `secret` the mounted file.
unfoldable pub pod_namespace : Option Text → Result Text → Text
unfolding from_secret
pod_namespace (some ns) secret = ns
pod_namespace none secret = from_secret secret

-- `Federation.Namespace`: the answer, and the receiver with the answer kept.
unfoldable pub namespace : Option Text → Result Text → Federation → Text × Federation
namespace env secret f =
    let ns = pod_namespace env secret in
    if text_eq f.namespace [] then (ns, record f { namespace = ns }) else (f.namespace, f)

-- With POD_NAMESPACE unset the namespace is never empty.
pub pod_namespace-ne-nil : (secret : Result Text) → pod_namespace none secret ≢ []
unfolding pod_namespace
pod_namespace-ne-nil (err e) h = cc
pod_namespace-ne-nil (ok content) h = ground (arith, text_eq_iff (trim_space content) [])

-- Once a call has answered, later calls give that answer and change nothing, whatever the
-- environment has become, provided that the answer is not empty.
pub namespace_stable :
    (env env' : Option Text) (secret secret' : Result Text) (f : Federation)
    → (namespace env secret f).0 ≢ []
    → namespace env' secret' (namespace env secret f).1
      ≡ ((namespace env secret f).0, (namespace env secret f).1)
unfolding namespace
namespace_stable env env' secret secret' f h =
    ground (arith, text_eq_iff f.namespace [], text_eq_iff (pod_namespace env secret) [])
