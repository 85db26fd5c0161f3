-- ===== src/Kube.antt =====
-- internal/kube: resolver.go, the kinds and their names on the command line, and errors.go, what an
-- error of the API server means for the resource that was asked for.
use kubewhy.Base.{
  ◌==◌, Bool, ◌||◌, String, String_eq, List, [], ◌∷◌, Option, none, some, if◌then◌else◌,
}
use kubewhy.Base.Text.{to_lower, trim_space}
use kubewhy.Base.Text.Search.{before_first}
use kubewhy.Diagnosis.{ResourceRef}
use kubewhy.Snapshot.Api.{entry}

pub data Kind : Type 0 where
  kind_pod kind_service kind_deployment kind_stateful_set kind_ingress kind_pvc : Kind

-- kindAliases
abbrev pub kind_aliases : List (String × Kind)
kind_aliases =
    ("pod", kind_pod)
    ∷ ("pods", kind_pod)
    ∷ ("po", kind_pod)
    ∷ ("service", kind_service)
    ∷ ("services", kind_service)
    ∷ ("svc", kind_service)
    ∷ ("deployment", kind_deployment)
    ∷ ("deployments", kind_deployment)
    ∷ ("deploy", kind_deployment)
    ∷ ("statefulset", kind_stateful_set)
    ∷ ("statefulsets", kind_stateful_set)
    ∷ ("sts", kind_stateful_set)
    ∷ ("ingress", kind_ingress)
    ∷ ("ingresses", kind_ingress)
    ∷ ("ing", kind_ingress)
    ∷ ("persistentvolumeclaim", kind_pvc)
    ∷ ("persistentvolumeclaims", kind_pvc)
    ∷ ("pvc", kind_pvc)
    ∷ []

-- The part before the first dot, where it is not empty.
abbrev without_group : String → Option String → String
without_group key none = key
without_group key (some p) = if p == "" then key else p

-- ResolveKind
unfoldable pub resolve_kind : String → Option Kind
unfolding before_first to_lower trim_space entry
resolve_kind arg =
    let key = to_lower (trim_space arg) in
    entry kind_aliases (without_group key (before_first key "."))

-- What is asked of an error of the API server: IsNotFound, IsForbidden and IsUnauthorized of
-- k8s.io/apimachinery, whether it is context.DeadlineExceeded or context.Canceled, and its message.
pub record ApiErrors (E : Type 0) : Type 0 where
  pub is_not_found : E → Bool
  pub is_forbidden : E → Bool
  pub is_unauthorized : E → Bool
  pub is_timeout : E → Bool
  pub message : E → String

-- The errors that the command line tells apart; `invalid` is one of its own, on its arguments.
pub data RunError (E : Type 0) : Type 0 where
  not_found : ResourceRef → (context : String) → RunError E
  forbidden : ResourceRef → (context detail : String) → RunError E
  other_error : E → RunError E
  invalid : RunError E

-- Classify, of an error that is not nil
unfoldable pub classify : {E : Type 0} → ApiErrors E → E → ResourceRef → String → RunError E
classify api err ref context =
    if api.is_not_found err
    then not_found ref context
    else if api.is_forbidden err || api.is_unauthorized err
    then forbidden ref context (api.message err)
    else other_error err
