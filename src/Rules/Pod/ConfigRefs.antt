-- ===== src/Rules/Pod/ConfigRefs.antt =====
-- evaluateConfigRefs of internal/diagnosis/rules/pod/config.go.
use kubewhy.Base.{
  ◌==◌, Bool, false, not, ◌||◌, String, String_eq, List, [], ◌∷◌, ◌++◌, Option, none, some,
  if◌then◌else◌, gather, map, any, is_empty,
}
use kubewhy.Base.Sort.{sort_stable}
use kubewhy.Base.Text.{◌<>◌, quote, text_less, to_lower}
use kubewhy.Base.Text.Search.{quoted_names}
use kubewhy.Diagnosis.{critical, Diagnosis}
use kubewhy.Snapshot.{Existence, is_missing}
use kubewhy.Snapshot.Api.{Waiting}
use kubewhy.Snapshot.Pod.{Pod, Container, container_kind, containers, pod_ref, waiting}
use kubewhy.Rules.Pod.Ids.{
  id_missing_config_map, id_missing_secret, id_create_container_config_err, certainly, suggest,
  fact,
}
use kubewhy.Rules.Pod.Helpers.{capitalize, container_evidence}

-- The loop of missingNames.
unfoldable pub missing_among : List (String × Existence) → List String
missing_among [] = []
missing_among ((name, state) ∷ refs) =
    let rest = missing_among refs in if is_missing state then name ∷ rest else rest

-- missingNames
unfoldable pub missing_names : List (String × Existence) → List String
unfolding missing_among sort_stable
missing_names refs = sort_stable text_less (missing_among refs)

-- referencesAny
unfoldable pub references_any : String → List String → Bool
unfolding any
references_any message names = any (λ q. any (λ n. q == n) names) (quoted_names message)

-- missingObjectDiagnosis
unfoldable pub missing_object_diagnosis : Pod → String → String → String → Diagnosis
missing_object_diagnosis snap id kind name =
    record (certainly id (pod_ref snap) "" critical
      (kind <> " " <> quote name <> " does not exist but the Pod requires it")) {
        explanation =
            "The Pod references "
            <> kind
            <> " "
            <> quote name
            <> " without marking it optional, so no container can start until it "
            <> "exists. The API server reports that it is not present in namespace "
            <> quote snap.pod.namespace
            <> ".";
        evidence = fact "api" (to_lower kind <> "/" <> name) "NotFound" ∷ [];
        suggestions =
            suggest
              ("Create the " <> kind
                <> ", or fix the reference in the Pod template if the name changed.")
              ("kubectl get " <> to_lower kind <> " -n " <> snap.pod.namespace ∷ [])
            ∷ [];
      }

-- The switch that links a container's error to a missing object.
unfoldable pub config_cause : String → List String → List String → String
unfolding references_any
config_cause message config_maps secrets =
    if references_any message config_maps
    then id_missing_config_map
    else if references_any message secrets
    then id_missing_secret
    else if not (is_empty config_maps)
    then id_missing_config_map
    else if not (is_empty secrets)
    then id_missing_secret
    else ""

unfoldable pub config_diagnosis : Pod → Container → Waiting → Diagnosis
unfolding config_cause missing_names
config_diagnosis snap c w =
    record (certainly id_create_container_config_err (pod_ref snap) c.name critical (
      capitalize (container_kind c)
      <> " "
      <> quote c.name
      <> " cannot be created from its configuration")) {
        explanation =
            "The kubelet could not build the container because part of the configuration it "
            <> "references is not usable. The message below is the kubelet's own.";
        evidence = container_evidence c;
        suggestions =
            suggest
              "Check the ConfigMaps, Secrets and keys the container references against what exists in the namespace."
              ("kubectl get configmap,secret -n " <> snap.pod.namespace ∷ [])
            ∷ [];
        caused_by =
            config_cause w.message (missing_names snap.config_maps) (missing_names snap.secrets);
      }

abbrev pub is_config_error : Option Waiting → Bool
is_config_error none = false
is_config_error (some w) =
    w.reason == "CreateContainerConfigError" || w.reason == "CreateContainerError"

abbrev pub config_found : Pod → Container → Option Waiting → List Diagnosis
config_found snap c none = []
config_found snap c (some w) =
    if is_config_error (some w) then config_diagnosis snap c w ∷ [] else []

unfoldable pub config_of : Pod → Container → List Diagnosis
unfolding config_diagnosis
config_of snap c = config_found snap c (waiting c)

unfoldable pub evaluate_config_refs : Pod → List Diagnosis
unfolding missing_object_diagnosis config_of missing_names gather
evaluate_config_refs snap =
    map (missing_object_diagnosis snap id_missing_config_map "ConfigMap")
      (missing_names snap.config_maps)
    ++ map (missing_object_diagnosis snap id_missing_secret "Secret") (missing_names snap.secrets)
    ++ gather (config_of snap) (containers snap)
