-- ===== src/Rules/Pod/ImagePull.antt =====
-- evaluateImagePull of internal/diagnosis/rules/pod/imagepull.go.
use kubewhy.Base.{
  ltb, ◌==◌, Bool, false, not, ◌&&◌, String, String_eq, List, [], ◌∷◌, ◌++◌, Option, none, some,
  if◌then◌else◌, gather, any, find_first,
}
use kubewhy.Base.Text.{◌<>◌, quote, to_lower, contains}
use kubewhy.Diagnosis.{Confidence, certain, likely, critical, Diagnosis, Suggestion}
use kubewhy.Snapshot.{Event}
use kubewhy.Snapshot.Api.{ContainerSpec, Waiting}
use kubewhy.Snapshot.Events.{event_container, with_reason}
use kubewhy.Snapshot.Pod.{Pod, Container, container_kind, containers, pod_ref, waiting}
use kubewhy.Rules.Pod.Ids.{id_image_pull_failed, certainly, suggest, fact, quoted_fact}
use kubewhy.Rules.Pod.Helpers.{capitalize, container_evidence, truncate}
use Prim.Native.String.{len}

-- imageWaitReasons
abbrev pub image_wait_reasons : List String
image_wait_reasons =
    "ImagePullBackOff" ∷ "ErrImagePull" ∷ "InvalidImageName" ∷ "ImageInspectError"
    ∷ "ErrImageNeverPull" ∷ "RegistryUnavailable" ∷ []

-- imageCause, less its field `commands`, which the program never sets.
pub record ImageCause : Type 0 where
  pub classification : String
  pub explanation : String
  pub confidence : Confidence
  pub causes : List String
  pub action : String

pub record ImageMatcher : Type 0 where
  pub needles : List String
  pub classification : String
  pub explanation : String
  pub causes : List String
  pub action : String

abbrev pub not_found_matcher : ImageMatcher
not_found_matcher = record {
  needles =
      "manifest unknown" ∷ "manifest for" ∷ "not found" ∷ "does not exist"
      ∷ "repository does not exist" ∷ [];
  classification = "image or tag not found";
  explanation = "The registry answered that the image or tag does not exist.";
  causes =
      "the tag was never pushed, or was deleted from the registry"
      ∷ "the image name or tag contains a typo" ∷ [];
  action = "Verify the image name and tag against the registry.";
}

abbrev pub credentials_matcher : ImageMatcher
credentials_matcher = record {
  needles =
      "unauthorized" ∷ "authentication required" ∷ "pull access denied"
      ∷ "no basic auth credentials" ∷ "denied:" ∷ "forbidden" ∷ [];
  classification = "registry rejected the credentials";
  explanation =
      "The registry refused the request because it was not authenticated or not authorised for this repository.";
  causes =
      "the Pod has no imagePullSecret for this registry"
      ∷ "the imagePullSecret exists but does not grant access to this repository"
      ∷ "the image is private and the node's credentials do not cover it" ∷ [];
  action =
      "Check the Pod's imagePullSecrets and the permissions they grant. KubeWhy does not read their contents.";
}

abbrev pub rate_limit_matcher : ImageMatcher
rate_limit_matcher = record {
  needles = "toomanyrequests" ∷ "rate limit" ∷ "too many requests" ∷ [];
  classification = "registry rate limit";
  explanation = "The registry rejected the pull because a rate limit was reached.";
  causes = "the registry limits anonymous or per-account pulls and the quota is exhausted" ∷ [];
  action = "Wait for the limit to reset, authenticate the pulls, or mirror the image.";
}

abbrev pub unreachable_matcher : ImageMatcher
unreachable_matcher = record {
  needles =
      "no such host" ∷ "i/o timeout" ∷ "connection refused" ∷ "dial tcp" ∷ "network is unreachable"
      ∷ "server gave http response to https client" ∷ "x509" ∷ "certificate" ∷ [];
  classification = "registry unreachable from the node";
  explanation = "The node could not complete a connection to the registry.";
  causes =
      "the node cannot resolve or reach the registry host"
      ∷ "a proxy, firewall or egress policy blocks the connection"
      ∷ "the registry uses a certificate the node does not trust" ∷ [];
  action =
      "Check the node's network path to the registry, including DNS, egress rules and trusted certificates.";
}

-- imageMatchers
abbrev pub image_matchers : List ImageMatcher
image_matchers =
    not_found_matcher ∷ credentials_matcher ∷ rate_limit_matcher ∷ unreachable_matcher ∷ []

unfoldable pub matches : String → ImageMatcher → Bool
unfolding any
matches lower m = any (contains lower) m.needles

abbrev pub matched_cause : Option ImageMatcher → ImageCause
matched_cause (some m) = record {
  classification = m.classification;
  explanation = m.explanation;
  confidence = likely;
  causes = m.causes;
  action = m.action;
}
matched_cause none = record {
  classification = "";
  explanation = "The message the registry returned does not identify a more specific cause.";
  confidence = certain;
  causes =
      "the image or tag does not exist" ∷ "the registry requires credentials the Pod does not have"
      ∷ "the node cannot reach the registry" ∷ [];
  action = "";
}

-- classifyImageFailure
unfoldable pub classify_image_failure : String → String → ImageCause
unfolding matches find_first
classify_image_failure reason message =
    if reason == "InvalidImageName"
    then record {
      classification = "invalid image reference";
      explanation = "The image reference is not a valid name, so no pull was attempted.";
      confidence = certain;
      causes = "the image field contains a malformed reference" ∷ [];
      action = "Correct the image reference in the Pod template.";
    }
    else if reason == "ErrImageNeverPull"
    then record {
      classification = "image absent and pull policy Never";
      explanation =
          "The image is not present on the node and imagePullPolicy is Never, so the kubelet did not try to pull it.";
      confidence = certain;
      causes = "the image was expected to be preloaded on the node but is not there" ∷ [];
      action = "Preload the image on the node or change imagePullPolicy.";
    }
    else matched_cause (find_first (matches (to_lower message)) image_matchers)

-- imageCause.suggestions
image_suggestions : ImageCause → Pod → List Suggestion
image_suggestions cause snap =
    suggest
      (if cause.action == ""
        then "Check that the image reference is correct and that the node can reach the registry."
        else cause.action)
      ("kubectl describe pod " <> snap.pod.name <> " -n " <> snap.pod.namespace ∷ [])
    ∷ []

-- The loop over the pull events: the longest message that may be about the container.
abbrev pub longer_detail : Container → String → Event → String
longer_detail c detail ev =
    let other = event_container ev in
    if not (other == "") && not (other == c.name)
    then detail
    else if ltb (len detail) (len ev.message)
    then ev.message
    else detail

unfoldable pub detail_from : Container → String → List Event → String
detail_from c detail [] = detail
detail_from c detail (ev ∷ evs) = detail_from c (longer_detail c detail ev) evs

abbrev image_of : Option ContainerSpec → String
image_of none = ""
image_of (some s) = s.image

unfoldable pub image_diagnosis : Pod → Container → Waiting → Diagnosis
unfolding classify_image_failure image_suggestions detail_from
image_diagnosis snap c w =
    let image = image_of c.spec in
    let detail = detail_from c w.message (with_reason ("Failed" ∷ "BackOff" ∷ []) snap.events) in
    let cause = classify_image_failure w.reason detail in
    record (certainly id_image_pull_failed (pod_ref snap) c.name critical (
      capitalize (container_kind c)
      <> " "
      <> quote c.name
      <> " cannot start because its image could not be pulled")) {
        confidence = cause.confidence;
        explanation =
            "Kubernetes reports "
            <> w.reason
            <> " for image "
            <> quote image
            <> ". "
            <> cause.explanation;
        possible_causes = cause.causes;
        evidence =
            fact "podSpec" "image" image ∷ container_evidence c
            ++ (if not (detail == "") && not (detail == w.message)
                then quoted_fact "event" "reason" "Failed" (truncate detail 300) ∷ []
                else [])
            ++ (if cause.classification == ""
                then []
                else fact "kubewhy" "classification" cause.classification ∷ []);
        suggestions = image_suggestions cause snap;
      }

abbrev pub is_image_wait : Option Waiting → Bool
is_image_wait none = false
is_image_wait (some w) = any (λ r. w.reason == r) image_wait_reasons

abbrev pub image_found : Pod → Container → Option Waiting → List Diagnosis
image_found snap c none = []
image_found snap c (some w) = if is_image_wait (some w) then image_diagnosis snap c w ∷ [] else []

unfoldable pub image_pull_of : Pod → Container → List Diagnosis
unfolding image_diagnosis any
image_pull_of snap c = image_found snap c (waiting c)

unfoldable pub evaluate_image_pull : Pod → List Diagnosis
unfolding image_pull_of gather
evaluate_image_pull snap = gather (image_pull_of snap) (containers snap)
