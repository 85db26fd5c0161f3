-- ===== src/Rules/Pod/Scheduling/Message.antt =====
-- parseSchedulerMessage and what reads its result, of internal/diagnosis/rules/pod/scheduling.go.
use Prim.Native.Char.{code}
use kubewhy.Base.{
  ℕ, ltb, ◌==◌, Bool, false, not, ◌&&◌, ◌||◌, String, String_eq, ℕ_eq, List, [], ◌∷◌, ◌++◌, Option,
  none, some, if◌then◌else◌, any, all,
}
use kubewhy.Base.Text.{
  ◌<>◌, itoa, to_lower, contains, trim_space, trim_char, cut_prefix, has_prefix,
}
use kubewhy.Base.Text.Search.{before_first, after_first, split, leading_number}
use kubewhy.Diagnosis.{Suggestion}
use kubewhy.Rules.Pod.Ids.{
  suggest, id_unschedulable_cpu, id_unschedulable_memory, id_untolerated_taint,
  id_unschedulable_affinity, id_unschedulable_volume,
}

-- schedulingCategory
pub data Category : Type 0 where
  cpu memory resource taint affinity anti_affinity volume capacity cordoned other : Category

pub Category-discrete : Discrete Category
Category-discrete = hlevel

abbrev category_number : Category → ℕ
category_number cpu = 0
category_number memory = 1
category_number resource = 2
category_number taint = 3
category_number affinity = 4
category_number anti_affinity = 5
category_number volume = 6
category_number capacity = 7
category_number cordoned = 8
category_number other = 9

abbrev pub same_category : Category → Category → Bool
same_category a b = category_number a == category_number b

-- schedulerReason
pub record Reason : Type 0 where
  pub count : ℕ
  pub text : String
  pub category : Category

unfoldable pub reason_text : Reason → String
reason_text r = if r.count == 0 then r.text else itoa r.count <> " " <> r.text

-- schedulerReport
pub record SchedulerReport : Type 0 where
  pub evaluated : ℕ
  pub reasons : List Reason

-- The number of nodes where nodesAvailableRe, (\d+)/(\d+) nodes are available, matches at the start.
abbrev total_behind : String → Option ℕ
total_behind s = elim (leading_number s) [
  | none ↦ none
  | some total ↦ if has_prefix total.1 " nodes are available" then some total.0 else none
]

abbrev ratio_at : String → Option ℕ
ratio_at s = elim (leading_number s) [
  | none ↦ none
  | some available ↦ elim (cut_prefix available.1 "/") [
    | none ↦ none
    | some rest ↦ total_behind rest
  ]
]

-- The first match, or 0.
unfoldable pub nodes_evaluated : String → ℕ
nodes_evaluated String.[] = 0
nodes_evaluated (String.◌∷◌ c s) =
    let rest = nodes_evaluated s in
    elim (ratio_at (String.◌∷◌ c s)) [ some total ↦ total | none ↦ rest ]

-- \s of a regular expression.
abbrev is_blank : ℕ → Bool
is_blank c = c == 32 || c == 9 || c == 10 || c == 12 || c == 13

skip_blanks : String → String
skip_blanks String.[] = ""
skip_blanks (String.◌∷◌ c s) =
    let rest = skip_blanks s in if is_blank (code c) then rest else String.◌∷◌ c s

starts_blank : String → Bool
starts_blank String.[] = false
starts_blank (String.◌∷◌ c s) = is_blank (code c)

-- leadingCountRe, ^(\d+)\s+(.*)$: a count and the text behind it.
unfoldable pub leading_count : String → Option (ℕ × String)
unfolding skip_blanks starts_blank
leading_count part = elim (leading_number part) [
  | none ↦ none
  | some found ↦
      let rest = skip_blanks found.1 in
      if starts_blank found.1 && not (contains rest "\n") then some (found.0, rest) else none
]

-- classifyScheduling
unfoldable pub classify_scheduling : String → Category
classify_scheduling text =
    let lower = to_lower text in
    if contains lower "anti-affinity"
    then anti_affinity
    else if contains lower "insufficient cpu"
    then cpu
    else if contains lower "insufficient memory"
    then memory
    else if contains lower "insufficient"
    then resource
    else if contains lower "taint"
    then taint
    else if contains lower "affinity"
        || contains lower "node selector"
        || contains lower "didn't match"
    then affinity
    else if contains lower "volume" || contains lower "persistentvolumeclaim"
    then volume
    else if contains lower "too many pods"
    then capacity
    else if contains lower "unschedulable"
    then cordoned
    else other

abbrev reason_with : ℕ → String → Reason
reason_with count text = record { count = count; text = text; category = classify_scheduling text }

-- One part of the message.
unfoldable pub reason_of : String → Reason
unfolding leading_count classify_scheduling
reason_of part = elim (leading_count part) [
  | some found ↦ reason_with found.0 found.1
  | none ↦ reason_with 0 part
]

unfoldable pub reasons_of : List String → List Reason
unfolding reason_of
reasons_of [] = []
reasons_of (p ∷ ps) =
    let part = trim_space (trim_char 46 (trim_space p)) in
    let rest = reasons_of ps in if part == "" then rest else reason_of part ∷ rest

-- The message without its preemption summary, unless that is all of it.
without_preemption : String → String
without_preemption message = elim (before_first message "preemption:") [
  | none ↦ message
  | some shorter ↦ if shorter == "" then message else shorter
]

body_of : String → String
body_of message = elim (after_first message ":") [ none ↦ message | some body ↦ body ]

-- parseSchedulerMessage
unfoldable pub parse_scheduler_message : String → SchedulerReport
unfolding nodes_evaluated reasons_of without_preemption body_of
parse_scheduler_message message =
    let m = without_preemption message in
    record { evaluated = nodes_evaluated m; reasons = reasons_of (split 44 (body_of m)) }

-- hasCategory
unfoldable pub has_category : List Reason → Category → Bool
unfolding any
has_category reasons c = any (λ r. same_category r.category c) reasons

-- needsResources
unfoldable pub needs_resources : List Reason → Bool
unfolding has_category
needs_resources reasons =
    has_category reasons cpu || has_category reasons memory || has_category reasons resource

abbrev pub category_id : Category → Option String
category_id cpu = some id_unschedulable_cpu
category_id memory = some id_unschedulable_memory
category_id taint = some id_untolerated_taint
category_id affinity = some id_unschedulable_affinity
category_id volume = some id_unschedulable_volume
category_id _ = none

-- dominantID: the identifier of the category, where the set of categories has one element.
unfoldable pub dominant_id : List Reason → Option String
unfolding all
dominant_id [] = none
dominant_id (r ∷ rs) =
    if all (λ s. same_category s.category r.category) rs then category_id r.category else none

-- schedulerReport.explanation
unfoldable pub scheduling_explanation : ℕ → String
scheduling_explanation evaluated =
    (if ltb 0 evaluated
      then "The scheduler evaluated " <> itoa evaluated <> " node(s) and rejected all of them. "
      else "The scheduler rejected every node it evaluated. ")
    <> "These are the reasons it reported, unchanged."

abbrev category_causes : Category → List String
category_causes taint = "the nodes carry taints the Pod does not tolerate" ∷ []
category_causes affinity =
    "the Pod's nodeSelector or node affinity matches no node with capacity" ∷ []
category_causes anti_affinity = "pod anti-affinity rules exclude the remaining nodes" ∷ []
category_causes volume =
    "a volume the Pod needs is not bound, or is bound to a zone the node is not in" ∷ []
category_causes capacity = "the candidate nodes already run their maximum number of Pods" ∷ []
category_causes cordoned = "the candidate nodes are cordoned" ∷ []
category_causes other = []
category_causes _ =
    "no node has enough free capacity for the Pod's requests"
    ∷ "the Pod's requests are larger than any single node can offer" ∷ []

-- schedulerReport.causes, with the categories that are already seen.
unfoldable pub scheduling_causes : List Category → List Reason → List String
unfolding any
scheduling_causes seen [] = []
scheduling_causes seen (r ∷ rs) =
    let known = any (same_category r.category) seen in
    let rest = scheduling_causes (if known then seen else r.category ∷ seen) rs in
    if known then rest else category_causes r.category ++ rest

-- schedulerReport.suggestions
unfoldable pub scheduling_suggestions : List Reason → List Suggestion
unfolding needs_resources has_category
scheduling_suggestions reasons =
    (if needs_resources reasons
      then suggest "Compare the Pod's requests with the capacity the nodes have left."
          ("kubectl describe nodes | grep -A5 'Allocated resources'" ∷ [])
        ∷ []
      else [])
    ++ (if has_category reasons taint
        then suggest "Review the taints on the candidate nodes and the tolerations on the Pod."
            ("kubectl get nodes -o custom-columns=NAME:.metadata.name,TAINTS:.spec.taints" ∷ [])
          ∷ []
        else [])
    ++ (if has_category reasons affinity
        then suggest
            "Check the Pod's nodeSelector and affinity rules against the labels the nodes actually carry."
            ("kubectl get nodes --show-labels" ∷ [])
          ∷ []
        else [])
    ++ (if has_category reasons volume
        then suggest
            "Check the claims the Pod mounts; a Pod waits for its volumes before it can be placed."
            []
          ∷ []
        else [])
