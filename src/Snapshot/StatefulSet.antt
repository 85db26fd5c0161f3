-- ===== src/Snapshot/StatefulSet.antt =====
-- internal/snapshot/statefulset.go: what a StatefulSet diagnosis needs, and the ordinals of its Pods.
pub mod Names
pub mod Ordinals
use Prim.Native.Char.{code}
use Prim.Native.String
use kubewhy.Base.{
  ℕ, zero, suc, leb, ◌==◌, Bool, true, false, not, ◌&&◌, String, String_eq, ℕ_eq, List, [], ◌∷◌,
  Option, none, some, if◌then◌else◌, any, find_first, is_some, map,
}
use kubewhy.Base.Int.{ℤ, pos, negsuc}
use kubewhy.Base.Text.{◌<>◌, itoa}
use kubewhy.Base.Text.Digits.{read_digits}
use kubewhy.Base.Time.{Time, Duration, sub, max_int64}
use kubewhy.Diagnosis.{ResourceRef}
use kubewhy.Snapshot.{Existence, Event}
use kubewhy.Snapshot.Api.{StatefulSetObject, Condition}
use kubewhy.Snapshot.Collection.{Collection}
use kubewhy.Snapshot.Pod.{Pod, PvcRef}

pub record HeadlessService : Type 0 where
  pub name : String
  pub exists : Existence
  pub headless : Bool
  pub selects : Bool

pub record StatefulSet : Type 0 where
  pub collection : Collection
  pub set : StatefulSetObject
  pub events : List Event
  pub pods : List Pod
  pub service : HeadlessService
  pub claims : List (String × PvcRef)
  pub now : Time

-- StatefulSet.Ref
unfoldable pub set_ref : StatefulSet → ResourceRef
set_ref s = record { kind = "StatefulSet"; namespace = s.set.namespace; name = s.set.name }

abbrev or_int : ℤ → Option ℤ → ℤ
or_int n none = n
or_int n (some m) = m

-- StatefulSet.DesiredReplicas
unfoldable pub desired_replicas : StatefulSet → ℤ
desired_replicas s = or_int (pos 1) s.set.replicas

-- StatefulSet.Age
unfoldable pub set_age : StatefulSet → Duration
unfolding sub
set_age s = sub s.now s.set.creation_timestamp

-- StatefulSet.OrderedStart
unfoldable pub is_ordered_start : StatefulSet → Bool
is_ordered_start s = not (s.set.pod_management_policy == "Parallel")

-- StatefulSet.UpdatesOnDelete
unfoldable pub updates_on_delete : StatefulSet → Bool
updates_on_delete s = s.set.update_strategy == "OnDelete"

-- StatefulSet.Partition
unfoldable pub partition : StatefulSet → ℤ
partition s = or_int (pos 0) s.set.partition

-- StatefulSet.RolloutPending
unfoldable pub is_rollout_pending : StatefulSet → Bool
is_rollout_pending s =
    not (s.set.update_revision == "") && not (s.set.current_revision == s.set.update_revision)

-- strconv.Atoi of digits: no number where it is out of range.
abbrev in_range : Option ℕ → Option ℕ
in_range none = none
in_range (some n) = if leb n max_int64 then some n else none

-- The digits behind a hyphen, up to the end: "-(\d+)$" at this place.
number_after : String → Option ℕ
unfolding read_digits
number_after String.[] = none
number_after (String.◌∷◌ c s) = if code c == 45 && not (s == "") then read_digits 0 s else none

first_number : Option ℕ → Option ℕ → Option ℕ
first_number none rest = rest
first_number (some n) rest = some n

find_number : String → Option ℕ
unfolding number_after first_number
find_number String.[] = none
find_number (String.◌∷◌ c s) =
    let rest = find_number s in first_number (number_after (String.◌∷◌ c s)) rest

-- Ordinal
unfoldable pub ordinal : String → Option ℕ
unfolding find_number
ordinal pod_name = in_range (find_number pod_name)

-- StatefulSet.ClaimName
unfoldable pub claim_name : StatefulSet → String → ℕ → String
claim_name s template n = template <> "-" <> s.set.name <> "-" <> itoa n

-- StatefulSet.ClaimTemplates
unfoldable pub claim_templates : StatefulSet → List String
claim_templates s = s.set.volume_claim_templates

-- podIsReady of the same file: the first Ready condition of a running Pod.
abbrev is_true_of : Option Condition → Bool
is_true_of none = false
is_true_of (some c) = c.status == "True"

unfoldable pub replica_is_ready : Pod → Bool
unfolding find_first
replica_is_ready p =
    p.pod.phase == "Running" && is_true_of (find_first (λ c. c.kind == "Ready") p.pod.conditions)

-- StatefulSet.FirstUnready
unfoldable pub first_unready : StatefulSet → Option Pod
unfolding find_first replica_is_ready
first_unready s = find_first (λ p. not (replica_is_ready p)) s.pods

abbrev pub has_ordinal : ℕ → Pod → Bool
has_ordinal n p = elim (ordinal p.pod.name) [ none ↦ false | some m ↦ m == n ]

-- present[n]
unfoldable pub is_present : List Pod → ℕ → Bool
unfolding any ordinal
is_present pods n = any (has_ordinal n) pods

-- The loop from i over `left` further numbers.
unfoldable pub missing_from : (ℕ → Bool) → (left i : ℕ) → List ℕ
missing_from present zero i = []
missing_from present (suc left) i =
    let rest = missing_from present left (suc i) in if present i then rest else i ∷ rest

-- How often the loop runs: not at all for a negative count.
abbrev pub rounds : ℤ → ℕ
rounds (pos n) = n
rounds (negsuc n) = 0

-- StatefulSet.MissingOrdinals
unfoldable pub missing_ordinals : StatefulSet → List ℕ
unfolding missing_from is_present desired_replicas
missing_ordinals s = missing_from (is_present s.pods) (rounds (desired_replicas s)) 0
