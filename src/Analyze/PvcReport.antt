-- ===== src/Analyze/PvcReport.antt =====
-- internal/analyze/pvc.go: the report on a claim.
use kubewhy.Base.{
  ◌==◌, Bool, not, ◌||◌, String, String_eq, List, [], ◌∷◌, ◌++◌, if◌then◌else◌, is_empty, map,
}
use kubewhy.Base.Text.{◌<>◌, join, trim_space, trim_separators}
use kubewhy.Diagnosis.Report.{Item, Section, Report}
use kubewhy.Format.{duration}
use kubewhy.Snapshot.Pvc.{
  Pvc, pvc_ref, pvc_phase, is_bound, pvc_age, requested_storage, access_modes,
}
use kubewhy.Rules.Pvc.{explain_pvc}
use kubewhy.Analyze.{item}
use kubewhy.Analyze.Backends.{pod_item, backend_state, existence_note}
use kubewhy.Analyze.Workload.{concluded_report, add_all}

abbrev requested_note : Pvc → String
requested_note snap =
    let note = existence_note snap.class.exists in
    if snap.class.requested then note else trim_space ("cluster default, " <> note)

-- note, as the second case of the switch leaves it
abbrev class_note : Pvc → String
class_note snap = trim_separators (
    if snap.class.binding_mode == ""
    then requested_note snap
    else trim_space (requested_note snap <> ", " <> snap.class.binding_mode))

abbrev class_items : Pvc → List Item
class_items snap =
    if snap.class.explicitly_none
    then item "Storage class" "none requested" "expects a pre-created volume" ∷ []
    else if snap.class.name == ""
    then []
    else item "Storage class" snap.class.name (class_note snap) ∷ []

-- addClaimSection
unfoldable pub claim_section : Pvc → List Section
unfolding pvc_phase requested_storage access_modes pvc_age duration
claim_section snap =
    record {
      title = "Claim";
      items =
          item "Phase" (pvc_phase snap) ""
          ∷ ((if requested_storage snap == ""
                then []
                else item "Requested" (requested_storage snap) "" ∷ [])
              ++ (if is_empty (access_modes snap)
                  then []
                  else item "Access modes" (join ", " (access_modes snap)) "" ∷ [])
              ++ class_items snap
              ++ (if snap.claim.volume_name == ""
                  then []
                  else item "Volume" snap.claim.volume_name "" ∷ [])
              ++ item "Age" (duration (pvc_age snap)) "" ∷ []);
      tree = [];
    }
    ∷ []

-- addClaimConsumerSection
unfoldable pub consumer_section : Pvc → List Section
unfolding is_bound backend_state
consumer_section snap =
    if is_bound snap || not snap.consumers_known
    then []
    else record {
      title = "Used by";
      items =
          if is_empty snap.consumers
          then item "Pods" "none" "no Pod in this namespace mounts the claim" ∷ []
          else map pod_item snap.consumers;
      tree = [];
    }
      ∷ []

abbrev pub pvc_sections : Pvc → List Section
pvc_sections snap = claim_section snap ++ consumer_section snap

-- PVCReport
unfoldable pub pvc_report : List Bool → Pvc → Report
unfolding pvc_ref explain_pvc concluded_report add_all claim_section consumer_section
pvc_report expired snap =
    add_all (concluded_report (pvc_ref snap) snap.collection (explain_pvc expired snap))
      (pvc_sections snap)
