-- ===== src/Rules/Pvc/Events.antt =====
-- The texts of internal/diagnosis/rules/pvc/pvc.go on events and fields.
use kubewhy.Base.{◌==◌, String, String_eq, if◌then◌else◌}
use kubewhy.Base.Int.{exceeds, int_text}
use kubewhy.Base.Text.{◌<>◌, trim_space}
use kubewhy.Snapshot.{Event}

-- eventValue
unfoldable pub event_value : Event → String
event_value ev =
    if exceeds ev.count 1 then ev.reason <> " (x" <> int_text ev.count <> ")" else ev.reason

-- orUnknown
unfoldable pub or_not_recorded : String → String
or_not_recorded s = if trim_space s == "" then "not recorded" else s
