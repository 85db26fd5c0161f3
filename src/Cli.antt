-- ===== src/Cli.antt =====
-- internal/cli: root.go, a run of the command from its arguments to the exit code, and exit.go. The
-- client, the analysis and the printing are what the run is given.
pub mod ExitCodes
pub mod Runs
use kubewhy.Base.{
  is_empty, length, ℕ, ltb, ◌==◌, Bool, true, false, not, ◌&&◌, ◌||◌, String, String_eq, List, [],
  ◌∷◌, Option, none, some, if◌then◌else◌, is_some, ◌⊎◌, inl, inr,
}
use kubewhy.Diagnosis.Report.{Status, healthy, degraded, unhealthy, unknown, Report}
use kubewhy.Kube.{Kind, RunError, not_found, forbidden, other_error, invalid, resolve_kind}

-- exit.go
abbrev pub exit_ok : ℕ
exit_ok = 0

abbrev pub exit_issue_found : ℕ
exit_issue_found = 1

abbrev pub exit_error : ℕ
exit_error = 2

abbrev pub exit_not_found : ℕ
exit_not_found = 3

abbrev pub exit_forbidden : ℕ
exit_forbidden = 4

-- The flags that RunE and run look at.
pub record Flags : Type 0 where
  pub version : Bool
  pub output : String
  pub color : String
  pub no_color : Bool

-- colorMode fails on a colour that ParseColorMode does not know.
unfoldable pub has_color_mode : Flags → Bool
has_color_mode flags =
    flags.no_color || flags.color == "auto" || flags.color == "always" || flags.color == "never"

-- o.issueFound
unfoldable pub is_issue : Status → Bool
is_issue unhealthy = true
is_issue degraded = true
is_issue healthy = false
is_issue unknown = false

-- reportError
unfoldable pub error_code : {E : Type 0} → RunError E → ℕ
error_code (not_found ref context) = exit_not_found
error_code (forbidden ref context detail) = exit_forbidden
error_code (other_error e) = exit_error
error_code invalid = exit_error

-- What a run calls: the command's help, newClient, Analyze with the client, the output.
pub record Outside (E : Type 0) : Type 0 where
  pub help : Option (RunError E)  -- its error
  pub new_client : Option (RunError E)  -- its error
  pub analyze : Kind → String → RunError E ⊎ Report
  pub render : Report → Option (RunError E)  -- its error

module _ {E : Type 0} (out : Outside E) where
  abbrev pub rendered : RunError E ⊎ Report → RunError E ⊎ Report
  rendered (inl e) = inl e
  rendered (inr report) = elim (out.render report) [ none ↦ inr report | some e ↦ inl e ]

  abbrev pub with_kind : String → Option Kind → RunError E ⊎ Report
  with_kind name none = inl invalid
  with_kind name (some kind) = elim out.new_client [
    | some e ↦ inl e
    | none ↦ rendered (out.analyze kind name)
  ]

  -- options.run: an error, or the report that was printed
  unfoldable pub run : Flags → List String → RunError E ⊎ Report
  unfolding has_color_mode resolve_kind
  run flags [] = inl invalid
  run flags (resource ∷ []) = inl invalid
  run flags (resource ∷ name ∷ rest) =
      if not (flags.output == "text") && not (flags.output == "json")
      then inl invalid
      else if not (has_color_mode flags)
      then inl invalid
      else with_kind name (resolve_kind resource)

-- execute, from the end of run
unfoldable pub exit_code : {E : Type 0} → RunError E ⊎ Report → ℕ
unfolding error_code is_issue
exit_code (inl e) = error_code e
exit_code (inr report) = if is_issue report.status then exit_issue_found else exit_ok

-- The exit code of a command that analyses nothing.
abbrev pub plain_code : {E : Type 0} → Option (RunError E) → ℕ
plain_code none = exit_ok
plain_code (some e) = error_code e

-- execute, for flags without --help that cobra has parsed and arguments that name no subcommand:
-- MaximumNArgs(2), then RunE of the root command.
unfoldable pub execute : {E : Type 0} → Outside E → Flags → List String → ℕ
unfolding error_code
execute out flags args =
    if ltb 2 (length args)
    then exit_error
    else if flags.version
    then exit_ok
    else if is_empty args
    then plain_code out.help
    else exit_code (run out flags args)
