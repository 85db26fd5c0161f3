-- ===== src/Cli/Runs.antt =====
-- A run of the command from its arguments to its exit code: internal/cli/root.go.
use kubewhy.Base.{
  Bool-cases, ltb, length, [], ℕ, ◌≤◌, ◌==◌, ℕ_eq, ◌≡◌, refl, ap, ◌∙◌, Bool, true, false, not, ◌&&◌,
  ◌||◌, String, List, ◌∷◌, Option, none, some, if◌then◌else◌, arith, ◌⊎◌, inl, inr, is_empty,
  String_eq,
}
use kubewhy.Diagnosis.Report.{Status, healthy, degraded, unhealthy, unknown, Report}
use kubewhy.Kube.{Kind, RunError, not_found, forbidden, other_error, invalid, resolve_kind}
use kubewhy.Cli.{
  plain_code, execute, exit_ok, exit_issue_found, Flags, Outside, is_issue, error_code, rendered,
  with_kind, run, exit_code, has_color_mode,
}

error_code-ge : {E : Type 0} (e : RunError E) → 2 ≤ error_code e
unfolding error_code
error_code-ge (not_found ref context) = omega arith
error_code-ge (forbidden ref context detail) = omega arith
error_code-ge (other_error e) = omega arith
error_code-ge invalid = omega arith

-- The exit code that a status stands for.
abbrev pub StatusCode : Status → ℕ → Type 0
StatusCode status code =
    ((status ≡ unhealthy ⊎ status ≡ degraded) × (code ≡ 1))
    ⊎ ((status ≡ healthy ⊎ status ≡ unknown) × (code ≡ 0))

status_code : (s : Status) → StatusCode s (if is_issue s then exit_issue_found else exit_ok)
unfolding is_issue
status_code unhealthy = inl (inl refl, refl)
status_code degraded = inl (inr refl, refl)
status_code healthy = inr (inl refl, refl)
status_code unknown = inr (inr refl, refl)

abbrev code_of : Report → ℕ
code_of report = if is_issue report.status then exit_issue_found else exit_ok

module _ {E : Type 0} (out : Outside E) where
  -- The report was analysed and printed, and n is its exit code.
  abbrev Printed : RunError E ⊎ Report → ℕ → Type 0
  Printed r n =
      (report : Report) × (r ≡ inr report) × (out.render report ≡ none) × (n ≡ code_of report)

  render_outcome :
      (report : Report) (o : Option (RunError E))
      → exit_code (elim o as (λ x. RunError E ⊎ Report) [ none ↦ inr report | some e ↦ inl e ]) ≤ 1
      → (o ≡ none)
        × (exit_code (elim o as (λ x. RunError E ⊎ Report) [ none ↦ inr report | some e ↦ inl e ])
            ≡ code_of report)
  unfolding exit_code
  render_outcome report none h = (refl, refl)
  render_outcome report (some e) h = absurd (omega (arith, error_code-ge e, h))

  rendered-Printed :
      (r : RunError E ⊎ Report)
      → exit_code (rendered out r) ≤ 1
      → Printed r (exit_code (rendered out r))
  rendered-Printed (inl e) h = absurd (unfold exit_code in omega (arith, error_code-ge e, h))
  rendered-Printed (inr report) h =
      let (done, code) = render_outcome report (out.render report) h in (report, refl, done, code)

  client_outcome :
      (r : RunError E ⊎ Report) (o : Option (RunError E))
      → exit_code (elim o as (λ x. RunError E ⊎ Report) [ some e ↦ inl e | none ↦ r ]) ≤ 1
      → (o ≡ none)
        × (exit_code (elim o as (λ x. RunError E ⊎ Report) [ some e ↦ inl e | none ↦ r ])
            ≡ exit_code r)
  unfolding exit_code
  client_outcome r none h = (refl, refl)
  client_outcome r (some e) h = absurd (omega (arith, error_code-ge e, h))

  kind_outcome :
      (name : String) (k : Option Kind)
      → exit_code (with_kind out name k) ≤ 1
      → (kind : Kind) × (k ≡ some kind)
        × (out.new_client ≡ none)
        × Printed (out.analyze kind name) (exit_code (with_kind out name k))
  kind_outcome name none h = absurd (unfold exit_code error_code in omega (arith, h))
  kind_outcome name (some kind) h =
      let r = out.analyze kind name in
      let (made, same) = client_outcome (rendered out r) out.new_client h in
      let (report, analysed, done, code) = rendered-Printed r (rw (← same) h) in
      (kind, refl, made, (report, analysed, done, same ∙ code))

  flag_outcome :
      (bad_output good_color : Bool) (r : RunError E ⊎ Report)
      → exit_code (if bad_output then inl invalid else if not good_color then inl invalid else r)
        ≤ 1
      → exit_code (if bad_output then inl invalid else if not good_color then inl invalid else r)
        ≡ exit_code r
  unfolding exit_code error_code
  flag_outcome true good_color r h = absurd (omega (arith, h))
  flag_outcome false false r h = absurd (omega (arith, h))
  flag_outcome false true r h = refl

  run-Printed :
      (flags : Flags) (resource name : String)
      → exit_code (run out flags (resource ∷ name ∷ [])) ≤ 1
      → (kind : Kind) × (resolve_kind resource ≡ some kind)
        × (out.new_client ≡ none)
        × Printed (out.analyze kind name) (exit_code (run out flags (resource ∷ name ∷ [])))
  unfolding run
  run-Printed flags resource name h =
      let looked = with_kind out name (resolve_kind resource) in
      let same =
        flag_outcome (not (flags.output == "text") && not (flags.output == "json"))
          (has_color_mode flags) looked h in
      let (kind, named, made, (report, analysed, done, code)) =
        kind_outcome name (resolve_kind resource) (rw (← same) h) in
      (kind, named, made, (report, analysed, done, same ∙ code))

  -- The arguments name an object that was analysed, its report was printed, and n is what its status
  -- stands for.
  abbrev pub Explained : List String → ℕ → Type 0
  Explained args n =
      (resource : String) × (name : String) × (kind : Kind) × (report : Report) × (args
        ≡ resource ∷ name ∷ [])
      × (resolve_kind resource ≡ some kind)
      × (out.new_client ≡ none)
      × (out.analyze kind name ≡ inr report)
      × (out.render report ≡ none)
      × StatusCode report.status n

  plain_outcome : (o : Option (RunError E)) → plain_code o ≤ 1 → (o ≡ none) × (plain_code o ≡ 0)
  plain_outcome none h = (refl, refl)
  plain_outcome (some e) h = absurd (omega (arith, error_code-ge e, h))

  run_outcome :
      (flags : Flags) (arg : String) (args : List String)
      → length (arg ∷ args) ≤ 2
      → exit_code (run out flags (arg ∷ args)) ≤ 1
      → Explained (arg ∷ args) (exit_code (run out flags (arg ∷ args)))
  run_outcome flags resource [] few h = absurd (unfold run exit_code error_code in omega (arith, h))
  run_outcome flags resource (name ∷ rest ∷ more) few h = absurd (omega (arith, few))
  run_outcome flags resource (name ∷ []) few h =
      let (kind, named, made, (report, analysed, done, code)) = run-Printed flags resource name h in
      let status : StatusCode report.status (exit_code (run out flags (resource ∷ name ∷ []))) =
        rw code (status_code report.status) in
      (resource, name, kind, report, refl, named, made, analysed, done, status)

  asked_outcome :
      (flags : Flags) (args : List String)
      → length args ≤ 2
      → (if is_empty args then plain_code out.help else exit_code (run out flags args)) ≤ 1
      → ((args ≡ [])
          × (out.help ≡ none)
          × ((if is_empty args then plain_code out.help else exit_code (run out flags args)) ≡ 0))
        ⊎ Explained args
            (if is_empty args then plain_code out.help else exit_code (run out flags args))
  asked_outcome flags [] few h =
      let (shown, code) = plain_outcome out.help h in inl (refl, shown, code)
  asked_outcome flags (arg ∷ args) few h = inr (run_outcome flags arg args few h)

  -- For flags without --help that were parsed and arguments that name no subcommand, the exit code is 0
  -- or 1 only in three cases: the version was asked for, and it is 0; there were no arguments, the help
  -- was shown, and it is 0; or the two arguments name a kind and an object, the
  -- client was made, the analysis returned a report and the report was printed, and it is 1 where the
  -- status of that report is unhealthy or degraded, and 0 where it is healthy or unknown.
  pub execute_lem :
      (flags : Flags) (args : List String)
      → execute out flags args ≤ 1
      → ((flags.version ≡ true) × (execute out flags args ≡ 0))
        ⊎ (((args ≡ []) × (out.help ≡ none) × (execute out flags args ≡ 0))
            ⊎ Explained args (execute out flags args))
  unfolding execute run
  execute_lem flags args h = elim (Bool-cases (ltb 2 (length args))) [
    | inl e ↦ absurd (let high : 2 ≤ 1 = rw e at h in omega (arith, high))
    | inr e ↦ elim (Bool-cases flags.version) [
      | inl v ↦ rw (e, v) (inl (refl, refl))
      | inr v ↦
          rw (e, v)
            (let few : length args ≤ 2 = ground arith in
              inr (asked_outcome flags args few (rw (e, v) at h)))
    ]
  ]

  render_printed :
      (report : Report) (o : Option (RunError E))
      → o ≡ none
      → elim o as (λ x. RunError E ⊎ Report) [ none ↦ inr report | some e ↦ inl e ] ≡ inr report
  render_printed report none h = refl
  render_printed report (some e) h = cc

  client_made :
      (r : RunError E ⊎ Report) (o : Option (RunError E))
      → o ≡ none
      → elim o as (λ x. RunError E ⊎ Report) [ some e ↦ inl e | none ↦ r ] ≡ r
  client_made r none h = refl
  client_made r (some e) h = cc

  kind_printed :
      (name : String) (kind : Kind) (report : Report)
      → out.new_client ≡ none
      → out.analyze kind name ≡ inr report
      → out.render report ≡ none
      → with_kind out name (some kind) ≡ inr report
  kind_printed name kind report made analysed done =
      client_made (rendered out (out.analyze kind name)) out.new_client made
      ∙ ap (rendered out) analysed
      ∙ render_printed report (out.render report) done

  -- For arguments that name no subcommand and flags without --help and --version, with a known output
  -- format and colour, the exit code is 1 where the status of the report is unhealthy or degraded, and
  -- 0 where it is healthy or unknown, as soon as the two arguments name a kind and an object, the
  -- client was made, the analysis returned that report and it was printed.
  pub execute_prints :
      (flags : Flags) (resource name : String) (kind : Kind) (report : Report)
      → flags.version ≡ false
      → (flags.output == "text" || flags.output == "json") ≡ true
      → has_color_mode flags ≡ true
      → resolve_kind resource ≡ some kind
      → out.new_client ≡ none
      → out.analyze kind name ≡ inr report
      → out.render report ≡ none
      → StatusCode report.status (execute out flags (resource ∷ name ∷ []))
  unfolding execute run exit_code
  execute_prints flags resource name kind report plain format colour named made analysed done =
      let known : (not (flags.output == "text") && not (flags.output == "json")) ≡ false =
        ground (arith, format) in
      let printed : with_kind out name (some kind) ≡ inr report =
        kind_printed name kind report made analysed done in
      simp (plain, known, colour, named, printed) (status_code report.status)
