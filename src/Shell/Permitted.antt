-- ===== src/Shell/Permitted.antt =====
-- When the `shell` capability hands a command to `/bin/sh`.
use kunkka.Base.{
  ℕ, String, ◌≡◌, refl, ap, subst, ◌∙◌, ◌⊎◌, inl, inr, true, false, none, some, List, ◌∷◌, map,
  arith, All, contains, Option-cases,
}
use kunkka.Base.Fallible.{Result, ok, err}
use kunkka.Ipc.{Bytes}
use kunkka.Manifest.{AppManifest, ShellCapabilityConfig}
use kunkka.Approval.{ApprovalStore, consume_approved, Consumed}
use kunkka.Approval.Consume.{GrantedIn, consume_approved-eq-ok_iff}
use kunkka.Permissions.{ShellPolicyDecision, decide_shell_policy, decide_commands}
use kunkka.Permissions.Decisions.{Decides, decide_commands-Decides, decide_commands-eq-allow}
use kunkka.Shell.Pipeline.{CapabilityError, ParsedStage}
use kunkka.Shell.{
  ShellRunParams, ShellHost, ShellState, handle_shell_request, read_request, run_parsed,
  run_decided, run_consumed, run_and_encode, run_command,
}

-- The manifest's shell section lists every command of the pipeline under `allow`.
pub record AllowedByManifest (manifest : AppManifest) (commands : List String) : Type 0 where
  pub config : ShellCapabilityConfig
  pub configured : manifest.capabilities.shell ≡ some config
  pub listed : All (λ command. contains config.allow command ≡ true) commands

-- The request names an approval that a user has granted for this command line.
abbrev pub Granted : AppManifest → ShellRunParams → ApprovalStore → Type 0
Granted manifest params approvals =
    (id : String) × (params.approval_id ≡ some id)
    × GrantedIn approvals id manifest.app_id "shell" params.command

-- What justifies running a request's command line.
abbrev pub Permitted : AppManifest → ShellRunParams → List ParsedStage → ApprovalStore → Type 0
Permitted manifest params stages approvals =
    ((params.approval_id ≡ none) × AllowedByManifest manifest (map (λ stage. stage.command) stages))
    ⊎ Granted manifest params approvals

decided_allow :
    (manifest : AppManifest) (commands : List String)
    → decide_shell_policy manifest commands ≡ ShellPolicyDecision.allow
    → AllowedByManifest manifest commands
unfolding decide_shell_policy
decided_allow manifest commands h = elim (Option-cases manifest.capabilities.shell) [
  | inl missing ↦ ground (arith, missing)
  | inr (config, found) ↦
      let answer : decide_commands config false commands ≡ ShellPolicyDecision.allow =
        ground (arith, found) in
      record {
        config = config;
        configured = found;
        listed = subst (Decides config commands) answer (decide_commands-Decides config commands);
      }
]

allowed_decided :
    (manifest : AppManifest) (commands : List String)
    → AllowedByManifest manifest commands
    → decide_shell_policy manifest commands ≡ ShellPolicyDecision.allow
unfolding decide_shell_policy
allowed_decided manifest commands a =
    rw a.configured (decide_commands-eq-allow a.config commands a.listed)

module _ (host : ShellHost) where
  run_decided-ran :
      (d : ShellPolicyDecision) (manifest : AppManifest) (command : String)
      → (commands : List String) (now : ℕ) (st : ShellState)
      → ((run_decided host d manifest command commands now st).1.ran ≡ st.ran)
        ⊎ ((d ≡ ShellPolicyDecision.allow)
            × ((run_decided host d manifest command commands now st).1.ran ≡ command ∷ st.ran))
  unfolding run_decided run_and_encode run_command
  run_decided-ran ShellPolicyDecision.allow manifest command commands now st = inr (refl, refl)
  run_decided-ran ShellPolicyDecision.ask manifest command commands now st = inl refl
  run_decided-ran ShellPolicyDecision.deny manifest command commands now st = inl refl

  run_consumed-ran :
      (command : String) (c : Consumed) (ran : List String)
      → ((run_consumed host command c ran).1.ran ≡ ran)
        ⊎ ((c.0 ≡ ok tt) × ((run_consumed host command c ran).1.ran ≡ command ∷ ran))
  unfolding run_consumed run_and_encode run_command
  run_consumed-ran command (err e, approvals) ran = inl refl
  run_consumed-ran command (ok u, approvals) ran = inr (refl, refl)

  run_parsed-ran :
      (manifest : AppManifest) (params : ShellRunParams) (stages : List ParsedStage)
      → (now : ℕ) (st : ShellState)
      → ((run_parsed host manifest params stages now st).1.ran ≡ st.ran)
        ⊎ (Permitted manifest params stages st.approvals
            × ((run_parsed host manifest params stages now st).1.ran ≡ params.command ∷ st.ran))
  unfolding run_parsed
  run_parsed-ran manifest params stages now st = elim (Option-cases params.approval_id) [
    | inl missing ↦
        let commands = map (λ stage. stage.command) stages in
        elim (run_decided-ran (decide_shell_policy manifest commands) manifest params.command
          commands now st) [
            | inl same ↦ inl (rw missing same)
            | inr (allowed, grown) ↦
                inr (inl (missing, decided_allow manifest commands allowed), rw missing grown)
          ]
    | inr (id, given) ↦
        let c = consume_approved id manifest.app_id "shell" params.command now st.approvals in
        elim (run_consumed-ran params.command c st.ran) [
          | inl same ↦ inl (rw given same)
          | inr (consumed, grown) ↦ inr (
            inr (
              id,
              given,
              (consume_approved-eq-ok_iff id manifest.app_id "shell" params.command now
                    st.approvals).0
                  consumed,
            ),
            rw given grown,
          )
        ]
  ]

  pub handle_shell_request-eq_run_parsed :
      (manifest : AppManifest) (method : String) (params : Bytes) (now : ℕ) (st : ShellState)
      → (decoded : ShellRunParams) (stages : List ParsedStage)
      → read_request host method params ≡ ok (decoded, stages)
      → handle_shell_request host manifest method params now st
        ≡ run_parsed host manifest decoded stages now st
  unfolding handle_shell_request
  handle_shell_request-eq_run_parsed manifest method params now st decoded stages h =
      rw (h, handle_shell_request) refl

  handle_shell_request-refused :
      (manifest : AppManifest) (method : String) (params : Bytes) (now : ℕ) (st : ShellState)
      → (e : CapabilityError) → read_request host method params ≡ err e
      → handle_shell_request host manifest method params now st ≡ (err e, st)
  unfolding handle_shell_request
  handle_shell_request-refused manifest method params now st e h = rw (h, handle_shell_request) refl

  -- A request to the `shell` capability runs no command, or it runs exactly its own command line and
  -- is permitted to: it asks to `run`, its parameters decode, its command line parses into stages, and
  -- either it names no approval and the manifest lists every stage's command under `allow`, or it names
  -- an approval that a user has granted to this app for exactly this command line.
  pub handle_shell_request-runs_only-Permitted :
      (manifest : AppManifest) (method : String) (params : Bytes) (now : ℕ) (st : ShellState)
      → let after = (handle_shell_request host manifest method params now st).1 in
        (after.ran ≡ st.ran)
        ⊎ ((decoded : ShellRunParams) × (stages : List ParsedStage) × (read_request host method
                params
              ≡ ok (decoded, stages))
            × Permitted manifest decoded stages st.approvals
            × (after.ran ≡ decoded.command ∷ st.ran))
  handle_shell_request-runs_only-Permitted manifest method params now st =
      by_request (read_request host method params) refl
    where
      by_request :
          (r : Result CapabilityError (ShellRunParams × List ParsedStage))
          → read_request host method params ≡ r
          → let after = (handle_shell_request host manifest method params now st).1 in
            (after.ran ≡ st.ran)
            ⊎ ((decoded : ShellRunParams) × (stages : List ParsedStage) × (read_request host method
                    params
                  ≡ ok (decoded, stages))
                × Permitted manifest decoded stages st.approvals
                × (after.ran ≡ decoded.command ∷ st.ran))
      by_request (err e) h =
          inl (ap (λ a. a.1.ran) (handle_shell_request-refused manifest method params now st e h))
      by_request (ok (decoded, stages)) h =
          let same =
            ap (λ a. a.1.ran)
              (handle_shell_request-eq_run_parsed manifest method params now st decoded stages h) in
          elim (run_parsed-ran manifest decoded stages now st) [
            | inl unchanged ↦ inl (same ∙ unchanged)
            | inr (permitted, grown) ↦ inr (decoded, stages, h, permitted, same ∙ grown)
          ]

  consumed_runs :
      (command : String) (c : Consumed) (ran : List String)
      → c.0 ≡ ok tt
      → (run_consumed host command c ran).1.ran ≡ command ∷ ran
  unfolding run_consumed run_and_encode run_command
  consumed_runs command (err e, approvals) ran h = cc
  consumed_runs command (ok u, approvals) ran h = refl

  pub Permitted-runs :
      (manifest : AppManifest) (params : ShellRunParams) (stages : List ParsedStage)
      → (now : ℕ) (st : ShellState) → Permitted manifest params stages st.approvals
      → (run_parsed host manifest params stages now st).1.ran ≡ params.command ∷ st.ran
  unfolding run_parsed run_decided run_and_encode run_command
  Permitted-runs manifest params stages now st (inl (missing, a)) =
      rw (missing, allowed_decided manifest (map (λ stage. stage.command) stages) a) refl
  Permitted-runs manifest params stages now st (inr (id, given, g)) = rw given (
      consumed_runs params.command _ st.ran (
        (consume_approved-eq-ok_iff id manifest.app_id "shell" params.command now st.approvals).1
          g))

  -- A request that reads well and is permitted, by the manifest or by a granted approval, does hand its
  -- command line to the shell.
  pub handle_shell_request-runs-Permitted :
      (manifest : AppManifest) (method : String) (params : Bytes) (now : ℕ) (st : ShellState)
      → (decoded : ShellRunParams) (stages : List ParsedStage)
      → read_request host method params ≡ ok (decoded, stages)
      → Permitted manifest decoded stages st.approvals
      → (handle_shell_request host manifest method params now st).1.ran ≡ decoded.command ∷ st.ran
  handle_shell_request-runs-Permitted manifest method params now st decoded stages h p =
      ap (λ a. a.1.ran)
        (handle_shell_request-eq_run_parsed manifest method params now st decoded stages h)
      ∙ Permitted-runs manifest decoded stages now st p
