-- ===== src/Tests/Shells.antt =====
-- Tests of crates/kunkka-core/src/capability/shell.rs and permissions.rs.
use mathlib.Core.List.{Memᴰ}
use kunkka.Base.{String, ◌≡◌, refl, ◌⊎◌, inl, false, none, some, List, [], ◌∷◌, map, arith}
use kunkka.Base.Fallible.{Result, ok, err}
use kunkka.Approval
use kunkka.Approval.{create, approve, list_pending, approval_name}
use kunkka.Approval.Invariant
use kunkka.Shell.Asked.{asked_approved_runs}
use kunkka.Base.Text.Trim.{trim}
use kunkka.Shell.Quoted.{Cut, split_top_level_pipelines-Cut}
use kunkka.Ipc.{Bytes}
use kunkka.Permissions.{ShellPolicyDecision, decide_commands, decide_shell_policy}
use kunkka.Permissions.Decisions.{Decides, decide_commands-Decides}
use kunkka.Shell.{ShellRunParams, ShellHost, ShellState, read_request, handle_shell_request}
use kunkka.Shell.Pipeline.{
  ParsedStage, parse_pipeline, split_top_level_pipelines, split_stage_words, invalid_shell_syntax,
}
use kunkka.Shell.Permitted.{
  Permitted, handle_shell_request-runs_only-Permitted, handle_shell_request-runs-Permitted,
}
use kunkka.Tests.Samples.{notes}

abbrev counting : ShellRunParams
counting = record { command = "ls -l | wc -l"; approval_id = none }

abbrev host : ShellHost
host = record {
  from_bytes = λ bytes. ok counting;
  to_stdvec = λ outcome. ok (1 ∷ []);
  from_utf8_lossy = λ bytes. "3";
  output = λ ran command. some (ok (record { code = some 0; stdout = []; stderr = [] }));
}

abbrev fresh : ShellState
fresh = record { approvals = Approval.new; ran = [] }

abbrev stages : List ParsedStage
stages = record { command = "ls" } ∷ record { command = "wc" } ∷ []

counting_read : read_request host "run" [] ≡ ok (counting, stages)
unfolding read_request parse_pipeline
counting_read = refl

counting-Permitted : Permitted notes counting stages Approval.new
counting-Permitted = inl (
  refl,
  record {
    config = record { allow = "ls" ∷ "wc" ∷ []; ask = "rm" ∷ [] };
    configured = refl;
    listed = (refl, (refl, tt));
  },
)

handle_shell_request-runs_only-Permitted_example :
    let after = (handle_shell_request host notes "run" [] 0 fresh).1 in
    (after.ran ≡ fresh.ran)
    ⊎ ((decoded : ShellRunParams) × (parsed : List ParsedStage) × (read_request host "run" []
          ≡ ok (decoded, parsed))
        × Permitted notes decoded parsed fresh.approvals
        × (after.ran ≡ decoded.command ∷ fresh.ran))
handle_shell_request-runs_only-Permitted_example =
    handle_shell_request-runs_only-Permitted host notes "run" [] 0 fresh

handle_shell_request-runs-Permitted_example :
    (handle_shell_request host notes "run" [] 0 fresh).1.ran ≡ "ls -l | wc -l" ∷ []
handle_shell_request-runs-Permitted_example =
    handle_shell_request-runs-Permitted host notes "run" [] 0 fresh counting stages counting_read
      counting-Permitted

decide_commands-Decides_example :
    Decides
      (record { allow = "ls" ∷ []; ask = "rm" ∷ [] })
      ("ls" ∷ "rm" ∷ [])
      (decide_commands (record { allow = "ls" ∷ []; ask = "rm" ∷ [] }) false ("ls" ∷ "rm" ∷ []))
decide_commands-Decides_example =
    decide_commands-Decides (record { allow = "ls" ∷ []; ask = "rm" ∷ [] }) ("ls" ∷ "rm" ∷ [])

words_test : split_stage_words "grep 'a b' \"c\"d\\ e" ≡ ok ("grep" ∷ "a b" ∷ "cd e" ∷ [])
unfolding split_stage_words
words_test = refl

or_test : parse_pipeline "ls || rm x" ≡ err (invalid_shell_syntax "operator || is not supported")
unfolding parse_pipeline
or_test = refl

abbrev removing : ShellRunParams
removing = record { command = "rm x"; approval_id = none }

abbrev removing_again : ShellRunParams
removing_again = record { command = "rm x"; approval_id = some "approval-1" }

abbrev read_removing : Bytes → Result String ShellRunParams
read_removing [] = ok removing
read_removing (b ∷ bytes) = ok removing_again

abbrev removing_host : ShellHost
removing_host = record host { from_bytes = read_removing }

abbrev removing_stages : List ParsedStage
removing_stages = record { command = "rm" } ∷ []

removing_read : read_request removing_host "run" [] ≡ ok (removing, removing_stages)
unfolding read_request parse_pipeline
removing_read = refl

again_read : read_request removing_host "run" (1 ∷ []) ≡ ok (removing_again, removing_stages)
unfolding read_request parse_pipeline
again_read = refl

removing_asks : decide_shell_policy notes ("rm" ∷ []) ≡ ShellPolicyDecision.ask
unfolding decide_shell_policy
removing_asks = refl

first_id : some "approval-1" ≡ some (create "notes" "shell" "rm x" ("rm" ∷ []) 0 Approval.new).0
unfolding create approval_name
first_id = refl

asked_approved_runs_example :
    let asked = (handle_shell_request removing_host notes "run" [] 0 fresh).1 in
    let id = (create "notes" "shell" "rm x" ("rm" ∷ []) 0 Approval.new).0 in
    let (shown, listed) = list_pending 5 asked.approvals in
    let agreed = record asked { approvals = approve id 5 listed } in
    (asked.ran ≡ [])
    × Memᴰ
        (record { approval_id = id; app_id = "notes"; capability = "shell"; summary = "rm x" })
        shown
    × ((handle_shell_request removing_host notes "run" (1 ∷ []) 9 agreed).1.ran ≡ "rm x" ∷ [])
asked_approved_runs_example =
    asked_approved_runs removing_host notes "run" [] (1 ∷ []) 0 5 9 fresh removing removing_again
      removing_stages removing_stages removing_read refl removing_asks again_read refl
      Invariant.new-IsValid (omega arith) (omega arith) first_id

counting_parses : parse_pipeline "ls -l | wc -l" ≡ ok stages
unfolding parse_pipeline
counting_parses = refl

abbrev quoted_pipe : String
quoted_pipe = "grep 'a|b' notes | wc -l"

quoted_pipe_splits : split_top_level_pipelines quoted_pipe ≡ ok ("grep 'a|b' notes" ∷ "wc -l" ∷ [])
unfolding split_top_level_pipelines
quoted_pipe_splits = refl

split_top_level_pipelines-Cut_example :
    (pieces : List String) × Cut quoted_pipe pieces
    × ("grep 'a|b' notes" ∷ "wc -l" ∷ [] ≡ map trim pieces)
split_top_level_pipelines-Cut_example =
    split_top_level_pipelines-Cut quoted_pipe ("grep 'a|b' notes" ∷ "wc -l" ∷ []) quoted_pipe_splits
