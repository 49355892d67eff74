-- ===== src/Deploy/Stream.antt =====
-- api/services/deploy.go: `DeployStackWithStream`, the deployment whose progress a client reads. An event
-- is kept by its type, and a line of output with its text.
pub mod Refines
pub mod Keys
pub mod Events
pub mod Again
use text.Mathlib.Text.{◌==◌}
use dd_ui.Prelude.{
  ℕ, suc, Bool, true, false, not, ◌&&◌, Option, none, some, String, List, [], ◌∷◌, ◌++◌,
  ◌==◌ as nat_eq, if◌then◌else◌,
}
use dd_ui.Git.Text.{trim_space}
use dd_ui.Deploy.Store.{Store, select_name, select_root, select_rel_path}
use dd_ui.Deploy.Policy.{should_auto_apply}
use dd_ui.Deploy.Stamps.{DeploymentStamp, check_deployment_stamp_exists}
use dd_ui.Deploy.Connection.{get_host_for_stack}
use dd_ui.Deploy.Run.{
  Command, Exit, not_started, exited, Platform, World, Answers, DeployError, policy_failed, no_name,
  no_root, no_rel_path, stage_failed, unreadable, stamp_failed, stamp_invalid, ssh_failed,
  compose_failed, pipe_failed, End, finished, failed, Plan, Prepared, refused, no_composes,
  prepared, name_or_empty, rel_path_or_empty, queried, read_all, compose_up, stamp_for, connect,
  mark, conclude,
}

pub data Event : Type 0 where
  info error skipped config_unchanged success complete : Event
  out_line err_line : String → Event

-- What the stream has beside a deployment: the force of the context, the two pipes, and the lines that
-- the command writes, in the order in which they are read; and for each event by its number whether it
-- is read before the context is done.
pub record Streaming : Type 0 where
  pub forced : Bool
  pub stdout_pipe : Bool
  pub stderr_pipe : Bool
  pub lines : List (Bool × String)
  pub reads : ℕ → Bool

-- `sendEvent` for one event after the other: an event is dropped where the context is done first.
unfoldable pub send_events : (ℕ → Bool) → List Event → List Event
send_events reads [] = []
send_events reads (event ∷ events) =
    let rest = send_events (λ n. reads (suc n)) events in if reads 0 then event ∷ rest else rest

-- The events of the output; an empty line has none.
unfoldable pub line_events : List (Bool × String) → List Event
line_events [] = []
line_events ((is_out, text) ∷ rest) =
    let more = line_events rest in
    if text == "" then more else (if is_out then out_line text else err_line text) ∷ more

-- The gate: the events and the end of a deployment that is not allowed.
unfoldable pub stream_gate : Answers → Store → ℕ → Option (List Event × End)
unfolding should_auto_apply
stream_gate a store id =
    if a.manual then none else elim (should_auto_apply a.getenv a.reach store id) [
      | none ↦ some (error ∷ [], failed policy_failed)
      | some allowed ↦ if allowed then none else some (skipped ∷ [], finished)
    ]

-- The staging and reading of the compose files.
unfoldable pub stream_stage : Answers → String → List Event × Prepared
unfolding read_all
stream_stage a project = elim a.staged [
  | none ↦ (info ∷ error ∷ [], refused stage_failed)
  | some (dir, []) ↦ (info ∷ info ∷ [], no_composes)
  | some (dir, f ∷ fs) ↦ elim (read_all a.read_file (f ∷ fs)) [
    | none ↦ (info ∷ error ∷ [], refused unreadable)
    | some content ↦ (
      info ∷ [],
      prepared (record { project = project; dir = dir; composes = f ∷ fs; content = content }),
    )
  ]
]

-- The steps before the stamp, with their events.
unfoldable pub stream_prepare : Answers → Store → ℕ → List Event × Prepared
unfolding queried trim_space stream_stage
stream_prepare a store id =
    let project = name_or_empty (queried (a.reach (select_name id)) store id) in
    let rel = rel_path_or_empty (queried (a.reach (select_rel_path id)) store id) in
    if trim_space project == ""
    then (error ∷ [], refused no_name)
    else elim (queried (a.reach (select_root id)) store id) [
      | none ↦ (info ∷ error ∷ [], refused no_root)
      | some _ ↦
          if trim_space rel == ""
          then (info ∷ error ∷ [], refused no_rel_path)
          else let staged = stream_stage a project in (info ∷ staged.0, staged.1)
    ]

module _ {p : Platform} where
  -- The run of compose once its pipes are there.
  unfoldable pub stream_run :
      Answers
      → Streaming
      → ℕ
      → Plan
      → DeploymentStamp
      → Command
      → World p
      → List Event × End × World p
  unfolding mark conclude line_events
  stream_run a s id plan stamp command w =
      let ran = p.run command w.docker in
      let after : World p = record w { docker = ran.1 } in
      elim ran.0 [
        | not_started ↦ (error ∷ [], failed compose_failed, mark a stamp.id "failed" after)
        | exited good ↦
            if good
            then (
              line_events s.lines ++ (success ∷ complete ∷ []),
              finished,
              conclude a id plan stamp after,
            )
            else (
              line_events s.lines ++ (error ∷ []),
              failed compose_failed,
              mark a stamp.id "failed" after,
            )
      ]

  -- The set-up of ssh and of the pipes.
  unfoldable pub stream_connect :
      Answers → Streaming → ℕ → Plan → DeploymentStamp → World p → List Event × End × World p
  unfolding connect compose_up stream_run
  stream_connect a s id plan stamp w =
      let connected = connect a id w in
      elim connected.0 [
        | none ↦ (error ∷ [], failed ssh_failed, connected.1)
        | some env ↦
            if not s.stdout_pipe
            then (info ∷ info ∷ error ∷ [], failed pipe_failed, connected.1)
            else if not s.stderr_pipe
            then (info ∷ info ∷ error ∷ [], failed pipe_failed, connected.1)
            else let run = stream_run a s id plan stamp (compose_up plan env) connected.1 in
              (info ∷ info ∷ run.0, run.1, run.2)
      ]

  -- The stamp and what follows it.
  unfoldable pub stream_launch :
      Answers → Streaming → ℕ → Plan → World p → List Event × End × World p
  unfolding stamp_for stream_connect
  stream_launch a s id plan w =
      let stamped = stamp_for a id plan w in
      elim stamped.0 [
        | none ↦ (error ∷ [], failed stamp_failed, stamped.2)
        | some stamp ↦
            let reused : List Event = if stamped.1 then info ∷ [] else [] in
            if nat_eq stamp.id 0
            then (reused ++ (error ∷ []), failed stamp_invalid, stamped.2)
            else let run = stream_connect a s id plan stamp stamped.2 in
              (reused ++ run.0, run.1, run.2)
      ]

  -- The question whether this configuration has a stamp, which a forced deployment passes over.
  unfoldable pub is_unchanged : Answers → Streaming → ℕ → Plan → World p → Bool
  unfolding check_deployment_stamp_exists
  is_unchanged a s id plan w =
      if s.forced
      then false
      else elim (check_deployment_stamp_exists p.digest a.reach w.store id plan.content w.stamps) [
        | none ↦ false
        | some _ ↦ true
      ]

  -- The deployment with the calls of `sendEvent`, the end and what it leaves.
  unfoldable pub stream_deploy : Answers → Streaming → ℕ → World p → List Event × End × World p
  unfolding stream_gate stream_prepare is_unchanged stream_launch
  stream_deploy a s id w = elim (stream_gate a w.store id) [
    | some (events, end) ↦ (events, end, w)
    | none ↦
        let steps = stream_prepare a w.store id in
        elim steps.1 [
          | refused e ↦ (steps.0, failed e, w)
          | no_composes ↦ (steps.0, finished, w)
          | prepared plan ↦
              if is_unchanged a s id plan w
              then (steps.0 ++ (config_unchanged ∷ []), finished, w)
              else let run = stream_launch a s id plan w in (steps.0 ++ run.0, run.1, run.2)
        ]
  ]

  -- `DeployStackWithStream`: the events that reach the client, the end and what it leaves.
  unfoldable pub deploy_stack_with_stream :
      Answers → Streaming → ℕ → World p → List Event × End × World p
  unfolding send_events
  deploy_stack_with_stream a s id w =
      let run = stream_deploy a s id w in (send_events s.reads run.0, run.1, run.2)
