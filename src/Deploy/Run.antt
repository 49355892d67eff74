-- ===== src/Deploy/Run.antt =====
-- api/services/deploy.go: `DeployStack`, the deployment of a stack by compose, and what it works on.
pub mod Effects
pub mod Status
use Prim.Native.String.{◌++◌ as join}
use text.Mathlib.Text.{◌==◌}
use dd_ui.Prelude.{
  ℕ, Bool, true, false, Option, none, some, String, List, [], ◌∷◌, ◌++◌, ◌==◌ as nat_eq,
  if◌then◌else◌,
}
use dd_ui.Git.Text.{trim_space}
use dd_ui.Drift.{
  HashMap, Container, Library, Answers as DriftAnswers, Staged, Table, on_successful_deployment,
}
use dd_ui.Deploy.Text.{sanitize_project}
use dd_ui.Deploy.Store.{
  Stack, Store, select_name, select_root, select_rel_path, Reach, Environment, find_stack,
}
use dd_ui.Deploy.Policy.{should_auto_apply}
use dd_ui.Deploy.Stamps.{
  DeploymentStamp, Stamps, Digest, create_deployment_stamp, check_deployment_stamp_exists,
  update_deployment_stamp_status,
}
use dd_ui.Deploy.Connection.{
  Disk, get_host_for_stack, docker_url_for, setup_ssh_config_for_docker, minimal_env,
}

-- A call of docker: its arguments, its directory and its environment.
pub record Command : Type 0 where
  pub args : List String
  pub dir : String
  pub env : List String

-- How a command ends: it cannot be started, or it exits, with or without success.
pub data Exit : Type 0 where
  not_started : Exit
  exited : Bool → Exit

-- The Docker daemons behind the program docker, and the libraries.
pub record Platform : Type 1 where
  pub Docker : Type 0
  pub run : Command → Docker → Exit × Docker
  pub library : Library
  pub digest : Digest

-- An association that is left to run in the background.
pub record Association : Type 0 where
  pub label : String
  pub stamp_id : ℕ
  pub hash : String
  pub stack_id : ℕ

-- What a deployment reads and changes.
pub record World (p : Platform) : Type 0 where
  pub store : Store
  pub stamps : Stamps
  pub ssh_config : Option String
  pub docker : p.Docker
  pub drift : Table p.library
  pub background : List Association

-- The flags of the context and the answers from outside: the variables of the process, the database, the
-- directory of the staged files with the compose files in it, their contents, the two hashes that are
-- noted, the file system; and after the deployment the client of Docker, the statements on
-- `stack_drift_cache`, the files that are staged again and the containers.
pub record Answers : Type 0 where
  pub manual : Bool
  pub getenv : Environment
  pub reach : Reach
  pub staged : Option (String × List String)
  pub read_file : String → Option String
  pub rendered_config_hash : String
  pub bundle_hash : String
  pub disk : Disk
  pub client : Bool
  pub drift : DriftAnswers
  pub staged_again : Staged
  pub containers : Option (List Container)

pub data DeployError : Type 0 where
  policy_failed no_name no_root no_rel_path stage_failed unreadable : DeployError
  stamp_failed stamp_invalid ssh_failed compose_failed pipe_failed : DeployError

-- A deployment returns with an error or without one.
pub data End : Type 0 where
  finished : End
  failed : DeployError → End

-- What is deployed: the name of the project, the directory, the compose files and all their contents.
pub record Plan : Type 0 where
  pub project : String
  pub dir : String
  pub composes : List String
  pub content : String

-- The steps before the stamp.
pub data Prepared : Type 0 where
  refused : DeployError → Prepared
  no_composes : Prepared
  prepared : Plan → Prepared

-- A column of the stack, "" where the query fails.
abbrev pub name_or_empty : Option Stack → String
name_or_empty none = ""
name_or_empty (some s) = s.stack_name

abbrev pub rel_path_or_empty : Option Stack → String
rel_path_or_empty none = ""
rel_path_or_empty (some s) = s.rel_path

-- The row of the stack that a query gives.
unfoldable pub queried : Bool → Store → ℕ → Option Stack
unfolding find_stack
queried reaches store id = if reaches then find_stack id store.stacks else none

-- The contents of the compose files, a line break after each.
unfoldable pub read_all : (String → Option String) → List String → Option String
read_all read [] = some ""
read_all read (f ∷ fs) =
    let rest = read_all read fs in
    elim (read f) [
      | none ↦ none
      | some b ↦ elim rest [ none ↦ none | some more ↦ some (join b (join "\n" more)) ]
    ]

-- The staging and reading of the compose files.
unfoldable pub stage : Answers → String → Prepared
unfolding read_all
stage a project = elim a.staged [
  | none ↦ refused stage_failed
  | some (dir, []) ↦ no_composes
  | some (dir, f ∷ fs) ↦ elim (read_all a.read_file (f ∷ fs)) [
    | none ↦ refused unreadable
    | some content ↦
        prepared (record { project = project; dir = dir; composes = f ∷ fs; content = content })
  ]
]

-- The gate of the policy: the end of a deployment that is not allowed.
unfoldable pub gate : Answers → Store → ℕ → Option End
unfolding should_auto_apply
gate a store id = if a.manual then none else elim (should_auto_apply a.getenv a.reach store id) [
  | none ↦ some (failed policy_failed)
  | some allowed ↦ if allowed then none else some finished
]

unfoldable pub prepare : Answers → Store → ℕ → Prepared
unfolding queried trim_space stage
prepare a store id =
    let project = name_or_empty (queried (a.reach (select_name id)) store id) in
    let rel = rel_path_or_empty (queried (a.reach (select_rel_path id)) store id) in
    if trim_space project == ""
    then refused no_name
    else elim (queried (a.reach (select_root id)) store id) [
      | none ↦ refused no_root
      | some _ ↦ if trim_space rel == "" then refused no_rel_path else stage a project
    ]

-- The arguments `-f FILE`.
unfoldable pub file_args : List String → List String
file_args [] = []
file_args (f ∷ fs) = "-f" ∷ f ∷ file_args fs

-- `docker compose -p PROJECT -f FILE ... up -d --remove-orphans`
unfoldable pub compose_up : Plan → List String → Command
unfolding file_args
compose_up plan env = record {
  args =
      ("compose" ∷ "-p" ∷ plan.project ∷ [])
      ++ file_args plan.composes
      ++ ("up" ∷ "-d" ∷ "--remove-orphans" ∷ []);
  dir = plan.dir;
  env = env;
}

-- The metadata of the stamp.
abbrev pub metadata : Answers → HashMap
metadata a = ("rendered_config_hash", a.rendered_config_hash) ∷ ("bundle_hash", a.bundle_hash) ∷ []

abbrev pub exited_well : Exit → Bool
exited_well not_started = false
exited_well (exited good) = good

module _ {p : Platform} where
  -- The stamp that the deployment asks for.
  abbrev pub created : Answers → ℕ → Plan → World p → Option DeploymentStamp × Stamps
  created a id plan w =
      create_deployment_stamp p.digest a.reach w.store id "compose" "" plan.content (metadata a)
        w.stamps

  -- The stamp of a deployment, a new one or the one that has the stack and the hash; with whether it is
  -- an old one.
  unfoldable pub stamp_for : Answers → ℕ → Plan → World p → Option DeploymentStamp × Bool × World p
  unfolding create_deployment_stamp check_deployment_stamp_exists
  stamp_for a id plan w = elim (created a id plan w).0 [
    | some stamp ↦ (some stamp, false, record w { stamps = (created a id plan w).1 })
    | none ↦ (
      check_deployment_stamp_exists p.digest a.reach w.store id plan.content
          (created a id plan w).1,
      true,
      record w { stamps = (created a id plan w).1 },
    )
  ]

  -- The environment of the command, once the file of ssh is set up where the stack has a host; `none` is
  -- an error of that.
  unfoldable pub connect : Answers → ℕ → World p → Option (List String) × World p
  unfolding get_host_for_stack setup_ssh_config_for_docker minimal_env docker_url_for
  connect a id w = elim (get_host_for_stack a.reach w.store id) [
    | none ↦ (some (minimal_env a.getenv), w)
    | some host ↦
        let set_up = setup_ssh_config_for_docker a.getenv a.disk host w.ssh_config in
        (
          if set_up.0
              then some (
                  minimal_env a.getenv
                  ++ (join "DOCKER_HOST=" (docker_url_for a.getenv host).0 ∷ []))
              else none,
          record w { ssh_config = set_up.1 },
        )
  ]

  unfoldable pub mark : Answers → ℕ → String → World p → World p
  unfolding update_deployment_stamp_status
  mark a stamp_id status w = record w {
    stamps = (update_deployment_stamp_status a.reach stamp_id status w.stamps).1;
  }

  -- The update of the drift cache, whose errors are only logged.
  unfoldable pub record_drift : Answers → ℕ → World p → World p
  unfolding get_host_for_stack on_successful_deployment
  record_drift a id w = elim (get_host_for_stack a.reach w.store id) [
    | none ↦ w
    | some _ ↦
        if a.client
        then record w {
          drift = (on_successful_deployment a.drift id a.staged_again a.containers w.drift).1;
        }
        else w
  ]

  -- The end of a deployment that succeeded.
  unfoldable pub conclude : Answers → ℕ → Plan → DeploymentStamp → World p → World p
  unfolding mark record_drift sanitize_project
  conclude a id plan stamp w =
      let noted = record_drift a id (mark a stamp.id "success" w) in
      record noted {
        background =
            record {
              label = sanitize_project plan.project;
              stamp_id = stamp.id;
              hash = stamp.deployment_hash;
              stack_id = id;
            }
            ∷ noted.background;
      }

  -- The run of compose with its end.
  unfoldable pub run_compose : Answers → ℕ → Plan → DeploymentStamp → World p → End × World p
  unfolding connect compose_up mark conclude
  run_compose a id plan stamp w =
      let connected = connect a id w in
      elim connected.0 [
        | none ↦ (failed ssh_failed, connected.1)
        | some env ↦
            let ran = p.run (compose_up plan env) connected.1.docker in
            let after : World p = record connected.1 { docker = ran.1 } in
            if exited_well ran.0
            then (finished, conclude a id plan stamp after)
            else (failed compose_failed, mark a stamp.id "failed" after)
      ]

  -- The deployment of a plan.
  unfoldable pub launch : Answers → ℕ → Plan → World p → End × World p
  unfolding stamp_for run_compose
  launch a id plan w =
      let stamped = stamp_for a id plan w in
      elim stamped.0 [
        | none ↦ (failed stamp_failed, stamped.2)
        | some stamp ↦
            if nat_eq stamp.id 0
            then (failed stamp_invalid, stamped.2)
            else run_compose a id plan stamp stamped.2
      ]

  -- `DeployStack`
  unfoldable pub deploy_stack : Answers → ℕ → World p → End × World p
  unfolding gate prepare launch
  deploy_stack a id w = elim (gate a w.store id) [
    | some end ↦ (end, w)
    | none ↦ elim (prepare a w.store id) [
      | refused e ↦ (failed e, w)
      | no_composes ↦ (finished, w)
      | prepared plan ↦ launch a id plan w
    ]
  ]
