-- ===== src/Deploy/Tests.antt =====
-- Runs of the deployment (api/services/deploy.go) at concrete inputs.
use text.Mathlib.Text.{◌==◌}
use dd_ui.Prelude.{
  if◌then◌else◌, sym, true, false, ◌≡◌, ◌⊎◌, inl, refl, Option, none, some, String, Bool, leb, List,
  [], ◌∷◌, ◌++◌, arith,
}
use dd_ui.Drift.{HashMap, Library, staged}
use dd_ui.Deploy.Text.{sanitize_project}
use dd_ui.Deploy.Store.{
  Stack, HostRow, Store, Reach, Environment, find_stack, get_global_devops_apply, is_trueish,
}
use mathlib.Core.List.{Perm}
use Prim.Native.String.{len}
use dd_ui.Deploy.Policy.Order.{IsTotal, IsOrdered}
use dd_ui.Deploy.Policy.{should_auto_apply, row_groups}
use dd_ui.Deploy.Policy.Precedence.{levels, first_set, should_auto_apply_lem}
use dd_ui.Deploy.Policy.Overrides.{overridden, should_auto_apply-set_stack_devops_override}
use dd_ui.Deploy.Stamps.{scope_hash}
use dd_ui.Deploy.Connection.{docker_url_for}
use dd_ui.Deploy.Run.{
  Command, exited, Platform, World, Answers, finished, Plan, prepared, gate, prepare, deploy_stack,
  compose_up,
}
use dd_ui.Deploy.Run.Effects.{deploy_stack-docker}
use dd_ui.Deploy.Run.Status.{Settled, deploy_stack-status}
use dd_ui.Deploy.Stream.{
  config_unchanged, Streaming, send_events, stream_prepare, deploy_stack_with_stream,
}
use dd_ui.Deploy.Stream.Refines.{without_events, deploy_stack_with_stream-forced}
use dd_ui.Deploy.Stream.Events.{has_error, is_failed, deploy_stack_with_stream-errors}
use dd_ui.Deploy.Stream.Again.{deploy_stack_with_stream-again}

-- JSON that is the map itself, and a hash that is the identity.
abbrev plain : Library
plain = record {
  sha256 = λ s. s;
  sort = λ l. l;
  Json = HashMap;
  marshal = λ m. some m;
  unmarshal = λ j. some j;
  empty_object = [];
  unmarshal-marshal = λ m j h. sym h;
  unmarshal-empty = refl;
}

-- Docker that keeps its commands and obeys each.
abbrev toy : Platform
toy = record {
  Docker = List Command;
  run = λ c d. (exited true, c ∷ d);
  library = plain;
  digest = record { sha256 = λ s. s; marshal_env = λ m. "{}" };
}

abbrev web : Stack
web = record {
  id = 7;
  scope_kind = "host";
  scope_name = "anchorage";
  stack_name = "Web Shop";
  rel_path = "docker-compose/anchorage/web";
  auto_devops_override = none;
}

abbrev anchorage : HostRow
anchorage = record {
  name = "anchorage";
  addr = "10.0.0.1";
  vars = [];
  groups = "green" ∷ "blue" ∷ [];
}

abbrev settings : String → Option String
settings key = if key == "group:green:devops_apply" then some "yes" else none

-- An order of texts by their lengths.
abbrev by_length : String → String → Bool
by_length s t = leb (len s) (len t)

by_length-IsTotal : IsTotal by_length
by_length-IsTotal s t = ground arith

abbrev rows : Store
rows = record {
  stacks = web ∷ [];
  hosts = anchorage ∷ [];
  settings = settings;
  collation = by_length;
}

abbrev getenv : Environment
getenv key = if key == "SSH_KEY_FILE" then "/keys/id" else ""

abbrev up : Reach
up q = true

abbrev start : World toy
start = record {
  store = rows;
  stamps = record { rows = []; next_id = 1 };
  ssh_config = none;
  docker = [];
  drift = λ id. none;
  background = [];
}

abbrev answers : Answers
answers = record {
  manual = false;
  getenv = getenv;
  reach = up;
  staged = some ("/tmp/stage", "/tmp/stage/compose.yaml" ∷ []);
  read_file = λ f. some "services: {}";
  rendered_config_hash = "";
  bundle_hash = "";
  disk = record { made_dir = true; readable = true; opened = true; written = true };
  client = true;
  drift = record {
    reads_bundle = true;
    clears = true;
    updates_bundle = true;
    reads_cache = true;
    stores_cache = true;
    updates_both = true;
  };
  staged_again = staged (("compose.yaml", "services: {}") ∷ []);
  containers = some [];
}

abbrev streaming : Streaming
streaming = record {
  forced = true;
  stdout_pipe = true;
  stderr_pipe = true;
  lines = (true, "done") ∷ [];
  reads = λ n. true;
}

abbrev asking : Streaming
asking = record streaming { forced = false }

abbrev plan : Plan
plan = record {
  project = "Web Shop";
  dir = "/tmp/stage";
  composes = "/tmp/stage/compose.yaml" ∷ [];
  content = "services: {}\n";
}

abbrev hash : String
hash = "host:anchorage:Web Shop:services: {}\n"

label : sanitize_project "  Web--Shop! 2 " ≡ "web--shop__2"
unfolding sanitize_project
label = refl

yes : is_trueish " Yes " ≡ true
unfolding is_trueish
yes = refl

ssh : docker_url_for getenv anchorage ≡ ("ssh://root@10.0.0.1", "ssh -i /keys/id")
unfolding docker_url_for
ssh = refl

deployed : (deploy_stack answers 7 start).0 ≡ finished
unfolding deploy_stack
deployed = refl

one_run :
    (deploy_stack answers 7 start).1.docker
    ≡ compose_up plan ("PATH=" ∷ "HOME=" ∷ "DOCKER_HOST=ssh://root@10.0.0.1" ∷ []) ∷ []
unfolding deploy_stack
one_run = refl

let_through : gate answers rows 7 ≡ none
unfolding gate
let_through = refl

planned : prepare answers rows 7 ≡ prepared plan
unfolding prepare
planned = refl

should_auto_apply_lem_example :
    (groups : List String) × IsOrdered by_length groups
    × Perm groups (row_groups up rows "anchorage")
    × (should_auto_apply getenv up rows 7
        ≡ some (first_set (levels up rows web groups) (get_global_devops_apply getenv up rows)))
unfolding find_stack
should_auto_apply_lem_example =
    should_auto_apply_lem getenv up rows 7 web by_length-IsTotal refl refl

should_auto_apply-set_stack_devops_override_example :
    ((overridden 7 web rows (some false)).0 ≡ true)
    × (should_auto_apply getenv up (overridden 7 web rows (some false)).1 7 ≡ some false)
unfolding find_stack
should_auto_apply-set_stack_devops_override_example =
    should_auto_apply-set_stack_devops_override getenv up 7 web rows false refl refl refl

deploy_stack-docker_example :
    ((deploy_stack answers 7 start).1.docker ≡ [])
    ⊎ ((made : Plan) × (env : List String) × (prepare answers rows 7 ≡ prepared made)
        × ((false ≡ true) ⊎ (should_auto_apply getenv up rows 7 ≡ some true))
        × ((deploy_stack answers 7 start).1.docker ≡ compose_up made env ∷ []))
deploy_stack-docker_example = deploy_stack-docker answers 7 start

deploy_stack-status_example : Settled 7 hash (deploy_stack answers 7 start)
unfolding scope_hash
deploy_stack-status_example =
    deploy_stack-status answers 7 hash plan start let_through planned refl (λ k. refl)

deploy_stack_with_stream-forced_example :
    without_events answers streaming 7 (deploy_stack_with_stream answers streaming 7 start)
    ≡ deploy_stack answers 7 start
deploy_stack_with_stream-forced_example =
    deploy_stack_with_stream-forced answers streaming 7 start refl refl refl

deploy_stack_with_stream-errors_example :
    has_error (deploy_stack_with_stream answers asking 7 start).0
    ≡ is_failed (deploy_stack_with_stream answers asking 7 start).1
deploy_stack_with_stream-errors_example =
    deploy_stack_with_stream-errors answers asking 7 start (λ n. refl)

deploy_stack_with_stream-again_example :
    deploy_stack_with_stream answers asking 7 (deploy_stack answers 7 start).1 ≡ (
      send_events (λ n. true) ((stream_prepare answers rows 7).0 ++ (config_unchanged ∷ [])),
      finished,
      (deploy_stack answers 7 start).1,
    )
unfolding scope_hash
deploy_stack_with_stream-again_example =
    deploy_stack_with_stream-again answers asking 7 plan hash start let_through planned refl
      (λ k. refl) refl refl (inl deployed)
