-- ===== src/Git/Tests.antt =====
-- The exchange at a small repository, and its theorems there.

use text.Mathlib.Text.{◌==◌}
use dd_ui.Prelude.{
  if◌then◌else◌, ◌&&◌, ◌≡◌, ◌∙◌, ap, Option, refl, ◌⊎◌, inl, inr, true, false, Bool, none, some,
  String, List, [], ◌∷◌, arith,
}
use dd_ui.Git.Text.{contains}
use dd_ui.Git.Files.{Files, Answer, Copying, mirror, copy_inventory, copy_docker, copy}
use dd_ui.Git.Repository.{
  Command, status, add_all, checkout_new, reset_hard, push, commit, stays, Reply, Git, Config,
  Service, Answers, succeeded, failed, copy_failed,
}
use dd_ui.Git.Setup.{ensure_working_directory}
use dd_ui.Git.Pull.{pull_twice, place_local, after_setup, atomic_pull}
use dd_ui.Git.Pull.Preserves.{Untouched, placed, atomic_pull-cases}
use dd_ui.Git.Pull.Applies.{History}
use dd_ui.Git.Pull.Keeps.{IsLocal, committed, atomic_pull-keeps}
use dd_ui.Git.Initial.{is_setup_call, Local}
use dd_ui.Git.Lifecycle.{Settings, Life, failed as failed_start, Meets}
use dd_ui.Git.Lifecycle.Token.{start_each, start_each-fails}
use dd_ui.Git.Push.{exchange_push, atomic_push, pull_first, commit_and_push, pushes}
use dd_ui.Git.Push.Publishes.{
  Carries, pulled as push_pulled, committed as push_committed, atomic_push-publishes,
}
use dd_ui.Git.Service.{Ages}

-- A clone with its files, its index and its last commit, and the commits of the remote branch.
record Clone : Type 0 where
  work : Files String
  index : Files String
  head : Files String
  brought : Files String
  remote : List (Files String)
  on : String

abbrev Found : Files String → List (Files String) → Type 0
Found f [] = ⊥
Found f (g ∷ gs) = (f ≡ g) ⊎ Found f gs

abbrev fine : Reply
fine = record { ok = true; output = "x" }

-- The commands on it; `commits` says whether a commit works.
abbrev step : Bool → Command → Clone → Reply × Clone
step commits add_all r = (fine, record r { index = r.work })
step true (commit author email message) r = (fine, record r { head = r.index })
step false (commit author email message) r = (record { ok = false; output = "hook" }, r)
step commits (push b) r = (fine, record r { remote = r.head ∷ r.remote })
step commits (reset_hard target) r =
    (fine, record r { work = if target == "x" then r.brought else r.head })
step commits (checkout_new b) r = (fine, record r { on = b })
step commits _ r = (fine, r)

step_current : (b : Bool) (c : Command) (r : Clone) → stays c ≡ true → (step b c r).1.on ≡ r.on
unfolding stays
step_current b add_all r h = refl
step_current true (commit x y z) r h = refl
step_current false (commit x y z) r h = refl
step_current b (push n) r h = refl
step_current b (reset_hard n) r h = refl
step_current b (checkout_new n) r h = absurd (ground arith)
step_current b _ r h = refl

step-Found :
    (f : Files String) (b : Bool) (c : Command) (r : Clone)
    → Found f r.remote
    → Found f (step b c r).1.remote
step-Found f b add_all r h = h
step-Found f true (commit x y z) r h = h
step-Found f false (commit x y z) r h = h
step-Found f b (push n) r h = inr h
step-Found f b (reset_hard n) r h = h
step-Found f b (checkout_new n) r h = h
step-Found f b _ r h = h

step_push :
    (b : Bool) (r : Clone) (x y z n : String)
    → r.on ≡ n
    → (step b add_all r).0.ok ≡ true
    → (step b (commit x y z) (step b add_all r).1).0.ok ≡ true
    → (step b (push n) (step b (commit x y z) (step b add_all r).1).1).0.ok ≡ true
    → Found r.work (step b (push n) (step b (commit x y z) (step b add_all r).1).1).1.remote
step_push true r x y z n o h k l = inl refl
step_push false r x y z n o h k l = absurd (ground arith)

abbrev toy : Bool → Git String
toy commits = record {
  Repo = Clone;
  run = step commits;
  has_git = λ r. true;
  cleared = λ r. r;
  with_readme = λ r. r;
  files = λ r. r.work;
  place = λ f r. record r { work = f };
  current = λ r. r.on;
  Published = λ f r. Found f r.remote;
  files-place = λ f r. refl;
  current-place = λ f r. refl;
  current-run = step_current commits;
  run-Published = λ f c r h. step-Found f commits c r h;
  files-status = λ r. refl;
  publishes = step_push commits;
}

abbrev answer : Answer String
answer = record { rsync = true; cp = true; left = none; removed = true }

abbrev copying : Copying String
copying = record { for_inventory = answer; for_docker = answer }

abbrev answers : Answers String
answers = record {
  stamp = "2026-01-01";
  ssh_ready = true;
  made_dir = true;
  nested = true;
  copy_in = copying;
  copy_out = copying;
  data_head = some "abc";
  saves_hash = true;
}

abbrev config : Config
config = record {
  repo_url = "https://example.org/r.git";
  branch = "main";
  ssh_key = "";
  auth_token = "";
  author_name = "";
  author_email = "";
  sync_enabled = true;
  force_on_conflict = false;
  last_sync_hash = "";
}

abbrev there : Files String
there = record { inventory = some "hosts v1"; docker = some "stack v1" }

abbrev here : Files String
here = record { inventory = some "hosts v2"; docker = none }

abbrev start : (commits : Bool) → Service (toy commits)
start commits = record {
  config = config;
  repo = record {
    work = there;
    index = there;
    head = there;
    brought = there;
    remote = [];
    on = "main";
  };
  data_files = here;
  saved_hash = "";
}

abbrev fresh : Ages
fresh = record { inventory = some 60; docker_compose = none }

atomic_pull-cases_example :
    ((atomic_pull answers (start true)).0 ≡ succeeded)
    ⊎ ((atomic_pull answers (start true)).0 ≡ failed copy_failed)
    ⊎ Untouched (start true) (atomic_pull answers (start true)).1
atomic_pull-cases_example = atomic_pull-cases answers (start true)

-- The commit "x" is the one that the pull has brought.
abbrev toy_files_of : String → Clone → Option (Files String)
toy_files_of hash r = if hash == "x" then some r.brought else none

step_brought : (b : Bool) (c : Command) (r : Clone) → (step b c r).1.brought ≡ r.brought
step_brought b add_all r = refl
step_brought true (commit x y z) r = refl
step_brought false (commit x y z) r = refl
step_brought b (push n) r = refl
step_brought b (reset_hard n) r = refl
step_brought b (checkout_new n) r = refl
step_brought b _ r = refl

toy_reset :
    (b : Bool) (hash : String) (f : Files String) (r : Clone)
    → toy_files_of hash r ≡ some f
    → (step b (reset_hard hash) r).1.work ≡ f
toy_reset b hash f r h = ground arith

abbrev toy_history : (commits : Bool) → History (toy commits)
toy_history commits = record {
  files_of = toy_files_of;
  files_of-run = λ hash f c r s h.
      ap (λ g. if hash == "x" then some g else none) (step_brought commits c r) ∙ h;
  files_of-place = λ hash f g r h. h;
  files-reset_hard = λ hash f r h e. toy_reset commits hash f r h;
}

atomic_pull-keeps_example :
    Untouched (start true) (atomic_pull answers (start true)).1
    ⊎ (((toy true).run status (placed answers (start true))).0.output ≡ "")
    ⊎ ((f : Files String) × IsLocal answers (start true) f
        × Found f (atomic_pull answers (start true)).1.repo.remote)
unfolding pull_twice place_local copy copy_inventory copy_docker mirror
atomic_pull-keeps_example =
    atomic_pull-keeps answers (start true) refl refl refl refl refl refl refl

atomic_push-publishes_example :
    (contains (push_committed answers (start true)).0.output "nothing to commit" ≡ true)
    ⊎ ((f : Files String) × Carries true here
          ((toy true).files (push_pulled answers (start true)))
          f
        × Found f (atomic_push answers (start true)).1.repo.remote
        × ((atomic_push answers (start true)).1.saved_hash ≡ "abc"))
unfolding atomic_push after_setup ensure_working_directory exchange_push pull_first place_local
    commit_and_push pushes copy copy_inventory copy_docker mirror
atomic_push-publishes_example = atomic_push-publishes answers (start true) refl refl refl refl refl

abbrev asks_set_url : List String → Bool
asks_set_url (a ∷ b ∷ _) = a == "remote" && b == "set-url"
asks_set_url _ = false

-- git in a data directory that is only whether `origin` is known.
abbrev toy_call : List String → Bool → Reply × Bool
toy_call args known = (
  record { ok = if asks_set_url args then known else true; output = "" },
  if is_setup_call args then known else true,
)

abbrev toy_local : Local
toy_local = record {
  Dir = Bool;
  call = toy_call;
  has_dot_git = λ d. false;
  has_inventory = λ d. true;
  has_compose_files = λ d. true;
  has_compose_dir = λ d. true;
  has_ignore = λ d. true;
  write_ignore = λ d. (true, d);
  has_origin = λ d. d;
  fails-set_url = λ url d h. h;
  keeps-origin = λ args d h. rw h refl;
}

abbrev meets : Meets String
meets = record { data_dir = true; answers = answers }

abbrev token_config : Config
token_config = record config { auth_token = "secret" }

abbrev with_token : Settings
with_token = record { config = token_config; sync_mode = "pull"; pull_interval_mins = 5 }

abbrev off : Life (toy true) toy_local
off = record {
  settings = with_token;
  dir = false;
  repo = (start true).repo;
  is_running = false;
  is_cloning = false;
  has_error = false;
  recorded = [];
  timers = 0;
}

start_each-fails_example :
    ((start_each meets (meets ∷ meets ∷ []) off).0 ≡ failed_start)
    × ((start_each meets (meets ∷ meets ∷ []) off).1.is_running ≡ false)
start_each-fails_example = start_each-fails meets (meets ∷ meets ∷ []) off refl refl refl
