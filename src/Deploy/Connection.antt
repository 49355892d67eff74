-- ===== src/Deploy/Connection.antt =====
-- How a deployment reaches the Docker daemon of its host: `getHostForStack` and
-- `setupSSHConfigForDocker` of api/services/deploy.go, `DockerURLFor` and `LocalHostAllowed` of
-- api/services/scan_docker.go.
use Prim.Native.String.{◌++◌ as join}
use text.Mathlib.Text.{◌==◌, starts_with}
use dd_ui.Prelude.{
  ℕ, Bool, true, false, not, ◌&&◌, ◌||◌, Option, none, some, String, List, [], ◌∷◌, ◌++◌,
  if◌then◌else◌,
}
use dd_ui.Git.Text.{contains, trim_space}
use dd_ui.Drift.{lookup, read}
use dd_ui.Deploy.Text.{to_lower, equal_fold}
use dd_ui.Deploy.Store.{HostRow, Store, select_host, Reach, Environment, env, find_stack, find_host}

-- `getHostForStack`; `none` is an error, also for a stack that is not one of a host.
unfoldable pub get_host_for_stack : Reach → Store → ℕ → Option HostRow
unfolding find_stack find_host
get_host_for_stack reach store id =
    if reach (select_host id)
    then elim (find_stack id store.stacks) [
      | none ↦ none
      | some s ↦ if s.scope_kind == "host" then find_host s.scope_name store.hosts else none
    ]
    else none

-- `host.Vars[key]`
abbrev pub var : HostRow → String → String
var host key = read (lookup key host.vars)

-- The user and the address of a host, with their fallbacks.
unfoldable pub ssh_user : Environment → HostRow → String
unfolding env lookup
ssh_user getenv host =
    let user = var host "ansible_user" in if user == "" then env getenv "SSH_USER" "root" else user

abbrev pub address : HostRow → String
address host = if host.addr == "" then host.name else host.addr

-- `IsUnixSock`
abbrev pub is_unix_sock : String → Bool
is_unix_sock url = starts_with url "unix://"

-- `LocalHostAllowed`
unfoldable pub local_host_allowed : Environment → HostRow → Bool
unfolding env lookup to_lower trim_space
local_host_allowed getenv host =
    let v = to_lower (trim_space (var host "docker_local")) in
    let lh = trim_space (env getenv "DD_UI_LOCAL_HOST" "") in
    let addr = to_lower (trim_space host.addr) in
    (v == "true" || v == "1" || v == "yes")
    || (not (lh == "") && equal_fold lh host.name)
    || (addr == "127.0.0.1" || addr == "::1" || addr == "localhost")

-- The command of ssh in `DockerURLFor`.
unfoldable pub ssh_command : Environment → String
unfolding env
ssh_command getenv =
    let key_file = env getenv "SSH_KEY_FILE" "" in
    let port = env getenv "SSH_PORT" "" in
    join "ssh" (
      join (if key_file == "" then "" else join " -i " key_file) (
        join
          (if env getenv "SSH_STRICT_HOST_KEY" "true" == "false"
            then " -o StrictHostKeyChecking=no"
            else "")
          (if not (port == "") && not (port == "22") then join " -p " port else "")))

-- The socket of the local daemon.
abbrev pub local_socket : Environment → String
local_socket getenv = join "unix://" (env getenv "DOCKER_SOCK_PATH" "/var/run/docker.sock")

-- `DockerURLFor`: the address of the daemon and the command of ssh.
unfoldable pub docker_url_for : Environment → HostRow → String × String
unfolding env lookup trim_space to_lower ssh_user ssh_command
docker_url_for getenv host =
    let own = var host "docker_host" in
    let lh = trim_space (env getenv "DD_UI_LOCAL_HOST" "") in
    let kind = env getenv "DOCKER_CONNECTION_METHOD" "ssh" in
    if not (own == "")
    then (own, var host "docker_ssh_cmd")
    else if not (lh == "") && equal_fold lh host.name
    then (local_socket getenv, "")
    else if kind == "local"
    then (local_socket getenv, "")
    else if kind == "tcp"
    then (join "tcp://" (join (address host) (join ":" (env getenv "DOCKER_TCP_PORT" "2375"))), "")
    else (join "ssh://" (join (ssh_user getenv host) (join "@" (address host))), ssh_command getenv)

-- What the file system answers: the directory is made, the file can be read, opened and written.
pub record Disk : Type 0 where
  pub made_dir : Bool
  pub readable : Bool
  pub opened : Bool
  pub written : Bool

-- The block of a host.
unfoldable pub host_block : String → String → String → String
host_block addr user key_file = join "Host " (
    join addr (
      join "\n    User " (
        join user (
          join "\n    IdentityFile " (
            join key_file
              "\n    StrictHostKeyChecking no\n    ConnectTimeout 30\n    UserKnownHostsFile /dev/null\n\n")))))

-- The content of the file, which is "" where it is missing or cannot be read.
abbrev pub existing_config : Disk → Option String → String
existing_config disk none = ""
existing_config disk (some config) = if disk.readable then config else ""

-- The file with a block at its end.
abbrev pub appended : Option String → String → Option String
appended none block = some block
appended (some config) block = some (join config block)

-- `setupSSHConfigForDocker`, with whether it returned without an error and the file ~/.ssh/config.
unfoldable pub setup_ssh_config_for_docker :
    Environment → Disk → HostRow → Option String → Bool × Option String
unfolding env ssh_user host_block contains
setup_ssh_config_for_docker getenv disk host file =
    let key_file = env getenv "SSH_KEY_FILE" "" in
    if key_file == ""
    then (false, file)
    else if not disk.made_dir
    then (false, file)
    else if contains (existing_config disk file) (join "Host " (address host))
    then (true, file)
    else if not disk.opened
    then (false, file)
    else if not disk.written
    then (false, appended file "")
    else (true, appended file (host_block (address host) (ssh_user getenv host) key_file))

-- The environment of the command.
unfoldable pub minimal_env : Environment → List String
minimal_env getenv =
    let age = getenv "SOPS_AGE_KEY" in
    let age_file = getenv "SOPS_AGE_KEY_FILE" in
    (join "PATH=" (getenv "PATH") ∷ join "HOME=" (getenv "HOME") ∷ [])
    ++ (if age == "" then [] else join "SOPS_AGE_KEY=" age ∷ [])
    ++ (if age_file == "" then [] else join "SOPS_AGE_KEY_FILE=" age_file ∷ [])
