-- ===== src/Lib.antt =====
-- DD-UI, a web interface for Docker hosts that keeps its inventory and its compose files in a
-- directory under Git. The service is written in Go (api/). This library models parts of its own
-- logic and proves what they promise.
--
-- * Inventory (api/services/inventory_manager.go): the Ansible inventory file. Value is the tree
--   that YAML gives, with the reads and writes of maps; Metadata the fields that DD-UI adds; Hosts
--   and Groups the edits of the parsed tree; View the questions asked of the tree; Listing
--   parseHost and parseGroup; Hierarchy the typed inventory, processGroups, GetHosts and
--   GetGroups; Manager the type InventoryManager, its lock, its file and backup and its public
--   methods; Export removeDDUIFields.
--
-- * Drift (api/utils/hash.go): the detection of drift in two tiers, by the hash of a stack's files
--   and by the hashes that compose writes on containers, over the table stack_drift_cache.
--
-- * Git (api/services/git_sync.go): the exchange with a remote repository. Files is
--   copyFromDataToGit and copyFromGitToData; Repository the commands of git as a parameter with
--   its laws, and the state of GitSyncService; Setup ensureWorkingDirectory; Pull and Push
--   atomicPull and atomicPush; Service the choice of Sync, Push and the timer; Text the tests on
--   outputs; Initial the first setup of the data directory, initInExistingDirectory and its parts,
--   with git there as a second parameter; Lifecycle Initialize, Start, Stop, UpdateConfig and
--   GetStatus, each run to its end but for the start that UpdateConfig leaves in the background;
--   Commits generateCommitMessage, getChangedFiles and handleConflicts.
--
-- * Cleanup (api/handlers/cleanup_handlers.go): the cleanup of Docker hosts by jobs. Output
--   parseDockerPruneOutput and humanizeBytes; Prune the six prunes and runDockerCommand; Jobs the
--   table cleanup_jobs and executeCleanupJob; AllHosts executeCleanupJobAllHosts, whose goroutines
--   are events in any order; Handlers the requests that start a job.
--
-- * Compose (api/services/compose_render_hash.go): the variables of compose files with the order
--   of their sources, resolveVariablesWithPrecedence, parseServiceEnvironment and
--   parseEnvFileContent; Hashes docker and the other programs as a parameter, the hashes of
--   compose files and filterDotenvSopsKeys (api/services/deploy_sops.go); Services
--   renderComposeServices and parseComposeWithVariableResolution.
--
-- * Deploy (api/services/deploy.go): the deployment of a stack by compose. Text SanitizeProject
--   and the tests on texts; Store the rows and settings that are read, with the overrides
--   (api/services/settings.go, api/services/db_iac.go); Policy ShouldAutoApply; Stamps the table
--   deployment_stamps (api/database/db_deployment_stamps.go); Connection the host of a stack,
--   DockerURLFor and the file of ssh; Run DeployStack; Stream DeployStackWithStream; Auto
--   applyAutoDevOps (api/main.go); Associate the link of containers to a stamp. A deployment
--   records its files and containers through Drift.
--
-- * Dotenv (api/services/deploy_sops.go): ParseDotenvWithComments and
--   ReconstructDotenvWithComments. Text is about lines and texts, RoundTrip about the loops, Whole
--   about a whole file.
--
-- * Transport (api/utils/sse.go, api/utils/ssh_transport.go): what goes over the network. Sse the
--   writer SSELineWriter of lines to the browser and the test of the origin; Pool the pool of
--   connections by ssh.
--
-- * Views (api/main.go): ViewBoostTracker.
--
-- A method of InventoryManager is a function from the manager and the answers of the operating
-- system to an outcome: it returned with a result and a manager, or it waits for the lock that it
-- holds itself. UpdateHostMetadata and UpdateGroupMetadata call themselves and carry a number of
-- calls; two are enough, since the second one waits for the lock. Maps of Go are lists of fields
-- with a first match; the order in which Go ranges over a map is the order of the list.
--
-- A statement of a deployment has for its whole run one answer, whether it reaches the database.
-- The association in the background is tried at most five times, the number of attempts in the
-- code.
--
-- The loop of humanizeBytes has six turns, which the theorem on it shows to be enough for every
-- int64; a panic by a nil result in a goroutine is a flag of the board.
--
-- The replacement of variables in a text has no bound in the code, and carries a number of rounds;
-- the number of `$` in the text is enough where no value has one, by a theorem. Without that
-- condition it can run for ever. The loop of SSELineWriter has as many rounds as the buffer has
-- line ends.
--
-- YAML, JSON, git, rsync, SHA-256, the file system, the database and Docker are parameters, with
-- the laws that are used: what Marshal writes is what Unmarshal reads, and an upsert answers or
-- fails. A file that Unmarshal accepts is taken to be a map.
--
-- Not modelled: the HTTP handlers beside those of Cleanup, the routes, the web server, the
-- scanners of hosts and of the Git tree, the staging of files with their decryption, the terminal
-- and log streams, and all logging.
mod Prelude
pub mod Inventory
pub mod Drift
pub mod Git
pub mod Cleanup
pub mod Compose
pub mod Deploy
pub mod Dotenv
pub mod Transport
pub mod Views
