-- ===== src/Compose/Tests.antt =====
-- Runs of the functions of Compose at concrete texts.
use text.Mathlib.Text.{◌==◌}
use dd_ui.Prelude.{ℕ, ◌≡◌, refl, inl, inr, none, some, String, [], ◌∷◌, Bool-cases, arith}
use dd_ui.Compose.{
  resolve_variables, no_env, set, Sources, parse_env_file_content, value_at, cut, cut_pair, unquote,
  add_env_lines, parse_service_environment, add_entries, assignment,
}
use dd_ui.Compose.{split_expr, choose, first_file, resolve_once, resolve, unsnoc}
use dd_ui.Compose.{Env}
use dd_ui.Compose.Ends.{dollars, IsPlain, IsPlainEnv, Ends, resolve_variables-Ends, resolve-repeats}
use dd_ui.Dotenv.{split_lines}
use dd_ui.Git.Text.{trim_space, trim_left, trim_right, is_space}

abbrev sources : Sources
sources = record {
  root_env = set "TAG" "" no_env;
  service_env = set "TAG" "7.2" no_env;
  service_env_files = set "NAME" "cache" no_env ∷ [];
}

image : resolve_variables 3 "${NAME}/redis:${TAG:-latest}${X:-a}" sources ≡ some "cache/redis:7.2a"
unfolding resolve_variables resolve resolve_once choose split_expr cut cut_pair first_file
image = refl

env_file : value_at (parse_env_file_content "# note\nA = \"x y\"\nB=1\n") "A" ≡ "x y"
unfolding parse_env_file_content add_env_lines split_lines trim_space trim_left trim_right is_space
    cut unquote unsnoc
env_file = refl

environment : value_at (parse_service_environment (assignment "A=b=c" ∷ [])) "A" ≡ "b=c"
unfolding parse_service_environment add_entries trim_space trim_left trim_right is_space cut
environment = refl

set-IsPlainEnv :
    (key value : String) (env : Env)
    → dollars value ≡ 0
    → IsPlainEnv env
    → IsPlainEnv (set key value env)
set-IsPlainEnv key value env h k name = elim (Bool-cases (name == key)) [
  | inl e ↦ rw e h
  | inr e ↦ rw e (k name)
]

plain_env : (key value : String) → dollars value ≡ 0 → IsPlainEnv (set key value no_env)
plain_env key value h = set-IsPlainEnv key value no_env h (λ name. tt)

sources-IsPlain : IsPlain sources
unfolding dollars
sources-IsPlain =
    (plain_env "TAG" "" refl, plain_env "TAG" "7.2" refl, (plain_env "NAME" "cache" refl, tt))

resolve_variables-Ends_example :
    Ends sources (resolve_variables 3 "${NAME}/redis:${TAG:-latest}${X:-a}" sources)
unfolding dollars
resolve_variables-Ends_example =
    resolve_variables-Ends 3 "${NAME}/redis:${TAG:-latest}${X:-a}" sources sources-IsPlain
      (omega arith)

abbrev own_value : Sources
own_value = record {
  root_env = set "A" "${A}" no_env;
  service_env = no_env;
  service_env_files = [];
}

-- A value that holds its own variable keeps the loop going.
own_value_round : resolve_once own_value "${A}" ≡ some "${A}"
unfolding resolve_once choose split_expr cut cut_pair first_file
own_value_round = refl

own_value_runs : (n : ℕ) → resolve own_value n "${A}" ≡ none
own_value_runs n = resolve-repeats own_value n "${A}" own_value_round
