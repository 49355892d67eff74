-- ===== src/Compose.antt =====
-- api/services/compose_render_hash.go: the variables of compose files, the files that give them
-- values, and the parse of compose files that stands in for docker.
pub mod Ends
pub mod Hashes
pub mod Services
mod Tests
use Prim.Native.Char.{Char, code}
use Prim.Native.String.{◌++◌ as join}
use text.Mathlib.Text.{◌==◌, starts_with}
use mathlib.Core.List
use dd_ui.Prelude.{
  ℕ, zero, suc, Bool, true, false, not, ◌&&◌, ◌||◌, Option, none, some, String, List, [], ◌∷◌, ◌++◌,
  ◌==◌ as nat_eq, if◌then◌else◌,
}
use dd_ui.Git.Text.{trim_space, is_space}
use dd_ui.Dotenv.{split_lines}

-- A text before and after a place, with a character more at its front.
abbrev pub put_char : Char → String × String → String × String
put_char c (before, after) = (String.◌∷◌ c before, after)

abbrev pub further : Char → Option (String × String) → Option (String × String)
further c none = none
further c (some parts) = some (put_char c parts)

-- `strings.Index` for a character: the text before its first place, and the text after it.
unfoldable pub cut : ℕ → String → Option (String × String)
cut a String.[] = none
cut a (String.◌∷◌ c s) =
    let rest = cut a s in if nat_eq (code c) a then some ("", s) else further c rest

-- `strings.Index` for two characters that follow each other.
unfoldable pub cut_pair : ℕ → ℕ → String → Option (String × String)
cut_pair a b String.[] = none
cut_pair a b (String.◌∷◌ c String.[]) = none
cut_pair a b (String.◌∷◌ c (String.◌∷◌ d s)) =
    let rest = cut_pair a b (String.◌∷◌ d s) in
    if nat_eq (code c) a && nat_eq (code d) b then some ("", s) else further c rest

-- A `map[string]string`, and its value at a key, or the empty text.
abbrev pub Env : Type 0
Env = String → Option String

abbrev pub no_env : Env
no_env key = none

abbrev pub set : String → String → Env → Env
set key value env = λ k. if k == key then some value else env k

abbrev pub value_at : Env → String → String
value_at env key = elim (env key) [ none ↦ "" | some value ↦ value ]

-- The sources of values: the root .env file, the environment of the service and its env_file files.
pub record Sources : Type 0 where
  pub root_env : Env
  pub service_env : Env
  pub service_env_files : List Env

-- The loop over the env_file files: the first that has the variable.
unfoldable pub first_file : List Env → String → String
first_file [] name = ""
first_file (env ∷ envs) name = elim (env name) [ some value ↦ value | none ↦ first_file envs name ]

abbrev pub or_else : String → String → String
or_else value other = if value == "" then other else value

-- The name and the default of an expression.
unfoldable pub split_expr : String → String × String
unfolding cut_pair
split_expr expr = elim (cut_pair 58 45 expr) [
  | none ↦ (expr, "")
  | some (name, default) ↦ if name == "" then (expr, "") else (name, default)
]

-- The value of a variable by the order of the sources, with its default.
unfoldable pub choose : Sources → String → String → String
unfolding first_file
choose sources name default =
    or_else
      (or_else (or_else (value_at sources.root_env name) (value_at sources.service_env name))
        (first_file sources.service_env_files name))
      default

-- One round of the loop in `resolveVariablesWithPrecedence`: the text with the first expression
-- replaced, or nothing where the loop ends.
unfoldable pub resolve_once : Sources → String → Option String
unfolding cut cut_pair split_expr choose
resolve_once sources s = elim (cut_pair 36 123 s) [
  | none ↦ none
  | some (before, inside) ↦ elim (cut 125 inside) [
    | none ↦ none
    | some (expr, after) ↦
        let parts = split_expr expr in
        some (join before (join (choose sources parts.0 parts.1) after))
  ]
]

-- The loop, by `n` rounds at most; nothing if it is not at its end then.
unfoldable pub resolve : Sources → ℕ → String → Option String
unfolding resolve_once
resolve sources zero s = elim (resolve_once sources s) [ none ↦ some s | some t ↦ none ]
resolve sources (suc n) s = elim (resolve_once sources s) [
  | none ↦ some s
  | some t ↦ resolve sources n t
]

-- `resolveVariablesWithPrecedence`
unfoldable pub resolve_variables : ℕ → String → Sources → Option String
unfolding resolve
resolve_variables n input sources = if input == "" then some input else resolve sources n input

-- An entry of `environment`: a text, a map whose values are texts or something else, or neither.
pub data Entry : Type 0 where
  assignment : String → Entry
  mapping : List (String × Option String) → Entry
  neither : Entry

abbrev pub set_text : String × Option String → Env → Env
set_text (key, none) env = env
set_text (key, some value) env = set key value env

abbrev pub set_texts : List (String × Option String) → Env → Env
set_texts [] env = env
set_texts (pair ∷ pairs) env = set_texts pairs (set_text pair env)

-- `KEY=value`
abbrev pub set_line : String → Env → Env
set_line line env = elim (cut 61 line) [
  | none ↦ env
  | some (key, value) ↦ if key == "" then env else set (trim_space key) (trim_space value) env
]

unfoldable pub add_entries : List Entry → Env → Env
unfolding cut
add_entries [] env = env
add_entries (assignment line ∷ entries) env = add_entries entries (set_line line env)
add_entries (mapping pairs ∷ entries) env = add_entries entries (set_texts pairs env)
add_entries (neither ∷ entries) env = add_entries entries env

-- `parseServiceEnvironment`
unfoldable pub parse_service_environment : List Entry → Env
unfolding add_entries
parse_service_environment entries = add_entries entries no_env

-- The last character of a text that is not empty, and the text without it.
unfoldable pub unsnoc : Char → String → String × Char
unsnoc c String.[] = ("", c)
unsnoc c (String.◌∷◌ d s) = let rest = unsnoc d s in (String.◌∷◌ c rest.0, rest.1)

abbrev pub is_quote : Char → Char → Bool
is_quote c d = nat_eq (code c) (code d) && (nat_eq (code c) 34 || nat_eq (code c) 39)

-- The removal of quotes.
unfoldable pub unquote : String → String
unfolding unsnoc
unquote String.[] = ""
unquote (String.◌∷◌ c String.[]) = String.◌∷◌ c ""
unquote (String.◌∷◌ c (String.◌∷◌ d s)) =
    let (inside, last) = unsnoc d s in
    if is_quote c last then inside else String.◌∷◌ c (String.◌∷◌ d s)

abbrev pub set_env_line : String → Env → Env
set_env_line line env = if line == "" || starts_with line "#" then env else elim (cut 61 line) [
  | none ↦ env
  | some (key, value) ↦
      if key == "" then env else set (trim_space key) (unquote (trim_space value)) env
]

unfoldable pub add_env_lines : List String → Env → Env
unfolding cut unquote
add_env_lines [] env = env
add_env_lines (line ∷ lines) env = add_env_lines lines (set_env_line (trim_space line) env)

-- `parseEnvFileContent`
unfoldable pub parse_env_file_content : String → Env
unfolding add_env_lines split_lines
parse_env_file_content content = add_env_lines (split_lines content) no_env
