-- ===== src/Dotenv.antt =====
-- api/services/deploy_sops.go: `ParseDotenvWithComments`, which takes the comments out of a dotenv file
-- before SOPS encrypts it, and `ReconstructDotenvWithComments`, which puts them back.
pub mod RoundTrip
pub mod Text
pub mod Whole
mod Tests
use Prim.Native.Char.{Char, code}
use Prim.Native.String.{◌++◌ as join}
use text.Mathlib.Text.{◌==◌, starts_with}
use mathlib.Core.List
use dd_ui.Prelude.{
  ℕ, zero, suc, Bool, true, false, not, ◌&&◌, ◌||◌, Option, none, some, String, List, [], ◌∷◌, ◌++◌,
  ltb, ◌==◌ as nat_eq, if◌then◌else◌,
}
use dd_ui.Inventory.Metadata.{replace_crlf, replace_cr}
use dd_ui.Git.Text.{contains, trim_space}

-- `DotenvComments`: the lines that are kept aside, with their numbers.
abbrev pub Comments : Type 0
Comments = List (ℕ × String)

-- `strings.Split(s, "\n")`
abbrev pub add_char : Char → List String → List String
add_char c List.[] = String.◌∷◌ c "" ∷ []
add_char c (List.◌∷◌ line lines) = String.◌∷◌ c line ∷ lines

unfoldable pub split_lines : String → List String
split_lines String.[] = "" ∷ []
split_lines (String.◌∷◌ c s) =
    let rest = split_lines s in if nat_eq (code c) 10 then "" ∷ rest else add_char c rest

-- `strings.Join(lines, "\n")`
unfoldable pub join_lines : List String → String
join_lines List.[] = ""
join_lines (List.◌∷◌ line List.[]) = line
join_lines (List.◌∷◌ line (List.◌∷◌ next lines)) = join line (join "\n" (join_lines (next ∷ lines)))

-- `strings.HasSuffix(s, "\n")`
unfoldable pub ends_line : String → Bool
ends_line String.[] = false
ends_line (String.◌∷◌ c s) = if s == "" then nat_eq (code c) 10 else ends_line s

-- `strings.TrimSuffix(s, "\n")`
unfoldable pub trim_end : String → String
trim_end String.[] = ""
trim_end (String.◌∷◌ c s) =
    let rest = trim_end s in if s == "" && nat_eq (code c) 10 then "" else String.◌∷◌ c rest

unfoldable pub with_end : Bool → String → String
unfolding ends_line
with_end ended s = if ended && not (ends_line s) then join s "\n" else s

unfoldable pub normalized : String → String
normalized s = replace_cr (replace_crlf s)

-- The test for a line that is kept aside: a comment, or a line that is neither empty nor an assignment.
abbrev pub is_aside : String → Bool
is_aside line = starts_with (trim_space line) "#" || not (contains (trim_space line) "=")

abbrev pub is_blank : String → Bool
is_blank line = trim_space line == ""

-- The loop of `ParseDotenvWithComments`, from line `i`: the assignments, and the lines kept aside.
unfoldable pub sort_lines : ℕ → List String → List String × Comments
sort_lines i List.[] = ([], [])
sort_lines i (List.◌∷◌ line lines) =
    let rest = sort_lines (suc i) lines in
    if is_blank line
    then rest
    else if is_aside line
    then (rest.0, (i, line) ∷ rest.1)
    else (line ∷ rest.0, rest.1)

-- `ParseDotenvWithComments`
unfoldable pub parse_dotenv : String → String × Comments
unfolding normalized sort_lines with_end ends_line
parse_dotenv content =
    let text = normalized content in
    let sorted = sort_lines 0 (split_lines text) in
    (with_end (ends_line text) (join_lines sorted.0), sorted.1)

-- `commentMap[i]`; the last comment of a line counts.
unfoldable pub comment_at : ℕ → Comments → Option String
comment_at i List.[] = none
comment_at i (List.◌∷◌ (j, line) comments) = elim (comment_at i comments) [
  | some later ↦ some later
  | none ↦ if nat_eq i j then some line else none
]

unfoldable pub max_line : Comments → ℕ
max_line List.[] = 0
max_line (List.◌∷◌ (j, line) comments) =
    let rest = max_line comments in if ltb rest j then j else rest

-- One round of the loop on a line that is no comment: the next clean line, if it is not empty.
abbrev pub put_front : String → List String × List String → List String × List String
put_front line (lines, left) = (line ∷ lines, left)

-- The loop of `ReconstructDotenvWithComments`: `n` rounds from line `i`, with the clean lines that are
-- left at its end.
unfoldable pub fill : ℕ → ℕ → Comments → List String → List String × List String
fill zero i comments clean = ([], clean)
fill (suc n) i comments clean = elim (comment_at i comments) [
  | some line ↦ put_front line (fill n (suc i) comments clean)
  | none ↦ elim clean [
    | List.[] ↦ fill n (suc i) comments []
    | List.◌∷◌ line lines ↦
        if line == ""
        then fill n (suc i) comments lines
        else put_front line (fill n (suc i) comments lines)
  ]
]

-- The loop on the clean lines that are left.
unfoldable pub keep_left : List String → List String
keep_left List.[] = []
keep_left (List.◌∷◌ line List.[]) = line ∷ []
keep_left (List.◌∷◌ line (List.◌∷◌ next lines)) =
    let rest = keep_left (next ∷ lines) in if line == "" then rest else line ∷ rest

unfoldable pub rebuild : Comments → List String → List String
unfolding fill keep_left max_line
rebuild comments clean =
    let filled = fill (suc (max_line comments)) 0 comments clean in filled.0 ++ keep_left filled.1

-- `ReconstructDotenvWithComments`
unfoldable pub reconstruct_dotenv : String → Comments → String
reconstruct_dotenv clean List.[] = clean
reconstruct_dotenv clean (List.◌∷◌ c comments) =
    let text = normalized clean in
    with_end (ends_line text) (join_lines (rebuild (c ∷ comments) (split_lines (trim_end text))))
