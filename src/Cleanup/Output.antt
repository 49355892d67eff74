-- ===== src/Cleanup/Output.antt =====
-- What api/handlers/cleanup_handlers.go reads in the output of docker, and how it writes sizes.
use Prim.Native.Char.{Char}
use text.Mathlib.Text.{◌==◌, char_at?}
use dd_ui.Prelude.{
  ℕ, zero, suc, ◌*◌, ◌/◌, ◌%◌, ◌&&◌, ◌||◌, Option, none, some, String, List, [], ◌∷◌, length, ltb,
  leb, if◌then◌else◌,
}
use dd_ui.Git.Text.{contains, is_space, trim_left, trim_space}
use dd_ui.Git.Service.{until_space}
use dd_ui.Dotenv.{split_lines}

-- The text from the first blank on.
unfoldable pub from_space : String → String
unfolding is_space
from_space String.[] = ""
from_space (String.◌∷◌ c s) = if is_space c then String.◌∷◌ c s else from_space s

-- The words of a text, as many as its characters at most.
unfoldable pub words : ℕ → String → List String
unfolding trim_left until_space from_space
words zero s = []
words (suc n) s =
    let rest = words n (from_space (trim_left s)) in
    if trim_left s == "" then [] else until_space (trim_left s) ∷ rest

unfoldable pub count : String → ℕ
count String.[] = 0
count (String.◌∷◌ c s) = suc (count s)

-- `strings.Fields`
unfoldable pub fields : String → List String
unfolding words count
fields s = words (count s) s

-- `parts[len(parts)-1]` and `parts[2]`, each "" out of range.
unfoldable pub last_part : List String → String
last_part [] = ""
last_part (p ∷ []) = p
last_part (p ∷ q ∷ ps) = last_part (q ∷ ps)

abbrev pub third_part : List String → String
third_part (p ∷ q ∷ r ∷ ps) = r
third_part _ = ""

-- One line of `parseDockerPruneOutput`: the space that it names.
unfoldable pub space_in_line : String → Option String
unfolding contains fields last_part
space_in_line line =
    let parts = fields line in
    if (contains line "Total reclaimed space:" || contains line "Total:") && leb 2 (length parts)
    then some (last_part parts)
    else if contains line "Space reclaimed:" && leb 3 (length parts)
    then some (third_part parts)
    else none

-- The loop over the lines.
unfoldable pub first_space : List String → Option String
unfolding space_in_line trim_space
first_space [] = none
first_space (l ∷ ls) =
    let rest = first_space ls in
    elim (space_in_line (trim_space l)) [ some s ↦ some s | none ↦ rest ]

-- `parseDockerPruneOutput`
unfoldable pub parse_docker_prune_output : String → String
unfolding first_space split_lines contains
parse_docker_prune_output output = elim (first_space (split_lines output)) [
  | some s ↦ s
  | none ↦ if contains output "deleted" || contains output "removed" then "unknown" else "0B"
]

-- A product of int64, which is kept to its 64 bits.
abbrev pub wrap : ℕ → ℕ
wrap n = n % 18446744073709551616

-- The loop of `humanizeBytes` with `n`, `div` and `exp`.
unfoldable pub scale : ℕ → ℕ → ℕ → ℕ → ℕ × ℕ × ℕ
scale zero n div exp = (n, div, exp)
scale (suc turns) n div exp =
    let more = scale turns (n / 1024) (wrap (div * 1024)) (suc exp) in
    if ltb n 1024 then (n, div, exp) else more

-- A size: a number of bytes, or a quotient by a divisor with the letter of its unit. Where the letter is
-- none the access is out of range.
pub data Size : Type 0 where
  in_bytes : ℕ → Size
  in_units : ℕ → ℕ → Option Char → Size

-- `humanizeBytes` for a size that is not negative. Six turns end the loop.
unfoldable pub humanize_bytes : ℕ → Size
unfolding scale
humanize_bytes bytes =
    if ltb bytes 1024
    then in_bytes bytes
    else let (n, div, exp) = scale 6 (bytes / 1024) 1024 0 in
      in_units bytes div (char_at? "KMGTPE" exp)
