-- ===== src/Deploy/Text.antt =====
-- The functions of the package strings that api/services/settings.go, api/services/scan_docker.go and
-- api/utils/compose.go use, and `SanitizeProject` of the last.
use Prim.Native.Char.{Char, code}
use Prim.Native.String.{◌++◌ as join}
use text.Mathlib.Text.{◌==◌, char_at?}
use dd_ui.Prelude.{
  Bool, true, false, ◌&&◌, ◌||◌, none, some, String, ◌-◌, leb, ◌==◌ as nat_eq, if◌then◌else◌,
}
use dd_ui.Git.Text.{trim_space}

unfoldable pub lower_char : Char → Char
lower_char c =
    if leb 65 (code c) && leb (code c) 90
    then elim (char_at? "abcdefghijklmnopqrstuvwxyz" (code c - 65)) [ none ↦ c | some d ↦ d ]
    else c

-- `strings.ToLower`, in ASCII.
unfoldable pub to_lower : String → String
unfolding lower_char
to_lower String.[] = ""
to_lower (String.◌∷◌ c s) = String.◌∷◌ (lower_char c) (to_lower s)

-- `strings.EqualFold`, in ASCII.
abbrev pub equal_fold : String → String → Bool
equal_fold s t = to_lower s == to_lower t

-- A character that `projRe` lets stand.
unfoldable pub in_label : Char → Bool
in_label c =
    (leb 97 (code c) && leb (code c) 122)
    || (leb 48 (code c) && leb (code c) 57)
    || nat_eq (code c) 95
    || nat_eq (code c) 45

-- The two replacements by "_": each blank for itself, and each run of other characters outside the
-- label's alphabet at once; `running` says that such a run is being read.
unfoldable pub squeeze : Bool → String → String
unfolding in_label
squeeze running String.[] = ""
squeeze running (String.◌∷◌ c s) =
    let kept = squeeze false s in
    let rest = squeeze true s in
    if nat_eq (code c) 32
    then join "_" kept
    else if in_label c
    then String.◌∷◌ c kept
    else if running
    then rest
    else join "_" rest

-- A character that `strings.Trim(s, "_-")` cuts off.
unfoldable pub is_edge : Char → Bool
is_edge c = nat_eq (code c) 95 || nat_eq (code c) 45

unfoldable pub trim_edge_left : String → String
unfolding is_edge
trim_edge_left String.[] = ""
trim_edge_left (String.◌∷◌ c s) = if is_edge c then trim_edge_left s else String.◌∷◌ c s

unfoldable pub trim_edge_right : String → String
unfolding is_edge
trim_edge_right String.[] = ""
trim_edge_right (String.◌∷◌ c s) =
    let rest = trim_edge_right s in if is_edge c && rest == "" then "" else String.◌∷◌ c rest

-- `SanitizeProject`
unfoldable pub sanitize_project : String → String
unfolding to_lower squeeze trim_edge_left trim_edge_right trim_space
sanitize_project s =
    let label = trim_edge_right (trim_edge_left (squeeze false (to_lower (trim_space s)))) in
    if label == "" then "default" else label
