-- ===== src/Git/Text.antt =====
-- The tests on the output of commands in api/services/git_sync.go.
use Prim.Native.Char.{Char, code}
use text.Mathlib.Text.{◌==◌, starts_with}
use dd_ui.Prelude.{Bool, ◌&&◌, ◌||◌, String, if◌then◌else◌, leb, ◌==◌ as nat_eq}

-- `strings.Contains`
unfoldable pub contains : String → String → Bool
contains String.[] sub = sub == ""
contains (String.◌∷◌ c s) sub = starts_with (String.◌∷◌ c s) sub || contains s sub

-- A blank of `strings.TrimSpace`, in ASCII.
unfoldable pub is_space : Char → Bool
is_space c = nat_eq (code c) 32 || (leb 9 (code c) && leb (code c) 13)

unfoldable pub trim_left : String → String
unfolding is_space
trim_left String.[] = ""
trim_left (String.◌∷◌ c s) = if is_space c then trim_left s else String.◌∷◌ c s

unfoldable pub trim_right : String → String
unfolding is_space
trim_right String.[] = ""
trim_right (String.◌∷◌ c s) =
    let rest = trim_right s in if is_space c && rest == "" then "" else String.◌∷◌ c rest

-- `strings.TrimSpace`
unfoldable pub trim_space : String → String
unfolding trim_left trim_right
trim_space s = trim_right (trim_left s)
