-- ===== src/Dotenv/Tests.antt =====
-- A dotenv file with comments.
use dd_ui.Prelude.{◌≡◌, true, refl, String, List, [], ◌∷◌}
use dd_ui.Inventory.Metadata.{replace_crlf, replace_cr}
use dd_ui.Git.Text.{contains, trim_space, trim_left, trim_right, is_space}
use dd_ui.Dotenv.{
  split_lines, join_lines, ends_line, trim_end, with_end, normalized, sort_lines, parse_dotenv,
  comment_at, max_line, fill, keep_left, rebuild, reconstruct_dotenv,
}
use dd_ui.Dotenv.Text.{IsLine, AllLines}
use dd_ui.Dotenv.Whole.{file_of, reconstruct_dotenv-parse_dotenv}

abbrev lines : List String
lines = "# db" ∷ "USER=a" ∷ "broken" ∷ "PASS=b" ∷ []

sorted : sort_lines 0 lines ≡ ("USER=a" ∷ "PASS=b" ∷ [], (0, "# db") ∷ (2, "broken") ∷ [])
unfolding sort_lines trim_space trim_left trim_right is_space contains
sorted = refl

parsed : parse_dotenv "# db\r\nUSER=a\n" ≡ ("USER=a\n", (0, "# db") ∷ [])
unfolding parse_dotenv split_lines join_lines ends_line with_end normalized sort_lines replace_crlf
    replace_cr trim_space trim_left trim_right is_space contains
parsed = refl

reconstructed : reconstruct_dotenv "USER=a\n" ((0, "# db") ∷ []) ≡ "# db\nUSER=a\n"
unfolding reconstruct_dotenv rebuild fill keep_left comment_at max_line split_lines join_lines
    ends_line trim_end with_end normalized replace_crlf replace_cr
reconstructed = refl

-- Above a blank line a comment slips behind the assignment that it stood before.
slipped :
    rebuild
      (sort_lines 0 ("A=1" ∷ "" ∷ "# c" ∷ "B=2" ∷ [])).1
      (sort_lines 0 ("A=1" ∷ "" ∷ "# c" ∷ "B=2" ∷ [])).0
    ≡ "A=1" ∷ "B=2" ∷ "# c" ∷ []
unfolding rebuild fill keep_left comment_at max_line sort_lines trim_space trim_left trim_right
    is_space contains
slipped = refl

-- A file of comments alone comes back with a line end more.
only_comments : reconstruct_dotenv (parse_dotenv "# a").0 (parse_dotenv "# a").1 ≡ "# a\n"
unfolding reconstruct_dotenv rebuild fill keep_left comment_at max_line split_lines join_lines
    ends_line trim_end with_end normalized replace_crlf replace_cr parse_dotenv sort_lines
    trim_space trim_left trim_right is_space contains
only_comments = refl

lines-AllLines : AllLines lines
unfolding IsLine
lines-AllLines = (
  (refl, refl, (refl, refl, (refl, refl, (refl, refl, tt)))),
  (
    (refl, refl, (refl, refl, (refl, refl, (refl, refl, (refl, refl, (refl, refl, tt)))))),
    (
      (refl, refl, (refl, refl, (refl, refl, (refl, refl, (refl, refl, (refl, refl, tt)))))),
      ((refl, refl, (refl, refl, (refl, refl, (refl, refl, (refl, refl, (refl, refl, tt)))))), tt),
    ),
  ),
)

reconstruct_dotenv-parse_dotenv_example :
    reconstruct_dotenv (parse_dotenv (file_of true lines)).0 (parse_dotenv (file_of true lines)).1
    ≡ file_of true lines
unfolding trim_space trim_left trim_right is_space contains
reconstruct_dotenv-parse_dotenv_example =
    reconstruct_dotenv-parse_dotenv true "# db" ("USER=a" ∷ "broken" ∷ "PASS=b" ∷ []) lines-AllLines
      (refl, (refl, (refl, (refl, tt)))) refl
