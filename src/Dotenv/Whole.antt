-- ===== src/Dotenv/Whole.antt =====
-- A whole dotenv file through `ParseDotenvWithComments` and `ReconstructDotenvWithComments`
-- (api/services/deploy_sops.go).
use Prim.Native.String.{◌++◌ as join}
use mathlib.Core.Path.{subst}
use dd_ui.Prelude.{
  ℕ, suc, ◌≡◌, ◌∙◌, refl, sym, ap, inl, inr, Bool, true, false, not, ◌||◌, String, List, [], ◌∷◌,
  ◌++◌, arith, Bool-cases,
}
use dd_ui.Git.Text.{trim_space, trim_left, trim_right}
use dd_ui.Dotenv.{
  Comments, is_blank, is_aside, split_lines, join_lines, ends_line, trim_end, with_end, normalized,
  sort_lines, parse_dotenv, comment_at, rebuild, reconstruct_dotenv,
}
use dd_ui.Dotenv.RoundTrip.{IsFull, nonempty_of_full, sort_lines-clean, rebuild-sort_lines}
use dd_ui.Dotenv.Text.{
  AllLines, AllLines-end, NoneEmpty, IsUnix, IsUnix-join, IsUnix-end, join_lines-IsUnix,
  normalized-unix, split_lines-join_lines, join_lines-end, ends_line-join_lines, ends_line-join,
  trim_end-join, trim_end-open,
}

-- The file of some lines, with a line end after the last one or without.
abbrev pub file_of : Bool → List String → String
file_of true lines = join (join_lines lines) "\n"
file_of false lines = join_lines lines

-- Some line is an assignment.
abbrev pub has_assignment : List String → Bool
has_assignment [] = false
has_assignment (line ∷ lines) = not (is_aside line) || has_assignment lines

NoneEmpty-of_full : (lines : List String) → IsFull lines → NoneEmpty lines
NoneEmpty-of_full [] h = tt
NoneEmpty-of_full (line ∷ lines) (h, hs) = (nonempty_of_full line h, NoneEmpty-of_full lines hs)

-- An empty line at the end is dropped.
sort_lines-end :
    (i : ℕ) (lines : List String) → sort_lines i (lines ++ ("" ∷ [])) ≡ sort_lines i lines
unfolding sort_lines trim_space trim_left trim_right
sort_lines-end i [] = refl
sort_lines-end i (line ∷ lines) = rw (sort_lines-end (suc i) lines) refl

-- What holds of the lines holds of those that are not kept aside.
sorted-AllLines : (i : ℕ) (lines : List String) → AllLines lines → AllLines (sort_lines i lines).0
unfolding sort_lines
sorted-AllLines i [] h = tt
sorted-AllLines i (line ∷ lines) (h, hs) = elim (Bool-cases (is_blank line)) [
  | inl b ↦ rw (b, sort_lines) (sorted-AllLines (suc i) lines hs)
  | inr b ↦ elim (Bool-cases (is_aside line)) [
    | inl e ↦ rw (b, sort_lines) (rw (e, sort_lines) (sorted-AllLines (suc i) lines hs))
    | inr e ↦ rw (b, sort_lines) (rw (e, sort_lines) (h, sorted-AllLines (suc i) lines hs))
  ]
]

sorted-IsFull : (i : ℕ) (lines : List String) → IsFull lines → IsFull (sort_lines i lines).0
unfolding sort_lines
sorted-IsFull i [] h = tt
sorted-IsFull i (line ∷ lines) (h, hs) = elim (Bool-cases (is_aside line)) [
  | inl e ↦ rw (h, sort_lines) (rw (e, sort_lines) (sorted-IsFull (suc i) lines hs))
  | inr e ↦ rw (h, sort_lines) (rw (e, sort_lines) (h, sorted-IsFull (suc i) lines hs))
]

sorted-some :
    (i : ℕ) (lines : List String)
    → IsFull lines
    → has_assignment lines ≡ true
    → (line : String) × (rest : List String) × ((sort_lines i lines).0 ≡ line ∷ rest)
unfolding sort_lines
sorted-some i [] h k = absurd (ground arith)
sorted-some i (line ∷ lines) (h, hs) k = elim (Bool-cases (is_aside line)) [
  | inl e ↦ rw (h, sort_lines) (rw (e, sort_lines) (sorted-some (suc i) lines hs (ground arith)))
  | inr e ↦ (line, (sort_lines (suc i) lines).0, rw (h, sort_lines) (rw (e, sort_lines) refl))
]

-- The parts of a file with one line at least.
module _ (line : String) (lines : List String) (h : AllLines (line ∷ lines))
    (full : NoneEmpty (line ∷ lines)) where
  file_of-IsUnix : (ended : Bool) → IsUnix (file_of ended (line ∷ lines))
  file_of-IsUnix false = join_lines-IsUnix (line ∷ lines) h
  file_of-IsUnix true =
      IsUnix-join (join_lines (line ∷ lines)) "\n" (join_lines-IsUnix (line ∷ lines) h) IsUnix-end

  pub normalized-file_of :
      (ended : Bool) → normalized (file_of ended (line ∷ lines)) ≡ file_of ended (line ∷ lines)
  normalized-file_of ended = normalized-unix (file_of ended (line ∷ lines)) (file_of-IsUnix ended)

  pub ends_line-file_of : (ended : Bool) → ends_line (file_of ended (line ∷ lines)) ≡ ended
  unfolding ends_line
  ends_line-file_of true = ends_line-join (join_lines (line ∷ lines)) "\n" refl
  ends_line-file_of false = ends_line-join_lines line lines h full

  pub trim_end-file_of :
      (ended : Bool) → trim_end (file_of ended (line ∷ lines)) ≡ join_lines (line ∷ lines)
  trim_end-file_of true = trim_end-join (join_lines (line ∷ lines))
  trim_end-file_of false =
      trim_end-open (join_lines (line ∷ lines)) (ends_line-join_lines line lines h full)

  pub with_end-join_lines :
      (ended : Bool) → with_end ended (join_lines (line ∷ lines)) ≡ file_of ended (line ∷ lines)
  unfolding with_end
  with_end-join_lines true = rw (ends_line-join_lines line lines h full) refl
  with_end-join_lines false = refl

  pub sorted-file_of :
      (ended : Bool)
      → sort_lines 0 (split_lines (file_of ended (line ∷ lines))) ≡ sort_lines 0 (line ∷ lines)
  sorted-file_of false = ap (sort_lines 0) (split_lines-join_lines line lines h)
  sorted-file_of true =
      ap (λ s. sort_lines 0 (split_lines s)) (join_lines-end line lines)
      ∙ ap (sort_lines 0)
          (split_lines-join_lines line (lines ++ ("" ∷ [])) (AllLines-end (line ∷ lines) h))
      ∙ sort_lines-end 0 (line ∷ lines)

parsed-file_of :
    (ended : Bool) (line : String) (lines : List String)
    → AllLines (line ∷ lines)
    → IsFull (line ∷ lines)
    → parse_dotenv (file_of ended (line ∷ lines)) ≡ (
      with_end ended (join_lines (sort_lines 0 (line ∷ lines)).0),
      (sort_lines 0 (line ∷ lines)).1,
    )
unfolding parse_dotenv
parsed-file_of ended line lines h f =
    let full = NoneEmpty-of_full (line ∷ lines) f in
    let whole = file_of ended (line ∷ lines) in
    let make : String → String × Comments = λ t.
      let sorted = sort_lines 0 (split_lines t) in
      (with_end (ends_line t) (join_lines sorted.0), sorted.1) in
    ap make (normalized-file_of line lines h full ended) ∙ (λ i. (
      with_end (ends_line-file_of line lines h full ended i)
          (join_lines (sorted-file_of line lines h full ended i).0),
      (sorted-file_of line lines h full ended i).1,
    ))

-- The file of the assignments, with the comments of the whole file, gives the whole file.
rebuilt-file_of :
    (ended : Bool) (first : String) (rest : List String) (comments : Comments) (line : String)
    (lines : List String)
    → AllLines (first ∷ rest)
    → NoneEmpty (first ∷ rest)
    → AllLines (line ∷ lines)
    → NoneEmpty (line ∷ lines)
    → rebuild comments (first ∷ rest) ≡ line ∷ lines
    → (comments ≡ [] → first ∷ rest ≡ line ∷ lines)
    → reconstruct_dotenv (file_of ended (first ∷ rest)) comments ≡ file_of ended (line ∷ lines)
unfolding reconstruct_dotenv
rebuilt-file_of ended first rest [] line lines h f k g e clean = ap (file_of ended) (clean refl)
rebuilt-file_of ended first rest (c ∷ comments) line lines h f k g e clean =
    let make : String → String = λ t.
      with_end (ends_line t) (join_lines (rebuild (c ∷ comments) (split_lines (trim_end t)))) in
    ap make (normalized-file_of first rest h f ended)
    ∙ (λ i. with_end (ends_line-file_of first rest h f ended i) (
        join_lines
          (rebuild (c ∷ comments) (split_lines (trim_end-file_of first rest h f ended i)))))
    ∙ ap (λ ls. with_end ended (join_lines (rebuild (c ∷ comments) ls)))
        (split_lines-join_lines first rest h)
    ∙ ap (λ ls. with_end ended (join_lines ls)) e
    ∙ with_end-join_lines line lines k g ended

-- A dotenv file, with a line end after its last line or without, whose lines are not blank and have
-- no line end or carriage return in them, and of which one is an assignment, is what `ReconstructDotenvWithComments`
-- makes of the two results of `ParseDotenvWithComments`.
pub reconstruct_dotenv-parse_dotenv :
    (ended : Bool) (line : String) (lines : List String)
    → AllLines (line ∷ lines)
    → IsFull (line ∷ lines)
    → has_assignment (line ∷ lines) ≡ true
    → reconstruct_dotenv
        (parse_dotenv (file_of ended (line ∷ lines))).0
        (parse_dotenv (file_of ended (line ∷ lines))).1
      ≡ file_of ended (line ∷ lines)
unfolding comment_at
reconstruct_dotenv-parse_dotenv ended line lines h f some_line =
    let sorted = sort_lines 0 (line ∷ lines) in
    let (first, rest, same) = sorted-some 0 (line ∷ lines) f some_line in
    let clean_lines = subst AllLines same (sorted-AllLines 0 (line ∷ lines) h) in
    let clean_full =
      NoneEmpty-of_full (first ∷ rest) (subst IsFull same (sorted-IsFull 0 (line ∷ lines) f)) in
    let full = NoneEmpty-of_full (line ∷ lines) f in
    ap (λ out. reconstruct_dotenv out.0 out.1) (parsed-file_of ended line lines h f)
    ∙ ap (λ ls. reconstruct_dotenv (with_end ended (join_lines ls)) sorted.1) same
    ∙ ap (λ t. reconstruct_dotenv t sorted.1)
        (with_end-join_lines first rest clean_lines clean_full ended)
    ∙ rebuilt-file_of ended first rest sorted.1 line lines clean_lines clean_full h full
        (ap (rebuild sorted.1) (sym same) ∙ rebuild-sort_lines (line ∷ lines) f)
        (λ e. sym same ∙ sort_lines-clean 0 (line ∷ lines) f (λ j q. ap (comment_at j) e))
