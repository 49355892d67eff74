-- ===== src/Dotenv/RoundTrip.antt =====
-- The comments of a dotenv file go back to their lines (api/services/deploy_sops.go).
use text.Mathlib.Text.{◌==◌}
use text.Mathlib.TextEquality.{eq_iff}
use dd_ui.Prelude.{
  ℕ, zero, suc, ◌≡◌, ◌∙◌, ◌≤◌, ◌<◌, ◌+◌, refl, sym, ap, inl, inr, false, none, some, String, List,
  [], ◌∷◌, ◌++◌, arith, Bool-cases, Option-cases,
}
use dd_ui.Git.Text.{trim_space, trim_left, trim_right}
use dd_ui.Dotenv.{
  Comments, is_blank, is_aside, sort_lines, comment_at, max_line, fill, keep_left, rebuild,
}

-- The numbers of the lines that are kept aside start at the first line.
comment_at-below :
    (j i : ℕ) (lines : List String) → j < i → comment_at j (sort_lines i lines).1 ≡ none
unfolding comment_at sort_lines
comment_at-below j i [] h = refl
comment_at-below j i (line ∷ lines) h =
    ground (arith, comment_at-below j (suc i) lines (omega arith))

comment_at-max :
    (j : ℕ) (comments : Comments) → max_line comments < j → comment_at j comments ≡ none
unfolding comment_at max_line
comment_at-max j [] h = refl
comment_at-max j ((k, line) ∷ comments) h =
    let e = comment_at-max j comments (ground arith) in rw e (ground arith)

pub nonempty_of_full : (line : String) → is_blank line ≡ false → (line == "") ≡ false
unfolding trim_space trim_left trim_right
nonempty_of_full line h = elim (Bool-cases (line == "")) [
  | inr e ↦ e
  | inl e ↦ cc (ap is_blank ((eq_iff line "").0 e), h)
]

comment_at-head :
    (i : ℕ) (line : String) (lines : List String)
    → comment_at i ((i, line) ∷ (sort_lines (suc i) lines).1) ≡ some line
unfolding comment_at
comment_at-head i line lines =
    rw (comment_at-below i (suc i) lines (omega arith), comment_at) (ground arith)

comment_at-tail :
    (i j : ℕ) (line : String) (comments : Comments)
    → suc i ≤ j
    → comment_at j ((i, line) ∷ comments) ≡ comment_at j comments
unfolding comment_at
comment_at-tail i j line comments h = elim (Option-cases (comment_at j comments)) [
  | inl e ↦ rw e (ground arith)
  | inr (later, e) ↦ rw e refl
]

-- No line is blank.
abbrev pub IsFull : List String → Type 0
IsFull [] = Unit
IsFull (line ∷ lines) = (is_blank line ≡ false) × IsFull lines

keep_left-full : (lines : List String) → IsFull lines → keep_left lines ≡ lines
unfolding keep_left
keep_left-full [] h = refl
keep_left-full (line ∷ []) h = refl
keep_left-full (line ∷ next ∷ lines) (h, hs) =
    rw (nonempty_of_full line h) (ap (λ l. line ∷ l) (keep_left-full (next ∷ lines) hs))

-- Lines of which none is kept aside are all assignments.
pub sort_lines-clean :
    (i : ℕ) (lines : List String)
    → IsFull lines
    → ((j : ℕ) → i ≤ j → comment_at j (sort_lines i lines).1 ≡ none)
    → (sort_lines i lines).0 ≡ lines
unfolding sort_lines comment_at
sort_lines-clean i [] h none_there = refl
sort_lines-clean i (line ∷ lines) (h, hs) none_there = elim (Bool-cases (is_aside line)) [
  | inl e ↦
      let here =
        sym (comment_at-head i line lines) ∙ (rw h at (rw e at (none_there i (omega arith)))) in
      cc
  | inr e ↦ rw h (
      rw e (
        ap (λ l. line ∷ l)
          (sort_lines-clean (suc i) lines hs
            (λ j q. rw h at (rw e at (none_there j (omega arith)))))))
]

-- What the two loops make of the sorted lines.
abbrev rebuilt : ℕ → ℕ → Comments → List String → List String
rebuilt n i whole clean = (fill n i whole clean).0 ++ keep_left (fill n i whole clean).1

rebuilt-empty :
    (n i : ℕ) (whole : Comments)
    → ((j : ℕ) → i ≤ j → comment_at j whole ≡ none)
    → rebuilt n i whole [] ≡ []
unfolding fill keep_left
rebuilt-empty zero i whole h = refl
rebuilt-empty (suc n) i whole h =
    rw (h i (omega arith), fill) (rebuilt-empty n (suc i) whole (λ j q. h j (omega arith)))

rebuilt-aside :
    (n i : ℕ) (whole : Comments) (line : String) (clean : List String)
    → comment_at i whole ≡ some line
    → rebuilt (suc n) i whole clean ≡ line ∷ rebuilt n (suc i) whole clean
unfolding fill
rebuilt-aside n i whole line clean e = rw (e, fill) refl

rebuilt-clean :
    (n i : ℕ) (whole : Comments) (line : String) (clean : List String)
    → comment_at i whole ≡ none
    → (line == "") ≡ false
    → rebuilt (suc n) i whole (line ∷ clean) ≡ line ∷ rebuilt n (suc i) whole clean
unfolding fill
rebuilt-clean n i whole line clean e h = rw (e, fill) (rw h refl)

-- Where the comments of the whole file are those of the lines from `i` on, the loops give these lines.
rebuilt-sort_lines :
    (n i : ℕ) (whole : Comments) (lines : List String)
    → IsFull lines
    → ((j : ℕ) → i ≤ j → comment_at j whole ≡ comment_at j (sort_lines i lines).1)
    → ((j : ℕ) → (i + n) ≤ j → comment_at j whole ≡ none)
    → rebuilt n i whole (sort_lines i lines).0 ≡ lines
unfolding sort_lines comment_at fill keep_left
rebuilt-sort_lines n i whole [] h same past = rebuilt-empty n i whole (λ j q. same j q)
rebuilt-sort_lines zero i whole (line ∷ lines) h same past =
    ap keep_left
      (sort_lines-clean i (line ∷ lines) h (λ j q. sym (same j q) ∙ past j (omega arith)))
    ∙ keep_left-full (line ∷ lines) h
rebuilt-sort_lines (suc n) i whole (line ∷ lines) (h, hs) same past =
    elim (Bool-cases (is_aside line)) [
      | inl e ↦ rw h (
          rw e (
            rebuilt-aside n i whole line (sort_lines (suc i) lines).0
              ((rw h at (rw e at (same i (omega arith)))) ∙ comment_at-head i line lines)
            ∙ ap (λ l. line ∷ l)
                (rebuilt-sort_lines n (suc i) whole lines hs
                  (λ j q.
                    (rw h at (rw e at (same j (omega arith))))
                    ∙ comment_at-tail i j line (sort_lines (suc i) lines).1 q)
                  (λ j q. past j (omega arith)))))
      | inr e ↦ rw h (
          rw e (
            rebuilt-clean n i whole line (sort_lines (suc i) lines).0
              ((rw h at (rw e at (same i (omega arith))))
                ∙ comment_at-below i (suc i) lines (omega arith))
              (nonempty_of_full line h)
            ∙ ap (λ l. line ∷ l)
                (rebuilt-sort_lines n (suc i) whole lines hs
                  (λ j q. rw h at (rw e at (same j (omega arith)))) (λ j q. past j (omega arith)))))
    ]

-- The lines of a dotenv file of which none is blank are what `ReconstructDotenvWithComments` builds from
-- what `ParseDotenvWithComments` makes of them: the assignments and the lines kept aside.
pub rebuild-sort_lines :
    (lines : List String)
    → IsFull lines
    → rebuild (sort_lines 0 lines).1 (sort_lines 0 lines).0 ≡ lines
unfolding rebuild
rebuild-sort_lines lines h =
    rebuilt-sort_lines (suc (max_line (sort_lines 0 lines).1)) 0 (sort_lines 0 lines).1 lines h
      (λ j q. refl) (λ j q. comment_at-max j (sort_lines 0 lines).1 (omega arith))
