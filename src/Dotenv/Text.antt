-- ===== src/Dotenv/Text.antt =====
-- Lines and texts under the functions of api/services/deploy_sops.go on dotenv files.
use Prim.Native.Char.{Char, code}
use Prim.Native.String.append
use Prim.Native.String.{◌++◌ as join}
use text.Mathlib.Text.{◌==◌, is_eq}
use Prim.Native.String.compare
use text.Mathlib.TextLemmas.{append_assoc as join_assoc}
use dd_ui.Prelude.{
  ◌≡◌, ◌∙◌, refl, ap, inl, inr, false, String, List, [], ◌∷◌, ◌++◌, Bool-cases, ◌==◌ as nat_eq,
}
use dd_ui.Inventory.Metadata.{replace_crlf, replace_cr}
use dd_ui.Dotenv.{split_lines, join_lines, add_char, ends_line, trim_end, normalized}

-- A text without line ends.
unfoldable pub IsLine : String → Type 0
IsLine String.[] = Unit
IsLine (String.◌∷◌ c s) = (nat_eq (code c) 10 ≡ false) × (nat_eq (code c) 13 ≡ false) × IsLine s

-- A text without carriage returns.
unfoldable pub IsUnix : String → Type 0
IsUnix String.[] = Unit
IsUnix (String.◌∷◌ c s) = (nat_eq (code c) 13 ≡ false) × IsUnix s

IsUnix-of_line : (s : String) → IsLine s → IsUnix s
unfolding IsLine IsUnix
IsUnix-of_line String.[] h = tt
IsUnix-of_line (String.◌∷◌ c s) (n, r, h) = (r, IsUnix-of_line s h)

pub IsUnix-join : (s t : String) → IsUnix s → IsUnix t → IsUnix (join s t)
unfolding IsUnix
IsUnix-join String.[] t h k = rw (append.nil t) k
IsUnix-join (String.◌∷◌ c s) t (r, h) k = rw (append.cons c s t) (r, IsUnix-join s t h k)

replace_cr-unix : (s : String) → IsUnix s → replace_cr s ≡ s
unfolding replace_cr IsUnix
replace_cr-unix String.[] h = refl
replace_cr-unix (String.◌∷◌ c s) (r, h) = rw r (ap (λ t. String.◌∷◌ c t) (replace_cr-unix s h))

replace_crlf-unix : (s : String) → IsUnix s → replace_crlf s ≡ s
unfolding replace_crlf IsUnix
replace_crlf-unix String.[] h = refl
replace_crlf-unix (String.◌∷◌ c String.[]) h = refl
replace_crlf-unix (String.◌∷◌ c (String.◌∷◌ d s)) (r, h) =
    rw r (ap (λ t. String.◌∷◌ c t) (replace_crlf-unix (String.◌∷◌ d s) h))

pub normalized-unix : (s : String) → IsUnix s → normalized s ≡ s
unfolding normalized
normalized-unix s h = ap replace_cr (replace_crlf-unix s h) ∙ replace_cr-unix s h

-- All lines of a list.
abbrev pub AllLines : List String → Type 0
AllLines [] = Unit
AllLines (line ∷ lines) = IsLine line × AllLines lines

pub AllLines-end : (lines : List String) → AllLines lines → AllLines (lines ++ ("" ∷ []))
unfolding IsLine
AllLines-end [] h = (tt, tt)
AllLines-end (line ∷ lines) (h, hs) = (h, AllLines-end lines hs)

pub IsUnix-end : IsUnix "\n"
unfolding IsUnix
IsUnix-end = (refl, tt)

pub join_lines-IsUnix : (lines : List String) → AllLines lines → IsUnix (join_lines lines)
unfolding join_lines IsUnix
join_lines-IsUnix [] h = tt
join_lines-IsUnix (line ∷ []) (h, _) = IsUnix-of_line line h
join_lines-IsUnix (line ∷ next ∷ lines) (h, hs) =
    IsUnix-join line (join "\n" (join_lines (next ∷ lines))) (IsUnix-of_line line h) (
      IsUnix-join "\n" (join_lines (next ∷ lines)) (refl, tt) (join_lines-IsUnix (next ∷ lines) hs))

split_line : (s : String) → IsLine s → split_lines s ≡ s ∷ []
unfolding split_lines IsLine
split_line String.[] h = refl
split_line (String.◌∷◌ c s) (n, r, h) = rw (n, split_lines) (ap (add_char c) (split_line s h))

split_first : (s t : String) → IsLine s → split_lines (join s (join "\n" t)) ≡ s ∷ split_lines t
unfolding split_lines IsLine
split_first String.[] t h =
    ap split_lines (append.nil (join "\n" t) ∙ append.cons "\n" "" t)
    ∙ ap (λ u. "" ∷ split_lines u) (append.nil t)
split_first (String.◌∷◌ c s) t (n, r, h) =
    ap split_lines (append.cons c s (join "\n" t))
    ∙ rw (n, split_lines) (ap (add_char c) (split_first s t h))

-- The lines of a text are those that it was put together of.
pub split_lines-join_lines :
    (line : String) (lines : List String)
    → AllLines (line ∷ lines)
    → split_lines (join_lines (line ∷ lines)) ≡ line ∷ lines
unfolding join_lines
split_lines-join_lines line [] (h, _) = split_line line h
split_lines-join_lines line (next ∷ lines) (h, hs) =
    split_first line (join_lines (next ∷ lines)) h
    ∙ ap (λ l. line ∷ l) (split_lines-join_lines next lines hs)

-- A line end after a text is an empty line more.
pub join_lines-end :
    (line : String) (lines : List String)
    → join (join_lines (line ∷ lines)) "\n" ≡ join_lines ((line ∷ lines) ++ ("" ∷ []))
unfolding join_lines
join_lines-end line [] = refl
join_lines-end line (next ∷ lines) =
    join_assoc line (join "\n" (join_lines (next ∷ lines))) "\n"
    ∙ ap (join line) (
        join_assoc "\n" (join_lines (next ∷ lines)) "\n"
        ∙ ap (join "\n") (join_lines-end next lines))

nonempty-cons : (c : Char) (s : String) → (String.◌∷◌ c s == "") ≡ false
nonempty-cons c s = ap is_eq (compare.cons-nil c s)

pub nonempty-join : (s t : String) → (t == "") ≡ false → (join s t == "") ≡ false
nonempty-join String.[] t h = rw (append.nil t) h
nonempty-join (String.◌∷◌ c s) t h = rw (append.cons c s t) (nonempty-cons c (join s t))

pub ends_line-join : (s t : String) → (t == "") ≡ false → ends_line (join s t) ≡ ends_line t
unfolding ends_line
ends_line-join String.[] t h = ap ends_line (append.nil t)
ends_line-join (String.◌∷◌ c s) t h =
    ap ends_line (append.cons c s t) ∙ rw (nonempty-join s t h, ends_line) (ends_line-join s t h)

ends_line-line : (s : String) → IsLine s → ends_line s ≡ false
unfolding ends_line IsLine
ends_line-line String.[] h = refl
ends_line-line (String.◌∷◌ c s) (n, r, h) = elim (Bool-cases (s == "")) [
  | inl e ↦ rw (e, ends_line) n
  | inr e ↦ rw (e, ends_line) (ends_line-line s h)
]

-- No line is empty.
abbrev pub NoneEmpty : List String → Type 0
NoneEmpty [] = Unit
NoneEmpty (line ∷ lines) = ((line == "") ≡ false) × NoneEmpty lines

nonempty_lines :
    (line : String) (lines : List String)
    → NoneEmpty (line ∷ lines)
    → (join_lines (line ∷ lines) == "") ≡ false
unfolding join_lines
nonempty_lines line [] (h, _) = h
nonempty_lines line (next ∷ lines) (h, hs) =
    nonempty-join line (join "\n" (join_lines (next ∷ lines)))
      (nonempty-join "\n" (join_lines (next ∷ lines)) (nonempty_lines next lines hs))

pub ends_line-join_lines :
    (line : String) (lines : List String)
    → AllLines (line ∷ lines)
    → NoneEmpty (line ∷ lines)
    → ends_line (join_lines (line ∷ lines)) ≡ false
unfolding join_lines
ends_line-join_lines line [] (h, _) k = ends_line-line line h
ends_line-join_lines line (next ∷ lines) (h, hs) (k, ks) =
    let full = nonempty_lines next lines ks in
    ends_line-join line (join "\n" (join_lines (next ∷ lines)))
      (nonempty-join "\n" (join_lines (next ∷ lines)) full)
    ∙ ends_line-join "\n" (join_lines (next ∷ lines)) full
    ∙ ends_line-join_lines next lines hs ks

pub trim_end-join : (s : String) → trim_end (join s "\n") ≡ s
unfolding trim_end
trim_end-join String.[] = ap trim_end (append.nil "\n")
trim_end-join (String.◌∷◌ c s) =
    ap trim_end (append.cons c s "\n")
    ∙ rw (nonempty-join s "\n" refl, trim_end) (ap (λ t. String.◌∷◌ c t) (trim_end-join s))

pub trim_end-open : (s : String) → ends_line s ≡ false → trim_end s ≡ s
unfolding trim_end ends_line
trim_end-open String.[] h = refl
trim_end-open (String.◌∷◌ c String.[]) h = rw h refl
trim_end-open (String.◌∷◌ c (String.◌∷◌ d s)) h =
    let later = rw (nonempty-cons d s) at h in
    rw (nonempty-cons d s) (ap (λ t. String.◌∷◌ c t) (trim_end-open (String.◌∷◌ d s) later))
