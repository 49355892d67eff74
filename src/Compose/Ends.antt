-- ===== src/Compose/Ends.antt =====
-- api/services/compose_render_hash.go: the loop of `resolveVariablesWithPrecedence` ends.
use Prim.Native.Char.{Char, code}
use Prim.Native.String.append
use Prim.Native.String.{◌++◌ as join}
use text.Mathlib.Text.{◌==◌}
use text.Mathlib.TextEquality.{eq_iff}
use mathlib.Core.Path.{subst}
use dd_ui.Prelude.{
  ℕ, zero, suc, ◌≡◌, ◌≤◌, ◌<◌, ◌+◌, refl, sym, ap, inl, inr, Option, none, some, String, List, [],
  ◌∷◌, arith, Bool-cases, Option-cases, All, ◌==◌ as nat_eq, if◌then◌else◌, ◌∙◌, ◌&&◌,
}
use dd_ui.Compose.{
  cut, cut_pair, further, Env, value_at, Sources, first_file, or_else, split_expr, choose,
  resolve_once, resolve, resolve_variables,
}

-- The number of `$` in a text.
abbrev mark : Char → ℕ
mark c = if nat_eq (code c) 36 then 1 else 0

unfoldable pub dollars : String → ℕ
dollars String.[] = 0
dollars (String.◌∷◌ c s) = mark c + dollars s

dollars-join : (s t : String) → dollars (join s t) ≡ dollars s + dollars t
unfolding dollars
dollars-join String.[] t = ap dollars (append.nil t) ∙ omega arith
dollars-join (String.◌∷◌ c s) t = ap dollars (append.cons c s t) ∙ omega (arith, dollars-join s t)

-- The two parts of a cut have `n` of them at most.
abbrev Within : ℕ → Option (String × String) → Type 0
Within n none = Unit
Within n (some (before, after)) = dollars before + dollars after ≤ n

further-Within :
    (c : Char) (n : ℕ) (o : Option (String × String))
    → Within n o
    → Within (mark c + n) (further c o)
unfolding dollars
further-Within c n none h = h
further-Within c n (some (before, after)) h = omega arith

cut-Within : (a : ℕ) (s : String) → Within (dollars s) (cut a s)
unfolding cut dollars
cut-Within a String.[] = tt
cut-Within a (String.◌∷◌ c s) = elim (Bool-cases (nat_eq (code c) a)) [
  | inl e ↦ rw e (omega arith)
  | inr e ↦ rw e (further-Within c (dollars s) (cut a s) (cut-Within a s))
]

cut_pair-Within : (a b : ℕ) (s : String) → Within (dollars s) (cut_pair a b s)
unfolding cut_pair dollars
cut_pair-Within a b String.[] = tt
cut_pair-Within a b (String.◌∷◌ c String.[]) = tt
cut_pair-Within a b (String.◌∷◌ c (String.◌∷◌ d s)) =
    let h = cut_pair-Within a b (String.◌∷◌ d s) in
    elim (Bool-cases (nat_eq (code c) a && nat_eq (code d) b)) [
      | inl e ↦ rw e (omega arith)
      | inr e ↦ rw e (further-Within c (dollars (String.◌∷◌ d s)) (cut_pair a b (String.◌∷◌ d s)) h)
    ]

-- The two parts of a cut have less than `n` of them.
abbrev Below : ℕ → Option (String × String) → Type 0
Below n none = Unit
Below n (some (before, after)) = dollars before + dollars after < n

further-Below :
    (c : Char) (n : ℕ) (o : Option (String × String)) → Below n o → Below (mark c + n) (further c o)
unfolding dollars
further-Below c n none h = tt
further-Below c n (some (before, after)) h = omega arith

-- A cut at `${` leaves one out.
opened-Below : (s : String) → Below (dollars s) (cut_pair 36 123 s)
unfolding cut_pair dollars
opened-Below String.[] = tt
opened-Below (String.◌∷◌ c String.[]) = tt
opened-Below (String.◌∷◌ c (String.◌∷◌ d s)) =
    let h = opened-Below (String.◌∷◌ d s) in
    elim (Bool-cases (nat_eq (code c) 36 && nat_eq (code d) 123)) [
      | inl e ↦ rw e (ground arith)
      | inr e ↦
          rw e (further-Below c (dollars (String.◌∷◌ d s)) (cut_pair 36 123 (String.◌∷◌ d s)) h)
    ]

-- No source gives a variable a value with a `$` in it.
abbrev pub Plain : Option String → Type 0
Plain none = Unit
Plain (some value) = dollars value ≡ 0

abbrev pub IsPlainEnv : Env → Type 0
IsPlainEnv env = (name : String) → Plain (env name)

abbrev pub IsPlain : Sources → Type 0
IsPlain sources =
    IsPlainEnv sources.root_env
    × IsPlainEnv sources.service_env
    × All IsPlainEnv sources.service_env_files

value_at-dollars : (env : Env) (name : String) → IsPlainEnv env → dollars (value_at env name) ≡ 0
unfolding dollars
value_at-dollars env name h = elim (Option-cases (env name)) [
  | inl e ↦ rw (e, value_at) refl
  | inr (v, e) ↦ rw (e, value_at) (subst Plain e (h name))
]

first_file-dollars :
    (envs : List Env) (name : String) → All IsPlainEnv envs → dollars (first_file envs name) ≡ 0
unfolding first_file dollars
first_file-dollars [] name h = refl
first_file-dollars (env ∷ envs) name h = elim (Option-cases (env name)) [
  | inl e ↦ rw e (first_file-dollars envs name h.1)
  | inr (v, e) ↦ rw e (subst Plain e (h.0 name))
]

or_else-dollars : (n : ℕ) (v w : String) → dollars v ≤ n → dollars w ≤ n → dollars (or_else v w) ≤ n
or_else-dollars n v w h k = ground arith

choose-dollars :
    (sources : Sources) (name default : String)
    → IsPlain sources
    → dollars (choose sources name default) ≤ dollars default
unfolding choose
choose-dollars sources name default (root, service, files) =
    or_else-dollars (dollars default)
      (or_else (or_else (value_at sources.root_env name) (value_at sources.service_env name))
        (first_file sources.service_env_files name))
      default
      (or_else-dollars (dollars default)
        (or_else (value_at sources.root_env name) (value_at sources.service_env name))
        (first_file sources.service_env_files name)
        (or_else-dollars (dollars default) (value_at sources.root_env name)
          (value_at sources.service_env name)
          (omega (arith, value_at-dollars sources.root_env name root))
          (omega (arith, value_at-dollars sources.service_env name service)))
        (omega (arith, first_file-dollars sources.service_env_files name files)))
      (omega arith)

split_expr-dollars : (expr : String) → dollars (split_expr expr).1 ≤ dollars expr
unfolding split_expr dollars
split_expr-dollars expr = elim (Option-cases (cut_pair 58 45 expr)) [
  | inl e ↦ rw (e, split_expr) (omega arith)
  | inr ((name, default), e) ↦
      let h = subst (Within (dollars expr)) e (cut_pair-Within 58 45 expr) in
      rw (e, split_expr)
        (elim (Bool-cases (name == "")) [
          | inl f ↦ rw f (omega arith)
          | inr f ↦ rw f (omega (arith, h))
        ])
]

-- A round leaves less of them.
abbrev Less : ℕ → Option String → Type 0
Less n none = Unit
Less n (some s) = dollars s < n

resolve_once-Less :
    (sources : Sources) (s : String) → IsPlain sources → Less (dollars s) (resolve_once sources s)
unfolding resolve_once
resolve_once-Less sources s plain = elim (Option-cases (cut_pair 36 123 s)) [
  | inl e ↦ rw (e, resolve_once) tt
  | inr ((before, inside), e) ↦
      let h = subst (Below (dollars s)) e (opened-Below s) in
      rw (e, resolve_once)
        (elim (Option-cases (cut 125 inside)) [
          | inl f ↦ rw f tt
          | inr ((expr, after), f) ↦
              let k = subst (Within (dollars inside)) f (cut-Within 125 inside) in
              let parts = split_expr expr in
              let value = choose sources parts.0 parts.1 in
              rw f (
                omega (
                  arith,
                  h,
                  k,
                  dollars-join before (join value after),
                  dollars-join value after,
                  choose-dollars sources parts.0 parts.1 plain,
                  split_expr-dollars expr,
                ))
        ])
]

empty_ends : (sources : Sources) → resolve_once sources "" ≡ none
unfolding resolve_once cut_pair
empty_ends sources = refl

-- The loop comes to its end.
abbrev pub Ends : Sources → Option String → Type 0
Ends sources result = (t : String) × (result ≡ some t) × (resolve_once sources t ≡ none)

resolve-Ends :
    (sources : Sources) (n : ℕ) (s : String)
    → IsPlain sources
    → dollars s ≤ n
    → Ends sources (resolve sources n s)
unfolding resolve
resolve-Ends sources zero s plain h = elim (Option-cases (resolve_once sources s)) [
  | inl e ↦ (s, rw (e, resolve) refl, e)
  | inr (t, e) ↦
      let k = subst (Less (dollars s)) e (resolve_once-Less sources s plain) in absurd (omega arith)
]
resolve-Ends sources (suc n) s plain h = elim (Option-cases (resolve_once sources s)) [
  | inl e ↦ (s, rw (e, resolve) refl, e)
  | inr (t, e) ↦
      let k = subst (Less (dollars s)) e (resolve_once-Less sources s plain) in
      rw (e, resolve) (resolve-Ends sources n t plain (omega arith))
]

-- Where no value of a source has a `$` in it, as many rounds as the input has of them end the loop of
-- `resolveVariablesWithPrecedence`: it returns a text, and that text has no expression left to replace.
pub resolve_variables-Ends :
    (n : ℕ) (input : String) (sources : Sources)
    → IsPlain sources
    → dollars input ≤ n
    → Ends sources (resolve_variables n input sources)
unfolding resolve_variables
resolve_variables-Ends n input sources plain h = elim (Bool-cases (input == "")) [
  | inl e ↦
      rw (e, resolve_variables)
        (
          input,
          refl,
          subst (λ s. resolve_once sources s ≡ none) (sym ((eq_iff input "").0 e))
              (empty_ends sources),
        )
  | inr e ↦ rw (e, resolve_variables) (resolve-Ends sources n input plain h)
]

-- A text that a round leaves as it is keeps the loop going.
pub resolve-repeats :
    (sources : Sources) (n : ℕ) (s : String)
    → resolve_once sources s ≡ some s
    → resolve sources n s ≡ none
unfolding resolve
resolve-repeats sources zero s e = rw (e, resolve) refl
resolve-repeats sources (suc n) s e = rw (e, resolve) (resolve-repeats sources n s e)
