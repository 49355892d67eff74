-- ===== src/Views/Laws.antt =====
-- When `ShouldBoostHost` (api/main.go) is true.
use text.Mathlib.Text.{◌==◌}
use mathlib.Core.Path.{subst}
use dd_ui.Prelude.{
  ℕ, zero, suc, ◌≡◌, ◌↔◌, ◌≤◌, ◌+◌, true, String, List, [], ◌∷◌, ◌++◌, refl, sym, ap, arith,
  Bool-cases, inl, inr, if◌then◌else◌,
}
use dd_ui.Views.{
  Call, opened, closed, add_view, remove_view, less_one, should_boost_host, after_calls,
}

-- How many of the calls open, and how many close, a view of the host.
unfoldable pub opens : String → List Call → ℕ
opens h [] = 0
opens h (opened host ∷ calls) = if host == h then suc (opens h calls) else opens h calls
opens h (closed host ∷ calls) = opens h calls

unfoldable pub closes : String → List Call → ℕ
closes h [] = 0
closes h (opened host ∷ calls) = closes h calls
closes h (closed host ∷ calls) = if host == h then suc (closes h calls) else closes h calls

-- The calls since some moment, with at least `n` more views opened than closed.
abbrev pub Leads : String → ℕ → List Call → Type 0
Leads h n calls =
    (late early : List Call) × (calls ≡ late ++ early) × (closes h late + n ≤ opens h late)

less_one_of_suc : (n c : ℕ) → suc n ≤ c → n ≤ less_one c
less_one_of_suc n zero h = omega arith
less_one_of_suc n (suc c) h = omega arith

suc_of_less_one : (n c : ℕ) → suc n ≤ less_one c → suc (suc n) ≤ c
suc_of_less_one n zero h = omega arith
suc_of_less_one n (suc c) h = omega arith

count_of_lead :
    (h : String) (n : ℕ) (late early : List Call)
    → (closes h late + n) ≤ opens h late
    → n ≤ after_calls (late ++ early) h
unfolding opens closes after_calls add_view remove_view
count_of_lead h n [] early p = omega arith
count_of_lead h zero (opened host ∷ late) early p = omega arith
count_of_lead h (suc n) (opened host ∷ late) early p = ground (
  arith,
  λ (q : closes h late + n ≤ opens h late). count_of_lead h n late early q,
  λ (q : closes h late + suc n ≤ opens h late). count_of_lead h (suc n) late early q,
)
count_of_lead h n (closed host ∷ late) early p = ground (
  arith,
  λ (q : closes h late + n ≤ opens h late). count_of_lead h n late early q,
  λ (q : closes h late + suc n ≤ opens h late).
      less_one_of_suc n (after_calls (late ++ early) h) (count_of_lead h (suc n) late early q),
)

Leads-zero : (h : String) (calls : List Call) → Leads h 0 calls
unfolding opens closes
Leads-zero h calls = ([], calls, refl, omega arith)

-- A further call in the calls since that moment.
Leads-call :
    (h : String) (m n : ℕ) (call : Call) (calls : List Call)
    → Leads h m calls
    → ((late : List Call)
        → (closes h late + m) ≤ opens h late
        → (closes h (call ∷ late) + n) ≤ opens h (call ∷ late))
    → Leads h n (call ∷ calls)
Leads-call h m n call calls (late, early, e, p) more =
    (call ∷ late, early, ap (λ l. call ∷ l) e, more late p)

Leads-of_count :
    (h : String) (n : ℕ) (calls : List Call) → n ≤ after_calls calls h → Leads h n calls
unfolding opens closes after_calls add_view remove_view
Leads-of_count h zero calls p = Leads-zero h calls
Leads-of_count h (suc n) [] p = absurd (omega arith)
Leads-of_count h (suc n) (opened host ∷ calls) p = elim (Bool-cases (host == h)) [
  | inl e ↦
      Leads-call h n (suc n) (opened host) calls (Leads-of_count h n calls (ground arith))
        (λ late q. ground arith)
  | inr e ↦
      Leads-call h (suc n) (suc n) (opened host) calls
        (Leads-of_count h (suc n) calls (ground arith)) (λ late q. ground arith)
]
Leads-of_count h (suc n) (closed host ∷ calls) p = elim (Bool-cases (host == h)) [
  | inl e ↦
      let q : suc n ≤ less_one (after_calls calls h) = ground arith in
      Leads-call h (suc (suc n)) (suc n) (closed host) calls
        (Leads-of_count h (suc (suc n)) calls (suc_of_less_one n (after_calls calls h) q))
        (λ late q. ground arith)
  | inr e ↦
      Leads-call h (suc n) (suc n) (closed host) calls
        (Leads-of_count h (suc n) calls (ground arith)) (λ late q. ground arith)
]

-- A host is polled more often exactly if, since some moment, more views of it were opened than closed.
pub should_boost_host_iff :
    (h : String) (calls : List Call)
    → (should_boost_host h (after_calls calls) ≡ true) ↔ Leads h 1 calls
unfolding should_boost_host
should_boost_host_iff h calls = (
  λ b. Leads-of_count h 1 calls (ground arith),
  λ (late, early, e, p).
      let q : 1 ≤ after_calls calls h =
        subst (λ l. 1 ≤ after_calls l h) (sym e) (count_of_lead h 1 late early p) in
      ground arith,
)
