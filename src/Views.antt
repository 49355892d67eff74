-- ===== src/Views.antt =====
-- api/main.go: `ViewBoostTracker`, the count of viewers by which a host is polled more often. Its timers
-- are never set by the program and are left out; a host that is not in the map has the count 0.
pub mod Laws
mod Tests
use text.Mathlib.Text.{◌==◌}
use dd_ui.Prelude.{ℕ, zero, suc, Bool, String, List, [], ◌∷◌, ltb, if◌then◌else◌}

-- `activeViews`
abbrev pub Counts : Type 0
Counts = String → ℕ

-- `AddView`
unfoldable pub add_view : String → Counts → Counts
add_view host counts h = if host == h then suc (counts h) else counts h

abbrev pub less_one : ℕ → ℕ
less_one zero = zero
less_one (suc n) = n

-- `RemoveView`, which deletes the entry at 0.
unfoldable pub remove_view : String → Counts → Counts
remove_view host counts h = if host == h then less_one (counts h) else counts h

-- `ShouldBoostHost`
unfoldable pub should_boost_host : String → Counts → Bool
should_boost_host host counts = ltb 0 (counts host)

pub data Call : Type 0 where
  opened closed : String → Call

-- The counts after the calls, the newest first.
unfoldable pub after_calls : List Call → Counts
unfolding add_view remove_view
after_calls [] h = 0
after_calls (opened host ∷ calls) h = add_view host (after_calls calls) h
after_calls (closed host ∷ calls) h = remove_view host (after_calls calls) h
