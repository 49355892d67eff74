-- ===== src/Views/Tests.antt =====
-- Two hosts with viewers.
use dd_ui.Prelude.{◌≡◌, refl, ◌↔◌, true, List, [], ◌∷◌}
use dd_ui.Views.{Call, opened, closed, add_view, remove_view, should_boost_host, after_calls}
use dd_ui.Views.Laws.{Leads, should_boost_host_iff}

-- The newest first: a close too many comes before the last open.
abbrev calls : List Call
calls = opened "web1" ∷ closed "web1" ∷ closed "web1" ∷ opened "db1" ∷ opened "web1" ∷ []

boosted : should_boost_host "web1" (after_calls calls) ≡ true
unfolding should_boost_host after_calls add_view remove_view
boosted = refl

should_boost_host_iff_example :
    (should_boost_host "web1" (after_calls calls) ≡ true) ↔ Leads "web1" 1 calls
should_boost_host_iff_example = should_boost_host_iff "web1" calls
