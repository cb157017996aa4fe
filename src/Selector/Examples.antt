-- ===== src/Selector/Examples.antt =====
-- The selector of internal/nodecore/multirelay/selector.go with two relays.
use corelink.Prelude.{ℕ, ◌≡◌, refl, [], ◌∷◌, Option, some, if◌then◌else◌, ltb}
use corelink.Selector.{Relay, Selector, tick}

abbrev near : Relay
near = record { relay_id = "near"; priority = 2 }

abbrev far : Relay
far = record { relay_id = "far"; priority = 1 }

-- Attached to the far relay, after two rounds in which the near one was better.
abbrev attached : Selector
attached = record {
  cfg = record { probe_interval = 5; switch_margin = 30; switch_streak = 3; degrade_streak = 2 };
  candidates = far ∷ near ∷ [];
  current = "far";
  last_probe = some 10;
  better_streak = 2;
  better_id = "near";
  degrade_count = 0;
  primary_fail = 0;
}

-- The near relay answers after 10 ms, the far one after 90 ms.
abbrev times : Relay → Option ℕ
times r = some (if ltb r.priority 2 then 90 else 10)

third-switches : (tick 20 times attached).1 ≡ some ("far", "near")
unfolding tick
third-switches = refl
