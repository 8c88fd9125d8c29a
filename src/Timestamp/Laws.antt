-- ===== src/Timestamp/Laws.antt =====
-- The keys of the two clocks.
use killjoy.Base.{◌<>◌, ◌≡◌, refl}
use killjoy.ActiveState.{ActiveState, activating}
use killjoy.Timestamp.{get_monotonic_timestamp_key, get_realtime_timestamp_key}

-- The two clocks are read at the same transition: the keys differ by the suffix `Monotonic`.
pub monotonic_key-realtime_key :
    (s : ActiveState) → get_monotonic_timestamp_key s ≡ get_realtime_timestamp_key s <> "Monotonic"
unfolding get_monotonic_timestamp_key get_realtime_timestamp_key
monotonic_key-realtime_key activating = refl
monotonic_key-realtime_key _ = refl
