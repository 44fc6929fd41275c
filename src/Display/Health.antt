-- ===== src/Display/Health.antt =====
-- frontend/src/components/SystemHealthPanel.tsx: what is known of the services, and the banner.
use threat_lens.Base.{
  codes, Bool, Option, Text, [], if◌then◌else◌, not, or_default, text_eq, ℕ, ◌&&◌, ◌||◌,
}

pub record HealthPayload : Type 0 where
  pub redis_status : Option Text
  pub clickhouse_status : Option Text
  pub processing_latency : Option ℕ

pub record ThroughputPayload : Type 0 where
  pub megabits_per_sec : Option ℕ
  pub flows_per_sec : Option ℕ

pub record Panel : Type 0 where
  pub health : HealthPayload
  pub metrics : ThroughputPayload
  pub banner_dismissed : Bool

-- `refresh` behind its answers: `none` where one is not ok.
unfoldable pub refreshed :
    (mounted : Bool) → Option HealthPayload → Option ThroughputPayload → Panel → Panel
refreshed mounted h m s =
    if mounted
    then record s { health = or_default h s.health; metrics = or_default m s.metrics }
    else s

abbrev pub is_fallback : Option Text → Bool
is_fallback status = text_eq (or_default status []) (codes "fallback_memory")

-- `fallbackActive`
unfoldable pub fallback_active : HealthPayload → Bool
unfolding text_eq
fallback_active h = is_fallback h.redis_status || is_fallback h.clickhouse_status

-- `activeFallbackService`
unfoldable pub active_fallback_service : HealthPayload → Text
unfolding text_eq
active_fallback_service h =
    if is_fallback h.clickhouse_status then codes "ClickHouse" else codes "Redis"

-- Is the banner shown?
abbrev pub shows_banner : Panel → Bool
shows_banner s = fallback_active s.health && not s.banner_dismissed
