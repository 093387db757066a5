-- ===== src/Float/Tests.antt =====
-- The percentage of a power at some values.
use near_aurora_bridge.Base.{◌*◌, ◌^◌, ◌≡◌, refl, ltb, u32_max}
use near_aurora_bridge.Float.{
  gravity_power_to_percent, round24, lt_66, required_power, lt_66-gravity_power_to_percent,
}

-- All of the power is 100 percent.
percent_all : gravity_power_to_percent u32_max ≡ 100 * 2 ^ 32
unfolding gravity_power_to_percent round24
percent_all = refl

lt_66-gravity_power_to_percent_example :
    lt_66 (gravity_power_to_percent 2834678143) ≡ ltb 2834678143 required_power
lt_66-gravity_power_to_percent_example = lt_66-gravity_power_to_percent 2834678143
