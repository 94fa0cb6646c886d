-- ===== src/Frames/Config/Sizes.antt =====
-- The loop of `calc_data_frame_size` as a sum.
use pmu_data_analytics.Base.{ℕ, ◌+◌, ◌≤◌, ◌≡◌, List, [], ◌∷◌, arith}
use pmu_data_analytics.Frames.Config.{
  PmuConfigurationFrame, ConfigurationFrame, pmu_data_size, add_data_sizes, calc_data_frame_size,
}

-- The source's loop adds each PMU's bytes to the sixteen of the prefix and the checksum.
unfoldable pub sizes : List PmuConfigurationFrame → ℕ
sizes [] = 0
sizes (c ∷ cs) = pmu_data_size c + sizes cs

pub add_data_sizes-sizes :
    (total : ℕ) (cs : List PmuConfigurationFrame) → add_data_sizes total cs ≡ total + sizes cs
unfolding add_data_sizes sizes
add_data_sizes-sizes total [] = omega arith
add_data_sizes-sizes total (c ∷ cs) =
    omega (arith, add_data_sizes-sizes (total + pmu_data_size c) cs)

-- The prefix and the checksum are always there.
pub calc_data_frame_size-ge : (config : ConfigurationFrame) → 16 ≤ calc_data_frame_size config
unfolding calc_data_frame_size
calc_data_frame_size-ge config = omega (arith, add_data_sizes-sizes 16 config.pmu_configs)
