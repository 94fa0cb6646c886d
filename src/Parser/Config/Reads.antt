-- ===== src/Parser/Config/Reads.antt =====
-- The reads of the units of a configuration return or panic.
use pmu_data_analytics.Base.{ℕ, ◌+◌, ◌*◌, List, [], ◌∷◌}
use pmu_data_analytics.Base.Bytes.{Bytes}
use pmu_data_analytics.Base.Chunks.{chunks, map_outcome, u32_of_chunk}
use pmu_data_analytics.Parser.Reads.{NoErr, bind-NoErr, slice-NoErr}
use pmu_data_analytics.Parser.Config.{u32s_at}

u32_of_chunk-NoErr : (chunk : Bytes) → NoErr (u32_of_chunk chunk)
unfolding u32_of_chunk
u32_of_chunk-NoErr [] = tt
u32_of_chunk-NoErr (a ∷ []) = tt
u32_of_chunk-NoErr (a ∷ b ∷ []) = tt
u32_of_chunk-NoErr (a ∷ b ∷ c ∷ []) = tt
u32_of_chunk-NoErr (a ∷ b ∷ c ∷ d ∷ []) = tt
u32_of_chunk-NoErr (a ∷ b ∷ c ∷ d ∷ e ∷ rest) = tt

units-NoErr : (blocks : List Bytes) → NoErr (map_outcome u32_of_chunk blocks)
unfolding map_outcome
units-NoErr [] = tt
units-NoErr (b ∷ bs) =
    bind-NoErr (u32_of_chunk b) _ (u32_of_chunk-NoErr b)
      λ u. bind-NoErr (map_outcome u32_of_chunk bs) _ (units-NoErr bs) λ us. tt

pub u32s_at-NoErr : (buffer : Bytes) (offset n : ℕ) → NoErr (u32s_at buffer offset n)
unfolding u32s_at
u32s_at-NoErr buffer offset n =
    bind-NoErr _ _ (slice-NoErr buffer offset (offset + 4 * n))
      λ units. units-NoErr (chunks 4 units)
