-- ===== src/Tests/Values.antt =====
-- The numbers of one PMU with fixed phasors and floating analog values.
use pmu_data_analytics.Base.{◌≡◌, refl, [], ◌∷◌, ok, arith, pos, negsuc, ℤ}
use pmu_data_analytics.Frames.Config.{PmuConfigurationFrame, phasor_size}
use pmu_data_analytics.Frames.Data.{F32, PmuDataFrame}
use pmu_data_analytics.Frames.Values.{float, fixed, parse_phasors, parse_analogs, parse_digitals}
use pmu_data_analytics.Frames.Values.RoundTrip.{IsPhasor, parse_values-put}
use pmu_data_analytics.Tests.Streams.{station}

abbrev mixed : PmuConfigurationFrame
mixed = record station { format = 4 }

abbrev numbers : PmuDataFrame ℤ
numbers = record {
  stat = 0;
  phasors = 0 ∷ 7 ∷ 255 ∷ 255 ∷ [];
  freq = pos 0;
  dfreq = pos 0;
  analog = 63 ∷ 128 ∷ 0 ∷ 0 ∷ [];
  digital = 1 ∷ 2 ∷ 0 ∷ 3 ∷ [];
}

phasors-IsPhasor : IsPhasor mixed (fixed (pos 7 ∷ negsuc 0 ∷ []))
unfolding phasor_size
phasors-IsPhasor = ((omega arith, (omega arith, tt)), refl)

abbrev one_f32 : F32
one_f32 = record { bits = 0x3f800000 }

parse_values-put_example :
    (parse_phasors numbers mixed ≡ ok (fixed (pos 7 ∷ negsuc 0 ∷ []) ∷ []))
    × (parse_analogs numbers mixed ≡ ok (float (one_f32 ∷ [])))
    × (parse_digitals numbers ≡ ok (258 ∷ 3 ∷ []))
parse_values-put_example =
    parse_values-put numbers mixed (fixed (pos 7 ∷ negsuc 0 ∷ []) ∷ []) (float (one_f32 ∷ []))
      (258 ∷ 3 ∷ []) (phasors-IsPhasor, tt) (omega arith, tt) (omega arith) refl refl refl
