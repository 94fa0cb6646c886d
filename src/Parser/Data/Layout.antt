-- ===== src/Parser/Data/Layout.antt =====
-- The bytes of a data frame by the standard: the fields in order, and their lengths.
use pmu_data_analytics.Base.{
  ◌*◌, ◌^◌, ◌<◌, ◌≡◌, refl, ap, ◌∙◌, List, [], ◌∷◌, ◌++◌, length, ℤ, pos, negsuc, bits_of_i16,
  append_assoc,
}
use pmu_data_analytics.Base.Bytes.{Bytes, u16_bytes, u32_bytes}
use pmu_data_analytics.Frames.Prefix
use pmu_data_analytics.Frames.Prefix.{PrefixFrame, IsPrefix}
use pmu_data_analytics.Frames.Config.{
  PmuConfigurationFrame, phasor_size, analog_size, freq_dfreq_size,
}
use pmu_data_analytics.Frames.Data.{F32, PmuDataFrame, PmuFrameType, fixed, floating, DataFrame}

abbrev pub IsI16 : ℤ → Type 0
IsI16 (pos n) = n < 2 ^ 15
IsI16 (negsuc n) = n < 2 ^ 15

-- The fields of one PMU in the order of the standard: STAT, PHASORS, FREQ, DFREQ, ANALOG, DIGITAL,
-- and then what follows them.
abbrev pub put_pmu : PmuFrameType → Bytes → Bytes
put_pmu (fixed f) rest =
    u16_bytes f.stat
    ++ (f.phasors
        ++ (u16_bytes (bits_of_i16 f.freq)
            ++ (u16_bytes (bits_of_i16 f.dfreq) ++ (f.analog ++ (f.digital ++ rest)))))
put_pmu (floating f) rest =
    u16_bytes f.stat
    ++ (f.phasors
        ++ (u32_bytes f.freq.bits ++ (u32_bytes f.dfreq.bits ++ (f.analog ++ (f.digital ++ rest)))))

abbrev pub put_pmus : List PmuFrameType → Bytes → Bytes
put_pmus [] rest = rest
put_pmus (f ∷ fs) rest = put_pmu f (put_pmus fs rest)

-- The fields have the lengths that the configuration gives.
pub record HasLengths (T : Type 0) (c : PmuConfigurationFrame) (f : PmuDataFrame T) : Type 0 where
  pub stat_u16 : f.stat < 2 ^ 16
  pub phasors_len : length f.phasors ≡ phasor_size c * c.phnmr
  pub analog_len : length f.analog ≡ analog_size c * c.annmr
  pub digital_len : length f.digital ≡ 2 * c.dgnmr

-- A frame as its configuration says: with sixteen-bit frequencies, or with floating ones and no
-- phasors.
abbrev pub Matches : PmuConfigurationFrame → PmuFrameType → Type 0
Matches c (fixed f) = (freq_dfreq_size c ≡ 2) × HasLengths ℤ c f × IsI16 f.freq × IsI16 f.dfreq
Matches c (floating f) =
    (freq_dfreq_size c ≡ 4)
    × (c.phnmr ≡ 0)
    × HasLengths F32 c f
    × (f.freq.bits < 2 ^ 32)
    × (f.dfreq.bits < 2 ^ 32)

abbrev pub AllMatch : List PmuConfigurationFrame → List PmuFrameType → Type 0
AllMatch [] [] = Unit
AllMatch [] (f ∷ fs) = ⊥
AllMatch (c ∷ cs) [] = ⊥
AllMatch (c ∷ cs) (f ∷ fs) = Matches c f × AllMatch cs fs

put_pmu-append : (f : PmuFrameType) (xs ys : Bytes) → put_pmu f (xs ++ ys) ≡ put_pmu f xs ++ ys
put_pmu-append (fixed f) xs ys = simp append_assoc
put_pmu-append (floating f) xs ys = simp append_assoc

pub put_pmus-append :
    (fs : List PmuFrameType) (xs ys : Bytes) → put_pmus fs (xs ++ ys) ≡ put_pmus fs xs ++ ys
put_pmus-append [] xs ys = refl
put_pmus-append (f ∷ fs) xs ys =
    ap (put_pmu f) (put_pmus-append fs xs ys) ∙ put_pmu-append f (put_pmus fs xs) ys

-- The whole frame: the prefix, the PMUs, the checksum.
abbrev pub put_data_frame : DataFrame → Bytes
put_data_frame frame = Prefix.to_hex frame.prefix ++ put_pmus frame.pmu_data (u16_bytes frame.chk)
