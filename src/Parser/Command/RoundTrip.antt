-- ===== src/Parser/Command/RoundTrip.antt =====
-- A command frame that is written and sent is read back by `parse_frame`.
use pmu_data_analytics.Base.{
  ℕ, ◌+◌, ◌-◌, ◌^◌, ◌<◌, ◌≡◌, refl, sym, ap, ◌∙◌, [], ◌++◌, length, length-append, All, All-append,
  Option, none, some, ok, arith, append_assoc, append-nil, lt→ltb, le→ltb,
}
use pmu_data_analytics.Base.Bytes.{Bytes, slice, u16_bytes}
use pmu_data_analytics.Base.Bytes.Cursor.{At, At-zero, At-append, slice-At, u16_at-At}
use pmu_data_analytics.Frames.Crc.{calculate_crc}
use pmu_data_analytics.Frames.Crc.Detect.{IsByte, calculate_crc-IsWord}
use pmu_data_analytics.Frames.Prefix
use pmu_data_analytics.Frames.Prefix.{PrefixFrame, IsPrefix}
use pmu_data_analytics.Frames.Prefix.RoundTrip.{
  u16_round_trip, from_hex-to_hex, length-to_hex, to_hex-IsByte,
}
use pmu_data_analytics.Frames.Command.{CommandFrame, payload, to_hex, ext_bytes}
use pmu_data_analytics.Parser.Errors.{ParseError, Frame, parse_prefix}
use pmu_data_analytics.Parser.Command.{parse_extframe, parse_command_frame}

-- An extended frame is sent only if it has bytes.
abbrev pub IsExt : Option Bytes → Type 0
IsExt none = Unit
IsExt (some ext) = (0 < length ext) × All IsByte ext

abbrev pub ext_length : Option Bytes → ℕ
ext_length none = 0
ext_length (some ext) = length ext

-- The fields fit their widths, and the size counts all the bytes.
pub record IsCommand (c : CommandFrame) : Type 0 where
  pub prefix_fits : IsPrefix c.prefix
  pub command_u16 : c.command < 2 ^ 16
  pub ext_fits : IsExt c.extframe
  pub size : c.prefix.framesize ≡ ext_length c.extframe + 18

-- Any frame begins with the prefix that was written.
pub parse_prefix-to_hex :
    (p : PrefixFrame) (rest : Bytes) → IsPrefix p → parse_prefix (Prefix.to_hex p ++ rest) ≡ ok p
unfolding parse_prefix
parse_prefix-to_hex p rest h = rw (
  slice-At (Prefix.to_hex p ++ rest) 0 14 (Prefix.to_hex p) rest (At-zero _) (length-to_hex p),
  from_hex-to_hex p h,
)

abbrev pub ext_of : Option Bytes → Bytes
ext_of none = []
ext_of (some ext) = ext

-- The bytes of a command frame, part by part.
abbrev wire : PrefixFrame → ℕ → Bytes → ℕ → Bytes
wire p word ext crc = Prefix.to_hex p ++ (u16_bytes word ++ (ext ++ u16_bytes crc))

ext_bytes-append :
    (o : Option Bytes) (front word crc : Bytes)
    → ext_bytes o (front ++ word) ++ crc ≡ front ++ (word ++ (ext_of o ++ crc))
ext_bytes-append none front word crc = append_assoc front word crc
ext_bytes-append (some ext) front word crc =
    append_assoc (front ++ word) ext crc ∙ append_assoc front word (ext ++ crc)

length-ext_bytes :
    (o : Option Bytes) (front : Bytes) → length (ext_bytes o front) ≡ ext_length o + length front
length-ext_bytes none front = omega arith
length-ext_bytes (some ext) front = omega (arith, length-append {0} front ext)

payload-wire :
    (c : CommandFrame) (crc : ℕ)
    → payload c ++ u16_bytes crc ≡ wire c.prefix c.command (ext_of c.extframe) crc
unfolding payload
payload-wire c crc =
    ext_bytes-append c.extframe (Prefix.to_hex c.prefix) (u16_bytes c.command) (u16_bytes crc)

length-payload : (c : CommandFrame) → length (payload c) ≡ ext_length c.extframe + 16
unfolding payload
length-payload c = omega (
  arith,
  length-ext_bytes c.extframe (Prefix.to_hex c.prefix ++ u16_bytes c.command),
  length-append {0} (Prefix.to_hex c.prefix) (u16_bytes c.command),
  length-to_hex c.prefix,
)

length-wire :
    (p : PrefixFrame) (word : ℕ) (ext : Bytes) (crc : ℕ)
    → length (wire p word ext crc) ≡ length ext + 18
length-wire p word ext crc = omega (
  arith,
  length-append {0} (Prefix.to_hex p) (u16_bytes word ++ (ext ++ u16_bytes crc)),
  length-append {0} ext (u16_bytes crc),
  length-to_hex p,
)

module _ (p : PrefixFrame) (word : ℕ) (ext : Bytes) (crc : ℕ) where
  abbrev buffer : Bytes
  buffer = wire p word ext crc

  At-word : At buffer 14 (u16_bytes word ++ (ext ++ u16_bytes crc))
  At-word =
      At-append buffer 0 14 (Prefix.to_hex p) (u16_bytes word ++ (ext ++ u16_bytes crc))
        (At-zero buffer) (length-to_hex p)

  At-ext : At buffer 16 (ext ++ u16_bytes crc)
  At-ext = At-append buffer 14 2 (u16_bytes word) (ext ++ u16_bytes crc) At-word refl

  At-crc : At buffer (length buffer - 2) (u16_bytes crc)
  At-crc =
      let width : length buffer - 2 ≡ 16 + length ext = omega (arith, length-wire p word ext crc) in
      rw width (At-append buffer 16 (length ext) ext (u16_bytes crc) At-ext refl)

  slice_ext : slice {E = ParseError} buffer 16 (length buffer - 2) ≡ ok ext
  slice_ext =
      let width : length buffer - 2 ≡ 16 + length ext = omega (arith, length-wire p word ext crc) in
      rw width (slice-At buffer 16 (length ext) ext (u16_bytes crc) At-ext refl)

parse_extframe-wire :
    (p : PrefixFrame) (word : ℕ) (o : Option Bytes) (crc : ℕ)
    → IsExt o
    → parse_extframe (wire p word (ext_of o) crc) ≡ ok o
unfolding parse_extframe
parse_extframe-wire p word none crc h =
    rw (le→ltb 18 (length (wire p word [] crc)) (omega (arith, length-wire p word [] crc)))
parse_extframe-wire p word (some ext) crc h = rw (
  lt→ltb 18 (length (wire p word ext crc)) (omega (arith, length-wire p word ext crc)),
  slice_ext p word ext crc,
)

parse_command-wire :
    (c : CommandFrame) (crc : ℕ)
    → IsCommand c
    → crc < 2 ^ 16
    → parse_command_frame (wire c.prefix c.command (ext_of c.extframe) crc)
      ≡ ok (Frame.command (record c { chk = crc }))
unfolding parse_command_frame
parse_command-wire c crc h small =
    let p : PrefixFrame = c.prefix in
    let ext : Bytes = ext_of c.extframe in
    rw (
      parse_prefix-to_hex p (u16_bytes c.command ++ (ext ++ u16_bytes crc)) h.prefix_fits,
      u16_at-At (wire p c.command ext crc) 14 _ _ (ext ++ u16_bytes crc)
          (At-word p c.command ext crc),
      u16_round_trip c.command h.command_u16,
      parse_extframe-wire p c.command c.extframe crc h.ext_fits,
      u16_at-At (wire p c.command ext crc) _ _ _ [] (At-crc p c.command ext crc),
      u16_round_trip crc small,
    )

-- The payload, part by part.
pub payload_parts :
    (c : CommandFrame)
    → payload c ≡ Prefix.to_hex c.prefix ++ (u16_bytes c.command ++ ext_of c.extframe)
unfolding payload
payload_parts c =
    let front : Bytes = Prefix.to_hex c.prefix in
    sym (append-nil (payload c))
    ∙ ext_bytes-append c.extframe front (u16_bytes c.command) []
    ∙ ap (λ t. front ++ (u16_bytes c.command ++ t)) (append-nil (ext_of c.extframe))

ext_of-IsByte : (o : Option Bytes) → IsExt o → All IsByte (ext_of o)
ext_of-IsByte none h = tt
ext_of-IsByte (some ext) h = h.1

pub payload-IsByte : (c : CommandFrame) → IsCommand c → All IsByte (payload c)
payload-IsByte c h = rw (payload_parts c) (
    All-append IsByte (Prefix.to_hex c.prefix) (u16_bytes c.command ++ ext_of c.extframe)
      (to_hex-IsByte c.prefix) (omega arith, (omega arith, ext_of-IsByte c.extframe h.ext_fits)))

-- For a command whose fields fit their widths, whose extended frame, if it has one, is not empty and
-- whose size counts all its bytes, `parse_command_frame` reads back the bytes of `to_hex`, with the checksum that was computed.
pub parse_command_frame-to_hex :
    (c : CommandFrame)
    → IsCommand c
    → parse_command_frame (to_hex c)
      ≡ ok (Frame.command (record c { chk = calculate_crc (payload c) }))
unfolding to_hex
parse_command_frame-to_hex c h =
    ap parse_command_frame (payload-wire c (calculate_crc (payload c)))
    ∙ parse_command-wire c (calculate_crc (payload c)) h
        (calculate_crc-IsWord (payload c) (payload-IsByte c h))
