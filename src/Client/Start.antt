-- ===== src/Client/Start.antt =====
-- How the client starts: the configuration that it reads, and the buffer that it then has.
use native.Mathlib.Nat.{mul-mod_right, mul-le-mul_left, mul-le-mul_right}
use native.Mathlib.Decide.{dec_lt}
use pmu_data_analytics.Base.{
  ℕ, ◌+◌, ◌-◌, ◌*◌, ◌^◌, ◌<◌, ◌≡◌, refl, sym, subst, inl, inr, ok, panic, lt→ltb, le→ltb, ltb,
  if◌then◌else◌, [], ◌++◌, length, length-append, length-replicate, replicate, nat_abs, some, arith,
}
use pmu_data_analytics.Base.Bytes.{Bytes}
use pmu_data_analytics.Base.Bytes.Bounds.{u16_at-panic, first_slice}
use pmu_data_analytics.Base.Words.{Build, word-ok}
use pmu_data_analytics.Frames.Prefix.{PrefixFrame, IsPrefix}
use pmu_data_analytics.Frames.Prefix as Prefix
use pmu_data_analytics.Frames.Prefix.RoundTrip.{from_hex-to_hex, length-to_hex}
use pmu_data_analytics.Frames.Config.{ConfigurationFrame, calc_data_frame_size}
use pmu_data_analytics.Frames.Config.Sizes.{calc_data_frame_size-ge}
use pmu_data_analytics.Client.{
  BufferType, stack, heap, PdcClient, stack_size, calculate_frame_size, as_secs, entry_size,
  new_heap, sized_buffer, initialize_buffer,
}
use pmu_data_analytics.Client.Store.{calculate_frame_size-calc_data_frame_size}
use pmu_data_analytics.Client.Connect.{
  IoError, Server, read_config, get_config_frame, blank_client, new,
}
use pmu_data_analytics.Client.Replies.{
  config_request, IsSealed, config_reply, with_sizes, get_config_frame-reply,
}
use pmu_data_analytics.Client.Ready.{IsReady}

-- The number of frames that the buffer is to hold.
abbrev pub total_frames : ConfigurationFrame → ℕ → ℕ
total_frames f duration = nat_abs f.data_rate * as_secs duration

-- The buffer for this size, where the heap can have the capacity.
abbrev buffer_for : BufferType → ℕ → BufferType
buffer_for buffer max_size = if ltb stack_size max_size then heap [] else buffer

sized_buffer-fits :
    (buffer : BufferType) (total max_size : ℕ)
    → entry_size * total < 2 ^ 63
    → sized_buffer buffer total max_size ≡ ok (buffer_for buffer max_size)
unfolding sized_buffer new_heap
sized_buffer-fits buffer total max_size small = ground arith

-- A client with its memory still blank, once it knows the size of the buffer.
abbrev sized_client : ConfigurationFrame → PdcClient → ℕ → PdcClient
sized_client f client total = record client {
  config = some f;
  frame_size = calculate_frame_size (some f);
  max_buffer_size = calculate_frame_size (some f) * total;
  buffer = buffer_for client.buffer (calculate_frame_size (some f) * total);
}

sized_client-IsReady :
    (now : ℕ) (f : ConfigurationFrame) (client : PdcClient) (total : ℕ)
    → client.buffer ≡ stack (replicate stack_size 0)
    → client.write_offset ≡ 0
    → 0 < calculate_frame_size (some f)
    → 0 < total
    → IsReady now (sized_client f client total)
sized_client-IsReady now f client total blank at_start size_pos some_frames =
    let size : ℕ = calculate_frame_size (some f) in
    elim (dec_lt stack_size (size * total)) [
      | yes large ↦ record {
        size_pos = size_pos;
        holds = inr ([], rw (lt→ltb stack_size (size * total) large) refl, tt);
      }
      | no small ↦ record {
        size_pos = size_pos;
        holds = inl (
          replicate stack_size 0,
          record {
            on_stack = rw (le→ltb stack_size (size * total) (omega arith)) blank;
            memory_len = length-replicate {A = ℕ} stack_size 0;
            frame_fits = omega (arith, mul-le-mul_left {m = 1} {n = total} size some_frames);
            limit_fits = omega arith;
            offset_le = omega (arith, at_start);
          },
          mul-mod_right size total,
        );
      }
    ]

initialize_buffer-sized :
    (build : Build) (f : ConfigurationFrame) (client : PdcClient)
    → total_frames f client.duration < 2 ^ 64
    → calculate_frame_size (some f) * total_frames f client.duration < 2 ^ 64
    → entry_size * total_frames f client.duration < 2 ^ 63
    → client.config ≡ some f
    → initialize_buffer build client
      ≡ ok (record (sized_client f client (total_frames f client.duration)) {
        config = client.config;
      })
unfolding initialize_buffer
initialize_buffer-sized build f client small fits room configured =
    rw
      (
        configured,
        word-ok {E = ⊥} build 64 (total_frames f client.duration) small,
        word-ok {E = ⊥} build 64 (calculate_frame_size (some f) * total_frames f client.duration)
            fits,
        sized_buffer-fits client.buffer (total_frames f client.duration)
            (calculate_frame_size (some f) * total_frames f client.duration) room,
      )
      refl

-- If the server answers the request for the configuration with a configuration frame, sealed with its
-- size and its checksum, and all of it is there when the client reads the rest, and the buffer is to
-- hold at least one frame, its size is a 64-bit word, and its entries of 40 bytes each are below 2^63
-- bytes, then the client starts without a panic, in either build: it has the configuration and the size
-- of its data frames, and can store frames.
pub new-IsReady :
    (build : Build) (server : Server) (f : ConfigurationFrame) (now idcode duration : ℕ)
    → IsSealed f
    → server (config_request idcode) ≡ some (config_reply f)
    → 0 < total_frames f duration
    → calc_data_frame_size f * total_frames f duration < 2 ^ 64
    → entry_size * total_frames f duration < 2 ^ 63
    → (client : PdcClient) × (new build (some server) idcode duration ≡ ok client)
      × IsReady now client
      × (client.config ≡ some f)
      × (client.frame_size ≡ calc_data_frame_size f)
      × (client.idcode ≡ idcode)
unfolding new
new-IsReady build server f now idcode duration h answered some_frames fits room =
    let same : calculate_frame_size (some f) ≡ calc_data_frame_size f =
      calculate_frame_size-calc_data_frame_size f in
    let blank : PdcClient = blank_client idcode duration in
    let configured : PdcClient = record (with_sizes f blank) { config = some f } in
    let total : ℕ = total_frames f duration in
    let small : total < 2 ^ 64 = omega (
      arith,
      fits,
      mul-le-mul_right {m = 1} {n = calc_data_frame_size f} total
          (omega (arith, calc_data_frame_size-ge f)),
    ) in
    (
      sized_client f configured total,
      rw
          (
            get_config_frame-reply build server f blank h answered,
            initialize_buffer-sized build f configured small
                (subst (λ (size : ℕ). size * total < 2 ^ 64) (sym same) fits) room refl,
          )
          refl,
      sized_client-IsReady now f configured total refl refl
          (omega (arith, same, calc_data_frame_size-ge f)) some_frames,
      refl,
      same,
      refl,
    )

-- If the header of a frame announces more bytes than the client gets when it reads the rest, the client
-- panics.
pub new-short :
    (build : Build) (server : Server) (prefix : PrefixFrame) (arrived : ℕ → Bytes)
    (idcode duration : ℕ)
    → IsPrefix prefix
    → server (config_request idcode)
      ≡ some (record { header = some (Prefix.to_hex prefix); arrived = arrived })
    → 14 + length (arrived (prefix.framesize - 14)) < prefix.framesize
    → new build (some server) idcode duration ≡ panic
unfolding new get_config_frame read_config
new-short build server prefix arrived idcode duration h answered short =
    let rest : Bytes = arrived (prefix.framesize - 14) in
    let complete : Bytes = Prefix.to_hex prefix ++ rest in
    let len : length complete ≡ 14 + length rest =
      omega (arith, length-append (Prefix.to_hex prefix) rest, length-to_hex prefix) in
    let (body, e, body_len) =
      first_slice {E = IoError} complete (length complete - 2) (omega arith) in
    rw
      (
        answered,
        from_hex-to_hex prefix h,
        le→ltb prefix.framesize 14 (omega (arith, short)),
        e,
        u16_at-panic {E = IoError} complete (prefix.framesize - 2) (omega (arith, len, short)),
      )
      refl
