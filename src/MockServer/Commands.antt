-- ===== src/MockServer/Commands.antt =====
-- The bytes of a client's command, through the handler.
use pmu_data_analytics.Base.{ℕ, ◌^◌, ◌<◌, ◌≡◌, refl, sym, ap, ◌∙◌, Bool, ok, ◌∷◌, none}
use pmu_data_analytics.Base.Bytes.{Bytes}
use pmu_data_analytics.Base.Words.{Build}
use pmu_data_analytics.Frames.Crc.{calculate_crc}
use pmu_data_analytics.Frames.Prefix
use pmu_data_analytics.Frames.Command.{new_command, payload, to_hex}
use pmu_data_analytics.Parser.Errors.{Frame}
use pmu_data_analytics.Parser.Dispatch.{parse_frame}
use pmu_data_analytics.Parser.Dispatch.Commands.{parse_frame-new_command}
use pmu_data_analytics.MockServer.{
  Files, received, Session, handle_command, handle_frame, handle_event,
}

-- The bytes of a command are not empty.
to_hex-some : (idcode k : ℕ) → (b : ℕ) × (rest : Bytes) × (to_hex (new_command idcode k) ≡ b ∷ rest)
unfolding to_hex new_command payload Prefix.to_hex
to_hex-some idcode k = (_, _, refl)

received-some :
    (build : Build) (files : Files) (bytes : Bytes) (written : Bool) (s : Session) (b : ℕ)
    (rest : Bytes)
    → bytes ≡ b ∷ rest
    → handle_event build files (received bytes written) s
      ≡ handle_frame files written s (parse_frame build bytes none)
unfolding handle_event
received-some build files bytes written s b rest e =
    ap (λ t. handle_event build files (received t written) s) e
    ∙ ap (λ t. handle_frame files written s (parse_frame build t none)) (sym e)

read_back :
    (files : Files) (idcode k : ℕ) (written : Bool) (s : Session)
    → handle_frame files written s (
        ok (
          Frame.command (record (new_command idcode k) {
            chk = calculate_crc (payload (new_command idcode k));
          })))
      ≡ ok (handle_command files k written s)
unfolding new_command
read_back files idcode k written s = refl

-- The handler does for a command what it does for the command's number.
pub handle_event-new_command :
    (build : Build) (files : Files) (idcode k : ℕ) (written : Bool) (s : Session)
    → idcode < 2 ^ 16
    → k < 2 ^ 16
    → handle_event build files (received (to_hex (new_command idcode k)) written) s
      ≡ ok (handle_command files k written s)
handle_event-new_command build files idcode k written s hi hk =
    let (b, rest, e) = to_hex-some idcode k in
    received-some build files (to_hex (new_command idcode k)) written s b rest e
    ∙ ap (handle_frame files written s) (parse_frame-new_command build idcode k none hi hk)
    ∙ read_back files idcode k written s
