-- ===== src/MockServer/Sessions.antt =====
-- A session with a client that sends the commands of `CommandFrame2011`.
use pmu_data_analytics.Base.{
  ℕ, ◌^◌, ◌<◌, ◌≤◌, ◌≡◌, refl, sym, ap, ◌∙◌, Bool, true, false, if◌then◌else◌, ok, List, [], ◌∷◌,
  ◌++◌, append-nil, append_assoc, map, Bool-cases, Option-cases, inl, inr, Option, none, some,
  arith,
}
use pmu_data_analytics.Base.Bytes.{Bytes}
use pmu_data_analytics.Base.Words.{Build}
use pmu_data_analytics.Frames.Command.{
  new_command, new_turn_off_transmission, new_turn_on_transmission, new_send_header_frame,
  new_send_config_frame1, new_send_config_frame2, new_send_config_frame3, new_extended_frame,
  to_hex,
}
use pmu_data_analytics.MockServer.{
  Files, ServerConfig, SessionEvent, received, tick, Session, next, handle_command, handle_event,
  run_session, smallest_rate, positive_infinity, stream_interval, handle_client,
}
use pmu_data_analytics.MockServer.Commands.{handle_event-new_command}

-- What happens in a session: a command of the client, or the end of an interval.
pub data Request : Type 0 where
  turn_off turn_on send_header send_config1 send_config2 send_config3 extended : Request
  interval : Request

-- A positive rate above 2^-64, as the bits of a double.
abbrev pub IsRate : ℕ → Type 0
IsRate data_rate = (smallest_rate < data_rate) × (data_rate ≤ positive_infinity)

stream_interval-ok : (data_rate : ℕ) → IsRate data_rate → stream_interval data_rate ≡ ok tt
unfolding stream_interval
stream_interval-ok data_rate h = ground (arith, h.0, h.1)

-- The event at the socket: the whole command in one read. Every write succeeds.
abbrev pub event_of : ℕ → Request → SessionEvent
event_of idcode turn_off = received (to_hex (new_turn_off_transmission idcode)) true
event_of idcode turn_on = received (to_hex (new_turn_on_transmission idcode)) true
event_of idcode send_header = received (to_hex (new_send_header_frame idcode)) true
event_of idcode send_config1 = received (to_hex (new_send_config_frame1 idcode)) true
event_of idcode send_config2 = received (to_hex (new_send_config_frame2 idcode)) true
event_of idcode send_config3 = received (to_hex (new_send_config_frame3 idcode)) true
event_of idcode extended = received (to_hex (new_extended_frame idcode)) true
event_of idcode interval = tick true

-- Whether the last of the commands that turn the transmission on or off, in a history with the latest
-- first, turned it on.
abbrev pub turned_on : List Request → Bool
turned_on [] = false
turned_on (turn_on ∷ history) = true
turned_on (turn_off ∷ history) = false
turned_on (send_header ∷ history) = turned_on history
turned_on (send_config1 ∷ history) = turned_on history
turned_on (send_config2 ∷ history) = turned_on history
turned_on (send_config3 ∷ history) = turned_on history
turned_on (extended ∷ history) = turned_on history
turned_on (interval ∷ history) = turned_on history

abbrev pub file_or_nothing : Option Bytes → List Bytes
file_or_nothing none = []
file_or_nothing (some bytes) = bytes ∷ []

-- What is sent behind this history: the configuration for its command, a data frame for an interval
-- while turned on.
abbrev pub answer : Files → List Request → Request → List Bytes
answer files history send_config1 = file_or_nothing files.config_data
answer files history interval = if turned_on history then file_or_nothing files.data_frame else []
answer files history turn_off = []
answer files history turn_on = []
answer files history send_header = []
answer files history send_config2 = []
answer files history send_config3 = []
answer files history extended = []

-- The answers to all requests, and the history behind them.
abbrev pub answers : Files → List Request → List Request → List Bytes
answers files history [] = []
answers files history (request ∷ requests) =
    answer files history request ++ answers files (request ∷ history) requests

abbrev pub behind : List Request → List Request → List Request
behind history [] = history
behind history (request ∷ requests) = behind (request ∷ history) requests

-- A session with this history that has sent these bytes.
abbrev pub session_at : List Request → List Bytes → Session
session_at history sent = record { is_streaming = turned_on history; sent = sent }

module _ (build : Build) (files : Files) (idcode : ℕ) (small : idcode < 2 ^ 16) where
  -- A command that sends nothing.
  silent :
      (k : ℕ) (s : Session) (on : Bool)
      → k < 2 ^ 16
      → handle_command files k true s ≡ next (record s { is_streaming = on })
      → handle_event build files (received (to_hex (new_command idcode k)) true) s
        ≡ ok (next (record { is_streaming = on; sent = s.sent ++ [] }))
  silent k s on hk effect =
      handle_event-new_command build files idcode k true s small hk
      ∙ ap ok effect
      ∙ ap (λ sent. ok (next (record { is_streaming = on; sent = sent }))) (sym (append-nil s.sent))

  config_sent :
      (s : Session)
      → handle_command files 4 true s
        ≡ next (record s { sent = s.sent ++ file_or_nothing files.config_data })
  unfolding handle_command
  config_sent s = elim (Option-cases files.config_data) [
    | inl absent ↦
        rw absent (ap (λ sent. next (record s { sent = sent })) (sym (append-nil s.sent)))
    | inr (bytes, present) ↦ rw present refl
  ]

  data_sent :
      (history : List Request) (sent : List Bytes)
      → handle_event build files (tick true) (session_at history sent)
        ≡ ok (next (session_at history (sent ++ answer files history interval)))
  unfolding handle_event
  data_sent history sent =
      let same : session_at history sent ≡ session_at history (sent ++ []) =
        ap (session_at history) (sym (append-nil sent)) in
      elim (Bool-cases (turned_on history)) [
        | inl on ↦ elim (Option-cases files.data_frame) [
          | inl absent ↦ rw (on, absent) (ap (λ s. ok (next s)) (rw on at same))
          | inr (bytes, present) ↦ rw (on, present) refl
        ]
        | inr off ↦ rw off (ap (λ s. ok (next s)) (rw off at same))
      ]

  handle-answer :
      (history : List Request) (sent : List Bytes) (request : Request)
      → handle_event build files (event_of idcode request) (session_at history sent)
        ≡ ok (next (session_at (request ∷ history) (sent ++ answer files history request)))
  unfolding handle_command new_turn_off_transmission new_turn_on_transmission new_send_header_frame
      new_send_config_frame1 new_send_config_frame2 new_send_config_frame3 new_extended_frame
  handle-answer history sent turn_off = silent 1 (session_at history sent) false (omega arith) refl
  handle-answer history sent turn_on = silent 2 (session_at history sent) true (omega arith) refl
  handle-answer history sent send_header =
      silent 3 (session_at history sent) (turned_on history) (omega arith) refl
  handle-answer history sent send_config1 =
      handle_event-new_command build files idcode 4 true (session_at history sent) small
        (omega arith)
      ∙ ap ok (config_sent (session_at history sent))
  handle-answer history sent send_config2 =
      silent 5 (session_at history sent) (turned_on history) (omega arith) refl
  handle-answer history sent send_config3 =
      silent 6 (session_at history sent) (turned_on history) (omega arith) refl
  handle-answer history sent extended =
      silent 8 (session_at history sent) (turned_on history) (omega arith) refl
  handle-answer history sent interval = data_sent history sent

  pub run_session-answers :
      (history requests : List Request) (sent : List Bytes)
      → run_session build files (map (event_of idcode) requests) (next (session_at history sent))
        ≡ ok (next (session_at (behind history requests) (sent ++ answers files history requests)))
  unfolding run_session
  run_session-answers history [] sent =
      ap (λ bytes. ok (next (session_at history bytes))) (sym (append-nil sent))
  run_session-answers history (request ∷ requests) sent =
      let first : List Bytes = answer files history request in
      rw (handle-answer history sent request) (
        run_session-answers (request ∷ history) requests (sent ++ first)
        ∙ ap (λ bytes. ok (next (session_at (behind (request ∷ history) requests) bytes)))
            (append_assoc sent first (answers files (request ∷ history) requests)))

  -- The handler's data rate is above 2^-64. A client with a 16-bit idcode sends any of the seven
  -- commands, in any order, with intervals between them; each command arrives whole in a read of its
  -- own, and every write succeeds. Then the handler does not panic and goes on; it streams exactly if
  -- the last command that turns the transmission on or off turned it on; and it has sent, in order, the
  -- file of the configuration for each command for the first configuration frame, and the file of
  -- data for each interval behind which the transmission is on, where the file can be read.
  pub handle_client-answers :
      (config : ServerConfig) (requests : List Request)
      → IsRate config.data_rate
      → handle_client build files config (map (event_of idcode) requests)
        ≡ ok (next (session_at (behind [] requests) (answers files [] requests)))
  unfolding handle_client
  handle_client-answers config requests rate =
      rw (stream_interval-ok config.data_rate rate) (run_session-answers [] requests [])
