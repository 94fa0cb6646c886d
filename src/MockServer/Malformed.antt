-- ===== src/MockServer/Malformed.antt =====
-- Reads that end the handler's task with a panic.
use pmu_data_analytics.Base.{
  ℕ, ◌^◌, ◌<◌, ◌≡◌, ◌≢◌, bind_split, refl, sym, ap, ◌∙◌, ◌⊎◌, inl, inr, Bool, Bool-cases, ok, panic,
  ◌>>=◌, List, [], ◌∷◌, ◌++◌, map, All, none, arith,
}
use pmu_data_analytics.Base.Bytes.{Bytes}
use pmu_data_analytics.Base.Bytes.Bounds.{u16_at-panic}
use pmu_data_analytics.Base.Words.{Build}
use pmu_data_analytics.Frames.Crc.Detect.{IsByte}
use pmu_data_analytics.Parser.Errors.{ParseError}
use pmu_data_analytics.Parser.Dispatch.{parse_frame, parse_by_type, parse_header, frame_type_of}
use pmu_data_analytics.Parser.Dispatch.Checks.{body_of, IsFramed, seal, parse_frame-seal}
use pmu_data_analytics.MockServer.{
  Files, ServerConfig, has_interval, stream_interval, SessionEvent, received, Session, new_session,
  Round, next, disconnected, failed, handle_event, run_session, handle_client,
}
use pmu_data_analytics.MockServer.Sessions.{
  Request, event_of, behind, answers, session_at, run_session-answers,
}

-- A single byte.
abbrev pub IsSingle : Bytes → Type 0
IsSingle bytes = (b : ℕ) × (bytes ≡ b ∷ [])

-- A header frame, sealed with its size and its checksum.
abbrev pub IsHeaderFrame : Bytes → Type 0
IsHeaderFrame bytes =
    (second : ℕ) × (f₀ : ℕ) × (f₁ : ℕ) × (rest : Bytes) × (bytes ≡ seal (body_of second f₀ f₁ rest))
    × IsFramed second f₀ f₁ rest
    × All IsByte (body_of second f₀ f₁ rest)
    × (frame_type_of second ≡ 1)

header-panic :
    (build : Build) (kind : ℕ) (buffer : Bytes)
    → kind ≡ 1
    → parse_by_type build kind buffer none ≡ panic
unfolding parse_by_type parse_header
header-panic build kind buffer e = rw e refl

single-panic : (build : Build) (b : ℕ) → parse_frame build (b ∷ []) none ≡ panic
unfolding parse_frame
single-panic build b = rw (u16_at-panic {E = ParseError} (b ∷ []) 0 (omega arith)) refl

-- Either is not empty, and the parser panics on it.
fatal-panic :
    (build : Build) (bytes : Bytes)
    → IsSingle bytes ⊎ IsHeaderFrame bytes
    → (b : ℕ) × (rest : Bytes) × (bytes ≡ b ∷ rest) × (parse_frame build bytes none ≡ panic)
fatal-panic build bytes (inl (b, e)) =
    (b, [], e, ap (λ t. parse_frame build t none) e ∙ single-panic build b)
fatal-panic build bytes (inr (second, f₀, f₁, rest, e, framed, all, kind)) = (
  _,
  _,
  e,
  ap (λ t. parse_frame build t none) e
      ∙ parse_frame-seal build second f₀ f₁ none rest framed all
      ∙ header-panic build (frame_type_of second) (seal (body_of second f₀ f₁ rest)) kind,
)

run_session-over :
    (build : Build) (files : Files) (events : List SessionEvent) (round : Round)
    → ((s : Session) → round ≢ next s)
    → run_session build files events round ≡ ok round
unfolding run_session
run_session-over build files [] round over = refl
run_session-over build files (event ∷ events) (next s) over = absurd (over s refl)
run_session-over build files (event ∷ events) (disconnected s) over = refl
run_session-over build files (event ∷ events) (failed s) over = refl

run_session-append :
    (build : Build) (files : Files) (xs ys : List SessionEvent) (round : Round)
    → run_session build files (xs ++ ys) round
      ≡ (run_session build files xs round >>= run_session build files ys)
unfolding run_session
run_session-append build files [] ys round = refl
run_session-append build files (x ∷ xs) ys (disconnected s) =
    sym (run_session-over build files ys (disconnected s) (λ t e. cc))
run_session-append build files (x ∷ xs) ys (failed s) =
    sym (run_session-over build files ys (failed s) (λ t e. cc))
run_session-append build files (x ∷ xs) ys (next s) =
    bind_split (handle_event build files x s) (run_session build files (xs ++ ys))
      (run_session build files xs) (run_session build files ys)
      (run_session-append build files xs ys)

fatal-event :
    (build : Build) (files : Files) (bytes : Bytes) (written : Bool) (s : Session)
    → IsSingle bytes ⊎ IsHeaderFrame bytes
    → run_session build files (received bytes written ∷ []) (next s) ≡ panic
unfolding run_session handle_event
fatal-event build files bytes written s fatal =
    let (b, rest, e, panics) = fatal-panic build bytes fatal in
    let panics_split : parse_frame build (b ∷ rest) none ≡ panic =
      ap (λ t. parse_frame build t none) (sym e) ∙ panics in
    rw (e, panics_split) refl

-- Whatever the handler's data rate, behind any commands of a client with a 16-bit idcode, each whole in
-- a read of its own, the handler panics when a read gives a single byte, and when it gives a header
-- frame with its own size and checksum.
pub handle_client-panics :
    (build : Build) (files : Files) (config : ServerConfig) (idcode : ℕ) (requests : List Request)
    (bytes : Bytes) (written : Bool)
    → idcode < 2 ^ 16
    → IsSingle bytes ⊎ IsHeaderFrame bytes
    → handle_client build files config
        (map (event_of idcode) requests ++ (received bytes written ∷ []))
      ≡ panic
unfolding handle_client stream_interval
handle_client-panics build files config idcode requests bytes written small fatal =
    let before : List SessionEvent = map (event_of idcode) requests in
    let loop_panics =
      run_session-append build files before (received bytes written ∷ []) (next new_session)
      ∙ rw (run_session-answers build files idcode small [] requests []) (
          fatal-event build files bytes written
            (session_at (behind [] requests) (answers files [] requests)) fatal) in
    elim (Bool-cases (has_interval config.data_rate)) [
      | inl computed ↦ rw computed loop_panics
      | inr too_long ↦ rw too_long refl
    ]
