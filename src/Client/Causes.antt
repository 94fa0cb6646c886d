-- ===== src/Client/Causes.antt =====
-- Why the client's loop has ended.
use native.Mathlib.Decide.{dec_lt}
use pmu_data_analytics.Base.{
  ℕ, ◌+◌, ◌≡◌, refl, sym, ap, subst, ◌∙◌, ◌⊎◌, inl, inr, true, Bool-cases, Run, ok, List, [], ◌∷◌,
  ◌++◌, append_assoc, through, All, All-append, arith,
}
use pmu_data_analytics.Client.{PdcClient}
use pmu_data_analytics.Client.Stream.{
  stop, get_buffer, Event, control, incoming, Streaming, Next, going, broken, handle, run_loop,
  finish, started, start_stream,
}
use pmu_data_analytics.Client.Ready.{IsReady, SameSetup-refl}
use pmu_data_analytics.Client.Runs.{IsSound, IsSound-later, InOrder, get_buffer-Steps}
use pmu_data_analytics.Client.Steps.{delivers, IsFailure, reads, failure-step, frame-step}
use pmu_data_analytics.Client.Ends.{HasStop, HasTenFailures, few_errors}

abbrev Cause : ℕ → List Event → List Event → Type 0
Cause n past events = HasStop events ⊎ HasTenFailures n (past ++ events)

-- A `Stop` further on.
HasStop-cons : (event : Event) (events : List Event) → HasStop events → HasStop (event ∷ events)
HasStop-cons event events (before, after, split) =
    (event ∷ before, after, ap (λ es. event ∷ es) split)

reads-append : (xs ys : List Event) → reads (xs ++ ys) ≡ reads xs + reads ys
reads-append [] ys = omega arith
reads-append (control message ∷ xs) ys = reads-append xs ys
reads-append (incoming time result ∷ xs) ys = omega (arith, reads-append xs ys)

-- The block so far is one event longer.
Cause-longer :
    (n : ℕ) (past : List Event) (event : Event) (events : List Event)
    → Cause n (past ++ (event ∷ [])) events
    → Cause n past (event ∷ events)
Cause-longer n past event events (inl stopped) = inl (HasStop-cons event events stopped)
Cause-longer n past event events (inr failed) =
    inr (subst (HasTenFailures n) (append_assoc past (event ∷ []) events) failed)

-- A new block begins behind a whole frame.
Cause-fresh :
    (n : ℕ) (past : List Event) (event : Event) (events : List Event)
    → Cause n [] events
    → Cause n past (event ∷ events)
Cause-fresh n past event events (inl stopped) = inl (HasStop-cons event events stopped)
Cause-fresh n past event events (inr (before, block, after, split, fails, many)) = inr (
  past ++ (event ∷ before),
  block,
  after,
  ap (λ es. past ++ (event ∷ es)) split ∙ sym (append_assoc past (event ∷ before) (block ++ after)),
  fails,
  many,
)

abbrev returns : Next → Run Next
returns next = ok next

going-no : (s end : Streaming) → returns (going s) ≡ ok (broken end) → ⊥
going-no s end e = cc

finish-broken :
    (next : Next) (end : Streaming)
    → returns (finish next) ≡ ok (broken end)
    → (s : Streaming) × (returns next ≡ ok (broken s))
finish-broken (going s) end e = absurd (going-no s end e)
finish-broken (broken s) end e = (s, refl)

ended-Cause :
    (now : ℕ) (client : PdcClient) (past events : List Event) (s end : Streaming)
    → InOrder now events
    → IsSound now client s
    → All (IsFailure client.frame_size) past
    → s.consecutive_errors ≡ reads past
    → run_loop events (going s) ≡ ok (broken end)
    → Cause client.frame_size past events
unfolding run_loop handle
ended-Cause now client past [] s end order h fails count ended = absurd (going-no s end ended)
ended-Cause now client past (control stop ∷ events) s end order h fails count ended =
    inl ([], events, refl)
ended-Cause now client past (control get_buffer ∷ events) s end order h fails count ended =
    let event : Event = control get_buffer in
    let (next, e, errors, sound) = get_buffer-Steps now client s h in
    Cause-longer client.frame_size past event events (
      ended-Cause now client (past ++ (event ∷ [])) events next end order sound
        (All-append (IsFailure client.frame_size) past (event ∷ []) fails (refl, tt))
        (omega (arith, errors, count, reads-append past (event ∷ []))) (rw e at ended))
ended-Cause now client past (incoming time result ∷ events) s end order h fails count ended =
    let event : Event = incoming time result in
    let sound = IsSound-later now time client s order.0 h in
    elim (Bool-cases (delivers client.frame_size result)) [
      | inl whole ↦
          let (after, e, errors, sound_after) = frame-step time client result s sound whole in
          Cause-fresh client.frame_size past event events (
            ended-Cause time client [] events after end order.1 sound_after tt errors
              (rw e at ended))
      | inr failed ↦
          let (after, e, errors, sound_after) = failure-step time client result s sound failed in
          let longer =
            All-append (IsFailure client.frame_size) past (event ∷ []) fails (failed, tt) in
          let count_longer : after.consecutive_errors ≡ reads (past ++ (event ∷ [])) =
            omega (arith, errors, count, reads-append past (event ∷ [])) in
          elim (dec_lt after.consecutive_errors 10) [
            | yes still_few ↦ Cause-longer client.frame_size past event events (
                ended-Cause time client (past ++ (event ∷ [])) events after end order.1 sound_after
                  longer count_longer (rw (e, few_errors after still_few) at ended))
            | no enough ↦ inr (
              [],
              past ++ (event ∷ []),
              events,
              sym (append_assoc past (event ∷ []) events),
              longer,
              omega (arith, count_longer),
            )
          ]
    ]

-- From a client that is ready, with a clock that does not go back and the first command written: a
-- stream that has ended has seen a `Stop`, or ten reads in a row without a whole frame and with
-- nothing but `GetBuffer` messages between them.
pub start_stream_ended :
    (now : ℕ) (client : PdcClient) (events : List Event) (end : Streaming)
    → IsReady now client
    → InOrder now events
    → start_stream true events client ≡ ok (broken end)
    → HasStop events ⊎ HasTenFailures client.frame_size events
unfolding start_stream
start_stream_ended now client events end h order ended =
    let (next, e, last) = through {step = run_loop events (going (started client))} ended in
    let (before_finish, e₂) = finish-broken next end last in
    ended-Cause now client [] events (started client) before_finish order
      (record { ready = h; same = SameSetup-refl client; all_whole = (tt, tt) }) tt refl (rw e e₂)
