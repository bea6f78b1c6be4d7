-- ===== src/Eki/Tests.antt =====
-- Commands on concrete bridges, and the theorems there.
use kuka_iiqka_ros.Prelude.{ℕ, true, List, [], ◌∷◌, none, some, ◌≡◌, refl, arith}
use kuka_iiqka_ros.Prelude.Int.{pos}
use kuka_iiqka_ros.Double.Fixed.{Fixed, num, fixed_double}
use kuka_iiqka_ros.Eki.Session.{
  EkiStateFrame, EkiSessionConfig, accepted, no_frame6, no_state, begin_command, reset,
}
use kuka_iiqka_ros.Eki.Session.Answers.{Arrival, frame, bad_frame, look}
use kuka_iiqka_ros.Eki.Bridge.{
  start_rsi, stop_rsi, Bridge, constructed, execute_begin, execute_end, take_request, on_document,
  on_connected,
}
use kuka_iiqka_ros.Eki.Bridge.Answers.{stale_answer}

abbrev n : ℕ → Fixed
n k = num (pos k)

abbrev config : EkiSessionConfig Fixed
config = record { response_timeout_s = n 2; state_timeout_s = n 1 }

abbrev ack : ℕ → EkiStateFrame Fixed
ack seq = record no_state { ack_seq = seq; ack_ok = true; valid = true }

abbrev arrivals : List (Arrival Fixed)
arrivals = frame (ack 0) (n 10) ∷ bad_frame ∷ look (n 11) ∷ []

-- A start that was taken only when the link came up, and then given up by its `execute`.
abbrev given_up : Bridge Fixed
given_up =
    let asked = execute_begin (constructed config) start_rsi (pos 0) no_frame6 no_frame6 in
    (execute_end (take_request (on_connected asked) (n 2)).0).0

stale_answer_example :
    let (t, sent) =
      take_request (execute_begin given_up stop_rsi (pos 0) no_frame6 no_frame6) (n 3) in
    (sent ≡ none) × ((execute_end (on_document t (some (ack 1)) (n 4))).1.outcome ≡ accepted)
stale_answer_example =
    stale_answer given_up stop_rsi (pos 0) no_frame6 no_frame6 (n 3) (n 4) (ack 1)
      (unfold execute_end take_request on_connected execute_begin begin_command constructed reset in
        refl)
      (unfold execute_end take_request on_connected execute_begin begin_command constructed reset in
        omega arith)
      (unfold execute_end take_request on_connected execute_begin begin_command constructed reset in
        refl)
      refl
