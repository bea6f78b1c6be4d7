-- ===== src/Eki/Bridge/Answers.antt =====
-- What `execute` returns for the frames that come.
use kuka_iiqka_ros.Prelude.{◌<◌, true, false, none, some, ◌≡◌, ◌≢◌, arith, if◌then◌else◌}
use kuka_iiqka_ros.Prelude.Int.{ℤ, pos}
use kuka_iiqka_ros.Double.{Double}
use kuka_iiqka_ros.Eki.Session.{Frame6, EkiStateFrame, accepted, rejected, begin_command, on_state}
use kuka_iiqka_ros.Eki.Bridge.{
  EkiAction, Bridge, resolve, execute_begin, take_request, on_document, execute_end,
}

module _ {F : Type 0} ⦃d : Double F⦄ where
  -- The numbers that commands get.
  pub record IsNumbered (b : Bridge F) : Type 0 where
    pub not_zero : b.next_seq ≢ 0
    pub in_range : b.next_seq < 4294967296

  -- A command takes the next number, which is not 0, the number of a heartbeat; the number after it
  -- is another one, and neither 0 nor out of range.
  execute_begin-IsNumbered :
      (b : Bridge F) (action : EkiAction) (value : ℤ) (tool base : Frame6 F)
      → IsNumbered b
      → let c = execute_begin b action value tool base in
        IsNumbered c × (c.req_cmd.seq ≢ 0) × (c.next_seq ≢ c.req_cmd.seq)
  unfolding execute_begin
  execute_begin-IsNumbered b action value tool base n = ground arith

  -- With no command in flight, `execute` on a live link sends its command, and the frame with its
  -- number makes it return: accepted with code 0, or rejected with the code of the frame.
  pub execute-answered :
      (b : Bridge F) (action : EkiAction) (value : ℤ) (tool base : Frame6 F) (since_s now_s : F)
      (f : EkiStateFrame F)
      → IsNumbered b
      → b.session.pending ≡ false
      → f.ack_seq ≡ b.next_seq
      → let c = execute_begin b action value tool base in
        let (t, sent) = take_request c since_s in
        let (u, r) = execute_end (on_document t (some f) now_s) in
        (sent ≡ some c.req_cmd)
        × (r.outcome ≡ (if f.ack_ok then accepted else rejected))
        × (r.error_code ≡ (if f.ack_ok then pos 0 else f.ack_code))
        × (u.session.pending ≡ false)
        × (u.req_active ≡ false)
  unfolding execute_begin take_request begin_command on_document on_state resolve execute_end
  execute-answered b action value tool base since_s now_s f n idle e =
      let z = n.not_zero in ground arith

  -- Where a command is still in flight whose `execute` has given up, the next `execute` sends
  -- nothing, and a frame with the old number makes it return accepted, if the frame is.
  pub stale_answer :
      (b : Bridge F) (action : EkiAction) (value : ℤ) (tool base : Frame6 F) (since_s now_s : F)
      (f : EkiStateFrame F)
      → b.session.pending ≡ true
      → b.session.pending_seq ≢ 0
      → f.ack_seq ≡ b.session.pending_seq
      → f.ack_ok ≡ true
      → let (t, sent) = take_request (execute_begin b action value tool base) since_s in
        (sent ≡ none) × ((execute_end (on_document t (some f) now_s)).1.outcome ≡ accepted)
  unfolding execute_begin take_request begin_command on_document on_state resolve execute_end
  stale_answer b action value tool base since_s now_s f p z e ok = ground arith
