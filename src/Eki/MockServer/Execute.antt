-- ===== src/Eki/MockServer/Execute.antt =====
-- `execute` of the bridge against the simulated robot program.
use kuka_iiqka_ros.Prelude.{
  ℕ, ◌+◌, Bool, true, false, not, ◌||◌, List, [], ◌∷◌, ◌++◌, Option, none, some, length, ◌≡◌, refl,
  arith, ap, sym, ◌∙◌, if◌then◌else◌,
}
use kuka_iiqka_ros.Prelude.Int.{ℤ}
use kuka_iiqka_ros.Double.{Double}
use kuka_iiqka_ros.Xml.{Xml}
use kuka_iiqka_ros.Eki.Session.{Frame6, EkiStateFrame, accepted, rejected, begin_command, on_state}
use kuka_iiqka_ros.Eki.Bridge.{
  EkiAction, query_state, start_rsi, stop_rsi, set_mode, reset_fault, get_tool, set_tool_base,
  EkiCommand, Bridge, resolve, execute_begin, take_request, on_document, execute_end,
}
use kuka_iiqka_ros.Eki.Bridge.Answers.{IsNumbered, execute-answered}
use kuka_iiqka_ros.Eki.Splitter.{find}
use kuka_iiqka_ros.Eki.MockServer.{
  as_list, Table, MockServer, Report, Command, cmd_end_tag, cut, decide, send_state, handle_command,
  parse_command, on_command, on_documents, on_received,
}
use kuka_iiqka_ros.Eki.MockServer.Cuts.{cut-one}

module _ {F : Type 0} where
  -- What a robot program does with an action, abstractly: `none` is one that it refuses.
  unfoldable pub perform : Table F → EkiAction → ℤ → Frame6 F → Option (Table F)
  perform t start_rsi value tool =
      if t.has_fault || not t.ready then none else some (record t { rsi_active = true })
  perform t stop_rsi value tool = some (record t { rsi_active = false })
  perform t set_mode value tool = if t.has_fault then none else some (record t { mode = value })
  perform t reset_fault value tool = some (record t { has_fault = false })
  perform t get_tool value tool = some t
  perform t set_tool_base value tool =
      if t.rsi_active then none else some (record t { tool = tool })
  perform t query_state value tool = some t

  -- The frame that the bridge reads says what was printed.
  pub record Says (r : Report F) (f : EkiStateFrame F) : Type 0 where
    pub seq : f.ack_seq ≡ r.ack_seq
    pub ok : f.ack_ok ≡ r.ack_ok
    pub code : f.ack_code ≡ r.ack_code
    pub rsi_active : f.rsi_active ≡ r.table.rsi_active

  -- The table after an action that may be refused.
  abbrev pub after : Table F → Option (Table F) → Table F
  after t none = t
  after t (some u) = u

  abbrev pub is_done : Option (Table F) → Bool
  is_done none = false
  is_done (some u) = true

  decide-perform :
      (t : Table F) (action : EkiAction) (cmd : Command F)
      → let done = perform t action cmd.value cmd.tool in
        let (u, ok, code) = decide t (some action) cmd in (u ≡ after t done) × (ok ≡ is_done done)
  unfolding decide perform
  decide-perform t start_rsi cmd = ground arith
  decide-perform t stop_rsi cmd = ground arith
  decide-perform t set_mode cmd = ground arith
  decide-perform t reset_fault cmd = ground arith
  decide-perform t get_tool cmd = ground arith
  decide-perform t set_tool_base cmd = ground arith
  decide-perform t query_state cmd = ground arith

  abbrev pub as_command : EkiCommand F → Command F
  as_command c = record { seq = c.seq; action = some c.action; value = c.value; tool = c.tool }

  handle_command-answered :
      (print : Report F → List ℕ) (s : MockServer F) (c : EkiCommand F) (answer : List ℕ)
      → as_list (handle_command print s (as_command c)).1 ++ [] ≡ answer ∷ []
      → let (u, ok, code) = decide s.table (some c.action) (as_command c) in
        ((handle_command print s (as_command c)).0.table ≡ u)
        × (print (record { ack_seq = c.seq; ack_ok = ok; ack_code = code; table = u }) ≡ answer)
  unfolding handle_command send_state
  handle_command-answered print s c answer e = ground arith

module _ {E F : Type 0} ⦃d : Double F⦄ (xml : Xml E F) (print : Report F → List ℕ) where
  on_received-one :
      (s : MockServer F) (c : EkiCommand F) (bytes : List ℕ) (end : ℕ)
      → s.rx_buffer ≡ []
      → find cmd_end_tag bytes ≡ some end
      → end + 15 ≡ length bytes
      → parse_command xml bytes ≡ some (as_command c)
      → let (t, out) = handle_command print s (as_command c) in
        on_received xml print s bytes ≡ (record t { rx_buffer = [] }, as_list out ++ [])
  unfolding on_received on_documents on_command
  on_received-one s c [] end empty found whole parsed = ground arith
  on_received-one s c (byte ∷ bytes) end empty found whole parsed =
      let cuts : cut (s.rx_buffer ++ (byte ∷ bytes)) ≡ some ((byte ∷ bytes) ∷ [], []) =
        rw empty (cut-one (byte ∷ bytes) end found whole) in
      rw (cuts, on_received) (rw parsed refl)

  execute-state :
      (b : Bridge F) (action : EkiAction) (value : ℤ) (tool base : Frame6 F) (since_s now_s : F)
      (f : EkiStateFrame F)
      → IsNumbered b
      → b.session.pending ≡ false
      → f.ack_seq ≡ b.next_seq
      → let (t, sent) = take_request (execute_begin b action value tool base) since_s in
        (execute_end (on_document t (some f) now_s)).1.state ≡ f
  unfolding execute_begin take_request begin_command on_document on_state resolve execute_end
  execute-state b action value tool base since_s now_s f n idle e =
      let z = n.not_zero in ground arith

  -- The bridge and the simulated robot program together refine the abstract table of actions. With no
  -- command in flight, where the program reads the command that the bridge sends as it was sent, alone
  -- in its buffer, and answers, and the bridge reads what the program printed: `execute` returns
  -- accepted exactly when the action is performed, and rejected when it is refused; the table is
  -- after it what the action makes of it, or as before; and the state that `execute` returns says
  -- whether the program then servoes.
  pub execute-performs :
      (b : Bridge F) (action : EkiAction) (value : ℤ) (tool base : Frame6 F) (since_s now_s : F)
      (s : MockServer F) (bytes answer : List ℕ) (end : ℕ) (f : EkiStateFrame F)
      → IsNumbered b
      → b.session.pending ≡ false
      → s.rx_buffer ≡ []
      → find cmd_end_tag bytes ≡ some end
      → end + 15 ≡ length bytes
      → parse_command xml bytes ≡ some (as_command (execute_begin b action value tool base).req_cmd)
      → (on_received xml print s bytes).1 ≡ answer ∷ []
      → ((r : Report F) → print r ≡ answer → Says r f)
      → let c = execute_begin b action value tool base in
        let (t, sent) = take_request c since_s in
        let (u, r) = execute_end (on_document t (some f) now_s) in
        let table = (on_received xml print s bytes).0.table in
        let done = perform s.table action value tool in
        (sent ≡ some c.req_cmd)
        × (r.outcome ≡ (if is_done done then accepted else rejected))
        × (table ≡ after s.table done)
        × (r.state.rsi_active ≡ table.rsi_active)
  unfolding execute_begin
  execute-performs b action value tool base since_s now_s s bytes answer end f n idle empty found
        whole parsed answers says =
      let c = (execute_begin b action value tool base).req_cmd in
      let one = on_received-one s c bytes end empty found whole parsed in
      let (u, ok, code) = decide s.table (some action) (as_command c) in
      let table_is : (on_received xml print s bytes).0.table
          ≡ (handle_command print s (as_command c)).0.table =
        ap (λ (q : MockServer F × List (List ℕ)). q.0.table) one in
      let (made, printed) =
        handle_command-answered print s c answer
          (sym (ap (λ (q : MockServer F × List (List ℕ)). q.1) one) ∙ answers) in
      let said =
        says (record { ack_seq = c.seq; ack_ok = ok; ack_code = code; table = u }) printed in
      let (decided, allowed) = decide-perform s.table action (as_command c) in
      let numbered : f.ack_seq ≡ b.next_seq = said.seq in
      let (sent, outcome, error, idle_after, free) =
        execute-answered b action value tool base since_s now_s f n idle numbered in
      let state = execute-state b action value tool base since_s now_s f n idle numbered in
      let is_allowed : f.ack_ok ≡ is_done (perform s.table action value tool) = said.ok ∙ allowed in
      let table : (on_received xml print s bytes).0.table ≡ u = table_is ∙ made in
      (
        sent,
        outcome ∙ ap (λ (a : Bool). if a then accepted else rejected) is_allowed,
        table ∙ decided,
        ap (λ (g : EkiStateFrame F). g.rsi_active) state
            ∙ said.rsi_active
            ∙ ap (λ (t : Table F). t.rsi_active) (sym table),
      )
