-- ===== src/Eki/MockServer/Safety.antt =====
-- The simulated robot program in sequences of events.
use kuka_iiqka_ros.Prelude.{
  ℕ, Bool, false, ◌&&◌, List, [], ◌∷◌, ◌++◌, Option, none, some, ◌≡◌, refl, arith, inl, inr,
  Option-cases,
}
use kuka_iiqka_ros.Double.{Double}
use kuka_iiqka_ros.Xml.{Xml}
use kuka_iiqka_ros.Eki.Session.{Frame6}
use kuka_iiqka_ros.Eki.Bridge.{
  EkiAction, query_state, start_rsi, stop_rsi, set_mode, reset_fault, get_tool, set_tool_base,
}
use kuka_iiqka_ros.Eki.MockServer.{
  Table, MockServer, Report, Command, decide, handle_command, drop_client, set_ready, inject_fault,
  set_tool, set_respond_to_next, on_accepted, constructed, parse_command, on_command, on_documents,
  on_received, cut,
}

-- What happens to the simulated program: a call of its scripting surface, a client that connects, or
-- bytes that it receives.
pub data Event (F : Type 0) : Type 0 where
  drops accepts faults : Event F
  is_ready responds : Bool → Event F
  tools : Frame6 F → Event F
  gets : List ℕ → Event F

-- No servoing in a fault.
abbrev pub IsSafe : {F : Type 0} → Table F → Type 0
IsSafe t = (t.has_fault && t.rsi_active) ≡ false

module _ {F : Type 0} where
  decide-IsSafe :
      (t : Table F) (action : Option EkiAction) (cmd : Command F)
      → IsSafe t
      → IsSafe (decide t action cmd).0
  unfolding decide
  decide-IsSafe t none cmd h = h
  decide-IsSafe t (some start_rsi) cmd h = ground arith
  decide-IsSafe t (some stop_rsi) cmd h = ground arith
  decide-IsSafe t (some set_mode) cmd h = ground arith
  decide-IsSafe t (some reset_fault) cmd h = ground arith
  decide-IsSafe t (some set_tool_base) cmd h = ground arith
  decide-IsSafe t (some get_tool) cmd h = h
  decide-IsSafe t (some query_state) cmd h = h

  handle_command-IsSafe :
      (print : Report F → List ℕ) (s : MockServer F) (cmd : Command F)
      → IsSafe s.table
      → IsSafe (handle_command print s cmd).0.table
  unfolding handle_command
  handle_command-IsSafe print s cmd h = ground (arith, decide-IsSafe s.table cmd.action cmd h)

module _ {E F : Type 0} ⦃d : Double F⦄ (xml : Xml E F) (print : Report F → List ℕ) where
  on_command-IsSafe :
      (s : MockServer F) (o : Option (Command F))
      → IsSafe s.table
      → IsSafe (on_command xml print s o).0.table
  unfolding on_command
  on_command-IsSafe s none h = h
  on_command-IsSafe s (some cmd) h = handle_command-IsSafe print s cmd h

  on_documents-IsSafe :
      (s : MockServer F) (docs : List (List ℕ))
      → IsSafe s.table
      → IsSafe (on_documents xml print s docs).0.table
  unfolding on_documents
  on_documents-IsSafe s [] h = h
  on_documents-IsSafe s (doc ∷ docs) h =
      on_documents-IsSafe (on_command xml print s (parse_command xml doc)).0 docs
        (on_command-IsSafe s (parse_command xml doc) h)

  on_received-IsSafe :
      (s : MockServer F) (bytes : List ℕ)
      → IsSafe s.table
      → IsSafe (on_received xml print s bytes).0.table
  unfolding on_received drop_client
  on_received-IsSafe s [] h = h
  on_received-IsSafe s (byte ∷ bytes) h =
      elim (Option-cases (cut (s.rx_buffer ++ (byte ∷ bytes)))) [
        | inl absent ↦ rw (absent, on_received) h
        | inr (r, found) ↦ rw (found, on_received) (on_documents-IsSafe s r.0 h)
      ]

  unfoldable pub step : MockServer F → Event F → MockServer F
  step s drops = drop_client s
  step s accepts = on_accepted s
  step s faults = inject_fault s
  step s (is_ready ready) = set_ready s ready
  step s (responds respond) = set_respond_to_next s respond
  step s (tools tool) = set_tool s tool
  step s (gets bytes) = (on_received xml print s bytes).0

  abbrev pub run : MockServer F → List (Event F) → MockServer F
  run s [] = s
  run s (e ∷ es) = run (step s e) es

  step-IsSafe : (s : MockServer F) (e : Event F) → IsSafe s.table → IsSafe (step s e).table
  unfolding step drop_client on_accepted inject_fault set_ready set_respond_to_next set_tool
  step-IsSafe s drops h = h
  step-IsSafe s accepts h = h
  step-IsSafe s faults h = refl
  step-IsSafe s (is_ready ready) h = h
  step-IsSafe s (responds respond) h = h
  step-IsSafe s (tools tool) h = h
  step-IsSafe s (gets bytes) h = on_received-IsSafe s bytes h

  run-IsSafe : (s : MockServer F) (es : List (Event F)) → IsSafe s.table → IsSafe (run s es).table
  run-IsSafe s [] h = h
  run-IsSafe s (e ∷ es) h = run-IsSafe (step s e) es (step-IsSafe s e h)

  constructed-IsSafe : IsSafe (constructed {F = F}).table
  unfolding constructed
  constructed-IsSafe = refl

  -- The simulated robot program never servoes in a fault: not at its start, nor after any sequence of
  -- calls of its scripting surface, connections and received bytes, whatever commands stand in them.
  pub run-constructed : (es : List (Event F)) → IsSafe (run constructed es).table
  run-constructed es = run-IsSafe constructed es constructed-IsSafe
