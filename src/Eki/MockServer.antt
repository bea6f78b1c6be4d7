-- ===== src/Eki/MockServer.antt =====
-- `EkiMockServer` (src/eki_mock_server.cpp): the robot program's side of the management channel,
-- simulated. Each definition is a section under `mutex_`; the sockets stand outside.
mod Cuts
mod Safety
mod Execute
mod Tests
use kuka_iiqka_ros.Prelude.{
  ℕ, zero, suc, ◌+◌, Bool, true, false, not, ◌||◌, ◌==◌, leb, Option, none, some, List, [], ◌∷◌,
  ◌++◌, length, take, drop, if◌then◌else◌,
}
use kuka_iiqka_ros.Prelude.Int.{ℤ, pos, negsuc}
use kuka_iiqka_ros.Double.{Double, nought}
use kuka_iiqka_ros.Xml.{Xml, ◌>>=◌, value_or}
use kuka_iiqka_ros.Eki.Session.{Frame6, no_frame6, u64}
use kuka_iiqka_ros.Eki.Bridge.{
  EkiAction, query_state, start_rsi, stop_rsi, set_mode, reset_fault, get_tool, set_tool_base,
}
use kuka_iiqka_ros.Eki.Splitter.{find}

-- `kErrOk`, `kErrNotReady` and `kErrFaulted`.
abbrev pub err_ok : ℤ
err_ok = pos 0

abbrev pub err_not_ready : ℤ
err_not_ready = pos 1

abbrev pub err_faulted : ℤ
err_faulted = pos 2

-- What the behavior table reads and writes.
pub record Table (F : Type 0) : Type 0 where
  pub ready : Bool
  pub rsi_active : Bool
  pub has_fault : Bool
  pub mode : ℤ
  pub tool : Frame6 F

-- `connected` is `client_fd_ >= 0`.
pub record MockServer (F : Type 0) : Type 0 where
  pub connected : Bool
  pub rx_buffer : List ℕ
  pub commands : ℕ
  pub table : Table F
  pub respond_next : Bool

-- The values that a state frame is printed from.
pub record Report (F : Type 0) : Type 0 where
  pub ack_seq : ℕ
  pub ack_ok : Bool
  pub ack_code : ℤ
  pub table : Table F

-- A command that was parsed; an action that is `none` is a number that the enumeration has not.
pub record Command (F : Type 0) : Type 0 where
  pub seq : ℕ
  pub action : Option EkiAction
  pub value : ℤ
  pub tool : Frame6 F

-- `static_cast<EkiAction>`.
unfoldable pub to_action : ℤ → Option EkiAction
to_action (negsuc n) = none
to_action (pos n) =
    if n == 0
    then some query_state
    else if n == 1
    then some start_rsi
    else if n == 2
    then some stop_rsi
    else if n == 3
    then some set_mode
    else if n == 4
    then some reset_fault
    else if n == 5
    then some get_tool
    else if n == 6
    then some set_tool_base
    else none

-- The bytes of `</RobotCommand>`.
unfoldable pub cmd_end_tag : List ℕ
cmd_end_tag = 60 ∷ 47 ∷ 82 ∷ 111 ∷ 98 ∷ 111 ∷ 116 ∷ 67 ∷ 111 ∷ 109 ∷ 109 ∷ 97 ∷ 110 ∷ 100 ∷ 62 ∷ []

abbrev pub as_list : Option (List ℕ) → List (List ℕ)
as_list none = []
as_list (some bytes) = bytes ∷ []

-- The documents up to each end tag, in order, and the bytes that stay, with fuel for the loop.
abbrev with_document : List ℕ → Option (List (List ℕ) × List ℕ) → Option (List (List ℕ) × List ℕ)
with_document doc none = none
with_document doc (some (more, rest)) = some (doc ∷ more, rest)

unfoldable pub cut_loop : ℕ → List ℕ → Option (List (List ℕ) × List ℕ)
cut_loop zero buffer = none
cut_loop (suc fuel) buffer = elim (find cmd_end_tag buffer) [
  | none ↦ some ([], buffer)
  | some end ↦
      let doc_len = end + length cmd_end_tag in
      with_document (take doc_len buffer) (cut_loop fuel (drop doc_len buffer))
]

unfoldable pub cut : List ℕ → Option (List (List ℕ) × List ℕ)
cut buffer = cut_loop (suc (length buffer)) buffer

module _ {F : Type 0} where
  -- What the switch leaves in the table, and the answer.
  abbrev allow : Table F → Table F × Bool × ℤ
  allow t = (t, true, err_ok)

  abbrev deny : Table F → ℤ → Table F × Bool × ℤ
  deny t code = (t, false, code)

  unfoldable pub decide : Table F → Option EkiAction → Command F → Table F × Bool × ℤ
  decide t none cmd = allow t
  decide t (some start_rsi) cmd =
      if t.has_fault
      then deny t err_faulted
      else if not t.ready
      then deny t err_not_ready
      else allow (record t { rsi_active = true })
  decide t (some stop_rsi) cmd = allow (record t { rsi_active = false })
  decide t (some set_mode) cmd =
      if t.has_fault then deny t err_faulted else allow (record t { mode = cmd.value })
  decide t (some reset_fault) cmd = allow (record t { has_fault = false })
  decide t (some set_tool_base) cmd =
      if t.rsi_active then deny t err_not_ready else allow (record t { tool = cmd.tool })
  decide t (some get_tool) cmd = allow t
  decide t (some query_state) cmd = allow t

  -- `print` is what `snprintf` prints of the values; `none` is a frame that is not sent.
  unfoldable pub send_state : (Report F → List ℕ) → MockServer F → ℕ → Bool → ℤ → Option (List ℕ)
  send_state print s ack_seq ok code =
      let bytes =
        print (record { ack_seq = ack_seq; ack_ok = ok; ack_code = code; table = s.table }) in
      if not s.connected || length bytes == 0 || leb 1024 (length bytes) then none else some bytes

  unfoldable pub handle_command :
      (Report F → List ℕ) → MockServer F → Command F → MockServer F × Option (List ℕ)
  handle_command print s cmd =
      let counted = record s { commands = u64 (s.commands + 1) } in
      let (table, ok, code) = decide s.table cmd.action cmd in
      let t = record counted { table = table } in
      if not s.respond_next
      then (record counted { respond_next = true }, none)
      else (t, send_state print t cmd.seq ok code)

  -- The scripting surface.
  unfoldable pub drop_client : MockServer F → MockServer F
  drop_client s = record s { connected = false; rx_buffer = [] }

  unfoldable pub push_heartbeat : (Report F → List ℕ) → MockServer F → Option (List ℕ)
  push_heartbeat print s = send_state print s 0 true err_ok

  unfoldable pub set_ready : MockServer F → Bool → MockServer F
  set_ready s ready = record s { table = record (s.table) { ready = ready } }

  unfoldable pub inject_fault : MockServer F → MockServer F
  inject_fault s = record s { table = record (s.table) { has_fault = true; rsi_active = false } }

  unfoldable pub set_tool : MockServer F → Frame6 F → MockServer F
  set_tool s tool = record s { table = record (s.table) { tool = tool } }

  unfoldable pub set_respond_to_next : MockServer F → Bool → MockServer F
  set_respond_to_next s respond = record s { respond_next = respond }

  -- A client that `accept` gives.
  unfoldable pub on_accepted : MockServer F → MockServer F
  on_accepted s = record s { connected = true; rx_buffer = [] }

unfoldable pub constructed : {F : Type 0} → ⦃d : Double F⦄ → MockServer F
constructed = record {
  connected = false;
  rx_buffer = [];
  commands = 0;
  table = record {
    ready = true;
    rsi_active = false;
    has_fault = false;
    mode = pos 0;
    tool = no_frame6;
  };
  respond_next = true;
}

module _ {E F : Type 0} ⦃d : Double F⦄ (xml : Xml E F) where
  -- A coordinate that cannot be read keeps its initial value.
  unfoldable pub read_tool : E → Frame6 F
  read_tool e = record {
    x = value_or nought (xml.double_attribute e "X");
    y = value_or nought (xml.double_attribute e "Y");
    z = value_or nought (xml.double_attribute e "Z");
    a = value_or nought (xml.double_attribute e "A");
    b = value_or nought (xml.double_attribute e "B");
    c = value_or nought (xml.double_attribute e "C");
  }

  unfoldable pub parse_command : List ℕ → Option (Command F)
  parse_command bytes = do
    doc ← xml.parse bytes
    root ← xml.first_child doc "RobotCommand"
    cmd ← xml.first_child root "Cmd"
    tool ← xml.first_child root "Tool"
    seq ← xml.unsigned_attribute cmd "Seq"
    action ← xml.int_attribute cmd "Action"
    value ← xml.int_attribute cmd "Value"
    some (record { seq = seq; action = to_action action; value = value; tool = read_tool tool })

module _ {E F : Type 0} ⦃d : Double F⦄ (xml : Xml E F) (print : Report F → List ℕ) where
  unfoldable pub on_command : MockServer F → Option (Command F) → MockServer F × List (List ℕ)
  on_command s none = (s, [])
  on_command s (some cmd) = let (t, bytes) = handle_command print s cmd in (t, as_list bytes)

  -- The documents in order, and the frames that are sent.
  unfoldable pub on_documents : MockServer F → List (List ℕ) → MockServer F × List (List ℕ)
  on_documents s [] = (s, [])
  on_documents s (doc ∷ docs) =
      let (t, out) = on_command s (parse_command xml doc) in
      let (u, more) = on_documents t docs in (u, out ++ more)

  -- What `recv` gives; no bytes are a client that is gone, or an error.
  unfoldable pub on_received : MockServer F → List ℕ → MockServer F × List (List ℕ)
  on_received s [] = (drop_client s, [])
  on_received s (byte ∷ bytes) = elim (cut (s.rx_buffer ++ (byte ∷ bytes))) [
    | none ↦ (s, [])
    | some r ↦ let (t, out) = on_documents s r.0 in (record t { rx_buffer = r.1 }, out)
  ]
