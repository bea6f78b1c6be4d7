-- ===== src/Rsi/Mock.antt =====
-- `RsiMockCore` (src/rsi_mock_core.cpp): the robot controller's side of the RSI channel, simulated, and
-- the window in which its server waits for a reply (`receiveReplyWindow` of src/rsi_mock_server.cpp).
mod Loop
mod Tests
use kuka_iiqka_ros.Prelude.{
  ℕ, ◌+◌, ◌-◌, ◌%◌, Bool, true, false, not, ◌&&◌, ◌||◌, ◌==◌, leb, List, [], ◌∷◌, length, Option,
  none, some, String, if◌then◌else◌,
}
use kuka_iiqka_ros.Prelude.Int.{ℤ, pos, negsuc}
use kuka_iiqka_ros.Double.{Double, nought, ◌⊕◌}
use kuka_iiqka_ros.Sfc.Types.{CartesianState}
use kuka_iiqka_ros.Xml.{Xml, ◌>>=◌, value_or}
use kuka_iiqka_ros.Rsi.Monitor.{u64}

pub record MockConfig (F : Type 0) : Type 0 where
  pub start : CartesianState F
  pub ipoc_start : ℕ
  pub ipoc_step : ℕ

pub record MockStats : Type 0 where
  pub frames_sent : ℕ
  pub replies_received : ℕ
  pub reply_timeouts : ℕ
  pub ipoc_echo_errors : ℕ
  pub parse_errors : ℕ
  pub last_stop : ℤ
  pub last_watchdog : ℕ

pub record Mock (F : Type 0) : Type 0 where
  pub pose : CartesianState F
  pub next_ipoc : ℕ
  pub ipoc_step : ℕ
  pub awaited_ipoc : ℕ
  pub awaiting : Bool
  pub stats : MockStats

-- `static_cast<std::uint64_t>`.
abbrev pub to_u64 : ℤ → ℕ
to_u64 (pos n) = u64 n
to_u64 (negsuc n) = 18446744073709551615 - u64 n

unfoldable pub constructed : {F : Type 0} → MockConfig F → Mock F
constructed cfg = record {
  pose = cfg.start;
  next_ipoc = cfg.ipoc_start;
  ipoc_step = cfg.ipoc_step;
  awaited_ipoc = 0;
  awaiting = false;
  stats = record {
    frames_sent = 0;
    replies_received = 0;
    reply_timeouts = 0;
    ipoc_echo_errors = 0;
    parse_errors = 0;
    last_stop = pos 0;
    last_watchdog = 0;
  };
}

unfoldable pub note_reply_timeout : {F : Type 0} → Mock F → Mock F
note_reply_timeout s = record s {
  stats = record (s.stats) { reply_timeouts = u64 (s.stats.reply_timeouts + 1) };
}

unfoldable pub set_pose : {F : Type 0} → Mock F → CartesianState F → Mock F
set_pose s pose = record s { pose = pose }

-- `print` is what `snprintf` prints of the pose and the IPOC.
unfoldable pub build_state_frame :
    {F : Type 0} → (CartesianState F → ℕ → List ℕ) → Mock F → ℕ → Mock F × Option (List ℕ)
build_state_frame print s size =
    let bytes = print s.pose s.next_ipoc in
    let n = length bytes in
    if n == 0 || leb size n then (s, none) else (
      record s {
        awaited_ipoc = s.next_ipoc;
        awaiting = true;
        next_ipoc = u64 (s.next_ipoc + s.ipoc_step);
        stats = record (s.stats) { frames_sent = u64 (s.stats.frames_sent + 1) };
      },
      some bytes,
    )

-- The parts of a reply that must be there: `Sen`, `RKorr` and the IPOC.
pub record Reply (E : Type 0) : Type 0 where
  pub sen : E
  pub rkorr : E
  pub echoed : ℕ

-- `int64` is `Int64Attribute` of tinyxml2.
module _ {E F : Type 0} ⦃d : Double F⦄ (xml : Xml E F) (int64 : E → String → Option ℤ) where
  unfoldable pub parse_reply : List ℕ → Option (Reply E)
  parse_reply bytes = do
    doc ← xml.parse bytes
    sen ← xml.first_child doc "Sen"
    rkorr ← xml.first_child sen "RKorr"
    ipoc ← xml.first_child sen "IPOC"
    ipoc_text ← xml.text ipoc
    echoed ← xml.scan_u64 ipoc_text
    some (record { sen = sen; rkorr = rkorr; echoed = echoed })

  -- The pose with the corrections of `RKorr`.
  unfoldable pub integrate : CartesianState F → E → CartesianState F
  integrate p rkorr = record {
    x = p.x ⊕ value_or nought (xml.double_attribute rkorr "X");
    y = p.y ⊕ value_or nought (xml.double_attribute rkorr "Y");
    z = p.z ⊕ value_or nought (xml.double_attribute rkorr "Z");
    a = p.a ⊕ value_or nought (xml.double_attribute rkorr "A");
    b = p.b ⊕ value_or nought (xml.double_attribute rkorr "B");
    c = p.c ⊕ value_or nought (xml.double_attribute rkorr "C");
  }

  last_stop_of : ℤ → Option E → ℤ
  last_stop_of last none = last
  last_stop_of last (some stop) = value_or (pos 0) (xml.int_attribute stop "S")

  last_watchdog_of : ℕ → Option E → ℕ
  last_watchdog_of last none = last
  last_watchdog_of last (some wd) = to_u64 (value_or (pos 0) (int64 wd "W"))

  -- A reply that was parsed, or not.
  unfoldable pub on_reply : Mock F → Option (Reply E) → Mock F × Bool
  unfolding last_stop_of last_watchdog_of
  on_reply s none = (
    record s { stats = record (s.stats) { parse_errors = u64 (s.stats.parse_errors + 1) } },
    false,
  )
  on_reply s (some r) =
      let received = record (s.stats) { replies_received = u64 (s.stats.replies_received + 1) } in
      if not s.awaiting || not (r.echoed == s.awaited_ipoc)
      then (
        record s {
          stats = record received { ipoc_echo_errors = u64 (s.stats.ipoc_echo_errors + 1) };
        },
        false,
      )
      else (
        record s {
          awaiting = false;
          pose = integrate s.pose r.rkorr;
          stats = record received {
            last_stop = last_stop_of s.stats.last_stop (xml.first_child r.sen "Stop");
            last_watchdog =
                last_watchdog_of s.stats.last_watchdog (xml.first_child r.sen "Watchdog");
          };
        },
        true,
      )

  unfoldable pub apply_reply : Mock F → List ℕ → Mock F × Bool
  apply_reply s bytes = on_reply s (parse_reply bytes)

  -- The datagrams that come in the window, up to the first that is applied.
  unfoldable pub drain : Mock F → List (List ℕ) → Mock F × Bool
  drain s [] = (s, false)
  drain s (bytes ∷ rest) =
      let (t, applied) = apply_reply s bytes in
      let later = drain t rest in if applied then (t, true) else later

  unfoldable pub receive_reply_window : Mock F → List (List ℕ) → Mock F × Bool
  receive_reply_window s [] = (note_reply_timeout s, false)
  receive_reply_window s (bytes ∷ rest) = drain s (bytes ∷ rest)
