-- ===== src/Rsi/Hardware/Cycle.antt =====
-- What the robot controller gets from the control loop (src/kuka_rsi_robot_hw.cpp).
use kuka_iiqka_ros.Prelude.{
  ℕ, ◌+◌, ◌<◌, ◌≤◌, true, false, not, List, [], ◌∷◌, Option, none, some, ◌≡◌, inl, inr, arith, ◌&&◌,
  if◌then◌else◌, length, All, Bool-cases, sym, subst, ◌∙◌,
}
use kuka_iiqka_ros.Double.{Double}
use kuka_iiqka_ros.Double.Order.{IsOrdered}
use kuka_iiqka_ros.Sfc.Types.{CartesianCorrection, zero_correction}
use kuka_iiqka_ros.Xml.{Xml}
use kuka_iiqka_ros.Rsi.Frame.{RobFrame, SenFrame, parse_rob_frame}
use kuka_iiqka_ros.Rsi.Monitor.{u64, on_frame, on_timeout, on_bad_frame, clear_fault}
use kuka_iiqka_ros.Rsi.Limiter.{CommandLimits, clamp_all}
use kuka_iiqka_ros.Rsi.Limiter.Bounds.{
  InLimits, HasLimits, IsFinite, clamp_all-InLimits, zero-InLimits, clamp_all_in_range,
}
use kuka_iiqka_ros.Rsi.Hardware.{RobotHw, set_command, take_fault_clear, on_parsed, read, reply}

module _ {F : Type 0} ⦃d : Double F⦄ where
  -- A frame that stops the robot.
  abbrev pub IsStop : SenFrame F → Type 0
  IsStop f = (f.stop ≡ 1) × (f.corr ≡ zero_correction)

  -- A frame is sent, and is as it should be.
  abbrev pub Sends : (SenFrame F → Type 0) → Option (SenFrame F) → Type 0
  Sends P none = ⊥
  Sends P (some f) = P f

  module _ (laws : IsOrdered F) where
    -- Every frame that the interface sends has all its corrections within the limits, whatever the
    -- controllers wrote, if the limits are not negative.
    pub reply-InLimits :
        (s : RobotHw F) {f : SenFrame F}
        → HasLimits s.limits
        → (reply s).1 ≡ some f
        → InLimits s.limits f.corr
    unfolding reply
    reply-InLimits s {f} h e = elim (Bool-cases s.monitor.stats.connected) [
      | inr off ↦ cc
      | inl on ↦ elim (Bool-cases s.monitor.stats.has_fault) [
        | inl bad ↦
            let same : f.corr ≡ zero_correction = ground arith in
            subst (InLimits s.limits) (sym same) (zero-InLimits laws s.limits h)
        | inr good ↦
            let same : f.corr ≡ (clamp_all s.cart_cmd s.limits).0 = ground arith in
            subst (InLimits s.limits) (sym same) (clamp_all-InLimits laws s.limits h s.cart_cmd)
      ]
    ]

    clamp_all-zero :
        (l : CommandLimits F) → HasLimits l → clamp_all zero_correction l ≡ (zero_correction, false)
    clamp_all-zero l h =
        let n = laws.nought_finite in
        let fin : IsFinite zero_correction = record {
          x_fin = n;
          y_fin = n;
          z_fin = n;
          a_fin = n;
          b_fin = n;
          c_fin = n;
        } in
        clamp_all_in_range laws l h zero_correction fin (zero-InLimits laws l h)

    module _ {E : Type 0} (xml : Xml E F) (deg_to_rad : F) where
      read-cart_cmd :
          (s : RobotHw F) (rx : List ℕ)
          → ((read xml deg_to_rad s rx).cart_cmd ≡ s.cart_cmd)
            × ((read xml deg_to_rad s rx).limits ≡ s.limits)
      unfolding read on_parsed take_fault_clear
      read-cart_cmd s [] = ground arith
      read-cart_cmd s (byte ∷ bytes) = ground arith

      reply-clears :
          (s : RobotHw F)
          → s.monitor.stats.connected ≡ true
          → ((reply s).0.cart_cmd ≡ zero_correction) × ((reply s).0.limits ≡ s.limits)
      unfolding reply
      reply-clears s c = ground arith

      reply-zero :
          (s : RobotHw F) {f : SenFrame F}
          → HasLimits s.limits
          → s.cart_cmd ≡ zero_correction
          → (reply s).1 ≡ some f
          → f.corr ≡ zero_correction
      unfolding reply
      reply-zero s h z e =
          let same : clamp_all s.cart_cmd s.limits ≡ (zero_correction, false) =
            subst (λ c. clamp_all c s.limits ≡ (zero_correction, false)) (sym z)
              (clamp_all-zero s.limits h) in
          ground arith

      -- A command is sent at most once: if the link was connected at one `write` and no controller
      -- sets a command before the next, the next frame, whatever is read in between, has the
      -- correction zero.
      reply_once :
          (s : RobotHw F) (rx : List ℕ) {f : SenFrame F}
          → HasLimits s.limits
          → s.monitor.stats.connected ≡ true
          → (reply (read xml deg_to_rad (reply s).0 rx)).1 ≡ some f
          → f.corr ≡ zero_correction
      reply_once s rx h c e =
          let (cmd, limits) = read-cart_cmd (reply s).0 rx in
          let (cleared, kept) = reply-clears s c in
          reply-zero (read xml deg_to_rad (reply s).0 rx) (subst HasLimits (sym (limits ∙ kept)) h)
            (cmd ∙ cleared) e

  -- The answer to a frame: its IPOC, the next value of the watchdog counter, and a stop exactly if a
  -- fault is latched that no clear was requested for.
  pub record IsAnswer (s : RobotHw F) (f : RobFrame F) (g : SenFrame F) : Type 0 where
    pub echo : g.ipoc ≡ f.ipoc
    pub counted : g.watchdog ≡ u64 (s.watchdog + 1)
    pub stop_iff :
        g.stop ≡ (if s.monitor.stats.has_fault && not s.fault_clear_requested then 1 else 0)

  reply-on_parsed :
      (deg_to_rad : F) (s : RobotHw F) (cmd : CartesianCorrection F) (f : RobFrame F)
      → let (t, out) =
          reply (set_command (on_parsed deg_to_rad (take_fault_clear s) (some f)) cmd) in
        Sends (IsAnswer s f) out × (t.watchdog ≡ u64 (s.watchdog + 1))
  unfolding reply set_command on_parsed take_fault_clear on_frame clear_fault
  reply-on_parsed deg_to_rad s cmd f = ground arith

  module _ {E : Type 0} (xml : Xml E F) (deg_to_rad : F) where
    -- In a cycle that reads a valid frame, whatever the controllers set, the interface sends its
    -- answer: with the IPOC of the frame and the next value of the watchdog counter, and with a stop
    -- exactly if a fault is latched that no clear was requested for.
    pub reply-read_valid :
        (s : RobotHw F) (byte : ℕ) (bytes : List ℕ) (cmd : CartesianCorrection F) {f : RobFrame F}
        → parse_rob_frame xml (byte ∷ bytes) ≡ some f
        → let (t, out) = reply (set_command (read xml deg_to_rad s (byte ∷ bytes)) cmd) in
          Sends (IsAnswer s f) out × (t.watchdog ≡ u64 (s.watchdog + 1))
    unfolding read
    reply-read_valid s byte bytes cmd {f} e = rw e (reply-on_parsed deg_to_rad s cmd f)

    -- One control cycle: what was received, and what the controllers set.
    unfoldable pub cycle :
        RobotHw F → List ℕ × CartesianCorrection F → RobotHw F × Option (SenFrame F)
    cycle s (rx, cmd) = reply (set_command (read xml deg_to_rad s rx) cmd)

    unfoldable pub cycles :
        RobotHw F → List (List ℕ × CartesianCorrection F) → RobotHw F × List (Option (SenFrame F))
    cycles s [] = (s, [])
    cycles s (c ∷ cs) = let (t, out) = cycle s c in let (u, outs) = cycles t cs in (u, out ∷ outs)

    -- A connected link with a latched fault, and no clear requested.
    pub record IsFaulted (s : RobotHw F) : Type 0 where
      pub connected : s.monitor.stats.connected ≡ true
      pub has_fault : s.monitor.stats.has_fault ≡ true
      pub no_clear : s.fault_clear_requested ≡ false

    read-IsFaulted :
        (s : RobotHw F) (rx : List ℕ) → IsFaulted s → IsFaulted (read xml deg_to_rad s rx)
    unfolding read take_fault_clear on_parsed on_frame on_timeout on_bad_frame
    read-IsFaulted s [] h = ground arith
    read-IsFaulted s (byte ∷ bytes) h = ground arith

    cycle-IsFaulted :
        (s : RobotHw F) (c : List ℕ × CartesianCorrection F)
        → IsFaulted s
        → IsFaulted (cycle s c).0 × Sends IsStop (cycle s c).1
    unfolding cycle reply set_command
    cycle-IsFaulted s (rx, cmd) h =
        let g = read-IsFaulted s rx h in ground (arith, g.connected, g.has_fault, g.no_clear)

    -- From a latched fault on, every cycle sends a stop with the correction zero, whatever is received
    -- and whatever the controllers set, until a clear is requested.
    pub cycles-IsStop :
        (s : RobotHw F) (cs : List (List ℕ × CartesianCorrection F))
        → IsFaulted s
        → All (Sends IsStop) (cycles s cs).1
    unfolding cycles
    cycles-IsStop s [] h = tt
    cycles-IsStop s (c ∷ cs) h =
        let (g, out) = cycle-IsFaulted s c h in (out, cycles-IsStop (cycle s c).0 cs g)

    -- A cycle that receives nothing.
    abbrev pub IsSilent : List ℕ × CartesianCorrection F → Type 0
    IsSilent c = c.0 ≡ []

    -- The link has missed as many cycles as stated, and is not near the end of the counter.
    pub record Missed (n : ℕ) (s : RobotHw F) : Type 0 where
      pub connected : s.monitor.stats.connected ≡ true
      pub no_clear : s.fault_clear_requested ≡ false
      pub count : s.monitor.stats.consecutive_timeouts ≡ n
      pub limit_kept : n < 4294967295

    cycle-Missed :
        (s : RobotHw F) (n : ℕ) (c : List ℕ × CartesianCorrection F)
        → IsSilent c
        → Missed n s
        → let t = (cycle s c).0 in
          (t.monitor.stats.connected ≡ true)
          × (t.fault_clear_requested ≡ false)
          × (t.monitor.stats.consecutive_timeouts ≡ n + 1)
          × (t.monitor.max_consecutive_timeouts ≡ s.monitor.max_consecutive_timeouts)
          × (s.monitor.max_consecutive_timeouts ≤ n + 1 → t.monitor.stats.has_fault ≡ true)
    unfolding cycle reply set_command read take_fault_clear on_timeout
    cycle-Missed s n ([], cmd) q h = ground arith
    cycle-Missed s n (b ∷ bs, cmd) q h = cc

    -- On a connected link with no clear requested, one or more silent cycles in a row that bring
    -- the count of silent cycles to at least the maximum, and to less than 2^32 - 1, latch the
    -- fault, and every cycle after them, whatever it receives, sends a stop with the correction
    -- zero.
    pub silence-IsStop :
        (silent cs : List (List ℕ × CartesianCorrection F)) (s : RobotHw F) (n : ℕ)
        → All IsSilent silent
        → Missed n s
        → n + length silent < 4294967295
        → 0 < length silent
        → s.monitor.max_consecutive_timeouts ≤ n + length silent
        → All (Sends IsStop) (cycles (cycles s silent).0 cs).1
    unfolding cycles
    silence-IsStop [] cs s n q h k z m = absurd (omega arith)
    silence-IsStop (c ∷ []) cs s n (q, _) h k z m =
        let (a, b, x, y, f) = cycle-Missed s n c q h in
        cycles-IsStop (cycle s c).0 cs
          (record { connected = a; has_fault = f (omega arith); no_clear = b })
    silence-IsStop (c ∷ c' ∷ silent) cs s n (q, qs) h k z m =
        let (a, b, x, y, f) = cycle-Missed s n c q h in
        silence-IsStop (c' ∷ silent) cs (cycle s c).0 (n + 1) qs
          (record { connected = a; no_clear = b; count = x; limit_kept = omega arith })
          (omega arith) (omega arith) (omega arith)
