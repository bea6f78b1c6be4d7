-- ===== src/Rsi/Node/Negative.antt =====
-- What a node does that was set up with a negative limit.
use kuka_iiqka_ros.Prelude.{ℕ, ◌+◌, true, false, List, ◌∷◌, some, ◌≡◌, refl, arith, ap, ◌∙◌}
use kuka_iiqka_ros.Double.{Double, nought, clamp, ◌≼◌}
use kuka_iiqka_ros.Double.Order.{IsOrdered}
use kuka_iiqka_ros.Xml.{Xml}
use kuka_iiqka_ros.Params.{Params}
use kuka_iiqka_ros.Sfc.Types.{zero_correction}
use kuka_iiqka_ros.Rsi.Frame.{RobFrame, SenFrame, parse_rob_frame}
use kuka_iiqka_ros.Rsi.Monitor.{u64, on_frame}
use kuka_iiqka_ros.Rsi.Limiter.{CommandLimits, clamp_axis, clamp_all}
use kuka_iiqka_ros.Rsi.Hardware.{RobotHw, configured, take_fault_clear, on_parsed, read, reply}
use kuka_iiqka_ros.Rsi.Udp.{Udp, BindAnswers}
use kuka_iiqka_ros.Rsi.Node.{Node, load_config, configure, init}

-- A negative limit turns the clamp of zero into a step of its size.
module _ {F : Type 0} ⦃d : Double F⦄ (laws : IsOrdered F) where
  open laws use {nought_refl, nought_finite, refl_of_le, le_trans, le_of_lt, not_lt_of_le, le_of_eq}

  clamp-negative :
      (lim : F)
      → d.lt lim nought ≡ true
      → d.lt nought (d.neg lim) ≡ true
      → clamp nought lim ≡ d.neg lim
  unfolding clamp
  clamp-negative lim below above =
      let le_up : lim ≼ d.neg lim =
        le_trans lim nought (d.neg lim) (le_of_lt lim nought below)
          (le_of_lt nought (d.neg lim) above) in
      ground (
        arith,
        not_lt_of_le lim nought (le_of_lt lim nought below),
        not_lt_of_le lim (d.neg lim) le_up,
      )

  clamp_axis-negative :
      (lim : F)
      → d.lt lim nought ≡ true
      → d.lt nought (d.neg lim) ≡ true
      → (clamp_axis nought lim).0 ≡ d.neg lim
  unfolding clamp_axis
  clamp_axis-negative lim below above = ground (
    arith,
    clamp-negative lim below above,
    nought_finite,
    le_of_eq (d.neg lim) nought,
    not_lt_of_le (d.neg lim) nought,
  )

  clamp_all-negative :
      (l : CommandLimits F)
      → d.lt l.max_trans nought ≡ true
      → d.lt nought (d.neg l.max_trans) ≡ true
      → let c = (clamp_all zero_correction l).0 in
        (c.x ≡ d.neg l.max_trans) × (c.y ≡ d.neg l.max_trans) × (c.z ≡ d.neg l.max_trans)
  unfolding clamp_all
  clamp_all-negative l below above =
      let e = clamp_axis-negative l.max_trans below above in (e, e, e)

  -- The interface on the first valid frame, with no controller.
  first-reply :
      (s : RobotHw F)
      → s.monitor.stats.connected ≡ true
      → s.monitor.stats.has_fault ≡ false
      → s.cart_cmd ≡ zero_correction
      → (f : SenFrame F) × ((reply s).1 ≡ some f)
        × (f.corr ≡ (clamp_all zero_correction s.limits).0)
        × (f.stop ≡ 0)
  unfolding reply
  first-reply s on ok none_set = (
    record {
      corr = (clamp_all s.cart_cmd s.limits).0;
      stop = 0;
      watchdog = u64 (s.watchdog + 1);
      ipoc = s.last_ipoc;
    },
    rw (on, ok) refl,
    ap (λ c. (clamp_all c s.limits).0) none_set,
    refl,
  )

  init-hw :
      (ps : Params F) (udp : Udp) (a : BindAnswers) (s : Node F)
      → init ps udp a ≡ some s
      → let c = load_config ps in s.hw ≡ configured c.limits c.max_consecutive_timeouts
  unfolding init configure
  init-hw ps udp a s made = ground arith

  read_first :
      {E : Type 0} (xml : Xml E F) (deg_to_rad : F) (l : CommandLimits F) (timeouts : ℕ) (byte : ℕ)
      (bytes : List ℕ) (g : RobFrame F)
      → parse_rob_frame xml (byte ∷ bytes) ≡ some g
      → let t = read xml deg_to_rad (configured l timeouts) (byte ∷ bytes) in
        (t.monitor.stats.connected ≡ true)
        × (t.monitor.stats.has_fault ≡ false)
        × (t.cart_cmd ≡ zero_correction)
        × (t.limits ≡ l)
  unfolding read configured on_parsed take_fault_clear on_frame
  read_first xml deg_to_rad l timeouts byte bytes g valid = rw valid (refl, refl, refl, refl)

  load_config-max_trans :
      (ps : Params F) (lim : F)
      → ps.double "max_correction_trans" ≡ some lim
      → (load_config ps).limits.max_trans ≡ lim
  unfolding load_config
  load_config-max_trans ps lim set = rw set refl

  -- Nothing checks the limits on the parameter server. Where the limit of the translations is negative,
  -- an interface that was set up with it answers the first valid frame, with no controller running,
  -- with a step of the limit's size on each of the three axes, and does not stop the robot.
  pub negative_limit :
      {E : Type 0} (xml : Xml E F) (deg_to_rad : F) (ps : Params F) (lim : F) (udp : Udp)
      (a : BindAnswers) (s : Node F) (byte : ℕ) (bytes : List ℕ) (g : RobFrame F)
      → ps.double "max_correction_trans" ≡ some lim
      → d.lt lim nought ≡ true
      → d.lt nought (d.neg lim) ≡ true
      → init ps udp a ≡ some s
      → parse_rob_frame xml (byte ∷ bytes) ≡ some g
      → (f : SenFrame F) × ((reply (read xml deg_to_rad s.hw (byte ∷ bytes))).1 ≡ some f)
        × (f.stop ≡ 0)
        × (f.corr.x ≡ d.neg lim)
        × (f.corr.y ≡ d.neg lim)
        × (f.corr.z ≡ d.neg lim)
  negative_limit xml deg_to_rad ps lim udp a s byte bytes g set below above made valid =
      let k = (load_config ps).limits in
      let n = (load_config ps).max_consecutive_timeouts in
      let t = read xml deg_to_rad (configured k n) (byte ∷ bytes) in
      let same = init-hw ps udp a s made in
      let trans = load_config-max_trans ps lim set in
      let (on, ok, none_set, limits) = read_first xml deg_to_rad k n byte bytes g valid in
      let (f, sent, corr, goes_on) = first-reply t on ok none_set in
      let (x, y, z) = clamp_all-negative k (rw trans below) (rw trans above) in
      let moved : f.corr ≡ (clamp_all zero_correction k).0 =
        corr ∙ ap (λ l. (clamp_all zero_correction l).0) limits in
      rw same (
        f,
        sent,
        goes_on,
        ap (λ c. c.x) moved ∙ x ∙ ap d.neg trans,
        ap (λ c. c.y) moved ∙ y ∙ ap d.neg trans,
        ap (λ c. c.z) moved ∙ z ∙ ap d.neg trans,
      )
