-- ===== src/Sfc/Frames.antt =====
-- `FrameResolver` (src/frame_resolver.cpp) and `ToolGravityCompensator`
-- (src/tool_gravity_compensator.cpp): the frames that a wrench and a correction pass through.
use kuka_iiqka_ros.Double.{Double, nought, ◌⊖◌}
use kuka_iiqka_ros.Sfc.Types.{Wrench, CartesianCorrection, add_wrench}
use kuka_iiqka_ros.Sfc.Payload.{PayloadParams}
use kuka_iiqka_ros.Sfc.Rotation.{Libm, Vec3, Eigen, kuka_abc_to_rotation}

module _ {F : Type 0} ⦃d : Double F⦄ ⦃m : Libm F⦄ ⦃g : Eigen F⦄ where
  abbrev vec : F → F → F → Vec3 F
  vec x y z = record { vx = x; vy = y; vz = z }

  -- `configure`: the only member of the resolver is the matrix that it returns.
  unfoldable pub configure : F → F → F → F → F → F → g.Mat
  configure tool_a tool_b tool_c mount_a mount_b mount_c =
      g.times (g.transpose (kuka_abc_to_rotation tool_a tool_b tool_c))
        (kuka_abc_to_rotation mount_a mount_b mount_c)

  unfoldable pub wrench_sensor_to_tool : g.Mat → Wrench F → Wrench F
  wrench_sensor_to_tool r_tcp_sensor w =
      let f = g.on_vec r_tcp_sensor (vec w.fx w.fy w.fz) in
      let t = g.on_vec r_tcp_sensor (vec w.tx w.ty w.tz) in
      record { fx = f.vx; fy = f.vy; fz = f.vz; tx = t.vx; ty = t.vy; tz = t.vz }

  unfoldable pub correction_tool_to_base : CartesianCorrection F → g.Mat → CartesianCorrection F
  correction_tool_to_base c r_bt =
      let p = g.on_vec r_bt (vec c.x c.y c.z) in
      let w = g.on_vec r_bt (vec c.c c.b c.a) in
      record { x = p.vx; y = p.vy; z = p.vz; a = w.vz; b = w.vy; c = w.vx }

  unfoldable pub compensate : PayloadParams F → Wrench F → g.Mat → Wrench F
  compensate p raw r_base_sensor =
      let f = g.on_vec (g.transpose r_base_sensor) (vec nought nought (d.neg p.gravity_n)) in
      let t = g.cross (vec p.com_x p.com_y p.com_z) f in
      record {
        fx = raw.fx ⊖ p.bias.fx ⊖ f.vx;
        fy = raw.fy ⊖ p.bias.fy ⊖ f.vy;
        fz = raw.fz ⊖ p.bias.fz ⊖ f.vz;
        tx = raw.tx ⊖ p.bias.tx ⊖ t.vx;
        ty = raw.ty ⊖ p.bias.ty ⊖ t.vy;
        tz = raw.tz ⊖ p.bias.tz ⊖ t.vz;
      }

  -- The overload by angles.
  unfoldable pub compensate_abc : PayloadParams F → Wrench F → F → F → F → Wrench F
  compensate_abc p raw a_deg b_deg c_deg = compensate p raw (kuka_abc_to_rotation a_deg b_deg c_deg)

  unfoldable pub absorb_residual : PayloadParams F → Wrench F → PayloadParams F
  absorb_residual p residual = record p { bias = add_wrench p.bias residual }
