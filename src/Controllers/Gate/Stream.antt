-- ===== src/Controllers/Gate/Stream.antt =====
-- Gates over streams of requests.
use kuka_iiqka_ros.Prelude.{
  Bool, true, false, not, ◌&&◌, ◌||◌, ◌==◌, List, [], ◌∷◌, Option, none, some, ◌≡◌, ◌⊎◌, refl, ap,
  sym, inl, arith, if_cases,
}
use kuka_iiqka_ros.Sfc.Types.{ControlMode, idle, Profile}
use kuka_iiqka_ros.Sfc.Modes.{ModeSnapshot, ◌is_mode◌, request_mode, set_profile}
use kuka_iiqka_ros.Controllers.Gate.{
  ModeRequest, to_control_mode, to_profile, Gate, gate, is_engaged, force_idle, switch_mode,
  apply_known, apply,
}

-- What happens to both controllers: a request that the bus delivers, or the same stop.
pub data Input : Type 0 where
  request : ModeRequest → Input
  stopping : Input

unfoldable pub feed : Gate → Input → Gate
feed g (request req) = (apply g req).0
feed g stopping = force_idle g

unfoldable pub feed_all : Gate → List Input → Gate
feed_all g [] = g
feed_all g (i ∷ is) = feed_all (feed g i) is

-- Two gates that agree in all but the modes that engage them.
pub record Agree (g h : Gate) : Type 0 where
  pub same_modes : g.mgr ≡ h.mgr
  pub same_seq : g.last_seq ≡ h.last_seq
  pub same_ok : g.last_ok ≡ h.last_ok

apply_known-Agree :
    (g h : Gate) (m : Option ControlMode) (p : Option Profile)
    → Agree g h
    → Agree (apply_known g m p).0 (apply_known h m p).0
unfolding apply_known
apply_known-Agree g h none p a = record {
  same_modes = a.same_modes;
  same_seq = a.same_seq;
  same_ok = refl;
}
apply_known-Agree g h (some m) none a = record {
  same_modes = a.same_modes;
  same_seq = a.same_seq;
  same_ok = refl;
}
apply_known-Agree g h (some m) (some p) a = record {
  same_modes = ap (λ s. (switch_mode s m p).0) a.same_modes;
  same_seq = a.same_seq;
  same_ok = ap (λ s. (switch_mode s m p).1) a.same_modes;
}

feed-Agree : (g h : Gate) (i : Input) → Agree g h → Agree (feed g i) (feed h i)
unfolding feed force_idle apply
feed-Agree g h (request req) a =
    let known =
      apply_known-Agree (record g { last_seq = req.seq }) (record h { last_seq = req.seq })
        (to_control_mode req.mode) (to_profile req.profile)
        (record { same_modes = a.same_modes; same_seq = refl; same_ok = a.same_ok }) in
    record {
      same_modes = ground (arith, a.same_modes, a.same_seq, known.same_modes);
      same_seq = ground (arith, a.same_seq, known.same_seq);
      same_ok = ground (arith, a.same_seq, a.same_ok, known.same_ok);
    }
feed-Agree g h stopping a = record {
  same_modes = ap (λ s. (request_mode s idle).0) a.same_modes;
  same_seq = a.same_seq;
  same_ok = a.same_ok;
}

feed_all-Agree : (g h : Gate) (is : List Input) → Agree g h → Agree (feed_all g is) (feed_all h is)
unfolding feed_all
feed_all-Agree g h [] a = a
feed_all-Agree g h (i ∷ is) a = feed_all-Agree (feed g i) (feed h i) is (feed-Agree g h i a)

-- Whatever modes engage two controllers, their gates come to the same mode and profile on the same
-- stream of requests and stops.
gates_agree :
    (a b c e : ControlMode) (is : List Input)
    → (feed_all (gate a b) is).mgr ≡ (feed_all (gate c e) is).mgr
gates_agree a b c e is =
    (feed_all-Agree (gate a b) (gate c e) is
      (record { same_modes = refl; same_seq = refl; same_ok = refl })).same_modes

switch_mode-refused :
    (s : ModeSnapshot) (m : ControlMode) (p : Profile)
    → (switch_mode s m p).1 ≡ false
    → (switch_mode s m p).0.mode ≡ s.mode
unfolding switch_mode request_mode set_profile
switch_mode-refused s m p h = ground arith

rise_lem :
    (ok before after : Bool)
    → (ok ≡ false → after ≡ before)
    → (ok && not before && after) ≡ (not before && after)
rise_lem true before after k = refl
rise_lem false true after k = refl
rise_lem false false after k = sym (k refl)

not_and_self : (b : Bool) → false ≡ (not b && b)
not_and_self true = refl
not_and_self false = refl

-- The result of a request, for the gate before it.
abbrev Rises : Gate → Gate × Bool → Type 0
Rises g (h, rises) = rises ≡ (not (is_engaged g) && is_engaged h)

apply_known-Rises :
    (g : Gate) (m : Option ControlMode) (p : Option Profile) → Rises g (apply_known g m p)
unfolding apply_known is_engaged
apply_known-Rises g none p = not_and_self (is_engaged g)
apply_known-Rises g (some m) none = not_and_self (is_engaged g)
apply_known-Rises g (some m) (some p) =
    let (s, ok) = switch_mode g.mgr m p in
    rise_lem ok (is_engaged g) (is_engaged (record g { mgr = s; last_ok = ok })) (λ e.
      ap (λ q. (q is_mode g.engaged_a) || (q is_mode g.engaged_b))
        (switch_mode-refused g.mgr m p e))

-- `apply` returns true exactly where it engages a gate that was not engaged.
apply-rises :
    (g : Gate) (req : ModeRequest)
    → let (h, rises) = apply g req in rises ≡ (not (is_engaged g) && is_engaged h)
unfolding apply is_engaged
apply-rises g req =
    let s = record g { last_seq = req.seq } in
    let m = to_control_mode req.mode in
    let p = to_profile req.profile in
    if_cases (Rises g) ((req.seq == 0) || (req.seq == g.last_seq)) (g, false) (apply_known s m p)
      (λ e. not_and_self (is_engaged g)) (λ e. apply_known-Rises s m p)

-- A mode that changes was IDLE or becomes IDLE, and so does the mode where a profile changes.
pub record PassesIdle (s t : ModeSnapshot) : Type 0 where
  pub mode_passes : (t.mode ≡ s.mode) ⊎ (s.mode ≡ idle) ⊎ (t.mode ≡ idle)
  pub profile_passes : (t.profile ≡ s.profile) ⊎ (s.mode ≡ idle) ⊎ (t.mode ≡ idle)

switch_mode-PassesIdle :
    (s : ModeSnapshot) (m : ControlMode) (p : Profile) → PassesIdle s (switch_mode s m p).0
unfolding switch_mode request_mode set_profile
switch_mode-PassesIdle s m p = ground arith

stay-PassesIdle : (s : ModeSnapshot) → PassesIdle s s
stay-PassesIdle s = record { mode_passes = inl refl; profile_passes = inl refl }

apply_known-PassesIdle :
    (g : Gate) (m : Option ControlMode) (p : Option Profile)
    → PassesIdle g.mgr (apply_known g m p).0.mgr
unfolding apply_known
apply_known-PassesIdle g none p = stay-PassesIdle g.mgr
apply_known-PassesIdle g (some m) none = stay-PassesIdle g.mgr
apply_known-PassesIdle g (some m) (some p) = switch_mode-PassesIdle g.mgr m p

-- Whatever comes, a gate whose mode changes was IDLE or becomes IDLE, and so it is where its profile
-- changes.
feed-PassesIdle : (g : Gate) (i : Input) → PassesIdle g.mgr (feed g i).mgr
unfolding feed force_idle apply
feed-PassesIdle g stopping = unfold request_mode in ground arith
feed-PassesIdle g (request req) =
    let s = record g { last_seq = req.seq } in
    let m = to_control_mode req.mode in
    let p = to_profile req.profile in
    if_cases (λ x. PassesIdle g.mgr x.0.mgr) ((req.seq == 0) || (req.seq == g.last_seq)) (g, false)
      (apply_known s m p) (λ e. stay-PassesIdle g.mgr) (λ e. apply_known-PassesIdle s m p)
