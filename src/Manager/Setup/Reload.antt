-- ===== src/Manager/Setup/Reload.antt =====
-- The payload that the manager puts on the parameter server is the one that the controller loads.
use Prim.Native.String.{◌++◌}
use text.Mathlib.Text.{◌==◌}
use text.Mathlib.TextEquality.{eq_iff}
use text.Mathlib.TextLemmas.{append_assoc, append_cancel_left}
use kuka_iiqka_ros.Prelude.{
  Bool, true, String, List, [], ◌∷◌, Option, some, if◌then◌else◌, ◌≡◌, refl, arith, Bool-cases, inl,
  inr, sym, ◌∙◌, ap,
}
use kuka_iiqka_ros.Double.{Double}
use kuka_iiqka_ros.Params.{Params}
use kuka_iiqka_ros.Sfc.Payload.{PayloadParams, PayloadFitResult, no_payload}
use kuka_iiqka_ros.Controllers.Loading.{load_payload, init_compliance, with_shared}
use kuka_iiqka_ros.Controllers.Compliance.{configure}
use kuka_iiqka_ros.Controllers.ComplianceShell.{Controller, configure_controller}
use kuka_iiqka_ros.Manager.Setup.{
  PayloadAnswers, set_double, set_doubles, in_namespace, payload_values, apply_payload,
}

-- Names below one prefix are the same exactly if their rests are.
==-append : (p s t : String) → (p ++ s == p ++ t) ≡ (s == t)
==-append p s t = elim (Bool-cases (s == t)) [
  | inl same ↦ (eq_iff (p ++ s) (p ++ t)).1 (ap (λ u. p ++ u) ((eq_iff s t).0 same)) ∙ sym same
  | inr differ ↦ elim (Bool-cases (p ++ s == p ++ t)) [
    | inl equal ↦
        let same = (eq_iff s t).1 (append_cancel_left p s t ((eq_iff (p ++ s) (p ++ t)).0 equal)) in
        absurd (cc (same, differ))
    | inr unequal ↦ unequal ∙ sym differ
  ]
]

module _ {F : Type 0} where
  -- What a name has after the values are set, where it had `v` before.
  abbrev value_of : List (String × F) → String → Option F → Option F
  value_of [] name v = v
  value_of ((key, x) ∷ rest) name v = value_of rest name (if name == key then some x else v)

  set_doubles-double :
      (ps : Params F) (ns name : String) (kvs : List (String × F))
      → (set_doubles ps ns kvs).double (ns ++ name) ≡ value_of kvs name (ps.double (ns ++ name))
  unfolding set_doubles set_double
  set_doubles-double ps ns name [] = refl
  set_doubles-double ps ns name ((key, x) ∷ rest) =
      set_doubles-double (set_double ps (ns ++ key) x) ns name rest
      ∙ ap (λ b. value_of rest name (if b then some x else ps.double (ns ++ name)))
          (==-append ns name key)

module _ {F : Type 0} ⦃d : Double F⦄ where
  applied : Params F → String → PayloadParams F → Params F
  applied ps controller p =
      in_namespace (set_doubles ps (("/" ++ controller) ++ "/payload/") (payload_values p))
        ("/" ++ controller)

  applied-double :
      (ps : Params F) (controller name : String) (p : PayloadParams F)
      → (applied ps controller p).double ("payload/" ++ name)
        ≡ value_of
            (payload_values p)
            name
            (ps.double ((("/" ++ controller) ++ "/payload/") ++ name))
  unfolding applied in_namespace
  applied-double ps controller name p =
      ap (set_doubles ps (("/" ++ controller) ++ "/payload/") (payload_values p)).double (
        ap (λ u. ("/" ++ controller) ++ u) (sym (append_assoc "/" "payload/" name))
        ∙ sym (append_assoc ("/" ++ controller) "/payload/" name))
      ∙ set_doubles-double ps (("/" ++ controller) ++ "/payload/") name (payload_values p)

  load_payload-applied :
      (ps : Params F) (controller : String) (p : PayloadParams F)
      → load_payload (applied ps controller p) no_payload ≡ p
  unfolding load_payload
  load_payload-applied ps controller p =
      let at = λ (name : String). applied-double ps controller name p in
      rw
        (
          at "gravity_n",
          at "com_x",
          at "com_y",
          at "com_z",
          at "bias_fx",
          at "bias_fy",
          at "bias_fz",
          at "bias_tx",
          at "bias_ty",
          at "bias_tz",
        )
        refl

  -- Both profiles of a controller that `init` has set up have the payload of its parameters.
  init-payload :
      {Mat : Type 0} (ps : Params F) (has_handle : String → Bool) (s t : Controller F Mat)
      → init_compliance ps has_handle s ≡ some t
      → (t.core.compensator ≡ load_payload ps no_payload)
        × (t.drag_params.payload ≡ load_payload ps no_payload)
        × (t.precision_params.payload ≡ load_payload ps no_payload)
  unfolding init_compliance configure_controller with_shared configure
  init-payload ps has_handle s t e = ground arith

  -- Where the hook that applies a payload can open its file, and the controller that it names is then
  -- set up from the parameter server, at once by its services or at the next start, the payload that
  -- the controller compensates, in both profiles and before, is that of the fit, whatever was on the
  -- server.
  pub apply_payload-init :
      {Mat : Type 0} (print6 : F → String) (ps : Params F) (file : Option String)
      (controller timestamp : String) (fit : PayloadFitResult F) (a : PayloadAnswers)
      (has_handle : String → Bool) (s t : Controller F Mat)
      → a.opens ≡ true
      → init_compliance
          (in_namespace
            (apply_payload print6 ps file controller timestamp fit a).params
            ("/" ++ controller))
          has_handle
          s
        ≡ some t
      → (t.core.compensator ≡ fit.params)
        × (t.drag_params.payload ≡ fit.params)
        × (t.precision_params.payload ≡ fit.params)
  unfolding apply_payload applied
  apply_payload-init print6 ps file controller timestamp fit a has_handle s t opens made =
      let set : (apply_payload print6 ps file controller timestamp fit a).params
          ≡ set_doubles ps (("/" ++ controller) ++ "/payload/") (payload_values fit.params) =
        rw opens refl in
      let (compensator, drag, precision) = init-payload _ has_handle s t made in
      let same =
        ap (λ q. load_payload (in_namespace q ("/" ++ controller)) no_payload) set
        ∙ load_payload-applied ps controller fit.params in
      (compensator ∙ same, drag ∙ same, precision ∙ same)
