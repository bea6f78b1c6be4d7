-- ===== src/Manager/World/Switch.antt =====
-- What a filtered switch of controllers asks for (`switchFiltered`, src/manager_runtime.cpp).
use text.Mathlib.Text.{◌==◌}
use text.Mathlib.TextEquality.{eq_iff}
use kuka_iiqka_ros.Prelude.{
  Bool-cases, ap, ap₂, ◌∙◌, ◌+◌, Bool, true, false, not, ◌&&◌, String, List, ◌∷◌, ◌≡◌, inl, inr,
  arith, if◌then◌else◌,
}
use kuka_iiqka_ros.Double.{Double}
use kuka_iiqka_ros.Manager.World.{
  Call, list_running, switch_controllers, World, Sys, runs, wait, ask, call_ok, switch_rest,
  switch_filtered,
}

-- A named controller that does not run has to be started.
pub record NeedsStart (running : List String) (name : String) : Type 0 where
  pub named : (name == "") ≡ false
  pub idle : runs running name ≡ false

-- A named controller that runs has to be stopped.
pub record NeedsStop (running : List String) (name : String) : Type 0 where
  pub named : (name == "") ≡ false
  pub busy : runs running name ≡ true

unfoldable left_to_start : List String → String → String
left_to_start running name = if not (name == "") && runs running name then "" else name

unfoldable left_to_stop : List String → String → String
left_to_stop running name = if not (name == "") && not (runs running name) then "" else name

-- A name that is left is one that is needed, and else there is none.
data IsLeft (Needs : Type 0) (name : String) (left : String) : Type 0 where
  needed : Needs → (name == "") ≡ false → left ≡ name → IsLeft Needs name left
  not_needed : ¬ Needs → left ≡ "" → IsLeft Needs name left

left_to_start_lem :
    (running : List String) (name : String)
    → IsLeft (NeedsStart running name) name (left_to_start running name)
unfolding left_to_start
left_to_start_lem running name = elim (Bool-cases (name == "")) [
  | inl h ↦ not_needed (λ n. cc) (ground arith ∙ (eq_iff name "").0 h)
  | inr h ↦ elim (Bool-cases (runs running name)) [
    | inl r ↦ not_needed (λ n. cc) (ground arith)
    | inr r ↦ needed (record { named = h; idle = r }) h (ground arith)
  ]
]

left_to_stop_lem :
    (running : List String) (name : String)
    → IsLeft (NeedsStop running name) name (left_to_stop running name)
unfolding left_to_stop
left_to_stop_lem running name = elim (Bool-cases (name == "")) [
  | inl h ↦ not_needed (λ n. cc) (ground arith ∙ (eq_iff name "").0 h)
  | inr h ↦ elim (Bool-cases (runs running name)) [
    | inl r ↦ needed (record { named = h; busy = r }) h (ground arith)
    | inr r ↦ not_needed (λ n. cc) (ground arith)
  ]
]

module _ {F : Type 0} where
  -- What the calls of a switch and its result can be, if both hooks are set. The first answer is to
  -- the query, and the next one to the request.
  pub data SwitchOutcome (w : World F) (start stop : String) (y : Sys F) (after : List (Call F))
      (res : Bool) : Type 0 where
    query_failed :
        (w.answer y.used).ok ≡ false
        → after ≡ list_running ∷ y.calls
        → res ≡ false
        → SwitchOutcome w start stop y after res
    nothing_to_do :
        ¬ NeedsStart (w.answer y.used).running start
        → ¬ NeedsStop (w.answer y.used).running stop
        → after ≡ list_running ∷ y.calls
        → res ≡ true
        → SwitchOutcome w start stop y after res
    started :
        NeedsStart (w.answer y.used).running start
        → ¬ NeedsStop (w.answer y.used).running stop
        → after ≡ switch_controllers start "" ∷ list_running ∷ y.calls
        → res ≡ (w.answer (y.used + 1)).ok
        → SwitchOutcome w start stop y after res
    stopped :
        ¬ NeedsStart (w.answer y.used).running start
        → NeedsStop (w.answer y.used).running stop
        → after ≡ switch_controllers "" stop ∷ list_running ∷ y.calls
        → res ≡ (w.answer (y.used + 1)).ok
        → SwitchOutcome w start stop y after res
    swapped :
        NeedsStart (w.answer y.used).running start
        → NeedsStop (w.answer y.used).running stop
        → after ≡ switch_controllers start stop ∷ list_running ∷ y.calls
        → res ≡ (w.answer (y.used + 1)).ok
        → SwitchOutcome w start stop y after res

module _ {F : Type 0} ⦃d : Double F⦄ (w : World F) where
  switch_filtered-rest :
      (start stop : String) (y : Sys F)
      → w.hooks.has_switch ≡ true
      → w.hooks.has_list ≡ true
      → (w.answer y.used).ok ≡ true
      → let running = (w.answer y.used).running in
        switch_filtered w start stop y
        ≡ switch_rest w
            (left_to_start running start)
            (left_to_stop running stop)
            (ask w list_running y).0
  unfolding switch_filtered left_to_start left_to_stop ask wait
  switch_filtered-rest start stop y h l ok = ground arith

  outcome_ok :
      (start stop : String) (y : Sys F)
      → w.hooks.has_switch ≡ true
      → w.hooks.has_list ≡ true
      → (w.answer y.used).ok ≡ true
      → let (z, ok) = switch_filtered w start stop y in SwitchOutcome w start stop y z.calls ok
  unfolding switch_rest call_ok ask wait
  outcome_ok start stop y h l ok =
      let running = (w.answer y.used).running in
      let z = (ask w list_running y).0 in
      let same : (s t : String)
          → left_to_start running start ≡ s
          → left_to_stop running stop ≡ t
          → switch_filtered w start stop y ≡ switch_rest w s t z =
        λ s t p q.
          switch_filtered-rest start stop y h l ok ∙ ap₂ (λ a b. switch_rest w a b z) p q in
      elim (left_to_start_lem running start) [
        | not_needed n p ↦ elim (left_to_stop_lem running stop) [
          | not_needed m q ↦
              nothing_to_do n m (ap (λ x. x.0.calls) (same "" "" p q))
                (ap (λ x. x.1) (same "" "" p q))
          | needed m f q ↦
              stopped n m (ap (λ x. x.0.calls) (same "" stop p q) ∙ ground arith)
                (ap (λ x. x.1) (same "" stop p q) ∙ ground arith)
        ]
        | needed n e p ↦ elim (left_to_stop_lem running stop) [
          | not_needed m q ↦
              started n m (ap (λ x. x.0.calls) (same start "" p q) ∙ ground arith)
                (ap (λ x. x.1) (same start "" p q) ∙ ground arith)
          | needed m f q ↦
              swapped n m (ap (λ x. x.0.calls) (same start stop p q) ∙ ground arith)
                (ap (λ x. x.1) (same start stop p q) ∙ ground arith)
        ]
      ]

  -- With both hooks set, a switch queries the running controllers. If the query fails, it fails and
  -- requests nothing. Else it requests the start of its first name exactly if that is one and does
  -- not run, and the stop of its second exactly if that is one and runs, and returns what the
  -- request does; if neither is needed, it requests nothing and succeeds.
  pub switch_filtered-outcome :
      (start stop : String) (y : Sys F)
      → w.hooks.has_switch ≡ true
      → w.hooks.has_list ≡ true
      → let (z, ok) = switch_filtered w start stop y in SwitchOutcome w start stop y z.calls ok
  switch_filtered-outcome start stop y h l = elim (Bool-cases (w.answer y.used).ok) [
    | inl ok ↦ outcome_ok start stop y h l ok
    | inr bad ↦ unfold switch_filtered ask wait in query_failed bad (ground arith) (ground arith)
  ]
