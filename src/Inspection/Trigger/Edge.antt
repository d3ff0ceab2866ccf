-- ===== src/Inspection/Trigger/Edge.antt =====
-- Conditions of src/CollectionInspectionEngine.cpp that trigger only on a rising edge.
use aws_iot_fleetwise_edge.Prelude.{
  Bool, true, false, ◌&&◌, ◌||◌, not, List, [], ◌∷◌, All, Bool-cases, inl, inr, ◌≡◌, refl, arith,
}
use aws_iot_fleetwise_edge.Schemes.Types.{TimePoint}
use aws_iot_fleetwise_edge.Inspection.Types.{Arithmetic}
use aws_iot_fleetwise_edge.Inspection.Conditions.{
  ConditionWithCollectedData, ConditionState, evaluate_trigger, is_evaluated,
}
use aws_iot_fleetwise_edge.Inspection.Trigger.{Happening, Life, is_triggered, happen, live, born}
use aws_iot_fleetwise_edge.Inspection.Trigger.Happening.{evaluation, input_change, turn}

module _ (A : Arithmetic) (c : ConditionWithCollectedData A.Double) where
  edge_triggered :
      (now : TimePoint) (holds edge : Bool) (s : ConditionState)
      → c.trigger_only_on_rising_edge ≡ true
      → (s.currently_true || edge) ≡ true
      → is_triggered s (evaluate_trigger A now c holds s).0 ≡ true
      → ((edge || is_evaluated A c s && not holds) ≡ true)
        × ((evaluate_trigger A now c holds s).0.currently_true ≡ true)
  edge_triggered now holds edge s rising h t = ground arith

  edge_kept :
      (now : TimePoint) (holds edge : Bool) (s : ConditionState)
      → (s.currently_true || edge) ≡ true
      → ((evaluate_trigger A now c holds s).0.currently_true
          || (edge || is_evaluated A c s && not holds))
        ≡ true
  edge_kept now holds edge s h = ground arith

  AreEdges : Life → Type 0
  AreEdges l = All (λ x. x.is_edge ≡ true) l.log × ((l.state.currently_true || l.is_edge) ≡ true)

  happen-AreEdges :
      (e : Happening) (l : Life)
      → c.trigger_only_on_rising_edge ≡ true
      → AreEdges l
      → AreEdges (happen A c e l)
  unfolding AreEdges
  happen-AreEdges (evaluation now holds) l rising h =
      let new = (evaluate_trigger A now c holds l.state).0 in
      elim (Bool-cases (is_triggered l.state new)) [
        | inl e ↦
            let facts = edge_triggered now holds l.is_edge l.state rising h.1 e in
            let still : (new.currently_true || false) ≡ true = rw facts.1 refl in
            rw e ((facts.0, h.0), still)
        | inr e ↦ rw e (h.0, edge_kept now holds l.is_edge l.state h.1)
      ]
  happen-AreEdges input_change l rising h = h
  happen-AreEdges (turn now event_id) l rising h = ground arith

  live-AreEdges :
      (hs : List Happening) (l : Life)
      → c.trigger_only_on_rising_edge ≡ true
      → AreEdges l
      → AreEdges (live A c hs l)
  live-AreEdges [] l rising h = h
  live-AreEdges (e ∷ hs) l rising h =
      live-AreEdges hs (happen A c e l) rising (happen-AreEdges e l rising h)

  -- For a condition that triggers only on a rising edge, whatever happens to it: between two triggers
  -- there is an evaluation that finds its expression false.
  pub live_rising_edge :
      (hs : List Happening) (s : ConditionState)
      → c.trigger_only_on_rising_edge ≡ true
      → All (λ x. x.is_edge ≡ true) (live A c hs (born A c s)).log
  unfolding AreEdges
  live_rising_edge hs s rising =
      let first : (s.currently_true || true) ≡ true = ground arith in
      (live-AreEdges hs (born A c s) rising (tt, first)).0
