-- ===== src/Signals.antt =====
-- engine/core/signal_aggregator.py: the signals of several strategies made into one for each symbol.
-- The group of a symbol is never empty, where the code takes its first signal.
pub mod Voted
pub mod Consensus
use nexus_trade_engine.Prelude.{
  ℕ, String, ◌≡◌, ◌↔◌, refl, Option, none, some, Bool, true, false, not, ◌&&◌, List, [], ◌∷◌, ◌++◌,
  if◌then◌else◌, ◌==◌, Eq, string_eq, all, keep, Dict, values, lookup, insert, Outcome, ok, err,
  raise_if, ◌>>=◌, ◌>>◌, arith,
}
use nexus_trade_engine.Prelude.Int.{pos}
use nexus_trade_engine.OrderManager.{Desk, Signal, Side, buy, sell, hold}

pub data AggregationMethod : Type 0 where
  unanimous majority weighted priority independent : AggregationMethod

-- `SignalAggregatorError`, by what it complains of.
pub data SignalAggregatorError : Type 0 where
  unknown_method zero_weights : SignalAggregatorError
  not_finite negative : String → SignalAggregatorError

abbrev pub same_side : Side → Side → Bool
same_side buy buy = true
same_side sell sell = true
same_side hold hold = true
same_side _ _ = false

pub same_side_iff : (a b : Side) → (same_side a b ≡ true) ↔ (a ≡ b)
same_side_iff buy buy = (λ h. refl, λ h. refl)
same_side_iff sell sell = (λ h. refl, λ h. refl)
same_side_iff hold hold = (λ h. refl, λ h. refl)
same_side_iff buy sell = (λ h. cc, λ h. cc)
same_side_iff buy hold = (λ h. cc, λ h. cc)
same_side_iff sell buy = (λ h. cc, λ h. cc)
same_side_iff sell hold = (λ h. cc, λ h. cc)
same_side_iff hold buy = (λ h. cc, λ h. cc)
same_side_iff hold sell = (λ h. cc, λ h. cc)

instance abbrev pub side_eq : Eq Side
side_eq = record { same_key = same_side; same_iff = same_side_iff }

-- `AggregationMethod(method)`
unfoldable pub parse_method : String → Option AggregationMethod
parse_method s =
    if s == "unanimous"
    then some unanimous
    else if s == "majority"
    then some majority
    else if s == "weighted"
    then some weighted
    else if s == "priority"
    then some priority
    else if s == "independent"
    then some independent
    else none

abbrev pub get_or_empty : {V : Type 0} → Option (List V) → List V
get_or_empty none = []
get_or_empty (some d) = d

module _ (desk : Desk) where
  open desk use {Float, of_int, zero, add, lt, le, is_finite}

  pub record SignalBatch : Type 0 where
    pub strategy_id : String
    pub signals : List (Signal desk)

  -- The last signal of each strategy on a symbol.
  abbrev pub Group : Type 0
  Group = Dict String (Signal desk)

  check_weights : Dict String Float → Outcome SignalAggregatorError (Unit {0})
  check_weights [] = ok tt
  check_weights ((sid, w) ∷ weights) = do
    raise_if (not (is_finite w)) (not_finite sid)
    raise_if (lt w zero) (negative sid)
    check_weights weights

  abbrev sum : List Float → Float → Float
  sum [] total = total
  sum (w ∷ weights) total = sum weights (add total w)

  abbrev pub equal : Float → Float → Bool
  equal a b = le a b && le b a

  abbrev needs_weight : AggregationMethod → Dict String Float → Bool
  needs_weight weighted (w ∷ weights) = equal (sum (values (w ∷ weights)) zero) zero
  needs_weight _ _ = false

  -- `SignalAggregator`: its method and its weights.
  unfoldable pub new_aggregator :
      String
      → Dict String Float
      → Outcome SignalAggregatorError (AggregationMethod × Dict String Float)
  unfolding parse_method check_weights
  new_aggregator name weights = elim (parse_method name) [
    | none ↦ err unknown_method
    | some method ↦ do
      check_weights weights
      raise_if (needs_weight method weights) zero_weights
      ok (method, weights)
  ]

  abbrev pub aggregated : Signal desk → Side → Signal desk
  aggregated template side = record template { side = side; strategy_id = "aggregated" }

  abbrev pub hold_like : Signal desk → Signal desk
  hold_like template = aggregated template hold

  abbrev pub is_active : Signal desk → Bool
  is_active s = not (s.side == hold)

  -- `next(iter(signals))`
  abbrev pub hold_like_first : List (Signal desk) → Option (Signal desk)
  hold_like_first [] = none
  hold_like_first (s ∷ signals) = some (hold_like s)

  -- The active signals are on one side or not.
  abbrev pub agree : List (Signal desk) → Option (Signal desk) → Option (Signal desk)
  agree [] otherwise = otherwise
  agree (s ∷ active) otherwise =
      if all (λ (t : Signal desk). t.side == s.side) active
      then some (aggregated s s.side)
      else some (hold_like s)

  unfoldable pub decide_unanimous : Group → Option (Signal desk)
  decide_unanimous group =
      let signals = values group in agree (keep is_active signals) (hold_like_first signals)

  abbrev pub get_or_zero : Option Float → Float
  get_or_zero none = zero
  get_or_zero (some w) = w

  -- `totals`, in the order in which the sides come.
  unfoldable pub side_totals : (String → Float) → Group → Dict Side Float → Dict Side Float
  side_totals weight_for [] totals = totals
  side_totals weight_for ((sid, s) ∷ group) totals = side_totals weight_for group (
      if is_active s
      then insert s.side (add (get_or_zero (lookup s.side totals)) (weight_for sid)) totals
      else totals)

  -- The first signal on a side, with it.
  abbrev pub winner : Side → List (Signal desk) → Option (Signal desk)
  winner side [] = none
  winner side (s ∷ signals) =
      let rest = winner side signals in if s.side == side then some (aggregated s side) else rest

  -- The side with the greater total; there are no more than two.
  abbrev pub decide_ranked : Dict Side Float → List (Signal desk) → Option (Signal desk)
  decide_ranked [] signals = hold_like_first signals
  decide_ranked ((side, total) ∷ []) signals = winner side signals
  decide_ranked ((a, total) ∷ (b, other) ∷ _) signals =
      if lt total other
      then winner b signals
      else if lt other total
      then winner a signals
      else hold_like_first signals

  unfoldable pub decide_weighted_with : (String → Float) → Group → Option (Signal desk)
  unfolding side_totals
  decide_weighted_with weight_for group =
      decide_ranked (side_totals weight_for group []) (values group)

  abbrev pub weight_or : Float → Dict String Float → String → Float
  weight_or default weights sid = elim (lookup sid weights) [ none ↦ default | some w ↦ w ]

  abbrev pub top_priority : Float → Dict String Float → List (String × Signal desk) → Float
  top_priority top weights [] = top
  top_priority top weights ((sid, s) ∷ active) =
      let w = weight_or zero weights sid in
      top_priority (if lt top w then w else top) weights active

  abbrev pub active_of : Group → Group
  active_of [] = []
  active_of ((sid, s) ∷ group) =
      let rest = active_of group in if is_active s then (sid, s) ∷ rest else rest

  abbrev pub with_priority : Float → Dict String Float → Group → List (Signal desk)
  with_priority top weights [] = []
  with_priority top weights ((sid, s) ∷ active) =
      let rest = with_priority top weights active in
      if equal (weight_or zero weights sid) top then s ∷ rest else rest

  -- The active signals of the highest priority.
  abbrev pub top_signals : Dict String Float → Group → List (Signal desk)
  top_signals weights [] = []
  top_signals weights ((sid, s) ∷ active) =
      with_priority (top_priority (weight_or zero weights sid) weights active) weights
        ((sid, s) ∷ active)

  unfoldable pub decide_priority : Dict String Float → Group → Option (Signal desk)
  decide_priority weights group =
      agree (top_signals weights (active_of group)) (hold_like_first (values group))

  unfoldable pub decide : AggregationMethod → Dict String Float → Group → Option (Signal desk)
  unfolding decide_unanimous decide_weighted_with decide_priority
  decide unanimous weights group = decide_unanimous group
  decide majority weights group = decide_weighted_with (λ sid. of_int (pos 1)) group
  decide weighted weights group = decide_weighted_with (weight_or (of_int (pos 1)) weights) group
  decide priority weights group = decide_priority weights group
  decide independent weights group = none

  -- `per_symbol`
  unfoldable pub group_batch : String → List (Signal desk) → Dict String Group → Dict String Group
  group_batch sid [] groups = groups
  group_batch sid (s ∷ signals) groups =
      group_batch sid signals
        (insert s.symbol (insert sid s (get_or_empty (lookup s.symbol groups))) groups)

  unfoldable pub group_batches : List SignalBatch → Dict String Group → Dict String Group
  unfolding group_batch
  group_batches [] groups = groups
  group_batches (b ∷ batches) groups =
      group_batches batches (group_batch b.strategy_id b.signals groups)

  abbrev pub decisions : AggregationMethod → Dict String Float → List Group → List (Signal desk)
  decisions method weights [] = []
  decisions method weights (g ∷ groups) =
      let rest = decisions method weights groups in
      elim (decide method weights g) [ none ↦ rest | some s ↦ s ∷ rest ]

  abbrev pub all_signals : List SignalBatch → List (Signal desk)
  all_signals [] = []
  all_signals (b ∷ batches) = b.signals ++ all_signals batches

  unfoldable pub aggregate :
      AggregationMethod → Dict String Float → List SignalBatch → List (Signal desk)
  unfolding group_batches decide
  aggregate independent weights batches = all_signals batches
  aggregate method weights batches = decisions method weights (values (group_batches batches []))
