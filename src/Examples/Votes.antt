-- ===== src/Examples/Votes.antt =====
-- Two strategies of which one wants to buy and the other nothing.
use nexus_trade_engine.Prelude.{◌≡◌, ◌≢◌, refl, inl, inr, List, [], ◌∷◌, All, Any, Dict, String}
use nexus_trade_engine.Prelude.Int.{ℤ, pos}
use nexus_trade_engine.OrderManager.{Signal, buy, hold}
use nexus_trade_engine.Signals.{
  majority, independent, SignalBatch, Group, decide, all_signals, aggregate,
}
use nexus_trade_engine.Signals.Voted.{Mirrors, aggregate-IsVoted}
use nexus_trade_engine.Signals.Consensus.{DecidesFor, decide-DecidesFor}
use nexus_trade_engine.Examples.Desks.{desk, signal}

abbrev rests : Signal desk
rests = record signal { side = hold; strategy_id = "range" }

abbrev batches : List (SignalBatch desk)
batches =
    record { strategy_id = "range"; signals = rests ∷ [] }
    ∷ record { strategy_id = "trend"; signals = signal ∷ [] }
    ∷ []

abbrev weights : Dict String ℤ
weights = ("trend", pos 2) ∷ []

abbrev group : Group desk
group = ("range", rests) ∷ ("trend", signal) ∷ []

aggregate-IsVoted_example :
    All
      (λ s. Any (Mirrors desk s) (all_signals desk batches))
      (aggregate desk majority weights batches)
aggregate-IsVoted_example =
    aggregate-IsVoted desk majority weights batches (λ e. let k : majority ≡ independent = e in cc)

buys : buy ≢ hold
buys e = let k : buy ≡ hold = e in cc

decide-DecidesFor_example : DecidesFor desk buy buys (decide desk majority weights group)
decide-DecidesFor_example =
    decide-DecidesFor desk buy buys majority weights group tt (inl refl, (inr refl, tt))
      (inr (inl refl))
