-- ===== src/Timer/Agenda.antt =====
-- What src/starnet_timer.cpp promises, with no wheel: a clock and the list of waiting nodes.
use mathlib.Core.List.{filter}
use starnet.Common.{ℕ, zero, suc, ◌+◌, ◌%◌, ◌^◌, List, [], ◌∷◌, ◌++◌, map, ℕ_discrete}
use starnet.Timer.{Event, Node, Add, Windows, Others}
use starnet.Timer.Carry.{next_tick}

pub record Agenda : Type 0 where
  pub time : ℕ
  pub waiting : List Node

abbrev pub negated : {P : Type 0} → Dec P → Dec (¬ P)
negated (yes p) = no (λ h. h p)
negated (no h) = yes h

abbrev pub due : ℕ → List Node → List Node
due now = filter (λ n. ℕ_discrete n.expire now)

abbrev pub not_due : ℕ → List Node → List Node
not_due now = filter (λ n. negated (ℕ_discrete n.expire now))

abbrev pub node_of : ℕ → Event → ℕ → Node
node_of now e delay = record { expire = (delay + now) % 2 ^ 32; event = e }

abbrev pub added : ℕ → List Add → List Node
added now = map (λ a. node_of now a.event a.delay)

-- The adds that come in while the lock is released: it is, only where something is dispatched.
abbrev pub window : List Node → Windows → List Add
window [] ws = []
window (n ∷ ns) [] = []
window (n ∷ ns) (w ∷ ws) = w

abbrev pub events : List Node → List Event
events = map (λ n. n.event)

-- One tick: the nodes due at the next time are fired, in order of arrival.
unfoldable pub tick_events : Agenda → List Event
tick_events a = events (due (next_tick a.time) a.waiting)

unfoldable pub tick : Windows → Agenda → Agenda
tick vs a = record {
  time = now;
  waiting = not_due now a.waiting ++ added now (window (due now a.waiting) vs);
}
  where
    now : ℕ
    now = next_tick a.time

-- The agenda with more nodes, behind the others.
unfoldable pub then_adds : List Add → Agenda → Agenda
then_adds w a = record a { waiting = a.waiting ++ added a.time w }

-- A number of ticks, the i-th with what `ws i` adds before it and in its second windows.
unfoldable pub ticks_events : ℕ → ℕ → (ℕ → Others) → Agenda → List Event
ticks_events zero i ws a = []
ticks_events (suc n) i ws a =
    let b = then_adds (ws i).before a in
    tick_events b ++ ticks_events n (i + 1) ws (tick (ws i).second b)

unfoldable pub ticks : ℕ → ℕ → (ℕ → Others) → Agenda → Agenda
ticks zero i ws a = a
ticks (suc n) i ws a = ticks n (i + 1) ws (tick (ws i).second (then_adds (ws i).before a))
