-- ===== src/Flow.antt =====
-- The virtual functions of include/octo-logger-cpp/sink.hpp as an interface, and the calls of src/manager.cpp
-- carried out by a sink.
pub mod Classes
pub mod Broadcast
pub mod Reaching
pub mod Terminating
pub mod Clearing
mod Tests
use octo_logger_cpp.Prelude.{
  ℕ, Bool, true, false, not, ◌&&◌, ◌||◌, Option, none, some, List, [], ◌∷◌, drop, length, ◌>>=◌,
  ◌==◌, if◌then◌else◌,
}
use octo_logger_cpp.Prelude.Result.{Result, ok, throw}
use octo_logger_cpp.Context.{ContextInfo}
use octo_logger_cpp.Channel.{Channel, Log}
use octo_logger_cpp.Manager.{SinkPtr, Call, stop_call, dump_call, restart_call, Manager}
use octo_logger_cpp.Logger.{Process, managed, no_manager}

-- A class of sinks. An object is a sink with all that it writes to; `none` is the end of the program.
-- `on_destroy` is what the destructor does to the sink and to what it writes to.
pub record SinkClass : Type 1 where
  pub Object : Type 0
  pub on_stop : Bool → Object → Object
  pub on_dump : Log → Channel → ContextInfo → ContextInfo → Object → Option Object
  pub on_restart : Object → Object
  pub on_destroy : Object → Object

unfoldable pub among : SinkPtr → List SinkPtr → Bool
among p [] = false
among p (q ∷ qs) = q == p || among p qs

module _ (K : SinkClass) where
  -- One virtual call.
  abbrev pub carry_out : Call → K.Object → Option K.Object
  carry_out (stop_call discard) s = some (K.on_stop discard s)
  carry_out (dump_call log c ci global) s = K.on_dump log c ci global s
  carry_out restart_call s = some (K.on_restart s)

  -- Those of the calls that are for the sink at an address, in their order.
  unfoldable pub carry_out_all : SinkPtr → List (SinkPtr × Call) → K.Object → Option K.Object
  carry_out_all p [] s = some s
  carry_out_all p ((q, call) ∷ calls) s =
      let other = carry_out_all p calls s in
      let own = carry_out call s >>= carry_out_all p calls in if q == p then own else other

  -- The sink once the manager has given up the pointers of a list; `held`: another pointer holds the sink.
  abbrev pub given_up : Bool → SinkPtr → List SinkPtr → K.Object → K.Object
  given_up held p released s = if among p released && not held then K.on_destroy s else s

-- The calls that have been made up to the end of a statement; there are none if it has thrown.
abbrev pub calls_of : Result (Option Process) → List (SinkPtr × Call)
calls_of (throw x) = []
calls_of (ok none) = []
calls_of (ok (some (no_manager mem))) = []
calls_of (ok (some (managed m))) = m.memory.calls

-- Those of them that are not in the manager's memory before the statement.
abbrev pub calls_since : Manager → Result (Option Process) → List (SinkPtr × Call)
calls_since m result = drop (length m.memory.calls) (calls_of result)

-- The sinks that have been given up between two states of the manager.
abbrev pub released_since : Manager → Manager → List SinkPtr
released_since m n = drop (length m.memory.released) n.memory.released
