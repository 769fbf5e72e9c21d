-- ===== src/Event.antt =====
-- event.hpp: what `submit` returns. An event has no state, and every operation throws.
use neo_sycl.Prelude.{List}
use neo_sycl.Outcome.{Outcome, throws, unimplemented}

pub data Event : Type 0 where
  event : Event

unfoldable pub get_wait_list : Event → Outcome (List Event)
get_wait_list e = throws unimplemented

unfoldable pub wait : Event → Outcome (Unit {0})
wait e = throws unimplemented

unfoldable pub wait_all : List Event → Outcome (Unit {0})
wait_all es = throws unimplemented

unfoldable pub wait_and_throw : Event → Outcome (Unit {0})
wait_and_throw e = throws unimplemented

unfoldable pub wait_and_throw_all : List Event → Outcome (Unit {0})
wait_and_throw_all es = throws unimplemented
