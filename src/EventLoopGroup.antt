-- ===== src/EventLoopGroup.antt =====
-- `EventLoopGroup` of include/arc/coro/eventloop_group.h. Of an event loop it is the poller that
-- the others reach through the group.
use libarc.Prelude.{ℕ, ◌+◌, Option, none, Map, insert, insert_new, erase_key}
use libarc.Poller.State.{Poller}

pub record EventLoopGroup : Type 0 where
  pub max_id : ℕ
  pub loops : Map Poller

unfoldable pub new_group : EventLoopGroup
new_group = record { max_id = 0; loops = λ id. none }

-- With the identifier of the new loop.
unfoldable pub register_event_loop : EventLoopGroup → Poller → EventLoopGroup × ℕ
register_event_loop g loop =
    (record { max_id = g.max_id + 1; loops = insert_new g.max_id loop g.loops }, g.max_id)

unfoldable pub deregister_event_loop : EventLoopGroup → (id : ℕ) → EventLoopGroup
deregister_event_loop g id = record g { loops = erase_key id g.loops }

abbrev pub get_event_loop : EventLoopGroup → (id : ℕ) → Option Poller
get_event_loop g id = g.loops id

-- A loop that was reached through its pointer, as it is afterwards.
abbrev pub put_event_loop : EventLoopGroup → (id : ℕ) → Poller → EventLoopGroup
put_event_loop g id loop = record g { loops = insert id loop g.loops }
