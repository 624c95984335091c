-- ===== src/Tests/ReadyRuns.antt =====
-- A coroutine that reads from a socket from which another reads already.
use libarc.Prelude.{◌≡◌, refl, false, some, [], ◌∷◌, ◌==◌, ok}
use libarc.Events.{IoType, IoEvent, io}
use libarc.Poller.State.{Poller, init, add_io_event, queues}
use libarc.EventLoopGroup.{EventLoopGroup, new_group, register_event_loop, get_event_loop}
use libarc.Conditions.Cancellation.{AbortHandle, token, new_token}
use libarc.Io.Socket.{Socket, accepted_async_socket}
use libarc.Io.Transfer.{await_io, new_io_event}
use libarc.Io.Readiness.{io_rounds, await_io_served}

abbrev socket : Socket
socket = accepted_async_socket 7 100

abbrev earlier : IoEvent
earlier = new_io_event 7 IoType.read 70

abbrev read_loop : Poller
read_loop = (add_io_event (init 3) earlier).0

abbrev read_group : EventLoopGroup
read_group = (register_event_loop new_group read_loop).0

is_there : get_event_loop read_group 0 ≡ some read_loop
unfolding register_event_loop new_group
is_there = refl

one_reads : queues read_loop 7 IoType.read ≡ earlier ∷ []
unfolding add_io_event init
one_reads = refl

not_event_fd : (7 == read_loop.user_event_fd) ≡ false
unfolding add_io_event init
not_event_fd = refl

-- The second coroutine may be cancelled.
await_io_served_example :
    (abort' : AbortHandle) × (g' : EventLoopGroup) × (p' p'' : Poller) × (e : IoEvent) × (await_io
        socket IoType.read
        (token new_token)
        read_group
        0
        500
        71
      ≡ ok (abort', g', e))
    × (e.handle ≡ 71)
    × (get_event_loop g' 0 ≡ some p')
    × (io_rounds p' 7 IoType.read 2 ≡ ok (io earlier ∷ io e ∷ [], p''))
    × (queues p'' 7 IoType.read ≡ [])
await_io_served_example =
    await_io_served socket 7 IoType.read (token new_token) read_group 0 read_loop 500 71
      (earlier ∷ []) refl is_there not_event_fd one_reads
