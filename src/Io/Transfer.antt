-- ===== src/Io/Transfer.antt =====
-- What include/arc/io/socket.h and socket_base.h do with an open socket besides connecting: the
-- awaiters of `Send` and `Recv`, options and addresses.
use libarc.Prelude.{
  ℕ, Bool, false, Option, none, some, Outcome, throws, ◌>>=◌, defined, require, Exception,
}
use libarc.Events.{IoType, IoEvent}
use libarc.EventLoopGroup.{EventLoopGroup}
use libarc.Conditions.Cancellation.{AbortHandle}
use libarc.Awaiters.{suspend_io, resume_io}
use libarc.Net.Address.{Domain, CAddress, Resolver, Address, of_c_address}
use libarc.Io.Socket.{Socket}

-- `IOReadyFunctor`: the coroutine always waits first.
abbrev pub io_ready : Bool
io_ready = false

-- The event that an awaiter makes for the coroutine `handle`.
abbrev pub new_io_event : (fd : ℕ) → IoType → (handle : ℕ) → IoEvent
new_io_event fd t handle = record {
  event_id = 0;
  fd = fd;
  io_type = t;
  handle = handle;
  is_interrupted = false;
}

-- A descriptor of -1 is no index of the poller's array.
unfoldable pub await_io :
    Socket
    → IoType
    → AbortHandle
    → EventLoopGroup
    → (loop_id address handle : ℕ) → Outcome (AbortHandle × EventLoopGroup × IoEvent)
await_io s t abort g loop_id address handle =
    defined s.fd >>= λ fd. suspend_io abort g loop_id address (new_io_event fd t handle)

-- `Send` and `Recv` of the asynchronous pattern, without an abort handle, with a token or with a
-- timeout.
unfoldable pub send_async :
    Socket
    → AbortHandle
    → EventLoopGroup
    → (loop_id address handle : ℕ) → Outcome (AbortHandle × EventLoopGroup × IoEvent)
send_async s abort g loop_id address handle = await_io s IoType.write abort g loop_id address handle

unfoldable pub recv_async :
    Socket
    → AbortHandle
    → EventLoopGroup
    → (loop_id address handle : ℕ) → Outcome (AbortHandle × EventLoopGroup × IoEvent)
recv_async s abort g loop_id address handle = await_io s IoType.read abort g loop_id address handle

-- What the awaiter gives: a wait that was cut short calls `send` or `recv` all the same, of which
-- `answer` is the result.
unfoldable pub transferred {ℓ} : {A : Type ℓ} → AbortHandle → IoEvent → (answer : A) → A
transferred abort event answer = resume_io abort event answer answer

unfoldable pub set_option : (set : Bool) → Outcome (Unit {0})
set_option set = require set Exception.io_exception

-- The answer of `getsockname` or `getpeername`, if it succeeds.
abbrev address_of_answer : Resolver → Domain → Option CAddress → Outcome Address
address_of_answer r af none = throws Exception.io_exception
address_of_answer r af (some c) = of_c_address r af c

unfoldable pub get_local_address : Resolver → Domain → Option CAddress → Outcome Address
get_local_address r af answer = address_of_answer r af answer

unfoldable pub get_peer_address : Resolver → Domain → Option CAddress → Outcome Address
get_peer_address r af answer = address_of_answer r af answer
