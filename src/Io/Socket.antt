-- ===== src/Io/Socket.antt =====
-- `IOBase` of src/io/io_base.cc, `SocketBase` of include/arc/io/socket_base.h and `Socket` of
-- include/arc/io/socket.h. An address is a number; what the system calls answer is an argument.
use Prim.Native.Nat.{bit_or, bit_and}
use libarc.Prelude.{
  ℕ, ◌-◌, ◌^◌, Bool, true, false, Option, none, some, List, [], ltb, if◌then◌else◌, Outcome, ok,
  throws, Exception, ◌>>=◌, ◌>>◌, require, set_erase,
}
use libarc.Events.{IoEvent}
use libarc.Poller.Kernel.{Epoll}
use libarc.Poller.State.{Poller}
use libarc.Poller.IoEvents.{remove_all_io_events}

-- `fd_`; `none` is -1, and also what a move leaves behind.
pub record Socket : Type 0 where
  pub fd : Option ℕ
  pub addr : ℕ
  pub is_non_blocking : Bool
  pub is_bound : Bool

abbrev pub or_throw_io {ℓ} : {A : Type ℓ} → Option A → Outcome A
or_throw_io none = throws Exception.io_exception
or_throw_io (some a) = ok a

-- O_NONBLOCK
abbrev pub o_nonblock : ℕ
o_nonblock = 2048

-- The flags that `SetNonBlocking` sets, of 32 bits.
abbrev pub non_blocking_flags : (is_enabled : Bool) → (flags : ℕ) → ℕ
non_blocking_flags true flags = bit_or flags o_nonblock
non_blocking_flags false flags = bit_and flags (2 ^ 32 - 1 - o_nonblock)

-- `flags` is what F_GETFL gives, and `set` whether F_SETFL succeeds. With the flags that are set.
unfoldable pub set_non_blocking :
    Socket → (is_enabled : Bool) → (flags : Option ℕ) → (set : ℕ → Bool) → Outcome (Socket × ℕ)
set_non_blocking s is_enabled flags set = do
  old ← or_throw_io flags
  let new = non_blocking_flags is_enabled old
  require (set new) Exception.io_exception
  ok (record s { is_non_blocking = is_enabled }, new)

-- The constructor, with the descriptor that `socket` gives, and for one that `accept` has given.
unfoldable pub open_socket : (fd : Option ℕ) → (no_addr : ℕ) → Outcome Socket
open_socket fd no_addr = or_throw_io fd >>= λ n.
    ok (record { fd = some n; addr = no_addr; is_non_blocking = false; is_bound = false })

abbrev pub accepted_socket : (fd addr : ℕ) → Socket
accepted_socket fd addr = record {
  fd = some fd;
  addr = addr;
  is_non_blocking = false;
  is_bound = false;
}

-- That socket in the asynchronous pattern, once it has been set not to block.
abbrev pub accepted_async_socket : (fd addr : ℕ) → Socket
accepted_async_socket fd addr = record (accepted_socket fd addr) { is_non_blocking = true }

-- A `Socket` of the asynchronous pattern does not block.
unfoldable pub open_async :
    (fd : Option ℕ) → (no_addr : ℕ) → (flags : Option ℕ) → (set : ℕ → Bool) → Outcome Socket
open_async fd no_addr flags set = do
  s ← open_socket fd no_addr
  r ← set_non_blocking s true flags set
  ok r.0

-- The move constructor: the new socket, and the other one. `is_bound_` stays behind.
unfoldable pub move_construct : Socket → Socket × Socket
move_construct other = (
  record {
    fd = other.fd;
    addr = other.addr;
    is_non_blocking = other.is_non_blocking;
    is_bound = false;
  },
  record other { fd = none },
)

-- The move assignment. The descriptor that the socket had is not closed.
unfoldable pub move_assign : Socket → Socket → Socket × Socket
move_assign this other = (
  record this { fd = other.fd; addr = other.addr; is_non_blocking = other.is_non_blocking },
  record other { fd = none },
)

unfoldable pub bind : Socket → (addr : ℕ) → (is_bound : Bool) → Outcome Socket
bind s addr is_bound =
    require is_bound Exception.io_exception >> ok (record s { addr = addr; is_bound = true })

-- `Connect` of the synchronous pattern.
unfoldable pub connect : (connected : Bool) → Outcome (Unit {0})
connect connected = require connected Exception.io_exception

-- What `connect` of a socket that does not block may come to.
pub data Connecting : Type 0 where
  connected in_progress failed : Connecting

-- Whether the coroutine goes on at once. When it is resumed later, `ConnectResumeFunctor` does
-- nothing.
unfoldable pub connect_ready : Connecting → Outcome Bool
connect_ready connected = ok true
connect_ready in_progress = ok false
connect_ready failed = throws Exception.io_exception

-- The descriptors that are open, without the one that is closed.
unfoldable pub close_fd : Option ℕ → List ℕ → List ℕ
close_fd none open_fds = open_fds
close_fd (some fd) open_fds = set_erase fd open_fds

-- The destructor of `Socket`, and then that of `IOBase`: the events that wait for the descriptor are
-- resumed and removed before it is closed. Descriptor 0 has none removed.
unfoldable pub destroy :
    (E : Epoll)
    → E.Kernel
    → Poller
    → List ℕ
    → Socket
    → Outcome (List IoEvent × Poller × E.Kernel × List ℕ)
destroy E k p open_fds s = elim s.fd [
  | none ↦ ok ([], p, k, open_fds)
  | some fd ↦
      if ltb 0 fd
      then (remove_all_io_events E k p fd >>= λ r. ok (r.0, r.1, r.2, close_fd (some fd) open_fds))
      else ok ([], p, k, close_fd (some fd) open_fds)
]
