-- ===== src/Poller/Kernel.antt =====
-- What the poller takes from the kernel: `epoll_ctl`. Its documented behaviour is `EpollLaws`.
use libarc.Prelude.{ℕ, ◌<◌, ◌≡◌, Bool, true, Option, some, if◌then◌else◌, ◌==◌}

-- EPOLL_CTL_ADD, EPOLL_CTL_MOD, EPOLL_CTL_DEL
pub data CtlOp : Type 0 where
  add mod_ del : CtlOp

-- EPOLLIN and EPOLLOUT
abbrev pub epollin : ℕ
epollin = 1

abbrev pub epollout : ℕ
epollout = 4

-- One epoll instance. `epoll_ctl k op fd events` is `none` where the call returns nonzero.
pub record Epoll : Type 1 where
  pub Kernel : Type 0
  pub epoll_ctl : Kernel → CtlOp → ℕ → ℕ → Option Kernel
  -- The events that `fd` is registered for; 0 if it is not registered.
  pub interest : Kernel → ℕ → ℕ
  -- Whether `fd` is open and supports epoll.
  pub can_poll : ℕ → Bool

-- `k'` is `k` with `fd` registered for `events`.
abbrev pub Registers : (E : Epoll) → E.Kernel → ℕ → ℕ → E.Kernel → Type 0
Registers E k fd events k' =
    (j : ℕ) → E.interest k' j ≡ (if fd == j then events else E.interest k j)

-- epoll_ctl(2): ADD wants an unregistered descriptor, MOD and DEL want a registered one.
pub record EpollLaws (E : Epoll) : Type 0 where
  pub add_ok :
      (k : E.Kernel) (fd events : ℕ)
      → E.can_poll fd ≡ true
      → E.interest k fd ≡ 0
      → 0 < events
      → (k' : E.Kernel) × (E.epoll_ctl k CtlOp.add fd events ≡ some k') × Registers E k fd events k'
  pub mod_ok :
      (k : E.Kernel) (fd events : ℕ)
      → E.can_poll fd ≡ true
      → 0 < E.interest k fd
      → 0 < events
      → (k' : E.Kernel) × (E.epoll_ctl k CtlOp.mod_ fd events ≡ some k')
        × Registers E k fd events k'
  pub del_ok :
      (k : E.Kernel) (fd events : ℕ)
      → E.can_poll fd ≡ true
      → 0 < E.interest k fd
      → (k' : E.Kernel) × (E.epoll_ctl k CtlOp.del fd events ≡ some k') × Registers E k fd 0 k'
