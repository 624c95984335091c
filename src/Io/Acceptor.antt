-- ===== src/Io/Acceptor.antt =====
-- `Acceptor` of include/arc/io/socket.h.
use libarc.Prelude.{
  ℕ, ◌≡◌, refl, ◌∙◌, Bool, true, not, List, [], ◌∷◌, ◌++◌, empty, Outcome, ok, throws, undefined,
  Exception, ◌>>=◌, ◌>>◌, require, arith,
}
use mathlib.Core.List.{append-nil, append_assoc}
use libarc.Io.Socket.{Socket, accepted_socket, accepted_async_socket}

pub record Acceptor : Type 0 where
  pub accepted_sockets : List Socket
  pub is_listened : Bool

-- What one call of `accept` comes to: a descriptor and the peer's address; a descriptor that cannot
-- be set not to block; EAGAIN; or an error.
pub data Accepting : Type 0 where
  accepted : (fd addr : ℕ) → Accepting
  unset again failed : Accepting

unfoldable pub listen : Acceptor → (is_listening : Bool) → Outcome Acceptor
listen a is_listening =
    require is_listening Exception.io_exception >> ok (record a { is_listened = true })

-- `Accept` of the synchronous pattern.
unfoldable pub accept : Accepting → Outcome Socket
accept (accepted fd addr) = ok (accepted_socket fd addr)
accept unset = throws Exception.io_exception
accept again = throws Exception.io_exception
accept failed = throws Exception.io_exception

-- `IOReadyFunctor`
unfoldable pub is_ready : Acceptor → Bool
is_ready a = not (empty a.accepted_sockets)

-- The loop, which ends only at EAGAIN or an error; `undefined` is a loop that goes on.
unfoldable pub accept_loop : List Accepting → List Socket → Outcome (List Socket × List Accepting)
accept_loop [] sockets = undefined
accept_loop (accepted fd addr ∷ answers) sockets =
    accept_loop answers (sockets ++ accepted_async_socket fd addr ∷ [])
accept_loop (unset ∷ answers) sockets = throws Exception.io_exception
accept_loop (again ∷ answers) sockets = ok (sockets, answers)
accept_loop (failed ∷ answers) sockets = throws Exception.io_exception

-- `front` of an empty queue is undefined.
unfoldable pub pop_front : Acceptor → List Socket → Outcome (Socket × Acceptor)
pop_front a [] = undefined
pop_front a (s ∷ rest) = ok (s, record a { accepted_sockets = rest })

-- `GetNextAvailableSocket`, with the answers that are left.
unfoldable pub get_next_available_socket :
    Acceptor → List Accepting → Outcome (Socket × Acceptor × List Accepting)
get_next_available_socket a answers = elim a.accepted_sockets [
  | s ∷ rest ↦ ok (s, record a { accepted_sockets = rest }, answers)
  | [] ↦ do r ← accept_loop answers []; x ← pop_front a r.0; ok (x.0, x.1, r.1)
]

-- The next `n` sockets.
unfoldable pub take_sockets :
    List (ℕ × ℕ) → Acceptor → List Accepting → Outcome (List Socket × Acceptor × List Accepting)
take_sockets [] a answers = ok ([], a, answers)
take_sockets (x ∷ xs) a answers = do
  r ← get_next_available_socket a answers
  s ← take_sockets xs r.1 r.2
  ok (r.0 ∷ s.0, s.1, s.2)

abbrev pub answers_of : List (ℕ × ℕ) → List Accepting
answers_of [] = []
answers_of ((fd, addr) ∷ xs) = accepted fd addr ∷ answers_of xs

abbrev pub sockets_of : List (ℕ × ℕ) → List Socket
sockets_of [] = []
sockets_of ((fd, addr) ∷ xs) = accepted_async_socket fd addr ∷ sockets_of xs

accept_loop-answers_of :
    (xs : List (ℕ × ℕ)) (answers : List Accepting) (sockets : List Socket)
    → accept_loop (answers_of xs ++ again ∷ answers) sockets
      ≡ ok (sockets ++ sockets_of xs, answers)
unfolding accept_loop
accept_loop-answers_of [] answers sockets = rw append-nil refl
accept_loop-answers_of ((fd, addr) ∷ xs) answers sockets =
    accept_loop-answers_of xs answers (sockets ++ accepted_async_socket fd addr ∷ [])
    ∙ rw append_assoc refl

-- Sockets that are in the queue are handed out from it, without a call of `accept`.
take_queued :
    (xs : List (ℕ × ℕ)) (a : Acceptor) (answers : List Accepting)
    → a.accepted_sockets ≡ sockets_of xs
    → take_sockets xs a answers ≡ ok (sockets_of xs, record a { accepted_sockets = [] }, answers)
unfolding take_sockets get_next_available_socket
take_queued [] a answers e = rw e refl
take_queued ((fd, addr) ∷ xs) a answers e =
    let later = take_queued xs (record a { accepted_sockets = sockets_of xs }) answers refl in
    ground arith

-- If the queue is empty and `accept` gives one connection or more before EAGAIN, then as many calls
-- of `Accept` give each of them once, in the order in which they came, and leave the queue empty;
-- only the first calls `accept`.
pub take_sockets-in_order :
    (fd addr : ℕ) (xs : List (ℕ × ℕ)) (a : Acceptor) (answers : List Accepting)
    → a.accepted_sockets ≡ []
    → take_sockets ((fd, addr) ∷ xs) a (answers_of ((fd, addr) ∷ xs) ++ again ∷ answers)
      ≡ ok (sockets_of ((fd, addr) ∷ xs), a, answers)
unfolding take_sockets get_next_available_socket pop_front
take_sockets-in_order fd addr xs a answers e =
    let all = accept_loop-answers_of ((fd, addr) ∷ xs) answers [] in
    let later = take_queued xs (record a { accepted_sockets = sockets_of xs }) answers refl in
    ground arith
