-- ===== src/Tests/IoRuns.antt =====
-- Concrete runs of the sockets.
use libarc.Prelude.{ℕ, ◌≡◌, refl, true, false, none, some, List, [], ◌∷◌, ◌++◌, ok, arith, update}
use libarc.Prelude.Int.{pos, negsuc}
use libarc.Events.{read, write}
use libarc.Io.Socket.{Socket, accepted_socket}
use libarc.Io.Acceptor.{
  Acceptor, again, take_sockets, take_sockets-in_order, answers_of, sockets_of,
}
use libarc.Io.Ownership.{Process, opens, act, Reachable, begins, then_act, IsSole, Reachable-IsSole}
use libarc.Io.Tls.{TlsSocket, client, open_tls, fetch_ssl, bind_fd_with_ssl}
use libarc.Io.TlsOwnership
use libarc.Io.TlsOwnership.{TlsProcess, act_tls, IsBound, tls_acts_succeed}
use libarc.Io.Retries.{Attempt, SslError, returned, recv, recv_interruptible}
use libarc.Io.Persistence.{recv_persists}

abbrev no_sockets : Acceptor
no_sockets = record { accepted_sockets = []; is_listened = true }

abbrev two_peers : List (ℕ × ℕ)
two_peers = (7, 100) ∷ (8, 101) ∷ []

take_sockets-in_order_example :
    take_sockets two_peers no_sockets (answers_of two_peers ++ again ∷ [])
    ≡ ok (sockets_of two_peers, no_sockets, [])
take_sockets-in_order_example = take_sockets-in_order 7 100 ((8, 101) ∷ []) no_sockets [] refl

abbrev no_socket : Socket
no_socket = record { fd = none; addr = 0; is_non_blocking = false; is_bound = false }

abbrev at_start : Process
at_start = record { variables = λ i. no_socket; open_fds = [] }

abbrev two_sockets : Process
two_sockets = act (opens 2 8 101) (act (opens 1 7 100) at_start)

two_sockets-Reachable : Reachable two_sockets
unfolding act
two_sockets-Reachable =
    then_act (opens 2 8 101) (act (opens 1 7 100) at_start)
      (then_act (opens 1 7 100) at_start (begins at_start (λ i. refl)) (refl, refl)) (refl, refl)

Reachable-IsSole_example : IsSole two_sockets
Reachable-IsSole_example = Reachable-IsSole two_sockets two_sockets-Reachable

abbrev wants_write : Attempt
wants_write = record { ret = negsuc 0; error = SslError.want_write; errno = 11; is_abort = false }

abbrev wants_read : Attempt
wants_read = record { ret = negsuc 0; error = SslError.want_read; errno = 11; is_abort = false }

abbrev gives_five : Attempt
gives_five = record { ret = pos 5; error = SslError.other_error; errno = 0; is_abort = false }

recv_persists_example :
    (recv (wants_write ∷ wants_read ∷ gives_five ∷ [])
      ≡ some (record { ending = returned (pos 5); waited = write ∷ read ∷ []; left = [] }))
    × (recv_interruptible (wants_write ∷ wants_read ∷ gives_five ∷ [])
        ≡ some (record { ending = returned (pos 5); waited = write ∷ read ∷ []; left = [] }))
recv_persists_example =
    recv_persists (wants_write ∷ wants_read ∷ []) [] (write ∷ read ∷ []) gives_five
      (refl, refl, refl, (refl, refl, refl, refl)) refl

abbrev no_tls : TlsSocket
no_tls = record { socket = no_socket; has_context = false; ssl = none; protocol = 0; type = client }

abbrev no_tls_yet : TlsProcess
no_tls_yet = record { variables = λ i. no_tls; objects = record { live = []; fd_of = λ x. none } }

abbrev one_tls : TlsProcess
one_tls = record {
  variables = update no_tls_yet.variables 1 (record {
    socket = accepted_socket 7 100;
    has_context = true;
    ssl = some 40;
    protocol = 0;
    type = client;
  });
  objects = record { live = 40 ∷ []; fd_of = update (λ x. none) 40 (some 7) };
}

one_tls-Reachable : libarc.Io.TlsOwnership.Reachable one_tls
unfolding act_tls open_tls fetch_ssl bind_fd_with_ssl
one_tls-Reachable =
    libarc.Io.TlsOwnership.then_act
      (libarc.Io.TlsOwnership.opens 1 (accepted_socket 7 100) 0 client 40) no_tls_yet one_tls
      (libarc.Io.TlsOwnership.begins no_tls_yet (λ i. refl)) (refl, refl) refl

tls_acts_succeed_example :
    (w : TlsProcess) × (act_tls (libarc.Io.TlsOwnership.assign 2 1) one_tls ≡ ok w) × IsBound w
tls_acts_succeed_example =
    tls_acts_succeed one_tls (libarc.Io.TlsOwnership.assign 2 1) one_tls-Reachable
      (omega arith, (40, refl))
