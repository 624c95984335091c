-- ===== src/Io/Retries.antt =====
-- The loops of `TLSSocket` of include/arc/io/tls_socket.h that call OpenSSL until it has an answer:
-- `Recv`, `Send`, the handshake of `Connect`, and `Shutdown`.
use libarc.Prelude.{
  ℕ, Bool, true, false, ◌&&◌, ◌==◌, Option, none, some, List, [], ◌∷◌, Exception, if◌then◌else◌,
}
use libarc.Prelude.Int.{ℤ, pos, negsuc, ltb_ℤ}
use libarc.Events.{IoType, read, write}

-- What SSL_get_error gives.
pub data SslError : Type 0 where
  want_read want_write zero_return syscall other_error : SslError

-- One call of OpenSSL; `is_abort` is what the wait gives, if the code waits after this call.
pub record Attempt : Type 0 where
  pub ret : ℤ
  pub error : SslError
  pub errno : ℕ
  pub is_abort : Bool

-- What the code does after a call.
pub data Verdict : Type 0 where
  waits : IoType → Verdict
  again : Verdict
  returns : ℤ → Verdict
  fails : Exception → Verdict

-- How a loop ends.
pub data Ending : Type 0 where
  returned : ℤ → Ending
  aborted : Ending
  thrown : Exception → Ending

unfoldable pub recv_verdict : Attempt → Verdict
recv_verdict a = if ltb_ℤ (pos 0) a.ret then returns a.ret else elim a.error [
  | want_read ↦ waits read
  | want_write ↦ waits write
  | zero_return ↦ returns (pos 0)
  | syscall ↦ if a.errno == 0 then returns (pos 0) else returns a.ret
  | other_error ↦ returns a.ret
]

unfoldable pub send_verdict : Attempt → Verdict
send_verdict a =
    if ltb_ℤ a.ret (pos 0)
    then elim a.error [
      | want_read ↦ waits read
      | want_write ↦ waits write
      | zero_return ↦ returns a.ret
      | syscall ↦ returns a.ret
      | other_error ↦ returns a.ret
    ]
    else returns a.ret

-- `r == x`
abbrev pub is_int : ℤ → ℕ → Bool
is_int (pos n) x = n == x
is_int (negsuc _) x = false

unfoldable pub handshake_verdict : Attempt → Verdict
handshake_verdict a = if is_int a.ret 1 then returns (pos 1) else elim a.error [
  | want_write ↦ waits write
  | want_read ↦ waits read
  | zero_return ↦ fails Exception.tls_exception
  | syscall ↦ fails Exception.tls_exception
  | other_error ↦ fails Exception.tls_exception
]

unfoldable pub shutdown_verdict : Attempt → Verdict
shutdown_verdict a =
    if is_int a.ret 1 then returns (pos 1) else if is_int a.ret 0 then again else elim a.error [
      | want_write ↦ waits write
      | want_read ↦ waits read
      | syscall ↦ if a.errno == 0 then returns a.ret else fails Exception.tls_exception
      | zero_return ↦ fails Exception.tls_exception
      | other_error ↦ fails Exception.tls_exception
    ]

-- `Shutdown` of the synchronous pattern never waits.
unfoldable pub shutdown_sync_verdict : Attempt → Verdict
shutdown_sync_verdict a =
    if is_int a.ret 1
    then returns (pos 1)
    else if is_int a.ret 0
    then again
    else fails Exception.tls_exception

-- How the loop ended, the waits in their order, and the calls that were not made.
pub record Run : Type 0 where
  pub ending : Ending
  pub waited : List IoType
  pub left : List Attempt

abbrev pub after_wait : IoType → Option Run → Option Run
after_wait t none = none
after_wait t (some r) = some (record r { waited = t ∷ r.waited })

-- The loop, over what OpenSSL answers; `none` if it has not ended with the last of the answers. A
-- loop without a token or a timeout does not look at what the wait gives.
unfoldable pub retry :
    (verdict : Attempt → Verdict) → (can_abort : Bool) → List Attempt → Option Run
retry verdict can_abort [] = none
retry verdict can_abort (a ∷ rest) =
    let later = retry verdict can_abort rest in
    elim (verdict a) [
      | returns n ↦ some (record { ending = returned n; waited = []; left = rest })
      | fails e ↦ some (record { ending = thrown e; waited = []; left = rest })
      | again ↦ later
      | waits t ↦
          if can_abort && a.is_abort
          then some (record { ending = aborted; waited = t ∷ []; left = rest })
          else after_wait t later
    ]

unfoldable pub recv : List Attempt → Option Run
recv = retry recv_verdict false

-- With a token or with a timeout.
unfoldable pub recv_interruptible : List Attempt → Option Run
recv_interruptible = retry recv_verdict true

unfoldable pub send : List Attempt → Option Run
send = retry send_verdict false

unfoldable pub send_interruptible : List Attempt → Option Run
send_interruptible = retry send_verdict true

unfoldable pub handshake : List Attempt → Option Run
handshake = retry handshake_verdict false

-- A socket that has no SSL object, after a move, is not shut down.
unfoldable pub shutdown : (has_ssl : Bool) → List Attempt → Option Run
shutdown false attempts = some (record { ending = returned (pos 0); waited = []; left = attempts })
shutdown true attempts = retry shutdown_verdict false attempts

unfoldable pub shutdown_sync : (has_ssl : Bool) → List Attempt → Option Run
shutdown_sync false attempts =
    some (record { ending = returned (pos 0); waited = []; left = attempts })
shutdown_sync true attempts = retry shutdown_sync_verdict false attempts
