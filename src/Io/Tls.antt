-- ===== src/Io/Tls.antt =====
-- `SSLContext` of include/arc/io/ssl.h and src/io/ssl.cc, and the SSL object of a `TLSSocket` of
-- include/arc/io/tls_socket.h. What OpenSSL's constructors give is an argument.
use libarc.Prelude.{
  ℕ, Bool, true, false, ◌&&◌, ◌∷◌, Option, none, some, List, is_some, set_erase, update,
  if◌then◌else◌, Outcome, ok, throws, undefined, Exception, ◌>>=◌, ◌>>◌, require,
}
use libarc.Io.Socket.{Socket, move_construct, move_assign}

pub data TlsProtocolType : Type 0 where
  client server not_spec : TlsProtocolType

pub data SslMethod : Type 0 where
  tls_method tls_client_method tls_server_method : SslMethod

-- `context_` is null after a move.
pub record SslContext : Type 0 where
  pub protocol : ℕ
  pub type : TlsProtocolType
  pub context : Option ℕ

unfoldable pub method_of : TlsProtocolType → SslMethod
method_of not_spec = tls_method
method_of client = tls_client_method
method_of server = tls_server_method

unfoldable pub new_context :
    (ctx_new : SslMethod → Option ℕ) → (protocol : ℕ) → TlsProtocolType → Outcome SslContext
new_context ctx_new protocol type = elim (ctx_new (method_of type)) [
  | none ↦ throws Exception.tls_exception
  | some c ↦ ok (record { protocol = protocol; type = type; context = some c })
]

-- The move constructor and the move assignment come to the same: what the target had is not freed.
unfoldable pub move_context : SslContext → SslContext × SslContext
move_context other = (other, record other { context = none })

-- Whether each call of OpenSSL gives 1.
unfoldable pub set_certificate_and_key : (cert key check : Bool) → Outcome (Unit {0})
set_certificate_and_key cert key check = do
  require cert Exception.tls_exception
  require key Exception.tls_exception
  require check Exception.tls_exception

-- The numbers that stand for the values of the enumeration.
abbrev pub type_number : TlsProtocolType → ℕ
type_number client = 0
type_number server = 1
type_number not_spec = 2

-- The contexts of one thread.
abbrev pub Contexts : Type 0
Contexts = ℕ → ℕ → Option SslContext

unfoldable pub get_local_ssl_context :
    (ctx_new : SslMethod → Option ℕ)
    → (protocol : ℕ) → (type : TlsProtocolType) → Contexts
    → Outcome (SslContext × Contexts)
get_local_ssl_context ctx_new protocol type contexts = elim (contexts protocol (type_number type)) [
  | some c ↦ ok (c, contexts)
  | none ↦ new_context ctx_new protocol type >>= λ c.
      ok (c, update contexts protocol (update (contexts protocol) (type_number type) (some c)))
]

-- The SSL objects that OpenSSL has, and the descriptor that each reads and writes.
pub record SslObjects : Type 0 where
  pub live : List ℕ
  pub fd_of : ℕ → Option ℕ

unfoldable pub fetch_ssl : (ssl_new : Option ℕ) → SslObjects → Outcome (ℕ × SslObjects)
fetch_ssl none o = throws Exception.logic_error
fetch_ssl (some x) o = ok (x, record o { live = x ∷ o.live })

-- SSL_free does nothing with a null pointer.
unfoldable pub free_ssl : (ssl : Option ℕ) → SslObjects → SslObjects
free_ssl none o = o
free_ssl (some x) o = record o { live = set_erase x o.live }

-- `has_context` is that `context_ptr_` is not null.
pub record TlsSocket : Type 0 where
  pub socket : Socket
  pub has_context : Bool
  pub ssl : Option ℕ
  pub protocol : ℕ
  pub type : TlsProtocolType

-- SSL_set_fd may not be called with a null pointer.
unfoldable pub bind_fd_with_ssl : TlsSocket → SslObjects → Outcome SslObjects
bind_fd_with_ssl s o = elim s.ssl [
  | none ↦ undefined
  | some x ↦ ok (record o { fd_of = update o.fd_of x s.socket.fd })
]

-- The constructors, with the socket that they make or take over.
unfoldable pub open_tls :
    Socket
    → (protocol : ℕ) → TlsProtocolType
    → (ssl_new : Option ℕ) → SslObjects
    → Outcome (TlsSocket × SslObjects)
open_tls socket protocol type ssl_new o = do
  r ← fetch_ssl ssl_new o
  let s : TlsSocket = record {
    socket = socket;
    has_context = true;
    ssl = some r.0;
    protocol = protocol;
    type = type;
  }
  bound ← bind_fd_with_ssl s r.1
  ok (s, bound)

-- What a move leaves behind, with the base that was moved from.
abbrev pub moved_from : TlsSocket → Socket → TlsSocket
moved_from other base = record other { socket = base; has_context = false; ssl = none }

unfoldable pub move_tls : TlsSocket → SslObjects → Outcome (TlsSocket × TlsSocket × SslObjects)
move_tls other o =
    let r = move_construct other.socket in
    let this : TlsSocket = record other { socket = r.0 } in
    bind_fd_with_ssl this o >>= λ bound. ok (this, moved_from other r.1, bound)

-- Between two variables.
unfoldable pub assign_tls :
    (this other : TlsSocket) → SslObjects → Outcome (TlsSocket × TlsSocket × SslObjects)
assign_tls this other o =
    let r = move_assign this.socket other.socket in
    let freed = if is_some this.ssl && this.has_context then free_ssl this.ssl o else o in
    let this' : TlsSocket = record other { socket = r.0 } in
    bind_fd_with_ssl this' freed >>= λ bound. ok (this', moved_from other r.1, bound)

-- The destructor, before that of the socket.
unfoldable pub destroy_tls : TlsSocket → SslObjects → SslObjects
destroy_tls s o = if s.has_context then free_ssl s.ssl o else o
