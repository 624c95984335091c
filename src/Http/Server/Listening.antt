-- ===== src/Http/Server/Listening.antt =====
-- `HttpServer::Bind` of src/http/http_server.cc: the sockets on which the threads listen.
use libarc.Prelude.{
  ℕ, ◌≡◌, refl, subst, Bool, true, Option, List, [], ◌∷◌, length, Outcome, ok, ◌>>=◌, >>=-eq-ok,
  arith,
}
use libarc.Io.Socket.{Socket, open_async, bind}
use libarc.Io.Transfer.{set_option}

-- What the system calls for one socket answer: `socket`, the two of `fcntl`, `setsockopt` for
-- SO_REUSEADDR and for SO_REUSEPORT, and `bind`.
pub record Binding : Type 0 where
  pub fd : Option ℕ
  pub flags : Option ℕ
  pub set : ℕ → Bool
  pub reuse_addr : Bool
  pub reuse_port : Bool
  pub is_bound : Bool

-- One round of the loop.
unfoldable pub bind_listen_socket : (no_addr addr : ℕ) → Binding → Outcome Socket
bind_listen_socket no_addr addr b = do
  s ← open_async b.fd no_addr b.flags b.set
  _ ← set_option b.reuse_addr
  _ ← set_option b.reuse_port
  bind s addr b.is_bound

-- `Bind`, with the answers for each thread.
unfoldable pub bind_server : (no_addr addr : ℕ) → List Binding → Outcome (List Socket)
bind_server no_addr addr [] = ok []
bind_server no_addr addr (b ∷ bs) = do
  s ← bind_listen_socket no_addr addr b
  ss ← bind_server no_addr addr bs
  ok (s ∷ ss)

-- All are bound to the address.
abbrev pub AllBound : (addr : ℕ) → List Socket → Type 0
AllBound addr [] = Unit
AllBound addr (s ∷ ss) = (s.addr ≡ addr) × (s.is_bound ≡ true) × AllBound addr ss

bind-bound :
    (s : Socket) (addr : ℕ) (is_bound : Bool) {s' : Socket}
    → bind s addr is_bound ≡ ok s'
    → (s'.addr ≡ addr) × (s'.is_bound ≡ true)
unfolding bind
bind-bound s addr true h = (ground arith, ground arith)
bind-bound s addr Bool.false h = absurd (ground arith)

-- If `Bind` succeeds, each thread has a socket of its own that is bound to the address.
bind_server-AllBound :
    (no_addr addr : ℕ) (bs : List Binding) {ss : List Socket}
    → bind_server no_addr addr bs ≡ ok ss
    → (length ss ≡ length bs) × AllBound addr ss
unfolding bind_server bind_listen_socket
bind_server-AllBound no_addr addr [] {ss} h =
    let e : [] ≡ ss = ground arith in subst (λ l. (length l ≡ 0) × AllBound addr l) e (refl, tt)
bind_server-AllBound no_addr addr (b ∷ bs) {ss} h =
    let (s, first, h₁) = >>=-eq-ok (bind_listen_socket no_addr addr b) _ h in
    let (rest, others, h₂) = >>=-eq-ok (bind_server no_addr addr bs) _ h₁ in
    let (opened, _, h₃) = >>=-eq-ok (open_async b.fd no_addr b.flags b.set) _ first in
    let (_, _, h₄) = >>=-eq-ok (set_option b.reuse_addr) _ h₃ in
    let (_, _, h₅) = >>=-eq-ok (set_option b.reuse_port) _ h₄ in
    let (at, bound) = bind-bound opened addr b.is_bound h₅ in
    let (same, all) = bind_server-AllBound no_addr addr bs others in
    let e : s ∷ rest ≡ ss = ground arith in
    subst (λ l. (length l ≡ length (b ∷ bs)) × AllBound addr l) e (omega arith, (at, bound, all))
