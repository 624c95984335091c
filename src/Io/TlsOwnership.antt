-- ===== src/Io/TlsOwnership.antt =====
-- Which SSL objects there are, and which `TLSSocket` of include/arc/io/tls_socket.h frees them, for
-- any number of variables.
use libarc.Prelude.{
  ℕ, ◌≡◌, refl, sym, subst, ◌∙◌, ◌≢◌, true, false, none, some, elem, update, set_erase,
  Option-cases, Bool-cases, inl, inr, ==_iff, Outcome, ok, ◌>>=◌, arith,
}
use libarc.Io.Socket.{Socket, move_construct, move_assign}
use libarc.Io.Tls.{
  TlsSocket, TlsProtocolType, SslObjects, open_tls, move_tls, assign_tls, destroy_tls, fetch_ssl,
  free_ssl, bind_fd_with_ssl, moved_from,
}
use libarc.Io.Ownership.{elem-set_erase}

-- A variable without a TLS socket has no context and no SSL object.
pub record TlsProcess : Type 0 where
  pub variables : ℕ → TlsSocket
  pub objects : SslObjects

pub data TlsAction : Type 0 where
  opens : (variable : ℕ) → Socket → (protocol : ℕ) → TlsProtocolType → (ssl : ℕ) → TlsAction
  move_into assign : (dest source : ℕ) → TlsAction
  destroys : (variable : ℕ) → TlsAction

unfoldable pub act_tls : TlsAction → TlsProcess → Outcome TlsProcess
act_tls (opens i socket protocol type x) w = do
  r ← open_tls socket protocol type (some x) w.objects
  ok (record { variables = update w.variables i r.0; objects = r.1 })
act_tls (move_into i j) w = do
  r ← move_tls (w.variables j) w.objects
  ok (record { variables = update (update w.variables i r.0) j r.1; objects = r.2 })
act_tls (assign i j) w = do
  r ← assign_tls (w.variables i) (w.variables j) w.objects
  ok (record { variables = update (update w.variables i r.0) j r.1; objects = r.2 })
act_tls (destroys i) w =
    let s = w.variables i in
    ok (record {
      variables = update w.variables i (moved_from s s.socket);
      objects = destroy_tls s w.objects;
    })

-- SSL_new gives an object that is not live, a constructor has a variable without one, and a move
-- goes between two variables and takes from one that has an object.
abbrev pub IsAllowed : TlsAction → TlsProcess → Type 0
IsAllowed (opens i socket protocol type x) w =
    (elem x w.objects.live ≡ false) × ((w.variables i).ssl ≡ none)
IsAllowed (move_into i j) w =
    (i ≢ j) × ((w.variables i).ssl ≡ none) × ((x : ℕ) × ((w.variables j).ssl ≡ some x))
IsAllowed (assign i j) w = (i ≢ j) × ((x : ℕ) × ((w.variables j).ssl ≡ some x))
IsAllowed (destroys i) w = Unit {0}

-- No SSL object has two owners; one that has an owner has not been freed, its owner will free it,
-- and it is bound to its owner's descriptor.
abbrev pub IsBound : TlsProcess → Type 0
IsBound w =
    ((i j x : ℕ) → (w.variables i).ssl ≡ some x → (w.variables j).ssl ≡ some x → i ≡ j)
    × ((i x : ℕ)
        → (w.variables i).ssl ≡ some x
        → (elem x w.objects.live ≡ true)
          × ((w.variables i).has_context ≡ true)
          × (w.objects.fd_of x ≡ (w.variables i).socket.fd))

abbrev Succeeds : Outcome TlsProcess → Type 0
Succeeds r = (w : TlsProcess) × (r ≡ ok w) × IsBound w

act-IsBound : (a : TlsAction) (w : TlsProcess) → IsAllowed a w → IsBound w → Succeeds (act_tls a w)
unfolding act_tls open_tls move_tls assign_tls destroy_tls fetch_ssl free_ssl bind_fd_with_ssl
    move_construct move_assign
act-IsBound (opens i socket protocol type x) w (fresh, free) (sole, is_live) = (
  _,
  refl,
  (
    λ a b y ha hb.
        let h = sole a b y in
        let h1 = is_live a y in let h2 = is_live b y in ground (arith, ==_iff i a, ==_iff i b),
    λ a y ha. let h1 = is_live a y in ground (arith, ==_iff i a, ==_iff x y),
  ),
)
act-IsBound (move_into i j) w (apart, free, (x, at)) (sole, is_live) = (
  record {
    variables =
        update
          (update w.variables i
            (record (w.variables j) { socket = (move_construct (w.variables j).socket).0 }))
          j (moved_from (w.variables j) (move_construct (w.variables j).socket).1);
    objects = record w.objects { fd_of = update w.objects.fd_of x (w.variables j).socket.fd };
  },
  ground arith,
  (
    λ a b y ha hb.
        let h = sole a b y in
        let ha2 = sole a j y in
        let hb2 = sole j b y in ground (arith, ==_iff i a, ==_iff i b, ==_iff j a, ==_iff j b),
    λ a y ha.
        let h1 = is_live a y in
        let h2 = is_live j x at in
        let h3 = sole a j y in ground (arith, ==_iff i a, ==_iff j a, ==_iff x y),
  ),
)
act-IsBound (assign i j) w (apart, (x, at)) (sole, is_live) =
    let moved : ℕ → TlsSocket =
      update
        (update w.variables i (record (w.variables j) {
          socket = (move_assign (w.variables i).socket (w.variables j).socket).0;
        }))
        j
        (moved_from (w.variables j)
          (move_assign (w.variables i).socket (w.variables j).socket).1) in
    let fds = update w.objects.fd_of x (w.variables j).socket.fd in
    elim (Option-cases (w.variables i).ssl) [
      | inl none_there ↦ (
        record { variables = moved; objects = record w.objects { fd_of = fds } },
        ground arith,
        (
          λ a b y ha hb.
              let h = sole a b y in
              let ha2 = sole a j y in
              let hb2 = sole j b y in
              ground (arith, ==_iff i a, ==_iff i b, ==_iff j a, ==_iff j b),
          λ a y ha.
              let h1 = is_live a y in
              let h2 = is_live j x at in
              let h3 = sole a j y in ground (arith, ==_iff i a, ==_iff j a, ==_iff x y),
        ),
      )
      | inr (z, there) ↦
          let own = is_live i z there in
          (
            record {
              variables = moved;
              objects = record { live = set_erase z w.objects.live; fd_of = fds };
            },
            ground arith,
            (
              λ a b y ha hb.
                  let h = sole a b y in
                  let ha2 = sole a j y in
                  let hb2 = sole j b y in
                  ground (arith, ==_iff i a, ==_iff i b, ==_iff j a, ==_iff j b),
              λ a y ha.
                  let h1 = is_live a y in
                  let h2 = is_live j x at in
                  let h3 = sole a j y in
                  let h4 = sole a i y in
                  let h5 = sole i j z there in
                  let kept = elem-set_erase y z w.objects.live in
                  ground (arith, ==_iff i a, ==_iff j a, ==_iff x y, ==_iff z y),
            ),
          )
    ]
act-IsBound (destroys i) w allowed (sole, is_live) = elim (Option-cases (w.variables i).ssl) [
  | inl none_there ↦ (
    _,
    refl,
    (
      λ a b y ha hb. let h = sole a b y in ground (arith, ==_iff i a, ==_iff i b),
      λ a y ha.
          let h1 = is_live a y in
          elim (Bool-cases (w.variables i).has_context) [
            | inl has ↦ ground (arith, ==_iff i a)
            | inr lacks ↦ ground (arith, ==_iff i a)
          ],
    ),
  )
  | inr (z, there) ↦
      let own = is_live i z there in
      (
        _,
        refl,
        (
          λ a b y ha hb. let h = sole a b y in ground (arith, ==_iff i a, ==_iff i b),
          λ a y ha.
              let h1 = is_live a y in
              let h2 = sole a i y in
              let kept = elem-set_erase y z w.objects.live in
              ground (arith, ==_iff i a, ==_iff z y),
        ),
      )
]

pub data Reachable : TlsProcess → Type 0 where
  begins : (w : TlsProcess) → ((i : ℕ) → (w.variables i).ssl ≡ none) → Reachable w
  then_act :
      (a : TlsAction) (w w' : TlsProcess)
      → Reachable w
      → IsAllowed a w
      → act_tls a w ≡ ok w'
      → Reachable w'

same_process : (v w : TlsProcess) → ok v ≡ ok w → v ≡ w
same_process v w e = cc

Reachable-IsBound : (w : TlsProcess) → Reachable w → IsBound w
Reachable-IsBound _ (begins w nothing) =
    (λ i j x hi hj. let e = nothing i in cc, λ i x hi. let e = nothing i in ground arith)
Reachable-IsBound _ (then_act a w w' reached allowed e) =
    let (v, e', bound) = act-IsBound a w allowed (Reachable-IsBound w reached) in
    subst IsBound (same_process v w' (sym e' ∙ e)) bound

-- In whatever order TLS sockets are opened, moved between variables, assigned and destroyed, each of
-- these is carried out. Then no SSL object is held by two variables, and one that a variable holds
-- has not been freed, will be freed with it, and is bound to its descriptor. (A move goes between two
-- variables and takes from one that has an object; OpenSSL gives an object that is not in use.)
pub tls_acts_succeed :
    (w : TlsProcess) (a : TlsAction)
    → Reachable w
    → IsAllowed a w
    → (w' : TlsProcess) × (act_tls a w ≡ ok w') × IsBound w'
tls_acts_succeed w a reached allowed = act-IsBound a w allowed (Reachable-IsBound w reached)
