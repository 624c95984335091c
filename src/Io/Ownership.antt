-- ===== src/Io/Ownership.antt =====
-- Which descriptors are open, and which socket closes them: the moves, the constructor and the
-- destructor of `Socket` on any number of variables.
use libarc.Prelude.{
  ℕ, ◌≡◌, refl, ◌≢◌, true, false, inl, inr, none, some, List, [], ◌∷◌, elem, update, set_erase,
  Option-cases, ==_iff, arith,
}
use libarc.Io.Socket.{Socket, accepted_socket, move_construct, move_assign, close_fd}

-- The variables that hold a socket, those that hold none with `fd_` at -1, and the open descriptors.
pub record Process : Type 0 where
  pub variables : ℕ → Socket
  pub open_fds : List ℕ

-- `dest` and `source` name variables; `move_into` is the move constructor, which wants a new one.
pub data Action : Type 0 where
  opens : (variable fd addr : ℕ) → Action
  move_into assign : (dest source : ℕ) → Action
  destroys : (variable : ℕ) → Action

abbrev pub put : Process → ℕ → Socket → Process
put w i s = record w { variables = update w.variables i s }

unfoldable pub act : Action → Process → Process
act (opens i fd addr) w = put (record w { open_fds = fd ∷ w.open_fds }) i (accepted_socket fd addr)
act (move_into i j) w = let r = move_construct (w.variables j) in put (put w i r.0) j r.1
act (assign i j) w = let r = move_assign (w.variables i) (w.variables j) in put (put w i r.0) j r.1
act (destroys i) w =
    let s = w.variables i in
    put (record w { open_fds = close_fd s.fd w.open_fds }) i (record s { fd = none })

-- The kernel gives a descriptor that is not open, and a constructor has a variable without a socket.
abbrev pub IsAllowed : Action → Process → Type 0
IsAllowed (opens i fd addr) w = (elem fd w.open_fds ≡ false) × ((w.variables i).fd ≡ none)
IsAllowed (move_into i j) w = (w.variables i).fd ≡ none
IsAllowed (assign i j) w = Unit {0}
IsAllowed (destroys i) w = Unit {0}

pub data Reachable : Process → Type 0 where
  begins : (w : Process) → ((i : ℕ) → (w.variables i).fd ≡ none) → Reachable w
  then_act : (a : Action) (w : Process) → Reachable w → IsAllowed a w → Reachable (act a w)

-- No descriptor has two owners, and none that has one is closed.
abbrev pub IsSole : Process → Type 0
IsSole w =
    ((i j fd : ℕ) → (w.variables i).fd ≡ some fd → (w.variables j).fd ≡ some fd → i ≡ j)
    × ((i fd : ℕ) → (w.variables i).fd ≡ some fd → elem fd w.open_fds ≡ true)

pub elem-set_erase : (k n : ℕ) (xs : List ℕ) → k ≢ n → elem k (set_erase n xs) ≡ elem k xs
elem-set_erase k n [] ne = refl
elem-set_erase k n (x ∷ xs) ne =
    let rest = elem-set_erase k n xs ne in ground (arith, ==_iff x n, ==_iff x k)

-- One step.
act-IsSole : (a : Action) (w : Process) → IsAllowed a w → IsSole w → IsSole (act a w)
unfolding act move_construct move_assign close_fd
act-IsSole (opens i fd addr) w (fresh, free) (sole, is_open) = (
  λ a b n ha hb.
      let h = sole a b n in
      let h1 = is_open a n in let h2 = is_open b n in ground (arith, ==_iff i a, ==_iff i b),
  λ a n ha. let h1 = is_open a n in ground (arith, ==_iff i a, ==_iff fd n),
)
act-IsSole (move_into i j) w free (sole, is_open) = (
  λ a b n ha hb.
      let h = sole a b n in
      let ha2 = sole a j n in
      let hb2 = sole j b n in ground (arith, ==_iff i a, ==_iff i b, ==_iff j a, ==_iff j b),
  λ a n ha. let h1 = is_open a n in let h2 = is_open j n in ground (arith, ==_iff i a, ==_iff j a),
)
act-IsSole (assign i j) w allowed (sole, is_open) = (
  λ a b n ha hb.
      let h = sole a b n in
      let ha2 = sole a j n in
      let hb2 = sole j b n in ground (arith, ==_iff i a, ==_iff i b, ==_iff j a, ==_iff j b),
  λ a n ha. let h1 = is_open a n in let h2 = is_open j n in ground (arith, ==_iff i a, ==_iff j a),
)
act-IsSole (destroys i) w allowed (sole, is_open) = (
  λ a b n ha hb. let h = sole a b n in ground (arith, ==_iff i a, ==_iff i b),
  λ a n ha. elim (Option-cases (w.variables i).fd) [
    | inl e ↦ let h = is_open a n in ground (arith, ==_iff i a)
    | inr (m, e) ↦
        let h = is_open a n in
        let h2 = sole a i n in
        let kept = elem-set_erase n m w.open_fds in ground (arith, ==_iff i a, ==_iff n m)
  ],
)

-- In whatever order sockets are opened, moved from variable to variable, assigned and destroyed, no
-- descriptor is held by two variables, and a descriptor that a variable holds is open: none is
-- closed twice or used after it was closed.
pub Reachable-IsSole : (w : Process) → Reachable w → IsSole w
Reachable-IsSole _ (begins w nothing) =
    (λ i j fd hi hj. let e = nothing i in cc, λ i fd hi. let e = nothing i in cc)
Reachable-IsSole _ (then_act a w reached allowed) =
    act-IsSole a w allowed (Reachable-IsSole w reached)

-- A move assignment to a variable that holds a descriptor leaves that descriptor open, with no
-- variable that would close it.
pub assign_leaks :
    (i j fd : ℕ) (w : Process)
    → IsSole w
    → i ≢ j
    → (w.variables i).fd ≡ some fd
    → (elem fd (act (assign i j) w).open_fds ≡ true)
      × ((k : ℕ) → ((act (assign i j) w).variables k).fd ≢ some fd)
unfolding act move_assign
assign_leaks i j fd w (sole, is_open) ne h = (
  is_open i fd h,
  λ k held.
      let h1 = sole i k fd h in let h2 = sole i j fd h in ground (arith, ==_iff i k, ==_iff j k),
)
