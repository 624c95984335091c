-- ===== src/Http/Server/Routing.antt =====
-- Which handler answers.
use libarc.Prelude.{
  ℕ, ◌≡◌, refl, inl, inr, ◌&&◌, some, List, [], ◌∷◌, ◌==◌, if◌then◌else◌, Bool-cases, arith,
}
use libarc.Prelude.Bytes.{Bytes, same, same_iff}
use libarc.Prelude.Assoc.{lookup, lookup-assign}
use libarc.Http.Server.{
  Regex, HttpServer, Handler, exact, methods_of, lookup_method, assign_method, register_handler,
  route,
}

lookup_method-assign_method {ℓ} :
    {V : Type ℓ} (m k : ℕ) (v : V) (ms : List (ℕ × V))
    → lookup_method k (assign_method m v ms) ≡ (if m == k then some v else lookup_method k ms)
unfolding lookup_method assign_method
lookup_method-assign_method m k v [] = refl
lookup_method-assign_method m k v ((j, w) ∷ ms) =
    let rest = lookup_method-assign_method m k v ms in ground arith

-- A handler that is registered answers its path and method from then on, whatever was registered for
-- them before and whatever pattern matches; every other path or method is routed as before.
pub route-register_handler :
    (R : Regex) (s : HttpServer) (path path' : Bytes) (m m' : ℕ) (h : Handler)
    → route R (register_handler s path m h) path' m'
      ≡ (if same path path' && m == m' then exact h else route R s path' m')
unfolding route register_handler
route-register_handler R s path path' m m' h =
    let at_path =
      lookup-assign path path' (assign_method m h (methods_of (lookup path s.handlers)))
        s.handlers in
    let at_method = lookup_method-assign_method m m' h (methods_of (lookup path s.handlers)) in
    elim (Bool-cases (same path path')) [
      | inl hit ↦ let e : path ≡ path' = (same_iff path path').0 hit in rw (← e) (ground arith)
      | inr miss ↦ ground arith
    ]
