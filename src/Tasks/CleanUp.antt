-- ===== src/Tasks/CleanUp.antt =====
-- What destroying a list of coroutines comes to (`CleanUpFinishedCoroutines` of
-- src/coro/eventloop.cc).
use libarc.Prelude.{
  ℕ, ◌≡◌, refl, Bool, true, false, Option, none, List, [], ◌∷◌, ◌==◌, ◌+◌, ◌∙◌, ==_iff, ◌≤◌, count,
  present, present-le-one, erase_key, Option-cases, Bool-cases, inl, inr, if◌then◌else◌, ok, arith,
}
use libarc.Tasks.Handle.{Frames, destroy_frame, destroy_all}

abbrev pub self : ℕ → ℕ
self h = h

-- What is left of the frame `k` once the list is destroyed.
abbrev pub remaining : {A : Type 0} → (n : ℕ) → Option A → Option A
remaining n f = if n == 0 then f else none

remaining_step :
    {A : Type 0} (same : Bool) (n : ℕ) (f : Option A)
    → remaining n (if same then none else f) ≡ remaining ((if same then 1 else 0) + n) f
remaining_step true n f = ground (arith, ==_iff n 0, ==_iff (1 + n) 0)
remaining_step false n f = ground (arith, ==_iff n 0, ==_iff (0 + n) 0)

-- Coroutines that are listed at most once, and whose frames are there, can all be destroyed.
pub destroy_all_returns :
    {A : Type 0} (hs : List ℕ) (frames : Frames A)
    → ((k : ℕ) → count self k hs ≤ present (frames k))
    → (left : Frames A) × (destroy_all hs frames ≡ ok left)
      × ((k : ℕ) → left k ≡ remaining (count self k hs) (frames k))
unfolding destroy_all destroy_frame count
destroy_all_returns [] frames there = (frames, refl, λ k. refl)
destroy_all_returns (h ∷ hs) frames there = elim (Option-cases (frames h)) [
  | inl gone ↦ let here = there h in absurd (ground (arith, ==_iff h h))
  | inr (f, at) ↦
      let fits : (k : ℕ) → count self k hs ≤ present (erase_key h frames k) = λ k.
        let all = there k in
        let bound = present-le-one (frames k) in
        elim (Bool-cases (h == k)) [ inl same ↦ ground arith | inr other ↦ ground arith ] in
      let (left, e, rest) = destroy_all_returns hs (erase_key h frames) fits in
      (left, ground arith, λ k. rest k ∙ remaining_step (h == k) (count self k hs) (frames k))
]
