-- ===== src/Tasks/Promise.antt =====
-- `PromiseBase` and `TaskPromise` of include/arc/coro/task.h. A coroutine is known by the number of
-- its handle; what its body does is not modelled, only how it ends.
use libarc.Prelude.{
  ℕ, Bool, false, Option, none, some, if◌then◌else◌, Outcome, ok, throws, undefined, Exception,
  defined,
}
use libarc.EventLoop.Core.{EventLoop, add_to_clean_up_coroutine}

pub data ReturnType : Type 0 where
  no_return value exception : ReturnType

-- `continuation` is `none` for the coroutine that does nothing; the union of the value and the
-- exception is two fields.
pub record Promise (A : Type 0) : Type 0 where
  pub continuation : Option ℕ
  pub return_type : ReturnType
  pub need_manual_clean : Bool
  pub result_value : Option A
  pub exception_ptr : Option Exception

module _ {A : Type 0} where
  unfoldable pub new_promise : Promise A
  new_promise = record {
    continuation = none;
    return_type = no_return;
    need_manual_clean = false;
    result_value = none;
    exception_ptr = none;
  }

  unfoldable pub set_continuation : Promise A → ℕ → Promise A
  set_continuation p k = record p { continuation = some k }

  unfoldable pub set_need_clean : Promise A → Bool → Promise A
  set_need_clean p need_clean = record p { need_manual_clean = need_clean }

  -- `FinalAwaiter::await_suspend`
  unfoldable pub resumed_at_end : Promise A → Option ℕ
  resumed_at_end p = p.continuation

  unfoldable pub clean_if_needed : Promise A → (self : ℕ) → EventLoop → EventLoop
  clean_if_needed p self l = if p.need_manual_clean then add_to_clean_up_coroutine l self else l

  -- The exception leaves the coroutine if nobody waits for it; with what it resumes otherwise.
  unfoldable pub unhandled_exception :
      (self : ℕ) → Exception → Promise A → EventLoop → Promise A × EventLoop × Outcome (Unit {0})
  unhandled_exception self e p l = (
    record p { return_type = exception; exception_ptr = some e },
    clean_if_needed p self l,
    elim p.continuation [ none ↦ throws e | some k ↦ ok tt ],
  )

  unfoldable pub return_value : (self : ℕ) → A → Promise A → EventLoop → Promise A × EventLoop
  return_value self a p l = elim p.return_type [
    | exception ↦ (p, l)
    | no_return ↦
        (record p { return_type = value; result_value = some a }, clean_if_needed p self l)
    | value ↦ (record p { return_type = value; result_value = some a }, clean_if_needed p self l)
  ]

  -- The assertion is on a value being there.
  unfoldable pub result : Promise A → Outcome A
  result p = elim p.return_type [
    | exception ↦ elim p.exception_ptr [ none ↦ undefined | some e ↦ throws e ]
    | value ↦ defined p.result_value
    | no_return ↦ undefined
  ]

-- `TaskPromise<void>`, whose coroutine is cleaned up before the return type is looked at.
unfoldable pub return_void :
    (self : ℕ) → Promise (Unit {0}) → EventLoop → Promise (Unit {0}) × EventLoop
return_void self p l =
    let l' = clean_if_needed p self l in
    elim p.return_type [
      | exception ↦ (p, l')
      | no_return ↦ (record p { return_type = value }, l')
      | value ↦ (record p { return_type = value }, l')
    ]

unfoldable pub result_void : Promise (Unit {0}) → Outcome (Unit {0})
result_void p = elim p.return_type [
  | exception ↦ elim p.exception_ptr [ none ↦ undefined | some e ↦ throws e ]
  | value ↦ ok tt
  | no_return ↦ ok tt
]
