-- ===== src/Events.antt =====
-- The events of include/arc/coro/events: what a suspended coroutine waits for.
-- A coroutine handle and an object's address are numbers. Event identifiers are the bit patterns
-- of `EventID`, a 32-bit int.
use libarc.Prelude.{ℕ, Bool, true, false}

-- arc::io::IOType
pub data IoType : Type 0 where
  read write : IoType

pub data TriggerType : Type 0 where
  time_event user_event : TriggerType

pub data BoundType : Type 0 where
  io_event user_event time_event : BoundType

pub record IoEvent : Type 0 where
  pub event_id : ℕ
  pub fd : ℕ
  pub io_type : IoType
  pub handle : ℕ
  pub is_interrupted : Bool

-- `UserEvent`, and with it `LockEvent` and `ConditionEvent`, which add nothing.
pub record UserEvent : Type 0 where
  pub event_id : ℕ
  pub handle : ℕ
  pub is_interrupted : Bool

-- `BoundEvent`, and with it `CancellationEvent` and `TimeoutEvent`. `address` tells the objects
-- apart; `wakeup_time` is the `TimeEvent` part of a `TimeoutEvent`, and `bound_helper` the file
-- descriptor of a bound IO event. The pointer `bound_event_` is given by `bound_event_id`.
pub record BoundEvent : Type 0 where
  pub address : ℕ
  pub bound_event_id : ℕ
  pub bound_helper : ℕ
  pub trigger_type : TriggerType
  pub bound_type : BoundType
  pub wakeup_time : ℕ

-- What `time_events_` holds: a plain `TimeEvent`, or a `TimeoutEvent` seen as one.
pub data TimeEvent : Type 0 where
  sleep : (event_id wakeup_time handle : ℕ) → TimeEvent
  timeout : BoundEvent → TimeEvent

abbrev pub get_wakeup_time : TimeEvent → ℕ
get_wakeup_time (sleep i w h) = w
get_wakeup_time (timeout b) = b.wakeup_time

abbrev pub is_trigger : TimeEvent → Bool
is_trigger (sleep i w h) = false
is_trigger (timeout b) = true

-- The constructors of `CancellationEvent` and `TimeoutEvent` for an IO event and a user event.
abbrev pub cancel_io : (address : ℕ) → IoEvent → BoundEvent
cancel_io a e = record {
  address = a;
  bound_event_id = e.event_id;
  bound_helper = e.fd;
  trigger_type = TriggerType.user_event;
  bound_type = BoundType.io_event;
  wakeup_time = 0;
}

abbrev pub cancel_user : (address : ℕ) → UserEvent → BoundEvent
cancel_user a e = record {
  address = a;
  bound_event_id = e.event_id;
  bound_helper = 0;
  trigger_type = TriggerType.user_event;
  bound_type = BoundType.user_event;
  wakeup_time = 0;
}

abbrev pub timeout_io : (address wakeup_time : ℕ) → IoEvent → BoundEvent
timeout_io a w e = record (cancel_io a e) { trigger_type = TriggerType.time_event; wakeup_time = w }

abbrev pub timeout_user : (address wakeup_time : ℕ) → UserEvent → BoundEvent
timeout_user a w e = record (cancel_user a e) {
  trigger_type = TriggerType.time_event;
  wakeup_time = w;
}

-- An event handed to the event loop, which resumes its coroutine.
pub data Todo : Type 0 where
  io : IoEvent → Todo
  time : (event_id wakeup_time handle : ℕ) → Todo
  user : UserEvent → Todo

-- `GetEventID`
abbrev pub get_event_id : Todo → ℕ
get_event_id (io e) = e.event_id
get_event_id (time i w h) = i
get_event_id (user e) = e.event_id

-- `SetInterrupted(true)`, as far as the resumed awaiter can see it; only IO and user events are
-- ever interrupted.
abbrev pub set_interrupted : Todo → Todo
set_interrupted (io e) = io (record e { is_interrupted = true })
set_interrupted (time i w h) = time i w h
set_interrupted (user e) = user (record e { is_interrupted = true })
