-- ===== src/Hook/Io.antt =====
-- do_io and connect_with_timeout of corlib/hook.cpp: a blocking call as a sequence of attempts and
-- waits.
use corlib.Base.{
  ℕ, zero, suc, Bool, true, false, ◌||◌, ◌&&◌, not, Option, none, some, List, [], ◌∷◌, ◌++◌, ◌==◌,
  if◌then◌else◌,
}
use corlib.Callback.{Event, read, write}
use corlib.FdManager.{FdCtx, TimeoutType, so_rcvtimeo, so_sndtimeo, get_timeout, no_timeout}

-- errno after a call that returns -1. `as_left` is the errno that a failed addEvent leaves.
pub data Errno : Type 0 where
  eintr eagain einprogress etimedout ebadf as_left : Errno
  other : ℕ → Errno

-- What a call returns: a number that is not -1, or -1.
pub data Result : Type 0 where
  value : ℕ → Result
  failure : Errno → Result

-- What the hooks do: an original call, a conditional timer, its cancelling, addEvent, and giving up
-- the processor.
pub data Action : Type 0 where
  calls : Action
  arms : (ms : ℕ) → Action
  disarms : Action
  adds : Event → Action
  yields : Action

-- One attempt of do_io: what the original function returns, and, where it waits, whether addEvent
-- returns 0, and whether tinfo->cancelled is ETIMEDOUT when the fiber comes back.
pub record Turn : Type 0 where
  pub reply : Result
  pub added : Bool
  pub timed_out : Bool

-- The conditional timer is there where there is a timeout.
abbrev pub arming : ℕ → List Action
arming timeout = if timeout == no_timeout then [] else arms timeout ∷ []

abbrev pub disarming : ℕ → List Action
disarming timeout = if timeout == no_timeout then [] else disarms ∷ []

-- What has been done, and the answer, where the call has come back.
abbrev pub Run : Type 0
Run = List Action × Option Result

-- The wait of do_io behind EAGAIN; `rest` is the run from `retry` on.
unfoldable pub await : ℕ → Event → Turn → Run → Run
await timeout event t rest =
    if not t.added
    then (arming timeout ++ adds event ∷ disarming timeout, some (failure as_left))
    else if t.timed_out
    then (arming timeout ++ adds event ∷ yields ∷ disarming timeout, some (failure etimedout))
    else (arming timeout ++ adds event ∷ yields ∷ (disarming timeout ++ rest.0), rest.1)

-- do_io from `retry` on, for as many attempts as are given; none means that it goes on.
unfoldable pub attempt : ℕ → Event → List Turn → Run
unfolding await
attempt timeout event [] = ([], none)
attempt timeout event (t ∷ ts) =
    let rest = attempt timeout event ts in
    elim t.reply [
      | failure eintr ↦ (calls ∷ rest.0, rest.1)
      | failure eagain ↦ let w = await timeout event t rest in (calls ∷ w.0, w.1)
      | r ↦ (calls ∷ [], some r)
    ]

-- The original function alone.
abbrev pub plain : List Turn → Run
plain [] = ([], none)
plain (t ∷ ts) = (calls ∷ [], some t.reply)

-- do_io, given t_hook_enable and what FdManager::get answers.
unfoldable pub do_io : Bool → Option FdCtx → Event → TimeoutType → List Turn → Run
unfolding attempt
do_io false ctx event type ts = plain ts
do_io true none event type ts = plain ts
do_io true (some c) event type ts =
    if c.is_closed
    then ([], some (failure ebadf))
    else if not c.is_socket || c.user_nonblock
    then plain ts
    else attempt (get_timeout c type) event ts

-- The calls that are do_io around an original function, with the event that each waits for and the
-- timeout that holds for it.
pub data IoCall : Type 0 where
  accept_call read_call readv_call recv_call recvfrom_call recvmsg_call : IoCall
  write_call writev_call send_call sendto_call sendmsg_call : IoCall

abbrev pub event_of : IoCall → Event
event_of f = elim f [
  | write_call ↦ write
  | writev_call ↦ write
  | send_call ↦ write
  | sendto_call ↦ write
  | sendmsg_call ↦ write
  | _ ↦ read
]

abbrev pub timeout_of : IoCall → TimeoutType
timeout_of f = elim (event_of f) [ write ↦ so_sndtimeo | _ ↦ so_rcvtimeo ]

unfoldable pub hooked : IoCall → Bool → Option FdCtx → List Turn → Run
unfolding do_io
hooked f enabled ctx ts = do_io enabled ctx (event_of f) (timeout_of f) ts

-- connect_with_timeout behind the wait: SO_ERROR, with none where getsockopt fails.
abbrev pub outcome : Option ℕ → Result
outcome none = failure as_left
outcome (some zero) = value 0
outcome (some (suc e)) = failure (other (suc e))

-- connect_with_timeout from the wait on.
unfoldable pub await_connection : ℕ → Turn → Option ℕ → Run
await_connection timeout t so_error =
    if not t.added
    then (arming timeout ++ adds write ∷ disarming timeout, some (outcome so_error))
    else if t.timed_out
    then (arming timeout ++ adds write ∷ yields ∷ disarming timeout, some (failure etimedout))
    else (arming timeout ++ adds write ∷ yields ∷ disarming timeout, some (outcome so_error))

-- `n != -1`.
abbrev pub is_value : Result → Bool
is_value (value n) = true
is_value (failure e) = false

abbrev pub is_einprogress : Errno → Bool
is_einprogress e = elim e [ einprogress ↦ true | _ ↦ false ]

-- errno after the original connect, which leaves it as it was where it does not fail.
abbrev pub errno_after : Errno → Result → Errno
errno_after errno (value n) = errno
errno_after errno (failure e) = e

-- connect_with_timeout. The original connect is called with the given errno.
unfoldable pub connect : Bool → Option FdCtx → ℕ → Errno → Turn → Option ℕ → Run
unfolding await_connection
connect false ctx timeout errno t so_error = (calls ∷ [], some t.reply)
connect true none timeout errno t so_error = ([], some (failure ebadf))
connect true (some c) timeout errno t so_error =
    if c.is_closed
    then ([], some (failure ebadf))
    else if not c.is_socket || c.user_nonblock
    then (calls ∷ [], some t.reply)
    else elim t.reply [
      | value zero ↦ (calls ∷ [], some (value 0))
      | r ↦
          if is_value r && not (is_einprogress (errno_after errno r))
          then (calls ∷ [], some r)
          else let w = await_connection timeout t so_error in (calls ∷ w.0, w.1)
    ]
