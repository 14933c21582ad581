-- ===== src/Server.antt =====
-- corlib/main.cpp: a server that answers every connection. What recv answers, and what accept returns, are
-- arguments; the closures are numbers of the client's.
pub mod Listen
pub mod Tests
use corlib.Base.{ℕ, Bool, true, false, Option, none, some, List, [], ◌∷◌}
use corlib.Base.Int.{pos}
use corlib.Base.Outcome.{Outcome, done, ◌>>=◌}
use corlib.Callback.{Callback, read}
use corlib.Hook.Io.{Errno, eagain}
use corlib.IoManager.Mask.{Epoll}
use corlib.IoManager.Contexts.{Caller}
use corlib.IoManager.{IoManager, add_event}

-- What recv answers: bytes, at least one, the end of the stream, or -1 with an errno.
pub data Received : Type 0 where
  bytes : Received
  closed : Received
  failed : Errno → Received

-- What the handler of a connection does: recv, send, close, and sleep_for.
pub data Act : Type 0 where
  receives responds closes sleeps : Act

-- The closure of test_accept, given the answers of recv; the flag says that it has come back.
unfoldable pub serve : List Received → List Act × Bool
serve [] = ([], false)
serve (bytes ∷ rs) = (receives ∷ responds ∷ closes ∷ [], true)
serve (closed ∷ rs) = (receives ∷ closes ∷ [], true)
serve (failed eagain ∷ rs) = let rest = serve rs in (receives ∷ sleeps ∷ rest.0, rest.1)
serve (failed e ∷ rs) = (receives ∷ closes ∷ [], true)

module _ (epoll : Epoll) where
  open epoll use {Kernel}

  -- addEvent(fd, READ, cb), whose answer is not looked at.
  abbrev pub watch_read : IoManager Kernel → ℕ → Callback → Caller → Outcome (IoManager Kernel)
  watch_read m fd cb who = do r ← add_event epoll m (pos fd) read (some cb) who; done r.0

  -- test_accept, but for the call of fcntl that makes the connection non-blocking, which touches neither
  -- the manager nor its epoll instance (Hook/Control has it): `accepted` is the descriptor that accept returns, `handler` the closure for one, and
  -- `again` is test_accept.
  unfoldable pub test_accept :
      IoManager Kernel
      → ℕ
      → Option ℕ
      → (ℕ → Callback)
      → Callback
      → Caller
      → Outcome (IoManager Kernel)
  test_accept m listen none handler again who = watch_read m listen again who
  test_accept m listen (some fd) handler again who = do
    m' ← watch_read m fd (handler fd) who
    watch_read m' listen again who
