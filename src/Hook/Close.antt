-- ===== src/Hook/Close.antt =====
-- close of corlib/hook.cpp: what the event manager and the descriptor table hold afterwards.
use corlib.Base.{ℕ, ◌≡◌, ◌≢◌, refl, Bool, true, some, get_elem?}
use corlib.Base.Int.{pos}
use corlib.Base.Outcome.{done}
use corlib.FdManager.{FdCtx, FdManager, del}
use corlib.FdManager.Table
use corlib.FdManager.Calls.{del_lem}
use corlib.IoManager.Mask.{nothing, ctl_del, Epoll}
use corlib.IoManager.Contexts.{FdContext}
use corlib.IoManager.{IoManager}
use corlib.IoManager.Invariant.{IsValid}
use corlib.IoManager.Cancel.{Taken}
use corlib.IoManager.Calls.{cancel_all_lem}
use corlib.Hook.Files.{close, known-here}

module _ (epoll : Epoll) where
  open epoll use {Kernel, ctl}

  -- close of a descriptor that both tables hold, on a thread with an IOManager: no assertion fails;
  -- the registered events are taken away as cancelAll does it, with what waits for them handed to its
  -- scheduler, and the descriptor's context is gone from a table that stays valid.
  pub close_lem :
      (io : IoManager Kernel) (m : FdManager) (fd : ℕ) (x : FdContext) (c : FdCtx)
      → IsValid epoll io
      → Table.IsValid m
      → get_elem? io.fd_contexts fd ≡ some x
      → get_elem? m.datas fd ≡ some (some c)
      → (io' : IoManager Kernel) × (r : Bool) × (m' : FdManager) × (close epoll (some io) m fd
          ≡ done (some io', m'))
        × Taken epoll io fd x x.events (ctl io.epoll ctl_del fd nothing).1 true io' r
        × Table.IsValid m'
        × ((d : FdCtx) → get_elem? m'.datas fd ≢ some (some d))
  unfolding close
  close_lem io m fd x c v w here there =
      let (io', r, e, t) = cancel_all_lem epoll io fd x v here in
      let (valid, gone, _, _, _) = del_lem m fd w in
      (io', r, del m (pos fd), rw (known-here m fd c there, e, close) refl, t, valid, gone)
