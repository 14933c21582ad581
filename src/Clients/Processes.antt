-- ===== src/Clients/Processes.antt =====
-- client/client2.cpp: the load generator with processes, each of which counts its rounds and writes the
-- number to a pipe, from which the parent adds them up. Rounds are as in client/client.cpp. A process
-- that error() ends writes nothing.
use corlib.Base.{
  ℕ, Bool, not, suc, ◌+◌, ◌%◌, ◌^◌, ◌≡◌, some, List, [], ◌∷◌, ◌++◌, map, get_elem?, set, total,
  if◌then◌else◌,
}
use corlib.Clients.{Turn, fails, count_request}

-- What a child meets: whether socket, inet_pton and connect succeed, and the rounds for which it has time.
pub record Script : Type 0 where
  pub opened : Bool
  pub parsed : Bool
  pub connected : Bool
  pub turns : List Turn

-- A child before its socket is connected; or with the rounds that it has still to make and its request_count; or it has written that; or
-- it has exited by error().
pub data Child : Type 0 where
  connecting : Script → Child
  working : List Turn → ℕ → Child
  written : Child
  broken : Child

-- The children; what is in the pipe; total_requests on 32 bits; and how many times the parent has read,
-- and has found nothing.
pub record Parent : Type 0 where
  pub children : List Child
  pub pipe : List ℕ
  pub total_requests : ℕ
  pub reads : ℕ
  pub short_reads : ℕ

-- After the forks, none of which fails.
abbrev pub forked : List Script → Parent
forked scripts = record {
  children = map connecting scripts;
  pipe = [];
  total_requests = 0;
  reads = 0;
  short_reads = 0;
}

-- client_task up to its loop: error() ends the process where a call fails.
unfoldable pub set_up : Script → Child
set_up s =
    if not s.opened
    then broken
    else if not s.parsed
    then broken
    else if not s.connected
    then broken
    else working s.turns 0

-- A round of client_task.
unfoldable pub child_turn : Turn → List Turn → ℕ → Child
child_turn t ts count = if fails t then broken else working ts (count_request count)

-- `total_requests += request_count`.
abbrev pub add_requests : Parent → ℕ → Parent
add_requests p count = record p {
  total_requests = (p.total_requests + count) % 2 ^ 32;
  reads = suc p.reads;
}

abbrev pub works : Child → ℕ
works c = elim c [ connecting s ↦ 1 | working ts n ↦ 1 | written ↦ 0 | broken ↦ 0 ]

-- A read finds nothing when no child has the pipe open any more: request_count is then whatever it was.
pub data Step (p : Parent) : Parent → Type 0 where
  sets_up :
      (i : ℕ) (s : Script)
      → get_elem? p.children i ≡ some (connecting s)
      → Step p (record p { children = set p.children i (set_up s) })
  makes_turn :
      (i : ℕ) (t : Turn) (ts : List Turn) (count : ℕ)
      → get_elem? p.children i ≡ some (working (t ∷ ts) count)
      → Step p (record p { children = set p.children i (child_turn t ts count) })
  writes :
      (i count : ℕ)
      → get_elem? p.children i ≡ some (working [] count)
      → Step p (record p { children = set p.children i written; pipe = p.pipe ++ count ∷ [] })
  reads_count :
      (count : ℕ) (rest : List ℕ)
      → p.pipe ≡ count ∷ rest
      → Step p (record (add_requests p count) { pipe = rest })
  reads_end :
      (garbage : ℕ)
      → p.pipe ≡ []
      → total works p.children ≡ 0
      → Step p (record (add_requests p garbage) { short_reads = suc p.short_reads })

pub data Reach (p : Parent) : Parent → Type 0 where
  here : Reach p p
  next : {q r : Parent} → Reach p q → Step q r → Reach p r
