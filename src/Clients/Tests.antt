-- ===== src/Clients/Tests.antt =====
-- A run of client/client.cpp: two threads that take turns, of which the first gets an empty reply.
use corlib.Base.{true, ◌≡◌, refl, List, [], ◌∷◌, total}
use corlib.Clients.{Turn, receives, Load, client_turn, start_load, Reach, here, next, turns}
use corlib.Clients.Processes
use corlib.Clients.Processes.{
  Script, set_up, sets_up, makes_turn, Parent, working, written, forked, child_turn, works, writes,
  reads_count,
}
use corlib.Clients.Sums.{total_requests-reads}

abbrev scripts : List (List Turn)
scripts = (receives 104 ∷ receives 0 ∷ []) ∷ (receives 104 ∷ []) ∷ []

abbrev one_done : Load
one_done = client_turn (start_load scripts) 0 (receives 104) (receives 0 ∷ [])

abbrev two_done : Load
two_done = client_turn one_done 1 (receives 104) []

abbrev all_done : Load
all_done = client_turn two_done 0 (receives 0) []

scripts-Reach : Reach (start_load scripts) all_done
unfolding client_turn
scripts-Reach =
    next
      (next (next here (turns 0 (receives 104) (receives 0 ∷ []) refl refl))
        (turns 1 (receives 104) [] refl refl))
      (turns 0 (receives 0) [] refl refl)

abbrev connects : List Turn → Script
connects ts = record { opened = true; parsed = true; connected = true; turns = ts }

abbrev children : List Script
children = connects (receives 104 ∷ receives 0 ∷ []) ∷ connects (receives 104 ∷ []) ∷ []

-- The same rounds in two processes of client/client2.cpp, of which the second writes first.
abbrev first_counted : Parent
first_counted = record (forked children) {
  children = working (receives 0 ∷ []) 1 ∷ working (receives 104 ∷ []) 0 ∷ [];
}

abbrev second_wrote : Parent
second_wrote = record first_counted {
  children = working (receives 0 ∷ []) 1 ∷ written ∷ [];
  pipe = 1 ∷ [];
}

abbrev both_wrote : Parent
both_wrote = record second_wrote { children = written ∷ written ∷ []; pipe = 1 ∷ 2 ∷ [] }

abbrev both_read : Parent
both_read = record both_wrote { pipe = []; total_requests = 3; reads = 2 }

both_read-Reach : Processes.Reach (forked children) both_read
unfolding child_turn set_up
both_read-Reach =
    Processes.next
      (Processes.next
        (Processes.next
          (Processes.next
            (Processes.next
              (Processes.next
                (Processes.next
                  (Processes.next (Processes.next Processes.here (sets_up 0 _ refl))
                    (sets_up 1 _ refl))
                  (makes_turn 0 (receives 104) (receives 0 ∷ []) 0 refl))
                (makes_turn 1 (receives 104) [] 0 refl))
              (writes 1 1 refl))
            (makes_turn 0 (receives 0) [] 1 refl))
          (writes 0 2 refl))
        (reads_count 1 (2 ∷ []) refl))
      (reads_count 2 [] refl)

total_requests-reads_example :
    (both_read.short_reads ≡ 0)
    × (total works both_read.children ≡ 0)
    × (both_read.total_requests ≡ 3)
total_requests-reads_example = total_requests-reads children refl both_read-Reach refl
