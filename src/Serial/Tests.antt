-- ===== src/Serial/Tests.antt =====
-- Runs of the serial port, and its theorems at concrete states.
use demoscene.Prelude.{ℕ, ◌≡◌, refl, true, some, List, [], ◌∷◌, arith, Gives}
use demoscene.Serial.{CharQueue, Port, empty_queue, push_raw, pop_raw, serial_write, serial_read}
use demoscene.Serial.Queue.{IsValid, empty_queue-IsValid, push_raw_overwrites}
use demoscene.Serial.Write.{Sends, expand, serial_write-Sends}
use demoscene.Serial.Read.{Reads, serial_read-Reads}

abbrev idle : Port
idle = record { nonblock = true; sendq = empty_queue; recvq = empty_queue; trace = [] }

abbrev bytes_1_to_16 : List ℕ
bytes_1_to_16 = 1 ∷ 2 ∷ 3 ∷ 4 ∷ 5 ∷ 6 ∷ 7 ∷ 8 ∷ 9 ∷ 10 ∷ 11 ∷ 12 ∷ 13 ∷ 14 ∷ 15 ∷ 16 ∷ []

push_all : List ℕ → CharQueue → CharQueue
push_all [] q = q
push_all (c ∷ cs) q = push_all cs (push_raw c q)

-- The seventeenth character comes out first.
lost : (pop_raw (push_all (17 ∷ []) (push_all bytes_1_to_16 empty_queue))).0 ≡ some 17
unfolding push_all push_raw pop_raw empty_queue
lost = refl

abbrev two_waiting : CharQueue
two_waiting = record empty_queue { used = 2; tail = 2 }

two_waiting-IsValid : IsValid two_waiting
unfolding empty_queue
two_waiting-IsValid = omega arith

abbrev sixteen_waiting : CharQueue
sixteen_waiting = record empty_queue { used = 16; tail = 0 }

sixteen_waiting-IsValid : IsValid sixteen_waiting
unfolding empty_queue
sixteen_waiting-IsValid = omega arith

push_raw_overwrites_example :
    ((push_raw 65 sixteen_waiting).used ≡ 17)
    × ((pop_raw (push_raw 65 sixteen_waiting)).0 ≡ some 65)
push_raw_overwrites_example = push_raw_overwrites 65 sixteen_waiting-IsValid refl

serial_write-Sends_example :
    Gives
      (λ r. (r.0 ≡ 2) × Sends idle (expand (65 ∷ 10 ∷ [])) r.1)
      (serial_write (λ _. 0) (65 ∷ 10 ∷ []) idle)
unfolding empty_queue expand
serial_write-Sends_example =
    serial_write-Sends (λ _. 0) (65 ∷ 10 ∷ []) idle empty_queue-IsValid (omega arith)

abbrev busy : Port
busy = record idle { sendq = two_waiting; recvq = two_waiting }

serial_read-Reads_example : Gives (Reads 3 busy) (serial_read 3 busy)
serial_read-Reads_example = serial_read-Reads 3 busy two_waiting-IsValid refl
