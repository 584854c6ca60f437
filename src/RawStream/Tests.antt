-- ===== src/RawStream/Tests.antt =====
-- Runs of the raw stream buffer at concrete values, with integers for `double`, an insertion sort
-- for `qsort` and one callback that counts.
use mathlib.Core.List.Perm
use nmxptool.Prelude.{
  ℕ, ◌+◌, ◌≡◌, refl, inl, inr, none, some, List, [], ◌∷◌, ◌++◌, map, arith, Perm, Bool-cases,
  leb→le, if◌then◌else◌, true,
}
use nmxptool.Prelude.Each.{All_mono, All-perm}
use nmxptool.Prelude.Int.{ltb_ℤ, negsuc, ℤ, pos, ◌+ℤ◌, ◌-ℤ◌, ◌*ℤ◌, ◌≤ℤ◌, leb_ℤ}
use native.Mathlib.Bridge.{le_prop}
use nmxptool.Packet.{DataProcess, end_time, data_latency}
use nmxptool.RawStream.{
  RawStream, Readings, seq_no_compare, init, manage, settle, admit, make_room, force, must_force,
  is_full, oldest_latency, start_at, copy, compact, skip_gap, drain, finish, handle, discard, sent,
  call_all,
}
use nmxptool.RawStream.History.{Call, run, run-Climbs, run-Ascends, init-IsValid}
use nmxptool.RawStream.Conserve.{call_each, manage-account}
use nmxptool.RawStream.Liveness.{timeouts, timeouts-nil}
use nmxptool.RawStream.Repeat.{holding, timeout-Repeats}
use nmxptool.RawStream.Room.{to_force, IsRoomMade, call_start, admit-IsRoomMade}
use nmxptool.RawStream.Order.{IsSorted, Ascends, Climbs}
use nmxptool.RawStream.Valid.{IsValid}
use nmxptool.Double.Whole.{whole}
use nmxptool.RawStream.Manage.{IsOrdered, Sorts, manage-Ascends}

insert_packet : DataProcess ℤ → List (DataProcess ℤ) → List (DataProcess ℤ)
insert_packet x [] = x ∷ []
insert_packet x (y ∷ ys) = if leb_ℤ x.seq_no y.seq_no then x ∷ y ∷ ys else y ∷ insert_packet x ys

sort_packets : List (DataProcess ℤ) → List (DataProcess ℤ)
unfolding insert_packet
sort_packets [] = []
sort_packets (x ∷ xs) = insert_packet x (sort_packets xs)

insert_packet-perm :
    (x : DataProcess ℤ) (ys : List (DataProcess ℤ)) → Perm (insert_packet x ys) (x ∷ ys)
unfolding insert_packet
insert_packet-perm x [] = Perm.rfl
insert_packet-perm x (y ∷ ys) = elim (Bool-cases (leb_ℤ x.seq_no y.seq_no)) [
  | inl e ↦ rw e Perm.rfl
  | inr e ↦ rw e (Perm.trans (Perm.cons y (insert_packet-perm x ys)) (Perm.swap x y ys))
]

insert_packet-IsSorted :
    (x : DataProcess ℤ) (ys : List (DataProcess ℤ)) → IsSorted ys → IsSorted (insert_packet x ys)
unfolding insert_packet
insert_packet-IsSorted x [] s = (tt, tt)
insert_packet-IsSorted x (y ∷ ys) s = elim (Bool-cases (leb_ℤ x.seq_no y.seq_no)) [
  | inl e ↦
      let le : x.seq_no ≤ℤ y.seq_no = leb→le _ _ e in
      rw e ((le, All_mono (λ z. y.seq_no ≤ℤ z.seq_no) _ ys (λ z h. omega arith) s.0), s)
  | inr e ↦
      let le : y.seq_no ≤ℤ x.seq_no = ground arith in
      rw e (
        All-perm (λ z. y.seq_no ≤ℤ z.seq_no) (λ z. le_prop) (Perm.symm (insert_packet-perm x ys))
            (le, s.0),
        insert_packet-IsSorted x ys s.1,
      )
]

sort_packets-perm : (xs : List (DataProcess ℤ)) → Perm (sort_packets xs) xs
unfolding sort_packets
sort_packets-perm [] = Perm.rfl
sort_packets-perm (x ∷ xs) =
    Perm.trans (insert_packet-perm x (sort_packets xs)) (Perm.cons x (sort_packets-perm xs))

sort_packets-IsSorted : (xs : List (DataProcess ℤ)) → IsSorted (sort_packets xs)
unfolding sort_packets
sort_packets-IsSorted [] = tt
sort_packets-IsSorted (x ∷ xs) =
    insert_packet-IsSorted x (sort_packets xs) (sort_packets-IsSorted xs)

IsSorted-IsOrdered : (xs : List (DataProcess ℤ)) → IsSorted xs → IsOrdered xs
unfolding seq_no_compare
IsSorted-IsOrdered [] h = tt
IsSorted-IsOrdered (x ∷ xs) h = (
  All_mono (λ y. x.seq_no ≤ℤ y.seq_no) (λ y. leb_ℤ (seq_no_compare x y) (pos 0) ≡ true) xs
      (λ y k. not_above x.seq_no y.seq_no k) h.0,
  IsSorted-IsOrdered xs h.1,
)
  where
    not_above :
        (a b : ℤ)
        → a ≤ℤ b
        → leb_ℤ (if ltb_ℤ b a then pos 1 else if ltb_ℤ a b then negsuc 0 else pos 0) (pos 0) ≡ true
    not_above a b k = ground arith

sort_packets-Sorts : Sorts sort_packets
sort_packets-Sorts = record {
  permutes = sort_packets-perm;
  orders = λ xs. IsSorted-IsOrdered (sort_packets xs) (sort_packets-IsSorted xs);
}

-- A packet of one sample with the sequence number n, one second after the one before.
abbrev packet : ℕ → DataProcess ℤ
packet n = record {
  key = pos 1;
  network = [];
  station = [];
  channel = [];
  location = [];
  packet_type = pos 1;
  x0 = pos 0;
  xn = pos 0;
  x0n_significant = pos 1;
  oldest_seq_no = pos 0;
  seq_no = pos n;
  time = pos n;
  data_ptr = some (pos n ∷ []);
  n_samp = pos 1;
  samp_rate = pos 1;
  timing_quality = pos 0;
  quality_indicator = 0;
}

abbrev clock : ℤ → Readings
clock now = record { first = now; oldest = now; forced = now; timeout = now; handled = λ j. now }

abbrev count : List (DataProcess ℤ → ℕ → ℕ)
count = (λ x n. n + 1) ∷ []

-- Numbers 7 and 9 came after 5: they wait for 6.
abbrev waiting : RawStream ℤ
waiting = record {
  last_seq_no_sent = pos 5;
  last_sample_time = pos 6;
  last_latency = pos 0;
  max_pdlist_items = pos 8;
  max_tolerable_latency = pos 600;
  timeoutrecv = pos 0;
  pdlist = packet 7 ∷ packet 9 ∷ [];
}

waiting-IsValid : IsValid waiting
waiting-IsValid = omega arith

abbrev numbers : List (DataProcess ℤ) → List ℤ
numbers = map (λ x. x.seq_no)

-- Number 6 closes the gap before 7; 9 goes on waiting.
arrival_test :
    numbers (manage whole count sort_packets (clock (pos 20)) (some (packet 6)) waiting 0).handled
    ≡ pos 6 ∷ pos 7 ∷ []
unfolding manage settle admit make_room force must_force is_full oldest_latency start_at copy
    compact skip_gap drain finish handle discard sent call_all data_latency end_time sort_packets
    init ◌-ℤ◌ ◌+ℤ◌ ◌*ℤ◌
arrival_test = refl

-- A time-out gives number 6 up.
timeout_test :
    let q = manage whole count sort_packets (clock (pos 20)) none waiting 0 in
    (numbers q.handled ≡ pos 7 ∷ []) × (numbers q.stream.pdlist ≡ pos 9 ∷ []) × (q.world ≡ 1)
unfolding manage settle admit make_room force must_force is_full oldest_latency start_at copy
    compact skip_gap drain finish handle discard sent call_all data_latency end_time sort_packets
    init ◌-ℤ◌ ◌+ℤ◌ ◌*ℤ◌
timeout_test = (refl, refl, refl)

-- Two packets with number 7 behind the gap, and no room or time left.
abbrev doubled : RawStream ℤ
doubled = holding waiting (packet 7 ∷ packet 7 ∷ [])

doubled-IsValid : IsValid doubled
doubled-IsValid = omega arith

doubled_test :
    numbers (manage whole count sort_packets (clock (pos 2000)) none doubled 0).handled
    ≡ pos 7 ∷ pos 7 ∷ []
unfolding manage settle admit make_room force must_force is_full oldest_latency start_at copy
    compact skip_gap drain finish handle discard sent call_all data_latency end_time sort_packets
    init ◌-ℤ◌ ◌+ℤ◌ ◌*ℤ◌
doubled_test = refl

doubled_full : must_force whole (clock (pos 2000)) doubled ≡ true
unfolding must_force is_full oldest_latency data_latency end_time ◌-ℤ◌ ◌+ℤ◌
doubled_full = refl

abbrev session : List (Call whole)
session =
    record { readings = clock (pos 20); packet = some (packet 8) }
    ∷ record { readings = clock (pos 21); packet = some (packet 6) }
    ∷ []

abbrev pausing : List (Call whole)
pausing = record { readings = clock (pos 20); packet = none } ∷ session

manage-Ascends_example :
    let q = manage whole count sort_packets (clock (pos 20)) (some (packet 6)) waiting 0 in
    IsValid q.stream × Ascends (pos 5) q.handled q.stream.last_seq_no_sent
manage-Ascends_example =
    manage-Ascends whole count sort_packets sort_packets-Sorts (clock (pos 20)) (packet 6) waiting 0
      waiting-IsValid (omega arith)

run-Ascends_example :
    let q = run whole count sort_packets session waiting 0 in
    IsValid q.stream × Ascends (pos 5) q.handled q.stream.last_seq_no_sent
run-Ascends_example =
    run-Ascends whole count sort_packets sort_packets-Sorts session waiting 0 waiting-IsValid
      ((packet 8, refl, omega arith), ((packet 6, refl, omega arith), tt))

run-Climbs_example :
    let q = run whole count sort_packets pausing waiting 0 in
    IsValid q.stream × Climbs (pos 5) q.handled q.stream.last_seq_no_sent
run-Climbs_example =
    run-Climbs whole count sort_packets sort_packets-Sorts pausing waiting 0 waiting-IsValid
      (tt, (omega arith, (omega arith, tt)))

init-IsValid_example : IsValid (init whole (pos 2) (pos 0))
init-IsValid_example = init-IsValid whole (pos 2) (pos 0) (omega arith)

manage-account_example :
    let q = manage whole count sort_packets (clock (pos 20)) (some (packet 6)) waiting 0 in
    Perm (q.handled ++ (q.discarded ++ q.stream.pdlist)) (packet 6 ∷ packet 7 ∷ packet 9 ∷ [])
    × (q.world ≡ call_each whole count q.handled 0)
unfolding copy
manage-account_example =
    manage-account whole count sort_packets sort_packets-Sorts (clock (pos 20)) (some (packet 6))
      waiting 0

timeouts-nil_example :
    (timeouts whole count sort_packets (clock (pos 20) ∷ clock (pos 35) ∷ []) waiting 0).pdlist ≡ []
timeouts-nil_example =
    timeouts-nil whole count sort_packets sort_packets-Sorts (clock (pos 20) ∷ clock (pos 35) ∷ [])
      waiting 0 (omega arith)

timeout-Repeats_example :
    (z : DataProcess ℤ) × (more : List (DataProcess ℤ)) × ((manage whole count sort_packets
        (clock (pos 2000))
        none
        doubled
        0).handled
      ≡ packet 7 ∷ z ∷ more)
    × (z.seq_no ≡ pos 7)
timeout-Repeats_example =
    timeout-Repeats whole count sort_packets sort_packets-Sorts (clock (pos 2000)) (packet 7)
      (packet 7) [] waiting 0 doubled-IsValid doubled_full refl

abbrev overdue : RawStream ℤ
overdue = record waiting { max_pdlist_items = pos 2 }

overdue-IsValid : IsValid overdue
overdue-IsValid = omega arith

admit-IsRoomMade_example :
    IsRoomMade whole count
      (to_force whole count
        (clock (pos 20))
        (start_at whole (clock (pos 20)) overdue (some (packet 6))))
      (packet 7 ∷ packet 9 ∷ [])
      (some (packet 6))
      (admit whole count
        (clock (pos 20))
        (some (packet 6))
        (call_start whole count (clock (pos 20)) overdue (some (packet 6)) 0))
admit-IsRoomMade_example =
    admit-IsRoomMade whole count (clock (pos 20)) overdue (some (packet 6)) 0 overdue-IsValid
      (omega arith)

-- The buffer holds as many packets as it may: number 7 is handled, and 9 and 6 wait.
room_test :
    let r =
      admit whole count
        (clock (pos 20))
        (some (packet 6))
        (call_start whole count (clock (pos 20)) overdue (some (packet 6)) 0) in
    (numbers r.0.handled ≡ pos 7 ∷ []) × (numbers (compact whole r.1) ≡ pos 6 ∷ pos 9 ∷ [])
unfolding admit make_room force must_force is_full oldest_latency start_at compact handle sent
    call_all data_latency end_time ◌-ℤ◌ ◌+ℤ◌ ◌*ℤ◌
room_test = (refl, refl)
