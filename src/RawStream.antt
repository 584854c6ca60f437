-- ===== src/RawStream.antt =====
-- lib/nmxp.c, the raw stream buffer (struct NMXP_RAW_STREAM_DATA of include/nmxp.h): packets of one
-- channel arrive in any order and are handled in the order of their sequence numbers.
--
-- `pdlist` is the list of the first `n_pdlist` slots of the C array; `n_pdlist` is its length. The
-- packets are copies that the buffer owns, so a slot is its value, and freeing it is leaving it out.
-- `qsort` of libc, the functions of `p_func_pd` (over a world W that they change) and the values of
-- `time()` are parameters. Lines that only write the log are left out.
pub mod Drain
pub mod Drained
pub mod Valid
pub mod Start
pub mod Admit
pub mod Room
pub mod Manage
pub mod Liveness
mod Tests
pub mod Timeout
pub mod Conserve
pub mod History
pub mod Repeat
pub mod Order
use nmxptool.Prelude.{
  ℕ, zero, suc, ◌+◌, ◌*◌, Bool, true, false, ◌&&◌, ◌||◌, not, Option, none, some, List, [], ◌∷◌,
  ◌++◌, map, length, take, if◌then◌else◌,
}
use nmxptool.Prelude.Int.{ℤ, pos, negsuc, pos_part, ◌-ℤ◌, ◌*ℤ◌, ltb_ℤ, leb_ℤ, eqb_ℤ}
use nmxptool.Double.{Double}
use nmxptool.Packet.{DataProcess, end_time, data_latency}
use mathlib.Core.Option as Opt

pub record RawStream (Num : Type 0) : Type 0 where
  pub last_seq_no_sent : ℤ
  pub last_sample_time : Num
  pub last_latency : Num
  pub max_pdlist_items : ℤ
  pub max_tolerable_latency : Num
  pub timeoutrecv : ℤ
  pub pdlist : List (DataProcess Num)

-- `nmxp_raw_stream_seq_no_compare` of two packets, none of them NULL.
unfoldable pub seq_no_compare : {Num : Type 0} → DataProcess Num → DataProcess Num → ℤ
seq_no_compare pa pb =
    if ltb_ℤ pb.seq_no pa.seq_no
    then pos 1
    else if ltb_ℤ pa.seq_no pb.seq_no
    then negsuc 0
    else pos 0

-- What `time()` returns at each call of `nmxp_data_latency` in one run of `manage` that is kept in
-- the state or tested; `handled j` is the one for the packet in slot j.
pub record Readings : Type 0 where
  pub first : ℤ
  pub oldest : ℤ
  pub forced : ℤ
  pub timeout : ℤ
  pub handled : ℕ → ℤ

-- The state of a run: the buffer, the world of the callbacks, and, in order, the packets that were
-- given to the callbacks and those that were freed without.
pub record Progress (Num W : Type 0) : Type 0 where
  pub stream : RawStream Num
  pub world : W
  pub handled : List (DataProcess Num)
  pub discarded : List (DataProcess Num)

module _ (dbl : Double) where
  open dbl use {Num, le, of_int, literal}

  -- `nmxp_raw_stream_init`; the slots are all NULL.
  unfoldable pub init : ℤ → ℤ → RawStream Num
  unfolding ◌*ℤ◌
  init max_tolerable_latency timeoutrecv = record {
    last_seq_no_sent = negsuc 0;
    last_sample_time = literal (negsuc 9) 1;
    last_latency = literal (pos 0) 1;
    max_tolerable_latency = of_int max_tolerable_latency;
    max_pdlist_items = max_tolerable_latency *ℤ pos 4;
    timeoutrecv = timeoutrecv;
    pdlist = [];
  }

  -- The private copy of the packet: its samples are copied if it has any.
  unfoldable pub copy : DataProcess Num → DataProcess Num
  copy a = record a {
    data_ptr =
        if eqb_ℤ a.n_samp (pos 0) then none else Opt.map (take (pos_part a.n_samp)) a.data_ptr;
  }

  -- "First time": the expected sequence number is set by the first packet, or from 0 with a time-out.
  unfoldable pub start_at : Readings → RawStream Num → Option (DataProcess Num) → RawStream Num
  start_at rs p none = p
  start_at rs p (some pd) =
      if eqb_ℤ p.last_seq_no_sent (negsuc 0)
      then (if eqb_ℤ p.timeoutrecv (pos 0)
          then record p {
            last_seq_no_sent = pd.seq_no -ℤ pos 1;
            last_sample_time = pd.time;
            last_latency = data_latency dbl rs.first pd;
          }
          else record p {
            last_seq_no_sent = pos 0;
            last_sample_time = literal (pos 0) 1;
            last_latency = literal (pos 0) 1;
          })
      else p

  -- `latency`: of the oldest packet, or 0.0.
  unfoldable pub oldest_latency : Readings → List (DataProcess Num) → Num
  oldest_latency rs [] = literal (pos 0) 1
  oldest_latency rs (x ∷ xs) = data_latency dbl rs.oldest x

  -- `p->n_pdlist >= p->max_pdlist_items`.
  unfoldable pub is_full : RawStream Num → Bool
  is_full p = leb_ℤ p.max_pdlist_items (pos (length p.pdlist))

  -- The test that makes room by force.
  unfoldable pub must_force : Readings → RawStream Num → Bool
  must_force rs p =
      (is_full p || le p.max_tolerable_latency (oldest_latency rs p.pdlist))
        && leb_ℤ p.timeoutrecv (pos 0)
      || is_full p && ltb_ℤ (pos 0) p.timeoutrecv

  -- What handling a packet writes to the state.
  unfoldable pub sent : ℤ → DataProcess Num → RawStream Num → RawStream Num
  sent now x p = record p {
    last_seq_no_sent = x.seq_no;
    last_sample_time = end_time dbl x;
    last_latency = data_latency dbl now x;
  }

  -- The loop that removes NULL slots.
  unfoldable pub compact : List (Option (DataProcess Num)) → List (DataProcess Num)
  compact [] = []
  compact (none ∷ slots) = compact slots
  compact (some x ∷ slots) = x ∷ compact slots

  -- "Condition for time-out": with no packet and a buffer that is not empty, the first one is due.
  unfoldable pub skip_gap : Readings → Bool → RawStream Num → List (DataProcess Num) → RawStream Num
  skip_gap rs arrived p [] = p
  skip_gap rs true p (x ∷ xs) = p
  skip_gap rs false p (x ∷ xs) = record p {
    last_seq_no_sent = x.seq_no -ℤ pos 1;
    last_sample_time = x.time;
    last_latency = data_latency dbl rs.timeout x;
  }

  module _ {W : Type 0} (funcs : List (DataProcess Num → W → W)) where
    -- `(*p_func_pd[i])(pd)` for each i.
    unfoldable pub call_all : List (DataProcess Num → W → W) → DataProcess Num → W → W
    call_all [] x w = w
    call_all (f ∷ fs) x w = call_all fs x (f x w)

    unfoldable pub handle : ℤ → DataProcess Num → Progress Num W → Progress Num W
    handle now x g = record {
      stream = sent now x g.stream;
      world = call_all funcs x g.world;
      handled = g.handled ++ x ∷ [];
      discarded = g.discarded;
    }

    unfoldable pub discard : DataProcess Num → Progress Num W → Progress Num W
    discard x g = record g { discarded = g.discarded ++ x ∷ [] }

    -- The oldest packet is handled, or, where "it should not occur", discarded.
    unfoldable pub force : Readings → DataProcess Num → Progress Num W → Progress Num W
    force rs x g =
        if ltb_ℤ (pos 0) (x.seq_no -ℤ g.stream.last_seq_no_sent)
        then handle rs.forced x g
        else discard x g

    abbrev pub slot : Option (DataProcess Num) → List (Option (DataProcess Num))
    slot none = []
    slot (some pd) = some pd ∷ []

    -- "Handle the first item and over write it": the new packet, or NULL, takes slot 0.
    unfoldable pub make_room :
        Readings
        → Option (DataProcess Num)
        → List (DataProcess Num)
        → Progress Num W
        → Progress Num W × List (Option (DataProcess Num))
    make_room rs pd [] g = (g, slot pd)
    make_room rs pd (x ∷ xs) g = (force rs x g, pd ∷ map some xs)

    -- "Add pd and sort array, in case handle the first item".
    unfoldable pub admit :
        Readings
        → Option (DataProcess Num)
        → Progress Num W
        → Progress Num W × List (Option (DataProcess Num))
    admit rs pd g =
        if must_force rs g.stream
        then make_room rs pd g.stream.pdlist g
        else (g, map some g.stream.pdlist ++ slot pd)

    -- "Manage array and execute func_pd()": from slot j on, stopping at the first gap. The second
    -- result is what is left after the handled slots are shifted out.
    unfoldable pub drain :
        Readings
        → ℕ
        → List (DataProcess Num)
        → Progress Num W
        → Progress Num W × List (DataProcess Num)
    drain rs j [] g = (g, [])
    drain rs j (x ∷ xs) g =
        let skipped = drain rs (suc j) xs (discard x g) in
        let passed = drain rs (suc j) xs (handle (rs.handled j) x g) in
        let diff = x.seq_no -ℤ g.stream.last_seq_no_sent in
        if leb_ℤ diff (pos 0) then skipped else if eqb_ℤ diff (pos 1) then passed else (g, x ∷ xs)

    -- "Shift and free j handled elements".
    unfoldable pub finish : Progress Num W × List (DataProcess Num) → Progress Num W
    finish (g, rest) = record g { stream = record (g.stream) { pdlist = rest } }

    abbrev pub is_some : Option (DataProcess Num) → Bool
    is_some none = false
    is_some (some pd) = true

    module _ (qsort : List (DataProcess Num) → List (DataProcess Num)) where
      -- The part of a run after the new packet has its slot.
      unfoldable pub settle :
          Readings → Bool → Progress Num W × List (Option (DataProcess Num)) → Progress Num W
      settle rs arrived (g, slots) =
          let queue = qsort (compact slots) in
          finish (drain rs 0 queue (record g { stream = skip_gap rs arrived g.stream queue }))

      -- `nmxp_raw_stream_manage`; `none` is the NULL packet of a time-out.
      unfoldable pub manage :
          Readings → Option (DataProcess Num) → RawStream Num → W → Progress Num W
      manage rs a_pd p w =
          let pd = Opt.map copy a_pd in
          settle rs (is_some pd) (
            admit rs pd
              (record { stream = start_at rs p pd; world = w; handled = []; discarded = [] }))
