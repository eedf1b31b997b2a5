-- ===== src/Comms/Overrun.antt =====
-- Which payload frames `com_receive_tm` of src/system/taskCommunications.c takes.
use mathlib.Core.Option.{bind}
use balloon_suchai_flight_so.Prelude.{
  ℕ, zero, suc, ◌+◌, ◌*◌, ◌%◌, ◌^◌, ◌≡◌, refl, inl, inr, List, [], none, some, leb, if◌then◌else◌,
  Bool-cases,
}
use balloon_suchai_flight_so.Prelude.Upto.{upto}
use balloon_suchai_flight_so.Commands.{Repo}
use balloon_suchai_flight_so.Payload.{PayloadId, Storage, Memory, data_map}
use balloon_suchai_flight_so.Telemetry.{tm_type_payload, number_of, frame_max_len}
use balloon_suchai_flight_so.Comms.{Received, assert_fits, store_samples, com_receive_tm}
use balloon_suchai_flight_so.Comms.Storing.{add_all}
use balloon_suchai_flight_so.Comms.Wire.{payload_type}

module _ {S D : Type 0} (storage : Storage S D) (p : PayloadId) (frame : Received D) where
  -- The structs at the places from `j` on, as they are read: by an offset on 32 bits, within the
  -- frame or not.
  abbrev pub structs_from : ℕ → ℕ → List D
  structs_from j n = upto (λ i. frame.struct_at (i * (data_map p).size % 2 ^ 32)) j n

  store_samples-structs :
      (j rounds : ℕ) (m : Memory S)
      → store_samples storage frame p j rounds m ≡ add_all storage p (structs_from j rounds) m
  unfolding store_samples add_all
  store_samples-structs j zero m = refl
  store_samples-structs j (suc rounds) m = store_samples-structs (j + 1) rounds _

  -- A frame of a payload's type that announces any number of structs ends the program where the
  -- number times the struct's size, on 32 bits, is more than the frame's 192 bytes. Everywhere else
  -- no command is sent, and each announced struct is added to the samples, in order, as it is read
  -- from its offset, within the frame or not: so too where only the product on 32 bits is small.
  pub com_receive_tm_exact :
      (r : Repo) (m : Memory S)
      → frame.tm_type ≡ tm_type_payload + number_of p
      → com_receive_tm storage frame r m ≡ (
          if leb (frame.ndata * (data_map p).size % 2 ^ 32) frame_max_len
          then some ([], add_all storage p (structs_from 0 frame.ndata) m)
          else none)
  unfolding com_receive_tm bind assert_fits
  com_receive_tm_exact r m t =
      let (other, least, which) = payload_type p in
      let stored = store_samples-structs 0 frame.ndata m in
      elim (Bool-cases (leb (frame.ndata * (data_map p).size % 2 ^ 32) frame_max_len)) [
        | inl e ↦ rw (com_receive_tm, t, other, least, which, e, stored) refl
        | inr e ↦ rw (com_receive_tm, t, other, least, which, e) refl
      ]
