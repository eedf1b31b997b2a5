-- ===== src/Comms/Wire.antt =====
-- A frame of `send_tel_from_to` of src/system/cmdTM.c, as `com_receive_tm` of
-- src/system/taskCommunications.c takes it.
use mathlib.Core.Option.{bind}
use balloon_suchai_flight_so.Prelude.{
  ℕ, zero, suc, ◌+◌, ◌-◌, ◌*◌, ◌%◌, ◌/◌, ◌<◌, ◌≤◌, ◌≡◌, refl, sym, ap, ◌∙◌, true, false, List, [],
  ◌∷◌, ◌++◌, Option, none, some, arith, ◌==◌, length, leb, get_or, length-append, append_assoc,
}
use balloon_suchai_flight_so.Prelude.Words.{u32_mod}
use balloon_suchai_flight_so.Commands.{Repo}
use balloon_suchai_flight_so.Payload.{PayloadId, Storage, Memory, data_map, payload_of}
use balloon_suchai_flight_so.Telemetry.{Frame, tm_type_payload, number_of, structs_of}
use balloon_suchai_flight_so.Telemetry.Frames.{IsFilled}
use PayloadId.{
  temp_sensors, ads_sensors, eps_sensors, lang_sensors, gps_sensors, prs_sensors, dpl_sensors,
  fod_sensors,
}
use balloon_suchai_flight_so.Comms.{
  tm_type_status, Received, assert_fits, store_samples, com_receive_tm,
}
use balloon_suchai_flight_so.Comms.Storing.{add_all}

-- A frame as it is received: `junk` stands for the bytes of a sample that was not read.
unfoldable pub value_or : {D : Type 0} → D → Option D → D
value_or junk none = junk
value_or junk (some d) = d

unfoldable pub wire : {D : Type 0} → D → PayloadId → Frame D → Received D
unfolding value_or
wire junk p frame = record {
  tm_type = frame.tm_type;
  ndata = frame.ndata;
  data8 = [];
  struct_at = λ offset. value_or junk (get_or frame.samples (offset / (data_map p).size) none);
}

unfoldable pub values : {D : Type 0} → D → List (Option D) → List D
values junk [] = []
values junk (o ∷ os) = value_or junk o ∷ values junk os

pub values-append :
    {D : Type 0} (junk : D) (xs ys : List (Option D))
    → values junk (xs ++ ys) ≡ values junk xs ++ values junk ys
unfolding values
values-append junk [] ys = refl
values-append junk (o ∷ xs) ys = ap (◌∷◌ (value_or junk o)) (values-append junk xs ys)

get_or-append :
    {A : Type 0} (xs ys : List A) (j : ℕ) (a d : A) → length xs ≡ j → get_or (xs ++ a ∷ ys) j d ≡ a
get_or-append [] ys zero a d e = refl
get_or-append [] ys (suc j) a d e = absurd (omega (arith, e))
get_or-append (x ∷ xs) ys zero a d e = absurd (omega (arith, e))
get_or-append (x ∷ xs) ys (suc j) a d e = get_or-append xs ys j a d (omega (arith, e))

-- A struct that belongs to a frame is found from its offset.
slot :
    (p : PayloadId) (j : ℕ)
    → j < structs_of p
    → (j * (data_map p).size % u32_mod) / (data_map p).size ≡ j
slot temp_sensors j h = ground (arith, h)
slot ads_sensors j h = ground (arith, h)
slot eps_sensors j h = ground (arith, h)
slot lang_sensors j h = ground (arith, h)
slot gps_sensors j h = ground (arith, h)
slot prs_sensors j h = ground (arith, h)
slot dpl_sensors j h = ground (arith, h)
slot fod_sensors j h = ground (arith, h)

may_receive : (p : PayloadId) (n : ℕ) → n ≤ structs_of p → assert_fits n p ≡ true
unfolding assert_fits
may_receive temp_sensors n h = ground arith
may_receive ads_sensors n h = ground arith
may_receive eps_sensors n h = ground arith
may_receive lang_sensors n h = ground arith
may_receive gps_sensors n h = ground arith
may_receive prs_sensors n h = ground arith
may_receive dpl_sensors n h = ground arith
may_receive fod_sensors n h = ground arith

pub payload_type :
    (p : PayloadId)
    → ((tm_type_payload + number_of p == tm_type_status) ≡ false)
      × (leb tm_type_payload (tm_type_payload + number_of p) ≡ true)
      × (payload_of (tm_type_payload + number_of p - tm_type_payload) ≡ some p)
unfolding number_of
payload_type temp_sensors = (refl, refl, refl)
payload_type ads_sensors = (refl, refl, refl)
payload_type eps_sensors = (refl, refl, refl)
payload_type lang_sensors = (refl, refl, refl)
payload_type gps_sensors = (refl, refl, refl)
payload_type prs_sensors = (refl, refl, refl)
payload_type dpl_sensors = (refl, refl, refl)
payload_type fod_sensors = (refl, refl, refl)

module _ {S D : Type 0} (storage : Storage S D) (p : PayloadId) (junk : D) where
  store_samples-wire :
      (frame : Frame D) (pre os : List (Option D)) (j rounds : ℕ) (m : Memory S)
      → frame.samples ≡ pre ++ os
      → length pre ≡ j
      → length os ≡ rounds
      → j + rounds ≤ structs_of p
      → store_samples storage (wire junk p frame) p j rounds m
        ≡ add_all storage p (values junk os) m
  unfolding store_samples values add_all wire
  store_samples-wire frame pre [] j zero m e e_1 e_2 h = refl
  store_samples-wire frame pre (o ∷ os) j (suc rounds) m e e_1 e_2 h =
      let place = slot p j (omega arith) in
      let value : get_or frame.samples ((j * (data_map p).size % u32_mod) / (data_map p).size) none
          ≡ o =
        ap (λ i. get_or frame.samples i none) place
        ∙ ap (λ l. get_or l j none) e
        ∙ get_or-append pre os j o none e_1 in
      let longer : length (pre ++ o ∷ []) ≡ j + 1 =
        omega (arith, e_1, length-append pre (o ∷ [])) in
      rw value (
        store_samples-wire frame (pre ++ o ∷ []) os (j + 1) rounds _
          (e ∙ sym (append_assoc pre (o ∷ []) os)) longer (omega (arith, e_2)) (omega arith))
  store_samples-wire frame pre [] j (suc rounds) m e e_1 e_2 h = absurd (omega (arith, e_2))
  store_samples-wire frame pre (o ∷ os) j zero m e e_1 e_2 h = absurd (omega (arith, e_2))

  pub receive-wire :
      (frame : Frame D) (r : Repo) (m : Memory S)
      → frame.tm_type ≡ tm_type_payload + number_of p
      → IsFilled (structs_of p) frame
      → com_receive_tm storage (wire junk p frame) r m
        ≡ some ([], add_all storage p (values junk frame.samples) m)
  unfolding com_receive_tm wire bind
  receive-wire frame r m t (full, few) =
      let (other, least, which) = payload_type p in
      let stored =
        store_samples-wire frame [] frame.samples 0 frame.ndata m refl refl (sym full)
          (omega (arith, few)) in
      rw (com_receive_tm, t, other, least, which, may_receive p frame.ndata few, stored) refl
