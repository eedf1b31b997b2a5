-- ===== src/Flash/SampleStorage.antt =====
-- The flash of src/drivers/nanomind/data_storage.c as the storage behind src/system/repoData.c.
use balloon_suchai_flight_so.Prelude.{
  ℕ, ◌+◌, ◌<◌, ◌≡◌, ◌≢◌, refl, ap, sym, inl, inr, ◌∙◌, arith, List, none, some, length, subst, ◌==◌,
  if◌then◌else◌,
}
use balloon_suchai_flight_so.Prelude.Upto.{upto, upto-list, upto-shift}
use balloon_suchai_flight_so.Prelude.Words.{minus_one}
use balloon_suchai_flight_so.Payload.{PayloadId, Storage, Keeps, data_map}
use balloon_suchai_flight_so.Telemetry.{number_of}
use balloon_suchai_flight_so.Flash.{
  Flash, blank_byte, storage_init, storage_set_payload_data, storage_get_payload_data, read_data,
}
use balloon_suchai_flight_so.Flash.Places.{capacity, address, sides}
use balloon_suchai_flight_so.Flash.Samples.{set_runs, get_runs}

-- A place that can be read.
abbrev pub Inside : ℕ → PayloadId → Type 0
Inside i p = i < capacity p

module _ {F : Type 0} (flash : Flash F) where
  -- Results other than 0 are failures; an access outside the array of addresses, which no place
  -- within the payload's sections makes, is counted among them.
  unfoldable pub flash_storage : Storage F (List ℕ)
  flash_storage = record {
    set_payload_data = λ i d p f.
        elim (storage_set_payload_data flash storage_init i d (number_of p) f) [
          | none ↦ (minus_one, f)
          | some done ↦ done
        ];
    get_payload_data = λ i p f.
        elim (storage_get_payload_data flash storage_init i (number_of p) f) [
          | none ↦ none
          | some (rc, bytes) ↦ if rc == 0 then some bytes else none
        ];
  }

  -- A place within the payload's sections that is erased, for a sample of the payload's size.
  pub record Ready (i : ℕ) (d : List ℕ) (p : PayloadId) (f : F) : Type 0 where
    pub inside : i < capacity p
    pub long : length d ≡ (data_map p).size
    pub clean : (k : ℕ) → k < (data_map p).size → flash.byte (address p i + k) f ≡ blank_byte

  set_by :
      (i : ℕ) (d : List ℕ) (p : PayloadId) (f f' : F)
      → storage_set_payload_data flash storage_init i d (number_of p) f ≡ some (0, f')
      → flash_storage.set_payload_data i d p f ≡ (0, f')
  unfolding flash_storage
  set_by i d p f f' e = rw (flash_storage, e) refl

  get_by :
      (i : ℕ) (p : PayloadId) (f : F) (bytes : List ℕ)
      → storage_get_payload_data flash storage_init i (number_of p) f ≡ some (0, bytes)
      → flash_storage.get_payload_data i p f ≡ some bytes
  unfolding flash_storage
  get_by i p f bytes e = rw (flash_storage, e) refl

  get_as :
      (i : ℕ) (p : PayloadId) (f f' : F)
      → storage_get_payload_data flash storage_init i (number_of p) f
        ≡ storage_get_payload_data flash storage_init i (number_of p) f'
      → flash_storage.get_payload_data i p f ≡ flash_storage.get_payload_data i p f'
  unfolding flash_storage
  get_as i p f f' e = rw (flash_storage, e) refl

  -- A read of a place within the sections gives the bytes there.
  pub get_inside :
      (i : ℕ) (p : PayloadId) (f : F)
      → i < capacity p
      → flash_storage.get_payload_data i p f
        ≡ some (read_data flash storage_init (address p i) ((data_map p).size) f)
  get_inside i p f h =
      get_by i p f (read_data flash storage_init (address p i) ((data_map p).size) f)
        (get_runs flash p i f h)

  module _ (writes_done : (a : ℕ) (bs : List ℕ) (g : F) → (flash.write_data a bs g).0 ≡ 0) where
    abbrev after : ℕ → List ℕ → PayloadId → F → F
    after i d p f = (flash.write_data (address p i) d f).1

    write_done :
        (i : ℕ) (d : List ℕ) (p : PayloadId) (f : F)
        → flash.write_data (address p i) d f ≡ (0, after i d p f)
    write_done i d p f = ap (λ x. (x, after i d p f)) (writes_done (address p i) d f)

    set_result :
        (i : ℕ) (d : List ℕ) (p : PayloadId) (f : F)
        → Ready i d p f
        → flash_storage.set_payload_data i d p f ≡ (0, after i d p f)
    set_result i d p f ready =
        set_by i d p f (after i d p f)
          (set_runs flash p i d f (after i d p f) ready.inside (write_done i d p f))

    -- A byte of another place stays.
    other_byte :
        (i j : ℕ) (d : List ℕ) (p : PayloadId) (f : F) (k : ℕ)
        → Ready i d p f
        → Inside j p
        → j ≢ i
        → k < (data_map p).size
        → flash.byte (address p j + k) (after i d p f) ≡ flash.byte (address p j + k) f
    other_byte i j d p f k ready place ne l =
        flash.kept (address p i) d f (after i d p f) (address p j + k) (write_done i d p f)
          (elim (sides p p i j ready.inside place (inr (λ e. ne (sym e)))) [
            | inl before ↦ inr (omega (arith, before, ready.long))
            | inr behind ↦ inl (omega (arith, behind, l))
          ])

    -- A flash whose writes do not fail keeps the samples of the places that are ready.
    pub flash_keeps : Keeps flash_storage Ready Inside
    flash_keeps = record {
      taken = λ i d p f ready. ap (λ x. x.0) (set_result i d p f ready);
      stored = λ i d p f ready.
          ap (λ x. flash_storage.get_payload_data i p x.1) (set_result i d p f ready)
          ∙ get_inside i p (after i d p f) ready.inside
          ∙ ap (λ (n : ℕ). some (upto (λ k. flash.byte k (after i d p f)) (address p i) n))
              (sym ready.long)
          ∙ ap some (
              upto-list (λ k. flash.byte k (after i d p f)) (address p i) d
                (λ k l.
                  flash.written (address p i) d f (after i d p f) k (write_done i d p f) l
                    (ready.clean k (omega (arith, l, ready.long)))));
      kept = λ i j d p f ready place ne.
          ap (λ x. flash_storage.get_payload_data j p x.1) (set_result i d p f ready)
          ∙ get_inside j p (after i d p f) place
          ∙ ap some (
              upto-shift (λ k. flash.byte k (after i d p f)) (λ k. flash.byte k f) (address p j)
                (address p j) ((data_map p).size) (λ k l. other_byte i j d p f k ready place ne l))
          ∙ sym (get_inside j p f place);
      still_ready = λ i j d e p f ready ready' ne.
          subst (Ready j e p) (sym (ap (λ x. x.1) (set_result i d p f ready))) (record {
            inside = ready'.inside;
            long = ready'.long;
            clean = λ k l. other_byte i j d p f k ready (ready'.inside) ne l ∙ ready'.clean k l;
          });
      ready_place = λ i d p f ready. ready.inside;
    }
