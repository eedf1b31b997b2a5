-- ===== src/Queue/Ring.antt =====
-- The ring of src/os/Linux/pthread_queue.c is a bounded first-in first-out queue.
use balloon_suchai_flight_so.Prelude.{
  ℕ, ◌+◌, ◌-◌, ◌%◌, ◌<◌, ◌≤◌, ◌≡◌, refl, sym, ap, ap₂, ◌∙◌, List, [], ◌∷◌, ◌++◌, arith, true, false,
  ltb, ◌==◌, if◌then◌else◌, length, get_or, set, length-set, get_or-set, Bool-cases, inl, inr,
}
use native.Mathlib.Nat.{mod-eq_of_lt, mod-eq-sub-mod}
use balloon_suchai_flight_so.Prelude.Upto.{upto, upto-append, upto-shift}
use balloon_suchai_flight_so.Queue.{Queue, put, take}

-- The place of `x` on a ring, where it goes round once at most.
abbrev pub wrap : ℕ → ℕ → ℕ
wrap size x = if ltb x size then x else x - size

mod-wrap : (size x : ℕ) → x < size + size → x % size ≡ wrap size x
mod-wrap size x h = elim (Bool-cases (ltb x size)) [
  | inl e ↦ mod-eq_of_lt (ground (arith, e)) ∙ rw e refl
  | inr e ↦ mod-eq-sub-mod (ground (arith, e)) ∙ mod-eq_of_lt (ground (arith, e)) ∙ rw e refl
]

next_place :
    (size first items : ℕ)
    → first < size
    → items < size
    → (wrap size (first + items) + 1) % size ≡ wrap size (first + (items + 1))
next_place size first items hf hi =
    mod-wrap size (wrap size (first + items) + 1) (ground arith) ∙ ground arith

other_place :
    (size first items i : ℕ)
    → first < size
    → items < size
    → i < items
    → (wrap size (first + items) == wrap size (first + (0 + i))) ≡ false
other_place size first items i hf hi h = ground arith

same_place :
    (size first items : ℕ) → (wrap size (first + items) == wrap size (first + (0 + items))) ≡ true
same_place size first items = ground arith

later_place :
    (size first i : ℕ)
    → first < size
    → i < size
    → wrap size (first + (0 + 1 + i)) ≡ wrap size ((first + 1) % size + (0 + i))
later_place size first i hf hi = ground (arith, mod-wrap size (first + 1) (omega arith))

first_place : (size first : ℕ) → first < size → wrap size (first + 0) ≡ first
first_place size first h = ground arith

step_first :
    (size first items : ℕ)
    → first < size
    → 0 < items
    → items ≤ size
    → ((first + 1) % size < size)
      × (wrap size (first + items) ≡ wrap size ((first + 1) % size + (items - 1)))
step_first size first items h pos le =
    let m = mod-wrap size (first + 1) (omega arith) in (ground (arith, m), ground (arith, m))

-- The array is as long as `size` says, and `next` is `items` places behind `first`.
pub record IsValid {A : Type 0} (q : Queue A) : Type 0 where
  pub length_size : length q.buffer ≡ q.size
  pub items_size : q.items ≤ q.size
  pub first_size : q.first < q.size
  pub next_first : q.next ≡ wrap q.size (q.first + q.items)

inside :
    {A : Type 0} (size first items next : ℕ) (buffer : List A)
    → first < size
    → items < size
    → next ≡ wrap size (first + items)
    → length buffer ≡ size
    → next < length buffer
inside size first items next buffer hf hi e el = ground arith

module _ {A : Type 0} (junk : A) where
  -- The items in the order in which they were put.
  abbrev pub contents : Queue A → List A
  contents q = upto (λ i. get_or q.buffer (wrap q.size (q.first + i)) junk) 0 q.items

  -- Behind the wait of a send, on a queue that is not full, the value is the last item.
  pub put_appends :
      (v : A) (q : Queue A)
      → IsValid q
      → q.items < q.size
      → IsValid (put junk v q) × (contents (put junk v q) ≡ contents q ++ (v ∷ []))
  unfolding put
  put_appends v q valid room =
      let at = λ (i : ℕ). get_or (set q.buffer q.next v) (wrap q.size (q.first + i)) junk in
      let stored = λ (i : ℕ). get_or-set q.buffer q.next (wrap q.size (q.first + i)) v junk (
        inside q.size q.first q.items q.next q.buffer valid.first_size room valid.next_first
          valid.length_size) in
      let old : upto at 0 q.items ≡ contents q =
        upto-shift at (λ i. get_or q.buffer (wrap q.size (q.first + i)) junk) 0 0 q.items
          (λ i l.
            stored (0 + i)
            ∙ ap (λ c. if c then v else get_or q.buffer (wrap q.size (q.first + (0 + i))) junk)
                (ap (λ k. k == wrap q.size (q.first + (0 + i))) valid.next_first
                  ∙ other_place q.size q.first q.items i valid.first_size room l)) in
      let new : upto at (0 + q.items) 1 ≡ v ∷ [] =
        ap (λ x. x ∷ [])
          (stored (0 + q.items)
            ∙ ap
                (λ c. if c then v else get_or q.buffer (wrap q.size (q.first + (0 + q.items))) junk)
                (ap (λ k. k == wrap q.size (q.first + (0 + q.items))) valid.next_first
                  ∙ same_place q.size q.first q.items)) in
      (
        record {
          length_size = length-set q.buffer q.next v ∙ valid.length_size;
          items_size = omega arith;
          first_size = valid.first_size;
          next_first =
              ap (λ k. (k + 1) % q.size) valid.next_first
              ∙ next_place q.size q.first q.items valid.first_size room;
        },
        sym (upto-append at 0 q.items 1 (q.items + 1) (omega arith)) ∙ ap₂ ◌++◌ old new,
      )

  -- Behind the wait of a receive, on a queue that is not empty, the first item is taken.
  pub take_first :
      (q : Queue A)
      → IsValid q
      → 0 < q.items
      → IsValid ((take junk q).1) × (contents q ≡ (take junk q).0 ∷ contents ((take junk q).1))
  unfolding take
  take_first q valid some_items =
      let at = λ (i : ℕ). get_or q.buffer (wrap q.size (q.first + i)) junk in
      let after = λ (i : ℕ). get_or q.buffer (wrap q.size ((q.first + 1) % q.size + i)) junk in
      let (small, place) =
        step_first q.size q.first q.items valid.first_size some_items valid.items_size in
      let rest : upto at (0 + 1) (q.items - 1) ≡ upto after 0 (q.items - 1) =
        upto-shift at after (0 + 1) 0 (q.items - 1) (λ i l.
          ap (λ k. get_or q.buffer k junk)
            (later_place q.size q.first i valid.first_size (omega (arith, valid.items_size)))) in
      (
        record {
          length_size = valid.length_size;
          items_size = omega (arith, valid.items_size);
          first_size = small;
          next_first = valid.next_first ∙ place;
        },
        sym (upto-append at 0 1 (q.items - 1) q.items (omega arith))
            ∙ ap₂ (λ x xs. get_or q.buffer x junk ∷ xs)
                (first_place q.size q.first valid.first_size) rest,
      )
