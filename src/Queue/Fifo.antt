-- ===== src/Queue/Fifo.antt =====
-- `os_pthread_queue_send` and `os_pthread_queue_receive` of src/os/Linux/pthread_queue.c.
use balloon_suchai_flight_so.Prelude.{
  ℕ, ◌+◌, ◌<◌, ◌≡◌, refl, ap, ap₂, sym, ◌∙◌, inl, inr, Bool-cases, List, [], ◌∷◌, ◌++◌, Option,
  some, none, arith, true, false, get_or, if◌then◌else◌, ◌==◌, length, length-replicate,
}
use mathlib.Core.Option.{bind}
use mathlib.Core.Option
use balloon_suchai_flight_so.Prelude.Upto.{upto, length-upto}
use balloon_suchai_flight_so.Queue.{
  Queue, Result, os_pthread_queue_create, put, take, os_pthread_queue_send,
  os_pthread_queue_receive,
}
use Result.{queue_ok}
use balloon_suchai_flight_so.Queue.Ring.{wrap, IsValid, contents, put_appends, take_first}

create-IsValid : {A : Type 0} (junk : A) (n : ℕ) → 0 < n → IsValid (os_pthread_queue_create junk n)
unfolding os_pthread_queue_create
create-IsValid junk n h = record {
  length_size = length-replicate n junk;
  items_size = omega arith;
  first_size = h;
  next_first = ground arith;
}

-- A call of the queue's users, and what a run of calls without a wait does: the values received,
-- in their order, and the queue; `none` where a call would have to wait.
pub data Call (A : Type 0) : Type 0 where
  send : A → Call A
  receive : Call A

unfoldable pub run : {A : Type 0} → A → List (Call A) → Queue A → Option (List A × Queue A)
run junk [] q = some ([], q)
run junk (send v ∷ calls) q =
    bind (os_pthread_queue_send junk v [] q) (λ (r, q'). run junk calls q')
run junk (receive ∷ calls) q =
    bind (os_pthread_queue_receive junk [] q)
      (λ (r, v, q'). bind v (λ x. bind (run junk calls q') (λ (xs, q''). some (x ∷ xs, q''))))

-- The same calls on the list of the items that wait, the oldest first, of which there are at most
-- `n`.
unfoldable pub run_list : {A : Type 0} → ℕ → List (Call A) → List A → Option (List A × List A)
run_list n [] items = some ([], items)
run_list n (send v ∷ calls) items =
    let rest = run_list n calls (items ++ (v ∷ [])) in if length items == n then none else rest
run_list n (receive ∷ calls) [] = none
run_list n (receive ∷ calls) (x ∷ items) =
    bind (run_list n calls items) (λ (xs, items'). some (x ∷ xs, items'))

-- What a run left, with the queue's items for the queue.
abbrev pub seen : {A : Type 0} → A → List A × Queue A → List A × List A
seen junk (xs, q) = (xs, contents junk q)

contents_nil : {A : Type 0} (junk : A) (q : Queue A) → q.items ≡ 0 → contents junk q ≡ []
contents_nil junk q e = ap (upto (λ (i : ℕ). get_or q.buffer (wrap q.size (q.first + i)) junk) 0) e

blocked_send :
    {A : Type 0} (junk v : A) (calls : List (Call A)) (q : Queue A)
    → q.items ≡ q.size
    → run junk (send v ∷ calls) q ≡ none
unfolding run os_pthread_queue_send bind
blocked_send junk v calls q full =
    let is_full : (q.items == q.size) ≡ true = ground (arith, full) in rw is_full refl

run_send :
    {A : Type 0} (junk v : A) (calls : List (Call A)) (q q' : Queue A) (r : Result)
    → os_pthread_queue_send junk v [] q ≡ some (r, q')
    → run junk (send v ∷ calls) q ≡ run junk calls q'
unfolding run bind
run_send junk v calls q q' r e = rw e refl

blocked_receive :
    {A : Type 0} (junk : A) (calls : List (Call A)) (q : Queue A)
    → q.items ≡ 0
    → run junk (receive ∷ calls) q ≡ none
unfolding run os_pthread_queue_receive bind
blocked_receive junk calls q empty =
    let is_empty : (q.items == 0) ≡ true = ground (arith, empty) in rw is_empty refl

run_receive :
    {A : Type 0} (junk x : A) (calls : List (Call A)) (q q' : Queue A) (r : Result)
    → os_pthread_queue_receive junk [] q ≡ some (r, some x, q')
    → run junk (receive ∷ calls) q ≡ bind (run junk calls q') (λ (xs, q''). some (x ∷ xs, q''))
unfolding run bind
run_receive junk x calls q q' r e = rw e refl

send_now :
    {A : Type 0} (junk v : A) (q : Queue A)
    → (q.items == q.size) ≡ false
    → os_pthread_queue_send junk v [] q ≡ some (queue_ok, put junk v q)
unfolding os_pthread_queue_send
send_now junk v q room = rw room refl

receive_now :
    {A : Type 0} (junk : A) (q : Queue A)
    → (q.items == 0) ≡ false
    → os_pthread_queue_receive junk [] q ≡ some (queue_ok, some ((take junk q).0), (take junk q).1)
unfolding os_pthread_queue_receive
receive_now junk q some_items = rw some_items refl

items_of : {A : Type 0} (junk : A) (q : Queue A) → length (contents junk q) ≡ q.items
items_of junk q = length-upto _ 0 q.items

-- The spec's step at a list that is not full, and at one that is.
list_send :
    {A : Type 0} (n : ℕ) (v : A) (calls : List (Call A)) (items : List A)
    → (length items == n) ≡ false
    → run_list n (send v ∷ calls) items ≡ run_list n calls (items ++ (v ∷ []))
unfolding run_list
list_send n v calls items room = rw room refl

list_full :
    {A : Type 0} (n : ℕ) (v : A) (calls : List (Call A)) (items : List A)
    → (length items == n) ≡ true
    → run_list n (send v ∷ calls) items ≡ none
unfolding run_list
list_full n v calls items full = rw full refl

seen-cons :
    {A : Type 0} (junk x : A) (o : Option (List A × Queue A))
    → Option.map (seen junk) (bind o (λ (xs, q). some (x ∷ xs, q)))
      ≡ bind (Option.map (seen junk) o) (λ (xs, items). some (x ∷ xs, items))
unfolding bind
seen-cons junk x none = refl
seen-cons junk x (some (xs, q)) = refl

put-size : {A : Type 0} (junk v : A) (q : Queue A) → (put junk v q).size ≡ q.size
unfolding put
put-size junk v q = refl

take-size : {A : Type 0} (junk : A) (q : Queue A) → ((take junk q).1).size ≡ q.size
unfolding take
take-size junk q = refl

run-list :
    {A : Type 0} (junk : A) (calls : List (Call A)) (q : Queue A)
    → IsValid q
    → Option.map (seen junk) (run junk calls q) ≡ run_list q.size calls (contents junk q)
unfolding run run_list bind
run-list junk [] q valid = refl
run-list junk (send v ∷ calls) q valid = elim (Bool-cases (q.items == q.size)) [
  | inl full ↦
      ap (Option.map (seen junk)) (blocked_send junk v calls q (ground (arith, full)))
      ∙ sym (
          list_full q.size v calls (contents junk q)
            (ap (λ n. n == q.size) (items_of junk q) ∙ full))
  | inr room ↦
      let (valid', last) = put_appends junk v q valid (ground (arith, room, valid.items_size)) in
      ap (Option.map (seen junk))
        (run_send junk v calls q (put junk v q) queue_ok (send_now junk v q room))
      ∙ run-list junk calls (put junk v q) valid'
      ∙ ap₂ (λ n l. run_list n calls l) (put-size junk v q) last
      ∙ sym (
          list_send q.size v calls (contents junk q)
            (ap (λ n. n == q.size) (items_of junk q) ∙ room))
]
run-list junk (receive ∷ calls) q valid = elim (Bool-cases (q.items == 0)) [
  | inl empty ↦
      let nothing : q.items ≡ 0 = ground (arith, empty) in
      ap (Option.map (seen junk)) (blocked_receive junk calls q nothing)
      ∙ ap (run_list q.size (receive ∷ calls)) (sym (contents_nil junk q nothing))
  | inr some_items ↦
      let (valid', first) = take_first junk q valid (ground (arith, some_items)) in
      let x = (take junk q).0 in
      let q' = (take junk q).1 in
      ap (Option.map (seen junk))
        (run_receive junk x calls q q' queue_ok (receive_now junk q some_items))
      ∙ seen-cons junk x (run junk calls q')
      ∙ ap (λ o. bind o (λ (xs, items). some (x ∷ xs, items)))
          (run-list junk calls q' valid'
            ∙ ap (λ n. run_list n calls (contents junk q')) (take-size junk q))
      ∙ ap (run_list q.size (receive ∷ calls)) (sym first)
]

-- From a new queue of at least one place, any sends and receives in any order: they give the values,
-- and leave the items, that they give and leave on a list that takes at its end and gives from its
-- front, and a call would wait exactly where that list is full or empty.
pub first_in_first_out :
    {A : Type 0} (junk : A) (n : ℕ) (calls : List (Call A))
    → 0 < n
    → Option.map (seen junk) (run junk calls (os_pthread_queue_create junk n)) ≡ run_list n calls []
unfolding os_pthread_queue_create
first_in_first_out junk n calls pos =
    run-list junk calls (os_pthread_queue_create junk n) (create-IsValid junk n pos)
