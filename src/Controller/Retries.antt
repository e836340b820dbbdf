-- ===== src/Controller/Retries.antt =====
-- Retries are bounded, and every item leaves the queue.
use naavik.Common.{
  ℕ, zero, suc, ◌+◌, ◌≤◌, ◌<◌, Bool, true, not, List, [], ◌∷◌, ◌++◌, some, ◌≡◌, refl, arith, ◌||◌,
  if◌then◌else◌, All, ltb, leb, nat_eq, Bool-cases, inl, inr,
}
use naavik.Controller.Status.{
  EventProcessStatus, new_event_process_status, with_retry, with_max_retry,
}
use naavik.Controller.Loop.{
  Item, Effect, Trace, is_create_child, is_skip, handle_event, handle_status, adds, callbacks,
  process,
}

module _ {Callback : Type 0} where
  -- One status asks for no more than `m` retries.
  abbrev pub AtMost : ℕ → EventProcessStatus Callback → Type 0
  AtMost m eps = eps.max_retry_count ≤ m

  -- Whether a status is reported: it is neither a child's creation nor a skip.
  abbrev pub is_reported : EventProcessStatus Callback → Bool
  is_reported eps = not (is_create_child eps.status || is_skip eps.status)

  abbrev pub count_reported : List (EventProcessStatus Callback) → ℕ
  count_reported [] = 0
  count_reported (eps ∷ sent) = (if is_reported eps then 1 else 0) + count_reported sent

  -- The status of a handler that asks for another try, up to `m` of them.
  abbrev pub again : ℕ → EventProcessStatus Callback
  again m = with_retry (with_max_retry new_event_process_status m)

module _ {Callback Obj : Type 0} where
  adds-append : (e f : Trace Callback Obj) → adds (e ++ f) ≡ adds e + adds f
  adds-append [] f = omega arith
  adds-append (Effect.queue_add after ∷ e) f = ground (arith, adds-append e f)
  adds-append (Effect.on_status callback eps ∷ e) f = adds-append e f
  adds-append (Effect.start_child child ∷ e) f = adds-append e f

  callbacks-append : (e f : Trace Callback Obj) → callbacks (e ++ f) ≡ callbacks e + callbacks f
  callbacks-append [] f = omega arith
  callbacks-append (Effect.on_status callback eps ∷ e) f = ground (arith, callbacks-append e f)
  callbacks-append (Effect.queue_add after ∷ e) f = callbacks-append e f
  callbacks-append (Effect.start_child child ∷ e) f = callbacks-append e f

  handle_event-counts :
      (item : Item Callback Obj) (eps : EventProcessStatus Callback)
      → (handle_event item eps).0.retry_count ≡ item.retry_count + adds (handle_event item eps).1
  unfolding handle_event
  handle_event-counts item eps = ground arith

  handle_event-bound :
      (m : ℕ) (item : Item Callback Obj) (eps : EventProcessStatus Callback)
      → eps.max_retry_count ≤ m
      → item.retry_count ≤ m
      → (handle_event item eps).0.retry_count ≤ m
  unfolding handle_event
  handle_event-bound m item eps h k = ground arith

  -- The retry count of an item grows by one for each time that the item is added to the queue.
  pub retry_count-handle_status :
      (item : Item Callback Obj) (sent : List (EventProcessStatus Callback))
      → (handle_status item sent).0.retry_count
        ≡ item.retry_count + adds (handle_status item sent).1
  unfolding handle_status
  retry_count-handle_status item [] = omega arith
  retry_count-handle_status item (eps ∷ sent) =
      let (next, effects) = handle_event item eps in
      ground (
        arith,
        handle_event-counts item eps,
        retry_count-handle_status next sent,
        adds-append effects (handle_status next sent).1,
      )

  -- Where every status allows at most `m` retries, an item whose retry count is at most `m` keeps
  -- it so, whatever the statuses that its handler sends.
  pub handle_status-bound :
      (m : ℕ) (item : Item Callback Obj) (sent : List (EventProcessStatus Callback))
      → All (AtMost m) sent
      → item.retry_count ≤ m
      → (handle_status item sent).0.retry_count ≤ m
  unfolding handle_status
  handle_status-bound m item [] h k = k
  handle_status-bound m item (eps ∷ sent) (h, hs) k =
      handle_status-bound m (handle_event item eps).0 sent hs (handle_event-bound m item eps h k)

  handle_event-callbacks :
      (item : Item Callback Obj) (eps : EventProcessStatus Callback)
      → callbacks (handle_event item eps).1 ≡ (if is_reported eps then 1 else 0)
  unfolding handle_event
  handle_event-callbacks item eps = ground arith

  -- The status callback runs exactly once for each status that is neither a child's creation nor a
  -- skip, retried or not.
  pub callbacks-handle_status :
      (item : Item Callback Obj) (sent : List (EventProcessStatus Callback))
      → callbacks (handle_status item sent).1 ≡ count_reported sent
  unfolding handle_status
  callbacks-handle_status item [] = refl
  callbacks-handle_status item (eps ∷ sent) =
      let (next, effects) = handle_event item eps in
      ground (
        arith,
        handle_event-callbacks item eps,
        callbacks-handle_status next sent,
        callbacks-append effects (handle_status next sent).1,
      )

  -- For any handler whose statuses allow at most `m` retries, an item whose retry count is at most
  -- `m` leaves the queue after at most `m` + 1 rounds less its retry count, given that much fuel.
  pub process-terminates :
      (m fuel : ℕ) (handler : Item Callback Obj → List (EventProcessStatus Callback))
      (item : Item Callback Obj)
      → ((i : Item Callback Obj) → All (AtMost m) (handler i))
      → item.retry_count ≤ m
      → m < fuel + item.retry_count
      → (rounds : ℕ) × (process fuel handler item ≡ some rounds)
        × (rounds + item.retry_count ≤ suc m)
  unfolding process
  process-terminates m zero handler item h k enough = absurd (omega arith)
  process-terminates m (suc fuel) handler item h k enough =
      let next = (handle_status item (handler item)).0 in
      let counted = retry_count-handle_status item (handler item) in
      let bound = handle_status-bound m item (handler item) (h item) k in
      elim (Bool-cases (nat_eq (adds (handle_status item (handler item)).1) 0)) [
        | inl e ↦ (1, rw e refl, ground arith)
        | inr e ↦
            let more : m < fuel + next.retry_count = ground arith in
            let (rounds, same, few) = process-terminates m fuel handler next h bound more in
            (suc rounds, rw (e, same) refl, ground arith)
      ]

  -- An item whose handler asks for a retry each time runs exactly once and `m` times more, less the
  -- retries that it had.
  pub process_always_retrying :
      (m fuel : ℕ) (item : Item Callback Obj)
      → item.retry_count ≤ m
      → m < fuel + item.retry_count
      → (rounds : ℕ) × (process fuel (λ i. again m ∷ []) item ≡ some rounds)
        × (rounds + item.retry_count ≡ suc m)
  unfolding process handle_status handle_event with_retry with_max_retry new_event_process_status
  process_always_retrying m zero item k enough = absurd (omega arith)
  process_always_retrying m (suc fuel) item k enough = elim (Bool-cases (ltb item.retry_count m)) [
    | inl e ↦
        let next = record item { retry_count = suc item.retry_count } in
        let (rounds, same, exact) =
          process_always_retrying m fuel next (ground arith) (omega arith) in
        (suc rounds, rw (e, same) refl, omega arith)
    | inr e ↦
        let last : leb m item.retry_count ≡ true = ground arith in
        (1, rw (e, last) refl, ground arith)
  ]
