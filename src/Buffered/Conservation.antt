-- ===== src/Buffered/Conservation.antt =====
-- What becomes of the telegrams of a flush: written, back in the buffer, or refused in this flush.
use mathlib.Core.Path.{subst}
use knx_telegram_store.Prelude.{
  suc, ◌+◌, ◌≤◌, Bool, true, false, not, List, [], ◌∷◌, ◌++◌, ◌≡◌, refl, sym, ◌⊎◌, inl, inr, arith,
  if◌then◌else◌, In, In-append, length, is_nonempty,
}
use knx_telegram_store.Exceptions.{PyException, Result, ok, raise}
use knx_telegram_store.Model.{StoredTelegram}
use knx_telegram_store.Store.{wrap_store_errors, wrap-raise}
use knx_telegram_store.Buffered.Backend.{Backend, Buffered}
use knx_telegram_store.Buffered.Buffer.{requeue, Arrival}
use knx_telegram_store.Buffered.Flush.{
  super_call, write, one_by_one, after_one, after_batch, drain_buffer, flush_locked, first_arrivals,
  later_arrivals, is_hopeless, raise_or_log,
}
use knx_telegram_store.Buffered.Dropped.{
  dropped_after, dropped_behind, dropped_one_by_one, dropped_by_drain, dropped,
}
use knx_telegram_store.Buffered.Growth.{
  Grown, Grown-arrive_all, requeue-buffer, requeue-backing, count_arrivals, first-later_arrivals,
}

-- What the flush relies on: when a state of the backing store holds a list of telegrams, that a batch
-- that it accepts is held behind those before, and that a batch that it refuses changes nothing.
pub record Journal (bk : Backend) : Type 1 where
  pub Holds : bk.State → List StoredTelegram → Type 0
  pub accepted :
      (ts us : List StoredTelegram) (s : bk.State)
      → Holds s us
      → (bk.store_many ts s).0 ≡ ok tt
      → Holds (bk.store_many ts s).1 (us ++ ts)
  pub refused :
      (ts us : List StoredTelegram) (s : bk.State) (e : PyException)
      → Holds s us
      → (bk.store_many ts s).0 ≡ raise e
      → Holds (bk.store_many ts s).1 us

-- Two values chosen by one test.
if_ind_two :
    {A B : Type 0} (P : A → B → Type 0) (c : Bool) {a x : A} {b y : B}
    → (c ≡ true → P a b)
    → (c ≡ false → P x y)
    → P (if c then a else x) (if c then b else y)
if_ind_two P true f g = f refl
if_ind_two P false f g = g refl

module _ (bk : Backend) (j : Journal bk) where
  open bk use {State}

  -- A telegram is among those that the backing store holds, in the buffer, or among some others.
  abbrev pub Kept :
      List StoredTelegram → Buffered State → List StoredTelegram → StoredTelegram → Type 0
  Kept us b others u = In u us ⊎ (In u b.buffer ⊎ In u others)

  -- How a part of a flush ends that began with `ts` to write and has dropped `ds`: the backing store
  -- holds some telegrams again, and none is missing.
  abbrev Ends :
      List StoredTelegram
      → Buffered State
      → List StoredTelegram
      → List StoredTelegram
      → Result (Unit {0}) × Buffered State
      → Type 0
  Ends us b ts ds r =
      (vs : List StoredTelegram) × j.Holds r.1.backing vs
      × ((u : StoredTelegram) → Kept us b ts u → Kept vs r.1 ds u)

  Ends-from :
      (us ts ds vs qs : List StoredTelegram) (b c : Buffered State)
      (r : Result (Unit {0}) × Buffered State)
      → ((u : StoredTelegram) → Kept us b ts u → Kept vs c qs u)
      → Ends vs c qs ds r
      → Ends us b ts ds r
  Ends-from us ts ds vs qs b c r f (ws, h, k) = (ws, h, λ u i. k u (f u i))

  -- A write and what arrives meanwhile, with the room for it.
  module _ (ts : List StoredTelegram) (arrivals : List Arrival) (b : Buffered State)
      (room : length b.buffer + length arrivals ≤ b.max_buffer_size) where
    abbrev written : Buffered State
    written = (write bk ts arrivals b).1

    Grown-write :
        Grown (length arrivals) (record b { backing = (bk.store_many ts b.backing).1 }) written
    unfolding write super_call
    Grown-write =
        Grown-arrive_all (record b { backing = (bk.store_many ts b.backing).1 }) arrivals room

    written-Holds :
        (us : List StoredTelegram)
        → j.Holds (bk.store_many ts b.backing).1 us
        → j.Holds written.backing us
    written-Holds us h = subst (λ s. j.Holds s us) (sym Grown-write.backing) h

    -- What was kept before a write that is refused is kept behind it.
    written-Kept :
        (us qs : List StoredTelegram) (u : StoredTelegram) → Kept us b qs u → Kept us written qs u
    written-Kept us qs u (inl i) = inl i
    written-Kept us qs u (inr (inl i)) = inr (inl (Grown-write.kept u i))
    written-Kept us qs u (inr (inr i)) = inr (inr i)

    -- Behind a write that is accepted, the backing store has its telegrams too.
    written-Kept_more :
        (us ps qs : List StoredTelegram) (u : StoredTelegram)
        → (In u ps → In u ts ⊎ In u qs)
        → Kept us b ps u
        → Kept (us ++ ts) written qs u
    written-Kept_more us ps qs u f (inl i) = inl ((In-append u us ts).1 (inl i))
    written-Kept_more us ps qs u f (inr (inl i)) = inr (inl (Grown-write.kept u i))
    written-Kept_more us ps qs u f (inr (inr i)) = elim (f i) [
      | inl k ↦ inl ((In-append u us ts).1 (inr k))
      | inr k ↦ inr (inr k)
    ]

  requeue-Kept :
      (us ts : List StoredTelegram) (b : Buffered State)
      → length ts + length b.buffer ≤ b.max_buffer_size
      → (u : StoredTelegram) → Kept us b ts u
      → Kept us (requeue ts b) [] u
  requeue-Kept us ts b room u (inl i) = inl i
  requeue-Kept us ts b room u (inr h) = inr (
      inl (subst (In u) (sym (requeue-buffer ts b room)) ((In-append u ts b.buffer).1 (swapped h))))
    where
      swapped : In u b.buffer ⊎ In u ts → In u ts ⊎ In u b.buffer
      swapped (inl i) = inr i
      swapped (inr i) = inl i

  requeue-Ends :
      (us ts : List StoredTelegram) (b : Buffered State) (r : Result (Unit {0}))
      → length ts + length b.buffer ≤ b.max_buffer_size
      → j.Holds b.backing us
      → Ends us b ts [] (r, requeue ts b)
  requeue-Ends us ts b r room h =
      (us, subst (λ s. j.Holds s us) (sym (requeue-backing ts b)) h, requeue-Kept us ts b room)

  -- A dropped telegram is among the dropped.
  dropped-Ends :
      (us ts ds : List StoredTelegram) (t : StoredTelegram) (b : Buffered State)
      (r : Result (Unit {0}) × Buffered State)
      → Ends us b ts ds r
      → Ends us b (t ∷ ts) (t ∷ ds) r
  dropped-Ends us ts ds t b r (vs, h, k) = (vs, h, later)
    where
      one_more : (u : StoredTelegram) → Kept vs r.1 ds u → Kept vs r.1 (t ∷ ds) u
      one_more u (inl i) = inl i
      one_more u (inr (inl i)) = inr (inl i)
      one_more u (inr (inr i)) = inr (inr (inr i))

      later : (u : StoredTelegram) → Kept us b (t ∷ ts) u → Kept vs r.1 (t ∷ ds) u
      later u (inl i) = one_more u (k u (inl i))
      later u (inr (inl i)) = one_more u (k u (inr (inl i)))
      later u (inr (inr (inl same))) = inr (inr (inl same))
      later u (inr (inr (inr i))) = one_more u (k u (inr (inr i)))

  -- One round of the loop, by the result of its write.
  after_one-Ends :
      (raise_on_error : Bool) (t : StoredTelegram) (us ts ds : List StoredTelegram)
      (arrivals : List Arrival) (b : Buffered State) (rest : Result (Unit {0}) × Buffered State)
      → suc (length ts) + length b.buffer + length arrivals ≤ b.max_buffer_size
      → j.Holds b.backing us
      → ((vs : List StoredTelegram)
          → j.Holds (write bk (t ∷ []) arrivals b).1.backing vs
          → Ends vs (write bk (t ∷ []) arrivals b).1 ts ds rest)
      → (r : Result (Unit {0})) → (bk.store_many (t ∷ []) b.backing).0 ≡ r
      → Ends us b (t ∷ ts) (dropped_after t (wrap_store_errors r) ds) (
          after_one bk raise_on_error
            (t ∷ ts)
            (wrap_store_errors r)
            (write bk (t ∷ []) arrivals b).1
            rest)
  unfolding after_one wrap_store_errors
  after_one-Ends roe t us ts ds arrivals b rest room h k (ok _) eq =
      let fits : length b.buffer + length arrivals ≤ b.max_buffer_size = omega arith in
      Ends-from us (t ∷ ts) ds (us ++ t ∷ []) ts b (write bk (t ∷ []) arrivals b).1 rest
        (λ u. written-Kept_more (t ∷ []) arrivals b fits us (t ∷ ts) ts u (first u))
        (k (us ++ t ∷ []) (
          written-Holds (t ∷ []) arrivals b fits (us ++ t ∷ [])
            (j.accepted (t ∷ []) us b.backing h eq)))
    where
      first : (u : StoredTelegram) → In u (t ∷ ts) → In u (t ∷ []) ⊎ In u ts
      first u (inl same) = inl (inl same)
      first u (inr i) = inr i
  after_one-Ends roe t us ts ds arrivals b rest room h k (raise e) eq =
      let (err, wrapped_eq) = wrap-raise {A = Unit} e in
      let fits : length b.buffer + length arrivals ≤ b.max_buffer_size = omega arith in
      let b' = (write bk (t ∷ []) arrivals b).1 in
      let g = Grown-write (t ∷ []) arrivals b fits in
      let held =
        written-Holds (t ∷ []) arrivals b fits us (j.refused (t ∷ []) us b.backing e h eq) in
      Ends-from us (t ∷ ts) (dropped_after t (wrap_store_errors (raise e)) ds) us (t ∷ ts) b b'
        (after_one bk roe (t ∷ ts) (wrap_store_errors (raise e)) b' rest)
        (written-Kept (t ∷ []) arrivals b fits us (t ∷ ts))
        (subst
          (λ (r : Result (Unit {0})).
            Ends us b' (t ∷ ts) (dropped_after t r ds) (after_one bk roe (t ∷ ts) r b' rest))
          (sym wrapped_eq)
          (if_ind_two (Ends us b' (t ∷ ts)) (is_hopeless err)
            (λ _. dropped-Ends us ts ds t b' rest (k us held))
            (λ _.
              requeue-Ends us (t ∷ ts) b' (raise_or_log roe err) (omega (arith, g.fits, g.limit))
                held)))

  one_by_one-Ends :
      (raise_on_error : Bool) (us ts : List StoredTelegram) (arrivals : List (List Arrival))
      (b : Buffered State)
      → length ts + length b.buffer + count_arrivals arrivals ≤ b.max_buffer_size
      → j.Holds b.backing us
      → Ends us b ts
          (dropped_one_by_one bk ts arrivals b)
          (one_by_one bk raise_on_error ts arrivals b)
  unfolding one_by_one dropped_one_by_one
  one_by_one-Ends roe us [] arrivals b room h = (us, h, λ u i. i)
  one_by_one-Ends roe us (t ∷ ts) arrivals b room h =
      let a = first_arrivals arrivals in
      let count = first-later_arrivals arrivals in
      let g = Grown-write (t ∷ []) a b (omega (arith, count)) in
      let b' = (write bk (t ∷ []) a b).1 in
      let later = later_arrivals arrivals in
      after_one-Ends roe t us ts (dropped_one_by_one bk ts later b') a b
        (one_by_one bk roe ts later b') (omega (arith, count)) h
        (λ vs held. one_by_one-Ends roe vs ts later b' (omega (arith, count, g.fits, g.limit)) held)
        ((bk.store_many (t ∷ []) b.backing).0) refl

  -- How a flush goes on, by the result of the write of its batch.
  after_batch-Ends :
      (raise_on_error : Bool) (us ts ds : List StoredTelegram) (arrivals : List Arrival)
      (b : Buffered State) (retry : Result (Unit {0}) × Buffered State)
      → length ts + length b.buffer + length arrivals ≤ b.max_buffer_size
      → j.Holds b.backing us
      → (j.Holds (write bk ts arrivals b).1.backing us
          → Ends us (write bk ts arrivals b).1 ts ds retry)
      → (r : Result (Unit {0})) → (bk.store_many ts b.backing).0 ≡ r
      → Ends us b ts
          (dropped_behind (wrap_store_errors r) ds)
          (after_batch bk raise_on_error ts (wrap_store_errors r) (write bk ts arrivals b).1 retry)
  unfolding after_batch wrap_store_errors
  after_batch-Ends roe us ts ds arrivals b retry room h k (ok _) eq =
      let fits : length b.buffer + length arrivals ≤ b.max_buffer_size = omega arith in
      (
        us ++ ts,
        written-Holds ts arrivals b fits (us ++ ts) (j.accepted ts us b.backing h eq),
        λ u. written-Kept_more ts arrivals b fits us ts [] u (λ i. inl i),
      )
  after_batch-Ends roe us ts ds arrivals b retry room h k (raise e) eq =
      let (err, wrapped_eq) = wrap-raise {A = Unit} e in
      let fits : length b.buffer + length arrivals ≤ b.max_buffer_size = omega arith in
      let b' = (write bk ts arrivals b).1 in
      let g = Grown-write ts arrivals b fits in
      let held = written-Holds ts arrivals b fits us (j.refused ts us b.backing e h eq) in
      Ends-from us ts (dropped_behind (wrap_store_errors (raise e)) ds) us ts b b'
        (after_batch bk roe ts (wrap_store_errors (raise e)) b' retry)
        (written-Kept ts arrivals b fits us ts)
        (subst
          (λ (r : Result (Unit {0})).
            Ends us b' ts (dropped_behind r ds) (after_batch bk roe ts r b' retry))
          (sym wrapped_eq)
          (if_ind_two (Ends us b' ts) (is_hopeless err) (λ _. k held)
            (λ _.
              requeue-Ends us ts b' (raise_or_log roe err) (omega (arith, g.fits, g.limit)) held)))

  drain_buffer-Ends :
      (raise_on_error : Bool) (arrivals : List (List Arrival)) (us : List StoredTelegram)
      (b : Buffered State)
      → length b.buffer + count_arrivals arrivals ≤ b.max_buffer_size
      → j.Holds b.backing us
      → Ends us b [] (dropped_by_drain bk arrivals b) (drain_buffer bk raise_on_error arrivals b)
  unfolding drain_buffer dropped_by_drain
  drain_buffer-Ends roe arrivals us b room h =
      let a = first_arrivals arrivals in
      let count = first-later_arrivals arrivals in
      let emptied = record b { buffer = [] } in
      let g = Grown-write b.buffer a emptied (omega (arith, count)) in
      let b' = (write bk b.buffer a emptied).1 in
      let later = later_arrivals arrivals in
      Ends-from us [] (dropped_by_drain bk arrivals b) us b.buffer b emptied
        (drain_buffer bk roe arrivals b) taken
        (after_batch-Ends roe us b.buffer (dropped_one_by_one bk b.buffer later b') a emptied
          (one_by_one bk roe b.buffer later b') (omega (arith, count)) h
          (one_by_one-Ends roe us b.buffer later b' (omega (arith, count, g.fits, g.limit)))
          ((bk.store_many b.buffer b.backing).0) refl)
    where
      taken : (u : StoredTelegram) → Kept us b [] u → Kept us (record b { buffer = [] }) b.buffer u
      taken u (inl i) = inl i
      taken u (inr (inl i)) = inr (inr i)
      taken u (inr (inr nowhere)) = absurd nowhere

  -- A flush loses no telegram, however its writes end and whatever arrives meanwhile: the backing store
  -- holds some telegrams again, and each telegram that it or the buffer held before is among those, in
  -- the buffer, or among the telegrams that were written alone in this flush and refused with a data
  -- error. The conditions are that the backing store holds a batch that it accepts behind what it held,
  -- and what it held if it refuses the batch, and that the buffered telegrams and the arrivals together
  -- are within `max_buffer_size`, so that none is dropped by it.
  pub flush_locked-Kept :
      (raise_on_error : Bool) (arrivals : List (List Arrival)) (us : List StoredTelegram)
      (b : Buffered State)
      → length b.buffer + count_arrivals arrivals ≤ b.max_buffer_size
      → j.Holds b.backing us
      → (vs : List StoredTelegram) × j.Holds
          (flush_locked bk raise_on_error arrivals b).1.backing
          vs
        × ((u : StoredTelegram)
            → Kept us b [] u
            → Kept vs (flush_locked bk raise_on_error arrivals b).1 (dropped bk arrivals b) u)
  unfolding flush_locked dropped
  flush_locked-Kept roe arrivals us b room h =
      if_ind_two (Ends us b []) (not b.writes_allowed) (λ _. (us, h, λ u i. i))
        λ _.
          if_ind_two (Ends us b []) (not (is_nonempty b.buffer)) (λ _. (us, h, λ u i. i))
            λ _. drain_buffer-Ends roe arrivals us b room h
