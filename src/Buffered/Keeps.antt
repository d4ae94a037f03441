-- ===== src/Buffered/Keeps.antt =====
-- The bound on the buffer, and which steps of a call keep it.
use knx_telegram_store.Prelude.{
  ℕ, ◌≤◌, ◌<◌, Bool, true, not, List, [], ◌∷◌, ◌++◌, arith, ◌≡◌, refl, length, length-append, leb,
  ltb, if_ind, is_nonempty, leb→lt, ltb→le,
}
use knx_telegram_store.Prelude.Slices.{length-take_last}
use knx_telegram_store.Exceptions.{Result, ok, raise}
use knx_telegram_store.Model.{StoredTelegram}
use knx_telegram_store.Buffered.Backend.{Backend, Buffered, Action, ◌>>=◌, continue}
use knx_telegram_store.Buffered.Buffer.{
  pop_then_append, store_sync, requeue, from_end, Arrival, stored, close_called, arrive, arrive_all,
}
use knx_telegram_store.Buffered.Calls.{wrapped, mutation}
use knx_telegram_store.Buffered.Flush.{
  super_call, write, one_by_one, after_one, after_batch, drain_buffer, flush_locked, first_arrivals,
  later_arrivals, is_hopeless,
}

pub record IsBounded {S : Type 0} (n : ℕ) (b : Buffered S) : Type 0 where
  pub limit : b.max_buffer_size ≡ n
  pub fits : length b.buffer ≤ n

from_end-fits : (xs : List StoredTelegram) (m n : ℕ) → 0 < n → m ≡ n → length (from_end m xs) ≤ n
from_end-fits xs m n room e = ground (arith, length-take_last m xs)

module _ {S : Type 0} (n : ℕ) (room : 0 < n) where
  pop_then_append-IsBounded :
      (t : StoredTelegram) (xs : List StoredTelegram) (b : Buffered S)
      → b.max_buffer_size ≡ n
      → b.buffer ≡ xs
      → length xs ≤ n
      → IsBounded n (pop_then_append t xs b).1
  unfolding pop_then_append
  pop_then_append-IsBounded t [] b e f h = record { limit = e; fits = rw f h }
  pop_then_append-IsBounded t (x ∷ xs) b e f h = record {
    limit = e;
    fits = omega (arith, length-append xs (t ∷ []));
  }

  pub store_sync-IsBounded :
      (t : StoredTelegram) (b : Buffered S) → IsBounded n b → IsBounded n (store_sync t b).1
  unfolding store_sync
  store_sync-IsBounded t b h =
      let good = λ (r : Result (Unit {0}) × Buffered S). IsBounded n r.1 in
      if_ind good b.closing (λ _. h)
        λ opened.
          if_ind good (leb b.max_buffer_size (length b.buffer))
            (λ full.
              pop_then_append-IsBounded t b.buffer (record b { buffer_full_warned = true }) h.limit
                refl h.fits)
            (λ free. record {
              limit = h.limit;
              fits = omega (arith, length-append b.buffer (t ∷ []), leb→lt _ _ free, h.limit);
            })

  arrive_all-IsBounded :
      (b : Buffered S) (rest : List Arrival) → IsBounded n b → IsBounded n (arrive_all b rest)
  unfolding arrive_all
  arrive_all-IsBounded b [] h = h
  arrive_all-IsBounded b (stored t ∷ rest) h =
      arrive_all-IsBounded (arrive b (stored t)) rest (store_sync-IsBounded t b h)
  arrive_all-IsBounded b (close_called ∷ rest) h =
      arrive_all-IsBounded (arrive b close_called) rest (record { limit = h.limit; fits = h.fits })

  requeue-IsBounded :
      (ts : List StoredTelegram) (b : Buffered S)
      → b.max_buffer_size ≡ n
      → IsBounded n (requeue ts b)
  unfolding requeue
  requeue-IsBounded ts b e =
      let joined = ts ++ b.buffer in
      if_ind (IsBounded n) (ltb b.max_buffer_size (length joined))
        (λ over. record { limit = e; fits = from_end-fits joined b.max_buffer_size n room e })
        (λ under. record { limit = e; fits = omega (arith, ltb→le _ _ under) })

module _ (bk : Backend) (n : ℕ) (room : 0 < n) where
  open bk use {State}

  -- The action keeps the bound, whether it returns or raises.
  pub record Keeps {A : Type 0} (m : Action (Buffered State) A) : Type 0 where
    pub at : (b : Buffered State) → IsBounded n b → IsBounded n (m b).1

  continue-IsBounded :
      {A B : Type 0} (r : Result A) (f : A → Action (Buffered State) B) (b : Buffered State)
      → ((a : A) → Keeps (f a))
      → IsBounded n b
      → IsBounded n (continue r f b).1
  continue-IsBounded (ok a) f b kf h = (kf a).at b h
  continue-IsBounded (raise e) f b kf h = h

  pub Keeps-bind :
      {A B : Type 0} (m : Action (Buffered State) A) (f : A → Action (Buffered State) B)
      → Keeps m
      → ((a : A) → Keeps (f a))
      → Keeps (m >>= f)
  Keeps-bind m f km kf = record { at = λ b h. continue-IsBounded (m b).0 f (m b).1 kf (km.at b h) }

  pub Keeps-wrapped : {A : Type 0} (m : Action (Buffered State) A) → Keeps m → Keeps (wrapped m)
  Keeps-wrapped m k = record { at = λ b h. k.at b h }

  pub Keeps-mutation : {A : Type 0} (m : Action (Buffered State) A) → Keeps m → Keeps (mutation m)
  Keeps-mutation m k = record {
    at = λ b h.
        if_ind (λ (r : Result _ × Buffered State). IsBounded n r.1) b.closing (λ _. h)
          (λ _. k.at b h);
  }

  pub Keeps-super_call :
      {A : Type 0} (m : Action State A) (waiting : List Arrival) → Keeps (super_call bk m waiting)
  unfolding super_call
  Keeps-super_call m waiting = record {
    at = λ b h.
        arrive_all-IsBounded n room (record b { backing = (m b.backing).1 }) waiting
          (record { limit = h.limit; fits = h.fits });
  }

  Keeps-write : (ts : List StoredTelegram) (waiting : List Arrival) → Keeps (write bk ts waiting)
  unfolding write
  Keeps-write ts waiting = record {
    at = λ b h. (Keeps-super_call (bk.store_many ts) waiting).at b h;
  }

  after_one-IsBounded :
      (raises : Bool) (ts : List StoredTelegram) (r : Result (Unit {0})) (b : Buffered State)
      (rest : Result (Unit {0}) × Buffered State)
      → IsBounded n b
      → IsBounded n rest.1
      → IsBounded n (after_one bk raises ts r b rest).1
  unfolding after_one
  after_one-IsBounded raises ts (ok u) b rest h k = k
  after_one-IsBounded raises ts (raise err) b rest h k =
      if_ind (λ (c : Result (Unit {0}) × Buffered State). IsBounded n c.1) (is_hopeless err)
        (λ _. k) (λ _. requeue-IsBounded n room ts b h.limit)

  after_batch-IsBounded :
      (raises : Bool) (ts : List StoredTelegram) (r : Result (Unit {0})) (b : Buffered State)
      (retry : Result (Unit {0}) × Buffered State)
      → IsBounded n b
      → IsBounded n retry.1
      → IsBounded n (after_batch bk raises ts r b retry).1
  unfolding after_batch
  after_batch-IsBounded raises ts (ok u) b retry h k = record { limit = h.limit; fits = h.fits }
  after_batch-IsBounded raises ts (raise err) b retry h k =
      if_ind (λ (c : Result (Unit {0}) × Buffered State). IsBounded n c.1) (is_hopeless err)
        (λ _. k) (λ _. requeue-IsBounded n room ts b h.limit)

  one_by_one-IsBounded :
      (raises : Bool) (ts : List StoredTelegram) (arrivals : List (List Arrival))
      (b : Buffered State)
      → IsBounded n b
      → IsBounded n (one_by_one bk raises ts arrivals b).1
  unfolding one_by_one
  one_by_one-IsBounded raises [] arrivals b h = record { limit = h.limit; fits = h.fits }
  one_by_one-IsBounded raises (t ∷ ts) arrivals b h =
      let kept = (Keeps-write (t ∷ []) (first_arrivals arrivals)).at b h in
      let w = write bk (t ∷ []) (first_arrivals arrivals) b in
      let rest = one_by_one bk raises ts (later_arrivals arrivals) w.1 in
      after_one-IsBounded raises (t ∷ ts) w.0 w.1 rest kept
        (one_by_one-IsBounded raises ts (later_arrivals arrivals) w.1 kept)

  drain_buffer-IsBounded :
      (raises : Bool) (arrivals : List (List Arrival)) (b : Buffered State)
      → IsBounded n b
      → IsBounded n (drain_buffer bk raises arrivals b).1
  unfolding drain_buffer
  drain_buffer-IsBounded raises arrivals b h =
      let emptied : IsBounded n (record b { buffer = [] }) = record {
        limit = h.limit;
        fits = omega arith;
      } in
      let kept =
        (Keeps-write b.buffer (first_arrivals arrivals)).at (record b { buffer = [] }) emptied in
      let w = write bk b.buffer (first_arrivals arrivals) (record b { buffer = [] }) in
      let retry = one_by_one bk raises b.buffer (later_arrivals arrivals) w.1 in
      after_batch-IsBounded raises b.buffer w.0 w.1 retry kept
        (one_by_one-IsBounded raises b.buffer (later_arrivals arrivals) w.1 kept)

  pub Keeps-flush_locked :
      (raises : Bool) (arrivals : List (List Arrival)) → Keeps (flush_locked bk raises arrivals)
  unfolding flush_locked
  Keeps-flush_locked raises arrivals = record {
    at = λ b h.
        let good = λ (r : Result (Unit {0}) × Buffered State). IsBounded n r.1 in
        if_ind good (not b.writes_allowed) (λ _. h)
          λ _.
            if_ind good (not (is_nonempty b.buffer)) (λ _. h)
              λ _. drain_buffer-IsBounded raises arrivals b h;
  }
