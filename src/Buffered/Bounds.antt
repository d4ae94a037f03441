-- ===== src/Buffered/Bounds.antt =====
-- The buffer never outgrows `max_buffer_size`, whatever is called.
use knx_telegram_store.Prelude.{
  ℕ, ◌<◌, Bool, true, false, ◌||◌, List, [], ◌∷◌, Option, none, some, arith, leb, if_ind,
}
use knx_telegram_store.Prelude.Keep.{length-keep-le}
use knx_telegram_store.Exceptions.{Result, ok}
use knx_telegram_store.Model.{Time, StoredTelegram}
use knx_telegram_store.Buffered.Backend.{Backend, Buffered, Action, ◌>>◌}
use knx_telegram_store.Buffered.Buffer.{Arrival}
use knx_telegram_store.Buffered.Calls.{
  wrapped, mutation, write_gate, set_initialized, set_closing, cancel_flush_task, hold_writes,
  read_backing,
}
use knx_telegram_store.Buffered.Calls
use knx_telegram_store.Buffered.Traffic.{
  Call, store_call, store_sync_call, start_call, initialize_call, store_many_call, flush_call,
  flush_tick_call, query_call, get_last_unique_call, get_stats_call, optimize_call,
  begin_backup_call, end_backup_call, close_call, evict_older_than_call, evict_expired_call,
  clear_call, settle, perform, perform_all,
}
use knx_telegram_store.Buffered.Flush.{super_call}
use knx_telegram_store.Buffered.Keeps.{
  IsBounded, Keeps, Keeps-bind, Keeps-wrapped, Keeps-mutation, Keeps-super_call, Keeps-flush_locked,
  store_sync-IsBounded,
}

module _ (bk : Backend) (n : ℕ) (room : 0 < n) where
  open bk use {State}

  abbrev Good : {A : Type 0} → Result A × Buffered State → Type 0
  Good r = IsBounded n r.1

  -- A call behind the gate, whether it runs or waits.
  Keeps-gate :
      {A : Type 0} (m : Action (Buffered State) A) (b : Buffered State)
      → Keeps bk n room m
      → IsBounded n b
      → IsBounded n (settle b (write_gate m b))
  Keeps-gate m b k h =
      if_ind (λ (o : Option (Result _ × Buffered State)). IsBounded n (settle b o)) b.writes_allowed
        (λ _. (Keeps-mutation bk n room m k).at b h) (λ _. h)

  Keeps-flush : (arrivals : List (List Arrival)) → Keeps bk n room (Calls.flush bk arrivals)
  unfolding Calls.flush
  Keeps-flush arrivals = record {
    at = λ b h. (Keeps-mutation bk n room _ (Keeps-flush_locked bk n room true arrivals)).at b h;
  }

  -- A change of the flags alone.
  Keeps-flags :
      (f : Buffered State → Buffered State)
      → ((b : Buffered State) → IsBounded n b → IsBounded n (f b))
      → Keeps bk n room (λ b. (ok tt, f b))
  Keeps-flags f k = record { at = k }

  Keeps-end_backup : (waiting : List Arrival) → Keeps bk n room (Calls.end_backup bk waiting)
  unfolding Calls.end_backup
  Keeps-end_backup waiting = record {
    at = λ b h.
        if_ind (λ (r : Result (Unit {0}) × Buffered State). IsBounded n r.1) b.writes_allowed
          (λ _. h)
          λ _.
            let k = (Keeps-super_call bk n room bk.end_backup waiting).at b h in
            record { limit = k.limit; fits = k.fits };
  }

  Keeps-seq :
      {A B : Type 0} (m : Action (Buffered State) A) (k : Action (Buffered State) B)
      → Keeps bk n room m
      → Keeps bk n room k
      → Keeps bk n room (m >> k)
  Keeps-seq m k km kk = Keeps-bind bk n room m (λ _. k) km (λ _. kk)

  Keeps-set_initialized : Keeps bk n room set_initialized
  unfolding set_initialized
  Keeps-set_initialized = record { at = λ b h. record { limit = h.limit; fits = h.fits } }

  Keeps-set_closing : Keeps bk n room set_closing
  unfolding set_closing
  Keeps-set_closing = record { at = λ b h. record { limit = h.limit; fits = h.fits } }

  Keeps-cancel_flush_task : Keeps bk n room cancel_flush_task
  unfolding cancel_flush_task
  Keeps-cancel_flush_task = record { at = λ b h. record { limit = h.limit; fits = h.fits } }

  Keeps-hold_writes : Keeps bk n room hold_writes
  unfolding hold_writes
  Keeps-hold_writes = record { at = λ b h. record { limit = h.limit; fits = h.fits } }

  Keeps-read_backing : {A : Type 0} (read : State → Result A) → Keeps bk n room (read_backing read)
  unfolding read_backing
  Keeps-read_backing read = record { at = λ b h. h }

  Keeps-evict_buffered :
      (cutoff : Time) (dry_run : Bool) (deleted : ℕ)
      → Keeps bk n room (Calls.evict_buffered bk cutoff dry_run deleted)
  unfolding Calls.evict_buffered
  Keeps-evict_buffered cutoff dry_run deleted = record {
    at = λ b h.
        if_ind (IsBounded n) dry_run (λ _. h)
          λ _. record {
            limit = h.limit;
            fits = omega (
              arith,
              length-keep-le (λ (t : StoredTelegram). leb cutoff t.timestamp) b.buffer,
              h.fits,
            );
          };
  }

  Keeps-evict_locked :
      (cutoff : Time) (dry_run : Bool) (waiting : List Arrival)
      → Keeps bk n room (Calls.evict_locked bk cutoff dry_run waiting)
  unfolding Calls.evict_locked
  Keeps-evict_locked cutoff dry_run waiting =
      Keeps-bind bk n room (super_call bk (bk.evict_older_than cutoff dry_run) waiting)
        (Calls.evict_buffered bk cutoff dry_run)
        (Keeps-super_call bk n room (bk.evict_older_than cutoff dry_run) waiting)
        (Keeps-evict_buffered cutoff dry_run)

  Keeps-drain : (arrivals : List (List Arrival)) → Keeps bk n room (Calls.drain bk arrivals)
  unfolding Calls.drain
  Keeps-drain arrivals = record {
    at = λ b h.
        if_ind Good b.initialized (λ _. (Keeps-flush_locked bk n room true arrivals).at b h)
          (λ _. record { limit = h.limit; fits = omega arith });
  }

  Keeps-resume_if_held : (ending : List Arrival) → Keeps bk n room (Calls.resume_if_held bk ending)
  unfolding Calls.resume_if_held
  Keeps-resume_if_held ending = record {
    at = λ b h. if_ind Good b.writes_allowed (λ _. h) (λ _. (Keeps-end_backup ending).at b h);
  }

  Keeps-close :
      (ending : List Arrival) (arrivals : List (List Arrival)) (waiting : List Arrival)
      → Keeps bk n room (Calls.close bk ending arrivals waiting)
  unfolding Calls.close
  Keeps-close ending arrivals waiting = Keeps-wrapped bk n room _ (
      Keeps-seq _ _ Keeps-set_closing (
        Keeps-seq _ _ (Keeps-resume_if_held ending) (
          Keeps-seq _ _ Keeps-cancel_flush_task
            (Keeps-seq _ _ (Keeps-drain arrivals) (Keeps-super_call bk n room bk.close waiting)))))

  Keeps-initialize : (waiting : List Arrival) → Keeps bk n room (Calls.initialize bk waiting)
  unfolding Calls.initialize
  Keeps-initialize waiting =
      Keeps-wrapped bk n room _
        (Keeps-seq _ _ (Keeps-super_call bk n room bk.initialize waiting) Keeps-set_initialized)

  Keeps-flush_if :
      (first : Bool) (arrivals : List (List Arrival))
      → Keeps bk n room (Calls.flush_if bk first arrivals)
  unfolding Calls.flush_if
  Keeps-flush_if first arrivals = record {
    at = λ b h. if_ind Good first (λ _. (Keeps-flush arrivals).at b h) (λ _. h);
  }

  Keeps-hand_over :
      (arrivals : List (List Arrival)) (waiting : List Arrival)
      → Keeps bk n room (Calls.hand_over bk arrivals waiting)
  unfolding Calls.hand_over
  Keeps-hand_over arrivals waiting =
      Keeps-seq _ _ (Keeps-flush_locked bk n room true arrivals)
        (Keeps-seq _ _ (Keeps-super_call bk n room bk.begin_backup waiting) Keeps-hold_writes)

  Keeps-begin_backup :
      (arrivals : List (List Arrival)) (waiting : List Arrival)
      → Keeps bk n room (Calls.begin_backup bk arrivals waiting)
  unfolding Calls.begin_backup
  Keeps-begin_backup arrivals waiting = record {
    at = λ b h.
        if_ind Good b.closing (λ _. h)
          λ _.
            if_ind Good b.writes_allowed (λ _. (Keeps-hand_over arrivals waiting).at b h) (λ _. h);
  }

  Keeps-evict_shielded :
      (c : Bool) (cutoff : Time) (dry_run : Bool) (waiting : List Arrival)
      → Keeps bk n room (Calls.evict_shielded bk c cutoff dry_run waiting)
  unfolding Calls.evict_shielded
  Keeps-evict_shielded c cutoff dry_run waiting = record {
    at = λ b h. (Keeps-evict_locked cutoff dry_run waiting).at b h;
  }

  Keeps-expire :
      (cutoff : Option Time) (dry_run : Bool) (waiting : List Arrival)
      → Keeps bk n room (Calls.expire bk cutoff dry_run waiting)
  unfolding Calls.expire
  Keeps-expire none dry_run waiting = record { at = λ b h. h }
  Keeps-expire (some c) dry_run waiting = record {
    at = λ b h. (Keeps-evict_locked c dry_run waiting).at b h;
  }

  Keeps-clear_both : (waiting : List Arrival) → Keeps bk n room (Calls.clear_both bk waiting)
  unfolding Calls.clear_both
  Keeps-clear_both waiting = record {
    at = λ b h.
        (Keeps-super_call bk n room bk.clear waiting).at (record b { buffer = [] })
          (record { limit = h.limit; fits = omega arith });
  }

  -- One call of the class.
  perform-IsBounded : (b : Buffered State) (c : Call) → IsBounded n b → IsBounded n (perform bk b c)
  unfolding perform
  perform-IsBounded b (store_call t) h = store_sync-IsBounded n room t b h
  perform-IsBounded b (store_sync_call t) h = store_sync-IsBounded n room t b h
  perform-IsBounded b start_call h =
      if_ind (IsBounded n) (b.closing || b.flush_task) (λ _. h)
        (λ _. record { limit = h.limit; fits = h.fits })
  perform-IsBounded b (initialize_call w) h = (Keeps-initialize w).at b h
  perform-IsBounded b (store_many_call ts w) h =
      Keeps-gate _ b (Keeps-super_call bk n room (bk.store_many ts) w) h
  perform-IsBounded b (flush_call a) h = (Keeps-flush a).at b h
  perform-IsBounded b (flush_tick_call a) h =
      if_ind (IsBounded n) b.closing (λ _. h)
        (λ _. (Keeps-mutation bk n room _ (Keeps-flush_locked bk n room false a)).at b h)
  perform-IsBounded b (query_call q f a) h =
      (Keeps-seq _ _ (Keeps-flush_if f a) (Keeps-read_backing (bk.query q))).at b h
  perform-IsBounded b (get_last_unique_call a) h =
      (Keeps-seq _ _ (Keeps-flush a) (Keeps-read_backing bk.get_last_unique_telegrams)).at b h
  perform-IsBounded b (get_stats_call a) h =
      (Keeps-seq _ _ (Keeps-flush a) (Keeps-read_backing bk.get_stats)).at b h
  perform-IsBounded b (optimize_call a w) h =
      Keeps-gate _ b
        (Keeps-seq _ _ (Keeps-wrapped bk n room _ (Keeps-flush_locked bk n room true a))
          (Keeps-super_call bk n room bk.optimize w))
        h
  perform-IsBounded b (begin_backup_call a w) h = (Keeps-begin_backup a w).at b h
  perform-IsBounded b (end_backup_call w) h = (Keeps-end_backup w).at b h
  perform-IsBounded b (close_call e a w) h = (Keeps-close e a w).at b h
  perform-IsBounded b (evict_older_than_call c t d w) h =
      Keeps-gate _ b (Keeps-evict_shielded c t d w) h
  perform-IsBounded b (evict_expired_call t d w) h =
      Keeps-gate _ b (Keeps-expire (bk.retention_cutoff t b.backing) d w) h
  perform-IsBounded b (clear_call w) h = Keeps-gate _ b (Keeps-clear_both w) h

  -- The buffer never holds more than `max_buffer_size` telegrams, a positive limit that it obeyed at
  -- first: any calls of the class in any order, whatever the backing store answers and whatever
  -- telegrams and calls of `close` arrive during its answers, leave the limit as it is and obeyed.
  pub perform_all-IsBounded :
      (b : Buffered State) (cs : List Call) → IsBounded n b → IsBounded n (perform_all bk b cs)
  unfolding perform_all
  perform_all-IsBounded b [] h = h
  perform_all-IsBounded b (c ∷ cs) h =
      perform_all-IsBounded (perform bk b c) cs (perform-IsBounded b c h)
