-- ===== src/Buffered/Backup.antt =====
-- From `begin_backup` to `end_backup` nothing is written to the backing store.
use knx_telegram_store.Prelude.{
  Bool, true, false, not, List, [], ◌∷◌, none, ◌≡◌, refl, ap, ◌∙◌, if_ind, if_true, if_false, leb,
  length, All, ◌||◌,
}
use knx_telegram_store.Exceptions.{Result, ok, raise}
use knx_telegram_store.Model.{StoredTelegram}
use knx_telegram_store.Buffered.Backend.{Backend, Buffered, Action, ◌>>◌, continue}
use knx_telegram_store.Buffered.Buffer.{pop_then_append, store_sync, Arrival}
use knx_telegram_store.Buffered.Flush.{flush_locked, super_call}
use knx_telegram_store.Buffered.Calls
use knx_telegram_store.Buffered.Calls.{mutation, write_gate}
use knx_telegram_store.Buffered.Traffic.{
  Call, store_call, store_sync_call, start_call, initialize_call, store_many_call, flush_call,
  flush_tick_call, query_call, get_last_unique_call, get_stats_call, optimize_call,
  begin_backup_call, end_backup_call, close_call, evict_older_than_call, evict_expired_call,
  clear_call, settle, perform, perform_all,
}

-- The calls that a host makes of a store that it has set up: all but `initialize`, `end_backup` and
-- `close`, which may end a backup.
abbrev pub LeavesBackup : Call → Type 0
LeavesBackup (initialize_call w) = ⊥
LeavesBackup (end_backup_call w) = ⊥
LeavesBackup (close_call e a w) = ⊥
LeavesBackup _ = Unit

pub record SameBacking {S : Type 0} (b c : Buffered S) : Type 0 where
  pub backing : c.backing ≡ b.backing
  pub held : c.writes_allowed ≡ false

module _ {S : Type 0} (b : Buffered S) (e : b.writes_allowed ≡ false) where
  abbrev unmoved : SameBacking b b
  unmoved = record { backing = refl; held = e }

  pop_then_append-SameBacking :
      (t : StoredTelegram) (xs : List StoredTelegram) (c : Buffered S)
      → SameBacking b c
      → SameBacking b (pop_then_append t xs c).1
  unfolding pop_then_append
  pop_then_append-SameBacking t [] c h = h
  pop_then_append-SameBacking t (x ∷ xs) c h = record { backing = h.backing; held = h.held }

  store_sync-SameBacking : (t : StoredTelegram) → SameBacking b (store_sync t b).1
  unfolding store_sync
  store_sync-SameBacking t =
      let good = λ (r : Result (Unit {0}) × Buffered S). SameBacking b r.1 in
      if_ind good b.closing (λ _. unmoved)
        λ _.
          if_ind good (leb b.max_buffer_size (length b.buffer))
            (λ _.
              pop_then_append-SameBacking t b.buffer (record b { buffer_full_warned = true })
                (record { backing = refl; held = e }))
            (λ _. record { backing = refl; held = e })

  gate-held : {A : Type 0} (m : Action (Buffered S) A) → settle b (write_gate m b) ≡ b
  gate-held m = ap (settle b) (if_false b.writes_allowed _ none e)

  mutation-held : (m : Action (Buffered S) (Unit {0})) → (m b).1 ≡ b → (mutation m b).1 ≡ b
  mutation-held m h =
      if_ind (λ (r : Result (Unit {0}) × Buffered S). r.1 ≡ b) b.closing (λ _. refl) (λ _. h)

module _ (bk : Backend) (b : Buffered bk.State) (e : b.writes_allowed ≡ false) where
  open bk use {State}

  flush_locked-held : (raises : Bool) (a : List (List Arrival)) → (flush_locked bk raises a b).1 ≡ b
  unfolding flush_locked
  flush_locked-held raises a =
      ap (λ (r : Result (Unit {0}) × Buffered State). r.1)
        (if_true (not b.writes_allowed) _ _ (ap not e))

  flush-held : (a : List (List Arrival)) → (Calls.flush bk a b).1 ≡ b
  unfolding Calls.flush
  flush-held a = mutation-held b e (flush_locked bk true a) (flush_locked-held true a)

  -- What comes behind a flush and only reads.
  reading-held :
      {A : Type 0} (read : State → Result A) (r : Result (Unit {0})) (c : Buffered State)
      → c ≡ b
      → (continue r (λ _. Calls.read_backing read) c).1 ≡ b
  unfolding Calls.read_backing
  reading-held read (ok u) c h = h
  reading-held read (raise x) c h = h

  flush_if-held : (first : Bool) (a : List (List Arrival)) → (Calls.flush_if bk first a b).1 ≡ b
  unfolding Calls.flush_if
  flush_if-held first a =
      if_ind (λ (r : Result (Unit {0}) × Buffered State). r.1 ≡ b) first (λ _. flush-held a)
        (λ _. refl)

  from_equal : {c : Buffered State} → c ≡ b → SameBacking b c
  from_equal h = record {
    backing = ap (λ (x : Buffered State). x.backing) h;
    held = ap (λ (x : Buffered State). x.writes_allowed) h ∙ e;
  }

  -- One call.
  perform-SameBacking : (c : Call) → LeavesBackup c → SameBacking b (perform bk b c)
  unfolding perform
  perform-SameBacking (store_call t) q = store_sync-SameBacking b e t
  perform-SameBacking (store_sync_call t) q = store_sync-SameBacking b e t
  perform-SameBacking start_call q =
      if_ind (SameBacking b) (b.closing || b.flush_task) (λ _. unmoved b e)
        (λ _. record { backing = refl; held = e })
  perform-SameBacking (initialize_call w) q = absurd q
  perform-SameBacking (store_many_call ts w) q =
      from_equal (gate-held b e (super_call bk (bk.store_many ts) w))
  perform-SameBacking (flush_call a) q = from_equal (flush-held a)
  perform-SameBacking (flush_tick_call a) q =
      if_ind (SameBacking b) b.closing (λ _. unmoved b e)
        (λ _. from_equal (mutation-held b e (flush_locked bk false a) (flush_locked-held false a)))
  perform-SameBacking (query_call f first a) q =
      from_equal
        (reading-held (bk.query f) (Calls.flush_if bk first a b).0 _ (flush_if-held first a))
  perform-SameBacking (get_last_unique_call a) q =
      from_equal (reading-held bk.get_last_unique_telegrams (Calls.flush bk a b).0 _ (flush-held a))
  perform-SameBacking (get_stats_call a) q =
      from_equal (reading-held bk.get_stats (Calls.flush bk a b).0 _ (flush-held a))
  perform-SameBacking (optimize_call a w) q =
      from_equal
        (gate-held b e (Calls.wrapped (flush_locked bk true a) >> super_call bk bk.optimize w))
  perform-SameBacking (begin_backup_call a w) q =
      let good = λ (r : Result (Unit {0}) × Buffered State). SameBacking b r.1 in
      if_ind good b.closing (λ _. unmoved b e)
        λ _. if_ind good b.writes_allowed (λ t. absurd cc (t, e)) (λ _. unmoved b e)
  perform-SameBacking (end_backup_call w) q = absurd q
  perform-SameBacking (close_call x a w) q = absurd q
  perform-SameBacking (evict_older_than_call c t d w) q =
      from_equal (gate-held b e (Calls.evict_shielded bk c t d w))
  perform-SameBacking (evict_expired_call t d w) q =
      from_equal (gate-held b e (Calls.expire bk (bk.retention_cutoff t b.backing) d w))
  perform-SameBacking (clear_call w) q = from_equal (gate-held b e (Calls.clear_both bk w))

-- While a backup holds off the writes, no calls of a running store, in any order, change the backing
-- store or let the writes go on; running means none of them is `initialize`, `end_backup` or `close`.
pub perform_all-SameBacking :
    (bk : Backend) (b : Buffered bk.State) (cs : List Call)
    → b.writes_allowed ≡ false
    → All LeavesBackup cs
    → SameBacking b (perform_all bk b cs)
unfolding perform_all
perform_all-SameBacking bk b [] e h = record { backing = refl; held = e }
perform_all-SameBacking bk b (c ∷ cs) e h =
    let one = perform-SameBacking bk b e c h.0 in
    let more = perform_all-SameBacking bk (perform bk b c) cs one.held h.1 in
    record { backing = more.backing ∙ one.backing; held = more.held }
