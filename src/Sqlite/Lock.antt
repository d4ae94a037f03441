-- ===== src/Sqlite/Lock.antt =====
-- When the write lock of a backup is held.
use knx_telegram_store.Prelude.{
  Bool, true, false, not, List, [], ◌∷◌, Option, none, some, if◌then◌else◌, ◌≡◌, refl, sym, ◌∙◌,
  if_ind, if_true, if_false,
}
use knx_telegram_store.Exceptions.{PyException}
use knx_telegram_store.Sqlite.Backup.{
  BackupState, Step, lock_file, begin_backup, end_backup, close, BackupCall, begin_call, end_call,
  close_call, perform_backup,
}

-- The lock is held while a backup of a file is in progress, and at no other time.
pub record IsHeld (s : BackupState) : Type 0 where
  pub lock : s.locked ≡ (if s.is_memory then false else s.backup_in_progress)
  pub connection : s.backup_connection ≡ s.locked

-- A state with nothing in progress holds no lock.
idle-unlocked : (s : BackupState) → IsHeld s → s.backup_in_progress ≡ false → s.locked ≡ false
idle-unlocked s h e = h.lock ∙ if_ind (λ b. b ≡ false) s.is_memory (λ _. refl) (λ _. e)

lock_file-IsHeld :
    (answer : Option PyException) (s : BackupState)
    → IsHeld s
    → s.is_memory ≡ false
    → IsHeld (lock_file answer s).1
lock_file-IsHeld none s h file = record {
  lock = sym (if_false s.is_memory false true file);
  connection = refl;
}
lock_file-IsHeld (some e) s h file = h

begin_backup-IsHeld :
    (answer : Option PyException) (s : BackupState) → IsHeld s → IsHeld (begin_backup answer s).1
unfolding begin_backup
begin_backup-IsHeld answer s h =
    let P = λ (o : Step). IsHeld o.1 in
    if_ind P s.read_only (λ _. h)
      (λ _.
        if_ind P s.backup_in_progress (λ _. h)
          (λ idle.
            if_ind P s.is_memory
              (λ memory. record {
                lock = idle-unlocked s h idle ∙ sym (if_true s.is_memory false true memory);
                connection = h.connection;
              })
              (λ file. lock_file-IsHeld answer s h file)))

never_locked : (b : Bool) → false ≡ (if b then false else false)
never_locked true = refl
never_locked false = refl

not-true : (b : Bool) → not b ≡ true → b ≡ false
not-true true h = absurd (cc (h))
not-true false h = refl

-- Ending a backup releases the lock, whatever `COMMIT` answers; where none is in progress, there is no
-- lock.
end_backup-unlocked :
    (answer : Option PyException) (s : BackupState)
    → IsHeld s
    → (end_backup answer s).1.locked ≡ false
unfolding end_backup
end_backup-unlocked answer s h =
    let P = λ (o : Step). o.1.locked ≡ false in
    if_ind P (not s.backup_in_progress)
      (λ idle. idle-unlocked s h (not-true s.backup_in_progress idle))
      (λ _.
        if_ind P (not s.backup_connection)
          (λ none_open. sym h.connection ∙ not-true s.backup_connection none_open) (λ _. refl))

end_backup-IsHeld :
    (answer : Option PyException) (s : BackupState) → IsHeld s → IsHeld (end_backup answer s).1
unfolding end_backup
end_backup-IsHeld answer s h =
    let P = λ (o : Step). IsHeld o.1 in
    if_ind P (not s.backup_in_progress) (λ _. h)
      (λ _.
        if_ind P (not s.backup_connection)
          (λ none_open.
            let free = sym h.connection ∙ not-true s.backup_connection none_open in
            record { lock = free ∙ never_locked s.is_memory; connection = sym free })
          (λ _. record { lock = never_locked s.is_memory; connection = refl }))

close-IsHeld :
    (answer : Option PyException) (s : BackupState) → IsHeld s → IsHeld (close answer s).1
unfolding close
close-IsHeld answer s h =
    if_ind (λ (o : Step). IsHeld o.1) s.backup_in_progress (λ _. end_backup-IsHeld answer s h)
      (λ _. h)

close-unlocked :
    (answer : Option PyException) (s : BackupState) → IsHeld s → (close answer s).1.locked ≡ false
unfolding close
close-unlocked answer s h =
    if_ind (λ (o : Step). o.1.locked ≡ false) s.backup_in_progress
      (λ _. end_backup-unlocked answer s h) (idle-unlocked s h)

perform_backup-Holds :
    (s : BackupState) (cs : List (Option PyException × BackupCall))
    → IsHeld s
    → IsHeld (perform_backup s cs)
unfolding perform_backup
perform_backup-Holds s [] h = h
perform_backup-Holds s ((answer, begin_call) ∷ cs) h =
    perform_backup-Holds (begin_backup answer s).1 cs (begin_backup-IsHeld answer s h)
perform_backup-Holds s ((answer, end_call) ∷ cs) h =
    perform_backup-Holds (end_backup answer s).1 cs (end_backup-IsHeld answer s h)
perform_backup-Holds s ((answer, close_call) ∷ cs) h =
    perform_backup-Holds (close answer s).1 cs (close-IsHeld answer s h)

-- Through any calls of `begin_backup`, `end_backup` and `close`, whatever SQLite answers to each, the
-- write lock is held while a backup of a file is in progress and at no other time, if that was so
-- before; and a `close` behind them leaves it released, even if it raises.
pub perform_backup-IsHeld :
    (s : BackupState) (cs : List (Option PyException × BackupCall)) (answer : Option PyException)
    → IsHeld s
    → IsHeld (perform_backup s cs) × ((close answer (perform_backup s cs)).1.locked ≡ false)
perform_backup-IsHeld s cs answer h =
    let held = perform_backup-Holds s cs h in
    (held, close-unlocked answer (perform_backup s cs) held)
