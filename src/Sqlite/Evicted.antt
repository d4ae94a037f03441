-- ===== src/Sqlite/Evicted.antt =====
-- What the eviction of the SQLite store leaves, also where it raises behind its deletion.
use knx_telegram_store.Prelude.{ℕ, ◌+◌, ◌≡◌, nat_eq, length}
use knx_telegram_store.Exceptions.{PyException, ok, raise}
use knx_telegram_store.Model.{Time}
use knx_telegram_store.Sql.{SqlStore}
use knx_telegram_store.Sql.Write
use knx_telegram_store.Sql.Write.{
  Answer, committed, failed, rolled_back, Outcome, ensure_writable, evicted,
}

-- The outcome of an eviction whose deletion has returned `deleted`: it returns this number or raises,
-- and the store is what the deletion has left.
abbrev Returned : ℕ → SqlStore → Outcome ℕ → Type 0
Returned deleted u o = ((n : ℕ) → o.0 ≡ ok n → deleted ≡ n) × (o.1 ≡ u)

-- What an eviction leaves by the answer to its deletion.
abbrev pub Leaves : Answer → Time → SqlStore → Outcome ℕ → Type 0
Leaves committed cutoff s o =
    (o.1 ≡ evicted cutoff s)
    × ((n : ℕ) → o.0 ≡ ok n → n + length o.1.database.telegrams ≡ length s.database.telegrams)
Leaves (failed e k) cutoff s o = (o.1 ≡ rolled_back k s) × (err : PyException) × (o.0 ≡ raise err)
