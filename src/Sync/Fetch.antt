-- ===== src/Sync/Fetch.antt =====
-- src/sync/mod.rs, `fetch_new_entries`. The stream of the futures crate is an argument: the results in
-- the order in which they complete, each with the time since the start at which it was taken, and
-- whether it was ready when the loop ran over its budget.
pub mod Resolved
use satya_btc.Common.{
  ℕ, zero, suc, ◌+◌, ◌-◌, ◌≤◌, ◌<◌, ◌≡◌, ◌↔◌, refl, Bool, true, false, ◌⊎◌, inl, inr, Option, none,
  some, List, [], ◌∷◌, ◌++◌, arith, ◌==◌, ==_iff, ltb, length, take, count, contains, if◌then◌else◌,
  Bool-cases,
}
use satya_btc.Rpc.{MempoolEntry, Result, ok, err}
use satya_btc.Mempool.{MempoolTx, from_entry, keys}

pub record Arrival : Type 0 where
  pub txid : ℕ
  pub answer : Result (Option MempoolEntry)
  pub elapsed : ℕ
  pub ready : Bool

-- `fetched`, `fetch_errors` and `resolved`
pub record Batch : Type 0 where
  pub fetched : List (ℕ × MempoolTx)
  pub fetch_errors : ℕ
  pub resolved : ℕ

pub record FetchBatchResult : Type 0 where
  pub fetched : List (ℕ × MempoolTx)
  pub fetch_errors : ℕ
  pub incomplete : Bool

unfoldable pub process : Arrival → Batch → Batch
process a b = elim a.answer [
  | ok none ↦ record b { resolved = suc b.resolved }
  | ok (some e) ↦ record b {
    resolved = suc b.resolved;
    fetched = b.fetched ++ (a.txid, from_entry e) ∷ [];
  }
  | err e ↦ record b { resolved = suc b.resolved; fetch_errors = suc b.fetch_errors }
]

-- `while let Some(Some(..)) = results.next().now_or_never()`
unfoldable pub drain : List Arrival → Batch → Batch
unfolding process
drain [] b = b
drain (a ∷ rest) b = let more = drain rest (process a b) in if a.ready then more else b

unfoldable pub consume : ℕ → List Arrival → Batch → Batch
unfolding process drain
consume tick_budget [] b = b
consume tick_budget (a ∷ rest) b =
    let b' = process a b in
    let more = consume tick_budget rest b' in
    if ltb tick_budget a.elapsed then drain rest b' else more

unfoldable pub fetch_new_entries : (List ℕ → List Arrival) → List ℕ → ℕ → ℕ → FetchBatchResult
unfolding consume
fetch_new_entries results new_txids tick_budget max_per_tick =
    let candidates = take max_per_tick new_txids in
    let attempted = length candidates in
    let b =
      consume tick_budget (results candidates)
        (record { fetched = []; fetch_errors = 0; resolved = 0 }) in
    record {
      fetched = b.fetched;
      fetch_errors = b.fetch_errors;
      incomplete = ltb b.resolved attempted;
    }
