-- ===== src/Sync/Fetch/Resolved.antt =====
-- src/sync/mod.rs, `fetch_new_entries`: what a batch that is complete and without errors has fetched.
use satya_btc.Common.{
  ℕ, suc, ◌+◌, ◌≤◌, ◌≡◌, refl, Bool, true, false, ◌&&◌, ◌||◌, inl, inr, Option, none, some, List,
  [], ◌∷◌, ◌++◌, arith, ◌==◌, ==_iff, ltb, length, take, contains, if◌then◌else◌, Bool-cases,
}
use satya_btc.Rpc.{MempoolEntry, Result, ok, err}
use satya_btc.Mempool.{from_entry, keys}
use satya_btc.Sync.Fetch.{Arrival, Batch, process, drain, consume, fetch_new_entries}

abbrev pub txids_of : List Arrival → List ℕ
txids_of [] = []
txids_of (a ∷ rest) = a.txid ∷ txids_of rest

abbrev pub is_vanished : Result (Option MempoolEntry) → Bool
is_vanished (ok none) = true
is_vanished _ = false

-- The node answered that the transaction is gone.
abbrev pub vanished : ℕ → List Arrival → Bool
vanished v [] = false
vanished v (a ∷ rest) = ((a.txid == v) && is_vanished a.answer) || vanished v rest

-- The stream gives one result for each candidate.
pub record IsStream (results : List ℕ → List Arrival) : Type 0 where
  pub size : (cs : List ℕ) → length (results cs) ≡ length cs
  pub each : (cs : List ℕ) (v : ℕ) → contains (txids_of (results cs)) v ≡ contains cs v

-- From the batch `b` to `c` over some of the arrivals.
record IsStep (arrivals : List Arrival) (b c : Batch) : Type 0 where
  size : c.resolved ≤ b.resolved + length arrivals
  errors : b.fetch_errors ≤ c.fetch_errors
  kept : (v : ℕ) → contains (keys b.fetched) v ≡ true → contains (keys c.fetched) v ≡ true
  only :
      (v : ℕ)
      → contains (keys c.fetched) v ≡ true
      → (contains (keys b.fetched) v || contains (txids_of arrivals) v) ≡ true
  whole :
      c.resolved ≡ b.resolved + length arrivals
      → c.fetch_errors ≡ b.fetch_errors
      → (v : ℕ) → contains (txids_of arrivals) v ≡ true
      → (contains (keys c.fetched) v || vanished v arrivals) ≡ true

keys-append :
    {A : Type 0} (m n : List (ℕ × A)) (v : ℕ)
    → contains (keys (m ++ n)) v ≡ (contains (keys m) v || contains (keys n) v)
keys-append [] n v = refl
keys-append ((k, x) ∷ m) n v = ground (arith, keys-append m n v)

none-IsStep : (b : Batch) → IsStep [] b b
none-IsStep b = record {
  size = omega arith;
  errors = omega arith;
  kept = λ v k. k;
  only = λ v k. ground arith;
  whole = λ e1 e2 v k. cc;
}

stop-IsStep : (a : Arrival) (rest : List Arrival) (b : Batch) → IsStep (a ∷ rest) b b
stop-IsStep a rest b = record {
  size = omega arith;
  errors = omega arith;
  kept = λ v k. k;
  only = λ v k. ground arith;
  whole = λ e1 e2 v k. absurd (omega (arith, e1));
}

-- What one result does.
record IsProcessed (a : Arrival) (b c : Batch) : Type 0 where
  size : c.resolved ≡ suc b.resolved
  errors : b.fetch_errors ≤ c.fetch_errors
  kept : (v : ℕ) → contains (keys b.fetched) v ≡ true → contains (keys c.fetched) v ≡ true
  only :
      (v : ℕ)
      → contains (keys c.fetched) v ≡ true
      → (contains (keys b.fetched) v || (a.txid == v)) ≡ true
  whole :
      c.fetch_errors ≡ b.fetch_errors
      → (contains (keys c.fetched) a.txid || is_vanished a.answer) ≡ true

process-IsProcessed : (a : Arrival) (b : Batch) → IsProcessed a b (process a b)
unfolding process
process-IsProcessed a b = go a.answer refl
  where
    go : (r : Result (Option MempoolEntry)) → a.answer ≡ r → IsProcessed a b (process a b)
    go (ok none) e = rw e (record {
      size = refl;
      errors = omega arith;
      kept = λ v k. k;
      only = λ v k. ground arith;
      whole = λ h. ground arith;
    })
    go (ok (some x)) e = rw e (record {
      size = refl;
      errors = omega arith;
      kept = λ v k. ground (arith, keys-append b.fetched ((a.txid, from_entry x) ∷ []) v);
      only = λ v k. ground (arith, keys-append b.fetched ((a.txid, from_entry x) ∷ []) v);
      whole = λ h.
          ground (
            arith,
            keys-append b.fetched ((a.txid, from_entry x) ∷ []) a.txid,
            ==_iff a.txid a.txid,
          );
    })
    go (err x) e = rw e (record {
      size = refl;
      errors = omega arith;
      kept = λ v k. k;
      only = λ v k. ground arith;
      whole = λ h. absurd (omega (arith, h));
    })

then-IsStep :
    (a : Arrival) (rest : List Arrival) (b b' c : Batch)
    → IsProcessed a b b'
    → IsStep rest b' c
    → IsStep (a ∷ rest) b c
then-IsStep a rest b b' c p s = record {
  size = omega (arith, p.size, s.size);
  errors = omega (arith, p.errors, s.errors);
  kept = λ v k. s.kept v (p.kept v k);
  only = λ v k. ground (arith, s.only v, p.only v);
  whole = λ e1 e2 v k.
      let own = p.whole (omega (arith, p.errors, s.errors, e2)) in
      elim (Bool-cases (a.txid == v)) [
        | inl at ↦ let same : a.txid ≡ v = (==_iff a.txid v).0 at in ground (arith, own, s.kept v)
        | inr off ↦
            ground
              (arith, s.whole (omega (arith, p.size, e1)) (omega (arith, p.errors, s.errors, e2)) v)
      ];
}

either-IsStep :
    (test : Bool) (arrivals : List Arrival) (b c d : Batch)
    → IsStep arrivals b c
    → IsStep arrivals b d
    → IsStep arrivals b (if test then c else d)
either-IsStep true arrivals b c d h k = h
either-IsStep false arrivals b c d h k = k

drain-IsStep : (arrivals : List Arrival) (b : Batch) → IsStep arrivals b (drain arrivals b)
unfolding drain
drain-IsStep [] b = none-IsStep b
drain-IsStep (a ∷ rest) b =
    either-IsStep a.ready (a ∷ rest) b _ _
      (then-IsStep a rest b (process a b) _ (process-IsProcessed a b) (drain-IsStep rest _))
      (stop-IsStep a rest b)

consume-IsStep :
    (tick_budget : ℕ) (arrivals : List Arrival) (b : Batch)
    → IsStep arrivals b (consume tick_budget arrivals b)
unfolding consume
consume-IsStep tick_budget [] b = none-IsStep b
consume-IsStep tick_budget (a ∷ rest) b =
    let next = process-IsProcessed a b in
    either-IsStep (ltb tick_budget a.elapsed) (a ∷ rest) b _ _
      (then-IsStep a rest b (process a b) _ next (drain-IsStep rest _))
      (then-IsStep a rest b (process a b) _ next (consume-IsStep tick_budget rest _))

-- For a stream that gives one result for each candidate: only candidates are fetched, and if the
-- batch is complete and without errors, each candidate was fetched or had vanished from the node.
pub fetch_new_entries_resolves :
    (results : List ℕ → List Arrival) (new_txids : List ℕ) (tick_budget max_per_tick : ℕ)
    → IsStream results
    → ((v : ℕ)
        → contains (keys (fetch_new_entries results new_txids tick_budget max_per_tick).fetched) v
          ≡ true
        → contains (take max_per_tick new_txids) v ≡ true)
      × ((fetch_new_entries results new_txids tick_budget max_per_tick).fetch_errors ≡ 0
          → (fetch_new_entries results new_txids tick_budget max_per_tick).incomplete ≡ false
          → (v : ℕ) → contains (take max_per_tick new_txids) v ≡ true
          → (contains
                (keys (fetch_new_entries results new_txids tick_budget max_per_tick).fetched)
                v
              || vanished v (results (take max_per_tick new_txids)))
            ≡ true)
unfolding fetch_new_entries
fetch_new_entries_resolves results new_txids tick_budget max_per_tick stream =
    let cs = take max_per_tick new_txids in
    let s =
      consume-IsStep tick_budget (results cs)
        (record { fetched = []; fetch_errors = 0; resolved = 0 }) in
    (
      λ v k. ground (arith, s.only v k, stream.each cs v),
      λ no_errors whole v k.
          s.whole (ground (arith, s.size, stream.size cs)) no_errors v
            (ground (arith, stream.each cs v)),
    )
