-- ===== src/Sync/Decision.antt =====
-- src/sync/decision.rs. An `Instant` is its number of nanoseconds, and `duration_since` stops at 0.
use Prim.Native.String.{String}
use satya_btc.Common.{
  ℕ, ◌+◌, ◌-◌, ◌*◌, ◌≤◌, ◌<◌, ◌≡◌, ◌↔◌, Bool, true, false, not, ◌&&◌, ◌||◌, Option, none, some,
  arith, saturating_mul64, u64_max, ltb, leb, if◌then◌else◌,
}

abbrev pub mass_drop_min_cache_size : ℕ
mass_drop_min_cache_size = 100

abbrev pub mass_drop_inverse : ℕ
mass_drop_inverse = 5

abbrev pub resync_cooldown : ℕ
resync_cooldown = 60_000_000_000

unfoldable pub is_mass_drop : ℕ → ℕ → Bool
is_mass_drop cache_len node_txid_count =
    leb mass_drop_min_cache_size cache_len
    && ltb (saturating_mul64 node_txid_count mass_drop_inverse) cache_len

unfoldable pub resync_cooling_down : Option ℕ → ℕ → Bool
resync_cooling_down none now = false
resync_cooling_down (some t) now = ltb (now - t) resync_cooldown

pub data DesyncAction : Type 0 where
  wait_cooldown : String → DesyncAction
  bulk_resync : String → DesyncAction

unfoldable pub decide_desync : Bool → ℕ → ℕ → Bool → Option DesyncAction
unfolding is_mass_drop
decide_desync loaded cache_len node_txid_count cooling_down =
    let mass_drop = is_mass_drop cache_len node_txid_count in
    let reason : String = if not loaded then "node_not_loaded" else "mass_drop" in
    if loaded && not mass_drop
    then none
    else some (if cooling_down then wait_cooldown reason else bulk_resync reason)

unfoldable pub is_backlog : ℕ → ℕ → ℕ → Bool → Bool
is_backlog new_count max_per_tick fetch_errors incomplete =
    ltb max_per_tick new_count || (ltb 0 fetch_errors || incomplete)

-- `cache_len - gone` underflows where more are gone than were cached: the caller never does that.
unfoldable pub projected_mempool_size : ℕ → ℕ → ℕ → ℕ
projected_mempool_size cache_len gone fetched = cache_len - gone + fetched

-- For a cache length of `usize` the saturation changes nothing: a mass drop is a cache of 100 or more
-- of which the node reports less than a fifth.
pub is_mass_drop_iff :
    (cache_len node_txid_count : ℕ)
    → cache_len ≤ u64_max
    → (is_mass_drop cache_len node_txid_count ≡ true)
      ↔ ((100 ≤ cache_len) × (node_txid_count * 5 < cache_len))
unfolding is_mass_drop
is_mass_drop_iff cache_len node_txid_count h = ground arith
