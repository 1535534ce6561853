-- ===== src/Sim/Server/Flags.antt =====
-- src/sim/server.rs, `run_cli`: the flags of the simulation, which the clap crate reads, and the state
-- that is served. The warnings of the log are left out.
use Prim.Native.String.{String}
use text.Mathlib.Text.{◌==◌ as same_text}
use satya_btc.Common.{List, ℕ, Bool, true, false, none, some, if◌then◌else◌, max}
use satya_btc.Float.{Float}
use satya_btc.Sim.Random.{Rng, Draw, Casts, less}
use satya_btc.Sim.Network.{NetworkProfile, new_limiter, getblock_remote, local_node}
use satya_btc.Sim.Node.{ChurnConfig}
use satya_btc.Sim.Node.Arrival.{skewed, new_node}
use satya_btc.Sim.Server.{ServerState}

pub record SimServeArgs (F : Type 0) : Type 0 where
  pub port : ℕ
  pub size : ℕ
  pub arrivals : ℕ
  pub evictions : ℕ
  pub profile : String
  pub block_secs : ℕ
  pub reload_every : ℕ
  pub cpfp_fraction : F
  pub max_chain : ℕ
  pub fee_skew : F

module _ {F : Type 0} ⦃f : Float F⦄ where
  abbrev pub is_nan : F → Bool
  is_nan x = elim (f.partial_cmp x x) [ none ↦ true | some _ ↦ false ]

  -- The values that the flags have by default.
  abbrev pub default_args : SimServeArgs F
  default_args = record {
    port = 18443;
    size = 20_000;
    arrivals = 600;
    evictions = 600;
    profile = "remote";
    block_secs = 30;
    reload_every = 0;
    cpfp_fraction = f.div (f.of_u64 15) (f.of_u64 100);
    max_chain = 3;
    fee_skew = f.of_u64 3;
  }

  -- `f64::clamp`: the two tests, one after the other.
  abbrev pub clamp : F → F → F → F
  clamp low high x = let y = if less x low then low else x in if less high y then high else y

  unfoldable pub corrected_fraction : F → F
  corrected_fraction x = if is_nan x then f.of_u64 0 else clamp (f.of_u64 0) (f.of_u64 1) x

  -- `0.1`
  abbrev pub least_skew : F
  least_skew = f.div (f.of_u64 1) (f.of_u64 10)

  unfoldable pub corrected_skew : F → F
  corrected_skew x = if is_nan x then f.of_u64 3 else if less x least_skew then least_skew else x

  module _ ⦃casts : Casts F⦄ where
    unfoldable pub churn_config : SimServeArgs F → ChurnConfig F
    unfolding corrected_fraction corrected_skew skewed
    churn_config args = record {
      arrivals_per_tick = args.arrivals;
      evictions_per_tick = args.evictions;
      fee = skewed 1 500 (corrected_skew args.fee_skew);
      cpfp_fraction = corrected_fraction args.cpfp_fraction;
      max_chain = max args.max_chain 1;
    }

    unfoldable pub chosen_profile : String → NetworkProfile F
    unfolding getblock_remote local_node
    chosen_profile name = if same_text name "remote" then getblock_remote else local_node

    -- The node, from the generator of seed 0 and the random state of its map, and the state that
    -- `spawn` makes of it.
    unfoldable pub run_cli :
        {R : Type 0} ⦃rng : Rng R⦄ ⦃draw : Draw R F⦄
        → ℕ
        → (List ℕ → ℕ)
        → R
        → SimServeArgs F
        → ServerState R F
    unfolding churn_config new_node chosen_profile
    run_cli now hash seeded args = record {
      node = new_node hash seeded args.size (churn_config args);
      limiter = new_limiter now;
      profile = chosen_profile args.profile;
    }
