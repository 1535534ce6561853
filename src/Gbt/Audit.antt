-- ===== src/Gbt/Audit.antt =====
-- src/gbt.rs: the transactions, the working state of each, and the score of one.
use satya_btc.Common.{ℕ, Bool, false, List, [], ◌∷◌, add64, ◌==◌, if◌then◌else◌, get_or}
use satya_btc.Float.{Float}

abbrev pub max_block_weight : ℕ
max_block_weight = 4_000_000

abbrev pub block_reserved_weight : ℕ
block_reserved_weight = 4_000

abbrev pub max_blocks : ℕ
max_blocks = 8

abbrev pub failure_limit : ℕ
failure_limit = 1000

pub record GbtTx : Type 0 where
  pub uid : ℕ
  pub order : ℕ
  pub fee : ℕ
  pub weight : ℕ
  pub parents : List ℕ

-- A `Vec` of blocks, and the `HashMap` of rates as an association list, the newest entry first.
pub record Projection (F : Type 0) : Type 0 where
  pub blocks : List (List ℕ)
  pub effective_rates : List (ℕ × F)

pub record Audit : Type 0 where
  pub order : ℕ
  pub fee : ℕ
  pub weight : ℕ
  pub ancestors : List ℕ
  pub children : List ℕ

-- What a read out of bounds gives. The program panics there.
abbrev pub no_audit : Audit
no_audit = record { order = 0; fee = 0; weight = 0; ancestors = []; children = [] }

-- `audits[uid]` and `used[uid]`
abbrev pub audit_of : List Audit → ℕ → Audit
audit_of audits uid = get_or audits uid no_audit

abbrev pub is_used : List Bool → ℕ → Bool
is_used used uid = get_or used uid false

module _ {F : Type 0} ⦃f : Float F⦄ where
  unfoldable pub rate : ℕ → ℕ → F
  rate fee weight =
      if weight == 0
      then f.of_u64 0
      else f.div (f.mul (f.of_u64 4) (f.of_u64 fee)) (f.of_u64 weight)

-- The loop of `score_of` over the ancestors, with the two sums so far.
unfoldable pub unused_totals : List Audit → List Bool → ℕ → ℕ → List ℕ → ℕ × ℕ
unused_totals audits used pf pw [] = (pf, pw)
unused_totals audits used pf pw (an ∷ rest) =
    let counted =
      unused_totals audits used (add64 pf (audit_of audits an).fee)
        (add64 pw (audit_of audits an).weight) rest in
    let skipped = unused_totals audits used pf pw rest in
    if is_used used an then skipped else counted

module _ {F : Type 0} ⦃f : Float F⦄ where
  unfoldable pub score_of : ℕ → List Audit → List Bool → F
  unfolding rate unused_totals
  score_of uid audits used =
      let a = audit_of audits uid in
      let own : F = rate a.fee a.weight in
      let totals = unused_totals audits used a.fee a.weight a.ancestors in
      f.fmin own (rate totals.0 totals.1)
