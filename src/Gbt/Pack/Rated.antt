-- ===== src/Gbt/Pack/Rated.antt =====
-- src/gbt.rs, `project_with`: a transaction has a rate exactly if it is used.
use satya_btc.Common.{
  ℕ, ◌≡◌, refl, ◌∙◌, ap, Bool, true, false, ◌||◌, List, [], ◌∷◌, ◌++◌, arith, if◌then◌else◌, ◌==◌,
  contains, set, All, length, ◌<◌, add64,
}
use satya_btc.Float.{Float}
use satya_btc.Gbt.Audit.{Audit, audit_of, is_used, rate}
use satya_btc.Gbt.Heap.{HeapItem}
use satya_btc.Gbt.Heap.Select.{pop-All}
use satya_btc.Gbt.Pack.{Limits, State, hold, package_of, sum_weight, sum_fee, take_all, close_block}
use satya_btc.Gbt.Pack.Marks.{is_used-mark_all}
use satya_btc.Gbt.Pack.Rule.{Placed, held, included, Keeps, include_cases}
use satya_btc.Gbt.Pack.Valid.{IsAudited, package_near}
use satya_btc.Gbt.Pack.Included.{include-IsIncluded}
use satya_btc.Gbt.Pack.Once.{IsOnce, Once-Keeps}

-- `effective_rates.contains_key(&v)`
abbrev pub rated : {F : Type 0} → ℕ → List (ℕ × F) → Bool
rated v [] = false
rated v ((m, r) ∷ rest) = (m == v) || rated v rest

module _ {F : Type 0} ⦃f : Float F⦄ {audits : List Audit} (valid : IsAudited audits)
    (lim : Limits) where
  rated-take_all :
      (r : F) (pkg : List ℕ) (s : State F) (v : ℕ)
      → rated v (take_all audits r pkg s).effective_rates
        ≡ (if contains pkg v then true else rated v s.effective_rates)
  unfolding take_all
  rated-take_all r [] s v = refl
  rated-take_all r (m ∷ rest) s v = ground (
    arith,
    rated-take_all r rest
        (record s {
          used = set s.used m true;
          cur_block = s.cur_block ++ m ∷ [];
          block_weight = add64 s.block_weight (audit_of audits m).weight;
          effective_rates = (m, r) ∷ s.effective_rates;
        })
        v,
  )

  pub record IsRated (s : State F) : Type 0 where
    pub once : IsOnce valid lim s
    pub rates : (v : ℕ) → rated v s.effective_rates ≡ is_used s.used v

  put-IsRated :
      (s : State F) (item : HeapItem F) (u : State F)
      → item.uid < length audits
      → Placed audits lim s item u
      → length s.used ≡ length audits
      → ((v : ℕ) → rated v s.effective_rates ≡ is_used s.used v)
      → (v : ℕ) → rated v u.effective_rates ≡ is_used u.used v
  unfolding hold
  put-IsRated s item u near (held big e) size h v = rw e (h v)
  put-IsRated s item u near (included fits e) size h v =
      let pkg = package_of audits s.used item.uid in
      let i = include-IsIncluded valid lim s u pkg e in
      let (heap, r, eq) = include_cases audits lim s u pkg e in
      let here : All (λ m. m < length s.used) pkg =
        rw size (package_near valid s.used item.uid near) in
      ap (λ (t : State F). rated v t.effective_rates) eq
      ∙ rw (i.used_is) (
          ground (
            arith,
            rated-take_all (rate (sum_fee audits pkg) (sum_weight audits pkg)) pkg s v,
            is_used-mark_all s.used pkg v here,
            h v,
          ))

  pub Rated-Keeps : Keeps audits lim IsRated
  unfolding close_block
  Rated-Keeps = record {
    discard = λ s item rest e old h. record {
      once = (Once-Keeps valid lim).discard s item rest e old h.once;
      rates = h.rates;
    };
    refresh = λ s item rest e new h. record {
      once = (Once-Keeps valid lim).refresh s item rest e new h.once;
      rates = h.rates;
    };
    put = λ s item rest u e new p h.
        let near = pop-All (λ i. i.uid < length audits) s.heap item rest e h.once.heap_near in
        record {
          once = (Once-Keeps valid lim).put s item rest u e new p h.once;
          rates = put-IsRated (record s { heap = rest }) item u near.0 p h.once.size h.rates;
        };
    shut = λ u b full h. record {
      once = (Once-Keeps valid lim).shut u b full h.once;
      rates = h.rates;
    };
  }
