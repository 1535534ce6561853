-- ===== src/Gbt/Ancestors/Walk.antt =====
-- src/gbt.rs, `build_ancestors`: on a graph with no cycle it ends, and gives the ancestors, each once.
use satya_btc.Common.{
  ℕ, zero, suc, ◌≤◌, ◌<◌, ◌≡◌, refl, ap, ◌∙◌, Bool, true, false, inl, inr, Option, none, some, List,
  [], ◌∷◌, arith, ◌==◌, ==_iff, Bool-cases, Option-cases, length, get_or, set, contains, length-set,
  get_or-set_self, get_or-set_ne, unset, unset-set,
}
use satya_btc.Gbt.Audit.{GbtTx}
use satya_btc.Gbt.Ancestors.{
  Memo, insert, insert_all, parents_of, Build, gather, finish, build_ancestors,
}
use satya_btc.Gbt.Ancestors.Closure.{
  Has, IsAcyclic, contains-insert, contains-insert_all, IsPart, IsClosure, grow-IsPart,
}

module _ (txs : List GbtTx) where
  pub record IsMemo (st : Memo) : Type 0 where
    pub memo_size : length st.memo ≡ length txs
    pub visiting_size : length st.visiting ≡ length txs
    pub kept : (u : ℕ) (found : List ℕ) → get_or st.memo u none ≡ some found → IsClosure txs u found

  module _ (rank : ℕ → ℕ) where
    -- The marked transactions stand above `r`.
    abbrev Marked : ℕ → Memo → Type 0
    Marked r st = (v : ℕ) → get_or st.visiting v false ≡ true → r < rank v

    pub record IsBuilt (u : ℕ) (st : Memo) (r : Option (List ℕ × Memo)) : Type 0 where
      pub found : List ℕ
      pub after : Memo
      pub returns : r ≡ some (found, after)
      pub closure : IsClosure txs u found
      pub memo : IsMemo after
      pub restored : after.visiting ≡ st.visiting

    abbrev Builds : ℕ → (ℕ → Build) → Type 0
    Builds fuel build =
        (u : ℕ) (st : Memo)
        → u < length txs
        → IsMemo st
        → Marked (rank u) st
        → unset st.visiting < fuel
        → IsBuilt u st (build u st)

    record IsGathered (u : ℕ) (rest set : List ℕ) (st : Memo) (r : Option (List ℕ × Memo))
        : Type 0 where
      found : List ℕ
      after : Memo
      returns : r ≡ some (found, after)
      part : IsPart txs u found
      has_rest : (p : ℕ) → Has rest p → Has found p
      has_set : (a : ℕ) → Has set a → Has found a
      memo : IsMemo after
      restored : after.visiting ≡ st.visiting

    module _ (acyclic : IsAcyclic txs rank) where
      gather-Builds :
          (fuel : ℕ) (build : ℕ → Build) (u : ℕ) (rest set : List ℕ) (st : Memo)
          → Builds fuel build
          → ((p : ℕ) → Has rest p → Has (parents_of txs u) p)
          → IsPart txs u set
          → IsMemo st
          → ((v : ℕ) → get_or st.visiting v false ≡ true → rank u ≤ rank v)
          → unset st.visiting < fuel
          → IsGathered u rest set st (gather build rest set st)
      unfolding gather
      gather-Builds fuel build u [] set st b hp part m marked l = record {
        found = set;
        after = st;
        returns = refl;
        part = part;
        has_rest = λ p h. cc;
        has_set = λ a h. h;
        memo = m;
        restored = refl;
      }
      gather-Builds fuel build u (p ∷ rest) set st b hp part m marked l =
          let is_parent : Has (parents_of txs u) p = hp p (ground (arith, ==_iff p p)) in
          let low = acyclic.below u p is_parent in
          let call =
            b p st (acyclic.in_range u p is_parent) m (λ v k. omega (arith, marked v k, low)) l in
          let set' = insert_all call.found (insert p set) in
          let part' = grow-IsPart txs u p set call.found is_parent call.closure part in
          let more =
            gather-Builds fuel build u rest set' call.after b (λ q k. hp q (ground arith)) part'
              call.memo (rw call.restored marked) (rw call.restored l) in
          let grown = λ (a : ℕ). contains-insert_all call.found (insert p set) a in
          record {
            found = more.found;
            after = more.after;
            returns = ground (arith, call.returns, more.returns);
            part = more.part;
            has_rest = λ q k. elim (Bool-cases (contains rest q)) [
              | inl e ↦ more.has_rest q e
              | inr e ↦ more.has_set q (ground (arith, grown q, contains-insert p q set))
            ];
            has_set = λ a k. more.has_set a (ground (arith, grown a, contains-insert p a set));
            memo = more.memo;
            restored = more.restored ∙ call.restored;
          }

      -- A mark that is set and cleared leaves the flags as they were.
      unmark :
          (bs : List Bool) (i : ℕ) → get_or bs i false ≡ false → set (set bs i true) i false ≡ bs
      unmark [] i h = refl
      unmark (false ∷ bs) zero h = refl
      unmark (true ∷ bs) zero h = cc
      unmark (c ∷ bs) (suc i) h = ap (λ t. c ∷ t) (unmark bs i h)

      finish-IsMemo :
          (u : ℕ) (found : List ℕ) (st : Memo)
          → u < length txs
          → IsMemo st
          → IsClosure txs u found
          → IsMemo (finish u found st).1
      finish-IsMemo u found st h m c = record {
        memo_size = length-set st.memo u (some found) ∙ m.memo_size;
        visiting_size = length-set st.visiting u false ∙ m.visiting_size;
        kept = λ v other e. elim (Bool-cases (u == v)) [
          | inl at ↦
              let same : u ≡ v = (==_iff u v).0 at in
              let is : found ≡ other =
                ground (arith, get_or-set_self st.memo u (some found) none, m.memo_size) in
              rw (← is, ← same) c
          | inr off ↦
              m.kept v other
                (ground (arith, get_or-set_ne st.memo u v (some found) none, ==_iff u v))
        ];
      }

      start-IsPart : (u : ℕ) → IsPart txs u []
      start-IsPart u = record {
        distinct = λ v. omega arith;
        sound = λ a h. cc;
        closed = λ b a h k. cc;
      }

      abbrev mark : ℕ → Memo → Memo
      mark u st = record st { visiting = set st.visiting u true }

      mark-IsMemo : (u : ℕ) (st : Memo) → IsMemo st → IsMemo (mark u st)
      mark-IsMemo u st m = record {
        memo_size = m.memo_size;
        visiting_size = length-set st.visiting u true ∙ m.visiting_size;
        kept = m.kept;
      }

      Marked-le :
          (u : ℕ) (st : Memo)
          → Marked (rank u) st
          → (v : ℕ) → get_or (mark u st).visiting v false ≡ true
          → rank u ≤ rank v
      Marked-le u st h v k = elim (Bool-cases (u == v)) [
        | inl at ↦ let same : u ≡ v = (==_iff u v).0 at in rw same (omega arith)
        | inr off ↦
            omega
              (arith, h v (ground (arith, get_or-set_ne st.visiting u v true false, ==_iff u v)))
      ]

      walk-IsBuilt :
          (fuel u : ℕ) (st : Memo)
          → u < length txs
          → IsMemo st
          → get_or st.memo u none ≡ none
          → get_or st.visiting u false ≡ false
          → IsGathered u
              (parents_of txs u)
              []
              (mark u st)
              (gather (build_ancestors txs fuel) (parents_of txs u) [] (mark u st))
          → IsBuilt u st (build_ancestors txs (suc fuel) u st)
      unfolding build_ancestors
      walk-IsBuilt fuel u st h m fresh unmarked g =
          let closure : IsClosure txs u g.found = record {
            part = g.part;
            first = λ a k. g.has_rest a k;
          } in
          record {
            found = g.found;
            after = (finish u g.found g.after).1;
            returns = ground (arith, g.returns);
            closure = closure;
            memo = finish-IsMemo u g.found g.after h g.memo closure;
            restored = ap (λ bs. set bs u false) g.restored ∙ unmark st.visiting u unmarked;
          }

      pub build_ancestors-Builds : (fuel : ℕ) → Builds fuel (build_ancestors txs fuel)
      unfolding build_ancestors
      build_ancestors-Builds zero u st h m marked l = absurd (omega arith)
      build_ancestors-Builds (suc fuel) u st h m marked l =
          elim (Option-cases (get_or st.memo u none)) [
            | inr (found, e) ↦ record {
              found = found;
              after = st;
              returns = ground arith;
              closure = m.kept u found e;
              memo = m;
              restored = refl;
            }
            | inl fresh ↦ elim (Bool-cases (get_or st.visiting u false)) [
              | inl on ↦ absurd (omega (arith, marked u on))
              | inr unmarked ↦ walk-IsBuilt fuel u st h m fresh unmarked (
                  gather-Builds fuel (build_ancestors txs fuel) u (parents_of txs u) [] (mark u st)
                    (build_ancestors-Builds fuel) (λ p k. k) (start-IsPart u) (mark-IsMemo u st m)
                    (Marked-le u st marked)
                    (omega (
                      arith,
                      l,
                      unset-set st.visiting u (omega (arith, h, m.visiting_size)) unmarked,
                    )))
            ]
          ]
