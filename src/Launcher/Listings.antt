-- ===== src/Launcher/Listings.antt =====
-- scoreReadiness of bsc-launcher/server/listings.go. Of the liquidity only whether it is at least
-- 1000 US dollars is read.
use shiva_blockchain.Base.{
  ℕ, ◌+◌, String, ◌≡◌, ◌↔◌, ◌⊎◌, inl, inr, Bool, true, not, ◌&&◌, List, [], ◌∷◌, ◌++◌, arith, leb,
  if◌then◌else◌, Bool-cases,
}
use shiva_blockchain.Base.Int.{ℤ, ltb_ℤ}

pub record ListingReadiness : Type 0 where
  pub score : ℕ
  pub ready : Bool
  pub missing : List String
  pub has_liquidity : Bool
  pub deep : Bool
  pub has_holders : Bool
  pub holders : ℤ
  pub has_explorer : Bool
  pub contract_live : Bool

abbrev points : Bool → ℕ → ℕ
points b n = if b then n else 0

unfoldable pub liquidity_score : ListingReadiness → ℕ
liquidity_score r = if r.has_liquidity && r.deep then 35 else points r.has_liquidity 15

unfoldable pub holder_score : ListingReadiness → ℕ
holder_score r =
    if r.has_holders && not (ltb_ℤ r.holders (ℤ.pos 10)) then 20 else points r.has_holders 10

abbrev note_if : Bool → String → List String
note_if b s = if b then s ∷ [] else []

-- `scoreReadiness`
unfoldable pub score_readiness : ListingReadiness → ListingReadiness
unfolding liquidity_score holder_score
score_readiness r =
    let score =
      points r.contract_live 25 + liquidity_score r + holder_score r + points r.has_explorer 20 in
    record r {
      score = score;
      ready = leb 70 score && r.has_liquidity && r.contract_live;
      missing =
          note_if (not r.contract_live) "contract bytecode on-chain"
          ++ ((if r.has_liquidity && r.deep
                then []
                else if r.has_liquidity
                then "liquidity ≥ $1,000 recommended" ∷ []
                else "DEX liquidity pool" ∷ [])
              ++ (if r.has_holders && not (ltb_ℤ r.holders (ℤ.pos 10))
                  then []
                  else if r.has_holders
                  then "more holders recommended (10+)" ∷ []
                  else "token holders" ∷ []));
    }

-- A token is ready exactly if its contract is live, it has liquidity, and: the liquidity is at least
-- 1000 US dollars and it has holders or an explorer, or it has both holders and an explorer.
pub ready_iff :
    (r : ListingReadiness)
    → ((score_readiness r).ready ≡ true) ↔ (
        (r.contract_live ≡ true)
        × (r.has_liquidity ≡ true)
        × (((r.deep ≡ true) × ((r.has_holders ≡ true) ⊎ (r.has_explorer ≡ true)))
            ⊎ ((r.has_holders ≡ true) × (r.has_explorer ≡ true))))
unfolding score_readiness
ready_iff r = (
  λ h. (
    ground arith,
    ground arith,
    elim (Bool-cases r.deep) [
      | inl deep ↦ inl (
        deep,
        elim (Bool-cases r.has_holders) [
          | inl held ↦ inl held
          | inr none_held ↦ inr (ground arith)
        ],
      )
      | inr shallow ↦ inr (ground arith, ground arith)
    ],
  ),
  λ (live, liquid, why). elim why [
    | inl (deep, shown) ↦ elim shown [ inl held ↦ ground arith | inr seen ↦ ground arith ]
    | inr (held, seen) ↦ ground arith
  ],
)
