-- ===== src/Bip44/ChainId.antt =====
-- The chain of a path does not depend on its quote.
use wanchain_js_sdk.Prelude.{ℕ, ◌<◌, ◌≡◌, Bool, some, [], ◌∷◌, arith}
use wanchain_js_sdk.Prelude.Result.{ok}
use wanchain_js_sdk.Bip44.{PathElem, hardened_offset, get_chain_id_from_bip44_path}

abbrev pub level : ℕ → Bool → PathElem
level n quoted = record { parsed = some n; quoted = quoted }

-- The chain ID of a path of five numbers is the second one, below 2^31, whichever of the levels are
-- hardened.
pub chain_id-second :
    (m : PathElem) (p c a i x : ℕ) (qp qc qa qi qx : Bool)
    → c < hardened_offset
    → get_chain_id_from_bip44_path
        (m ∷ level p qp ∷ level c qc ∷ level a qa ∷ level i qi ∷ level x qx ∷ [])
      ≡ ok c
unfolding get_chain_id_from_bip44_path
chain_id-second m p c a i x qp qc qa qi qx h = ground arith
