-- ===== src/Nonce/Examples.antt =====
-- An account that has used nonces up to 7, of which 3 and 5 came back.
use wanchain_js_sdk.Prelude.{◌≡◌, refl, [], ◌∷◌, arith}
use wanchain_js_sdk.Nonce.{AccountNonce, take_nonce}
use wanchain_js_sdk.Nonce.Fresh.{IsDistinct, taken, taken-IsDistinct}

abbrev account : AccountNonce
account = record { used_pending_nonce = 7; nonce_hole_list = 3 ∷ 5 ∷ [] }

-- holes first, then new nonces, and the chain's nonce where it is ahead
order : taken (3 ∷ 3 ∷ 3 ∷ 12 ∷ 12 ∷ []) account ≡ 3 ∷ 5 ∷ 8 ∷ 12 ∷ 13 ∷ []
unfolding taken take_nonce
order = refl

taken-IsDistinct_example : IsDistinct (taken (3 ∷ 3 ∷ 3 ∷ 12 ∷ 12 ∷ []) account)
taken-IsDistinct_example =
    taken-IsDistinct (3 ∷ 3 ∷ 3 ∷ 12 ∷ 12 ∷ []) account
      ((refl, (refl, tt)), (omega arith, (omega arith, tt)))
