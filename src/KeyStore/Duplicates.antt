-- ===== src/KeyStore/Duplicates.antt =====
-- The check for duplicates sees only the keystores that were re-encrypted.
use wanchain_js_sdk.Prelude.{
  ℕ, zero, suc, String, ◌≡◌, refl, Bool, true, false, some, [], ◌∷◌, nat_beq, nat_eq, All, arith,
  Bool-cases, inl, inr,
}
use wanchain_js_sdk.Prelude.Result.{ok}
use wanchain_js_sdk.Objects.{Object, get}
use wanchain_js_sdk.KeyStore.{
  Keys, Stored, text, object, ChainStore, Crypto, same_address, at_address, duplicate_below,
  has_duplicate, check_duplicate,
}

module _ {C : Type 0} where
  abbrev pub is_text : Stored C → Bool
  is_text (text t) = true
  is_text (object ks) = false

  at_address-text :
      (address : String) (i : ℕ) (keystore : Object ℕ (Stored C))
      → All (λ e. is_text e.1 ≡ true) keystore
      → at_address address (get i keystore) ≡ false
  unfolding at_address same_address get
  at_address-text address i [] h = refl
  at_address-text address i ((j, text t) ∷ keystore) h = elim (Bool-cases (nat_beq j i)) [
    | inl same ↦ rw same refl
    | inr other ↦ rw other (at_address-text address i keystore h.1)
  ]
  at_address-text address i ((j, object ks) ∷ keystore) h = cc (h.0)

  duplicate_below-text :
      (address : String) (n : ℕ) (keystore : Object ℕ (Stored C))
      → All (λ e. is_text e.1 ≡ true) keystore
      → duplicate_below address n keystore ≡ false
  unfolding duplicate_below
  duplicate_below-text address zero keystore h = refl
  duplicate_below-text address (suc n) keystore h =
      rw (at_address-text address n keystore h, duplicate_below-text address n keystore h) refl

  -- If the keystores of a chain were imported as texts, the check for duplicates lets every keystore
  -- that has an address pass, be it among them or not.
  pub check_duplicate-texts :
      (lib : Crypto C) (ks : Keys C) (address : String) (chains : ChainStore C)
      → ks.address ≡ some address
      → All (λ e. is_text e.1 ≡ true) chains.keystore
      → check_duplicate lib true ks (some chains) ≡ ok true
  unfolding check_duplicate has_duplicate
  check_duplicate-texts lib ks address chains a h =
      ground (arith, duplicate_below-text (lib.lower address) chains.count chains.keystore h)
