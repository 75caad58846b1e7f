-- ===== src/UserAccounts/Writing.antt =====
-- What a write to the user table changes.
use wanchain_js_sdk.Prelude.{
  ℕ, String, ◌≡◌, refl, ap, ◌∙◌, true, Option, none, some, List, ◌&&◌, str_eq, nat_beq, string_eq,
  nat_eq, arith, if◌then◌else◌, Bool-cases, inl, inr, eq_iff, nat_beq_iff,
}
use wanchain_js_sdk.Prelude.Result.{ok}
use wanchain_js_sdk.Objects.{Object, get, set, unset, get-set, get-unset}
use wanchain_js_sdk.Table.{update}
use wanchain_js_sdk.Table.Find.{find, find-key, find-assign_first, assign_first}
use wanchain_js_sdk.Table.Upsert.{changed, find-upsert}
use wanchain_js_sdk.UserAccounts.{
  ChainAccounts, user_rows, or_empty, at_path, account_at, new_row, with_account, without_account,
  write_account, delete_row,
}

module _ {A : Type 0} where
  at_path-set :
      (path p : String) (wallets : Object ℕ A) (accounts : Object String (Object ℕ A))
      → at_path p (set path wallets accounts)
        ≡ (if str_eq path p then wallets else at_path p accounts)
  unfolding at_path
  at_path-set path p wallets accounts =
      ap or_empty (get-set path p wallets accounts)
      ∙ elim (Bool-cases (str_eq path p)) [ inl same ↦ rw same refl | inr other ↦ rw other refl ]

  -- From the wallets that are put under a path, what is read under it and elsewhere.
  account-put :
      (path p : String) (wid w : ℕ) (new : Option A) (wallets : Object ℕ A) (r : ChainAccounts A)
      → get w wallets ≡ (if nat_beq wid w then new else get w (at_path path r.accounts))
      → get w (at_path p (set path wallets r.accounts))
        ≡ (if str_eq path p && nat_beq wid w then new else get w (at_path p r.accounts))
  account-put path p wid w new wallets r h =
      ap (get w) (at_path-set path p wallets r.accounts) ∙ elim (Bool-cases (str_eq path p)) [
        | inl same ↦
            let here : at_path path r.accounts ≡ at_path p r.accounts =
              ap (λ x. at_path x r.accounts) ((eq_iff path p).0 same) in
            rw same (h ∙ rw here refl)
        | inr other ↦ rw other refl
      ]

  account-with :
      (path p : String) (wid w : ℕ) (attr : A) (r : ChainAccounts A)
      → account_at p w (some (with_account path wid attr r))
        ≡ (if str_eq path p && nat_beq wid w then some attr else account_at p w (some r))
  unfolding account_at with_account
  account-with path p wid w attr r =
      account-put path p wid w (some attr) (set wid attr (at_path path r.accounts)) r
        (get-set wid w attr (at_path path r.accounts))

  account-without :
      (path p : String) (wid w : ℕ) (r : ChainAccounts A)
      → account_at p w (some (without_account path wid r))
        ≡ (if str_eq path p && nat_beq wid w then none else account_at p w (some r))
  unfolding account_at without_account
  account-without path p wid w r =
      account-put path p wid w none (unset wid (at_path path r.accounts)) r
        (get-unset wid w (at_path path r.accounts))

  account-new :
      (chain : ℕ) (path p : String) (wid w : ℕ) (attr : A)
      → account_at p w (some (new_row chain path wid attr))
        ≡ (if str_eq path p && nat_beq wid w then some attr else none)
  unfolding account_at new_row at_path get
  account-new chain path p wid w attr = ground arith

  -- the new row, whatever the old one was
  account-changed :
      (chain : ℕ) (path p : String) (wid w : ℕ) (attr : A) (row : Option (ChainAccounts A))
      → account_at p w
          (some (changed user_rows (new_row chain path wid attr) (with_account path wid attr) row))
        ≡ (if str_eq path p && nat_beq wid w then some attr else account_at p w row)
  account-changed chain path p wid w attr none =
      account-new chain path p wid w attr ∙ unfold account_at in refl
  account-changed chain path p wid w attr (some r) = account-with path p wid w attr r

  -- the account of a path, a wallet and a chain
  abbrev pub account_in : ℕ → String → ℕ → List (ChainAccounts A) → Option A
  account_in chain p w t = account_at p w (find user_rows chain t)

  -- Writing an account succeeds, and changes what is read of this account, and nothing else.
  pub write-account_in :
      (chain : ℕ) (path : String) (wid : ℕ) (attr : A) (t : List (ChainAccounts A))
      → (t' : List (ChainAccounts A)) × (write_account chain path wid attr t ≡ ok (true, t'))
        × ((c : ℕ) (p : String) (w : ℕ)
            → account_in c p w t' ≡ (
                if nat_beq chain c && (str_eq path p && nat_beq wid w)
                then some attr
                else account_in c p w t))
  unfolding write_account
  write-account_in chain path wid attr t =
      let fresh = new_row chain path wid attr in
      let change = with_account path wid attr in
      let (t', written, reads) =
        find-upsert user_rows fresh change chain t (λ old new. refl) (unfold new_row in refl)
          (λ r h. unfold with_account in h) in
      (
        t',
        rw written refl,
        λ c p w. ap (account_at p w) (reads c) ∙ elim (Bool-cases (nat_beq chain c)) [
          | inl same ↦
              let here : find user_rows chain t ≡ find user_rows c t =
                ap (λ x. find user_rows x t) ((nat_beq_iff chain c).0 same) in
              rw (same, here) (account-changed chain path p wid w attr (find user_rows c t))
          | inr other ↦ rw other refl
        ],
      )

  -- Deleting an account that is there succeeds, and changes what is read of this account, and
  -- nothing else.
  pub delete-account_in :
      (chain : ℕ) (path : String) (wid : ℕ) (r : ChainAccounts A) (t : List (ChainAccounts A))
      → find user_rows chain t ≡ some r
      → (t' : List (ChainAccounts A)) × (delete_row chain path wid t (some r) ≡ ok (true, t'))
        × ((c : ℕ) (p : String) (w : ℕ)
            → account_in c p w t' ≡ (
                if nat_beq chain c && (str_eq path p && nat_beq wid w)
                then none
                else account_in c p w t))
  unfolding delete_row update
  delete-account_in chain path wid r t f =
      let new = without_account path wid r in
      let key : some new.chain_id ≡ some chain =
        unfold without_account in find-key user_rows chain t r f in
      (
        assign_first user_rows chain new t,
        refl,
        λ c p w.
            ap (account_at p w) (find-assign_first user_rows chain c new t key)
            ∙ elim (Bool-cases (nat_beq chain c)) [
              | inl same ↦
                  let here : find user_rows c t ≡ some r = rw (← (nat_beq_iff chain c).0 same) f in
                  rw (same, here) (account-without path p wid w r)
              | inr other ↦ rw other refl
            ],
      )
