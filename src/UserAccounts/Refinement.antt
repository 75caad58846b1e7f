-- ===== src/UserAccounts/Refinement.antt =====
-- The user table refines a map from paths and wallet IDs to attributes.
use mathlib.Core.Path.{fun_ext}
use wanchain_js_sdk.Prelude.{
  ℕ, String, ◌≡◌, refl, sym, ap, ◌∙◌, Bool, true, false, Option, none, some, List, [], ◌∷◌, ◌&&◌,
  str_eq, nat_beq, string_eq, nat_eq, if◌then◌else◌, Bool-cases, ◌⊎◌, inl, inr, eq_iff, nat_beq_iff,
}
use wanchain_js_sdk.Prelude.Result.{Result, ok, err, invalid_parameter, not_found, ◌>>=◌}
use wanchain_js_sdk.Table.{read}
use wanchain_js_sdk.Table.Find.{find}
use wanchain_js_sdk.Bip44.{PathElem}
use wanchain_js_sdk.UserAccounts.{
  ChainAccounts, user_rows, account_at, write_account, create_at, delete_at, chain_of,
  create_user_account, get_user_account, update_user_account, delete_user_account,
}
use wanchain_js_sdk.UserAccounts.Writing.{account_in, write-account_in, delete-account_in}

pub data Op (A : Type 0) : Type 0 where
  create update : ℕ → String → Option A → Op A
  delete : ℕ → String → Op A

same_chain : {a b : ℕ} → ok a ≡ ok b → a ≡ b
same_chain h = cc

-- the abstract accounts
abbrev pub Accounts : Type 0 → Type 0
Accounts A = String → ℕ → Option A

module _ {A : Type 0} where
  abbrev pub put : String → ℕ → Option A → Accounts A → Accounts A
  put path wid new f = λ p w. if str_eq path p && nat_beq wid w then new else f p w

  -- what a call answers, and the accounts after it
  abbrev pub created : String → ℕ → A → Accounts A → Option A → Result Bool × Accounts A
  created path wid attr f none = (ok true, put path wid (some attr) f)
  created path wid attr f (some old) = (ok false, f)

  abbrev pub deleted : String → ℕ → Accounts A → Option A → Result Bool × Accounts A
  deleted path wid f none = (ok false, f)
  deleted path wid f (some old) = (ok true, put path wid none f)

  -- a path that has no chain is refused
  abbrev pub on_chain : Result ℕ → Accounts A → Result Bool × Accounts A → Result Bool × Accounts A
  on_chain (err e) f answer = (err e, f)
  on_chain (ok chain) f answer = answer

  module _ (parse : String → List PathElem) where
    abbrev pub spec : Op A → Accounts A → Result Bool × Accounts A
    spec (create wid path none) f = (err invalid_parameter, f)
    spec (create wid path (some attr)) f =
        on_chain (chain_of parse path) f (created path wid attr f (f path wid))
    spec (update wid path none) f = (err invalid_parameter, f)
    spec (update wid path (some attr)) f =
        on_chain (chain_of parse path) f (ok true, put path wid (some attr) f)
    spec (delete wid path) f = on_chain (chain_of parse path) f (deleted path wid f (f path wid))

    -- the call itself; an error leaves the table as it was
    abbrev pub answered :
        List (ChainAccounts A)
        → Result (Bool × List (ChainAccounts A))
        → Result Bool × List (ChainAccounts A)
    answered t (err e) = (err e, t)
    answered t (ok (b, t')) = (ok b, t')

    unfoldable pub call : Op A → List (ChainAccounts A) → Result Bool × List (ChainAccounts A)
    unfolding create_user_account update_user_account delete_user_account
    call (create wid path attr) t = answered t (create_user_account parse wid path attr t)
    call (update wid path attr) t = answered t (update_user_account parse wid path attr t)
    call (delete wid path) t = answered t (delete_user_account parse wid path t)

    abbrev pub seen : Result ℕ → String → ℕ → List (ChainAccounts A) → Option A
    seen (err e) p w t = none
    seen (ok chain) p w t = account_in chain p w t

    -- the accounts that a table stands for
    unfoldable pub view : List (ChainAccounts A) → Accounts A
    view t = λ p w. seen (chain_of parse p) p w t

    -- What is read of the table after a write, from what it was.
    view-put :
        (chain : ℕ) (path : String) (wid : ℕ) (new : Option A) (t t' : List (ChainAccounts A))
        → chain_of parse path ≡ ok chain
        → ((c : ℕ) (p : String) (w : ℕ)
            → account_in c p w t' ≡ (
                if nat_beq chain c && (str_eq path p && nat_beq wid w)
                then new
                else account_in c p w t))
        → view t' ≡ put path wid new (view t)
    unfolding view
    view-put chain path wid new t t' own reads =
        fun_ext (λ p. fun_ext (λ w. at p w (chain_of parse p) refl (Bool-cases (str_eq path p))))
      where
        at :
            (p : String) (w : ℕ) (r : Result ℕ)
            → chain_of parse p ≡ r
            → (str_eq path p ≡ true) ⊎ (str_eq path p ≡ false)
            → seen r p w t' ≡ (if str_eq path p && nat_beq wid w then new else seen r p w t)
        at p w (err e) r (inl same) =
            let mine : chain_of parse path ≡ err e =
              ap (chain_of parse) ((eq_iff path p).0 same) ∙ r in
            cc (own, mine)
        at p w (err e) r (inr other) = rw other refl
        at p w (ok c) r (inl same) =
            let mine : chain_of parse path ≡ ok c =
              ap (chain_of parse) ((eq_iff path p).0 same) ∙ r in
            let there : chain ≡ c = same_chain (sym own ∙ mine) in
            reads c p w ∙ rw ((nat_beq_iff chain c).1 there, same) refl
        at p w (ok c) r (inr other) =
            reads c p w
            ∙ rw other
                (elim (Bool-cases (nat_beq chain c)) [ inl k ↦ rw k refl | inr k ↦ rw k refl ])

    -- An answer is the one of the abstract accounts, and its table stands for what they become.
    abbrev Refines :
        List (ChainAccounts A)
        → Result (Bool × List (ChainAccounts A))
        → Result Bool × Accounts A
        → Type 0
    Refines t r s = ((answered t r).0 ≡ s.0) × (view (answered t r).1 ≡ s.1)

    write-Refines :
        (chain : ℕ) (path : String) (wid : ℕ) (attr : A) (t : List (ChainAccounts A))
        → chain_of parse path ≡ ok chain
        → Refines t
            (write_account chain path wid attr t)
            (ok true, put path wid (some attr) (view t))
    write-Refines chain path wid attr t own =
        let (t', written, reads) = write-account_in chain path wid attr t in
        rw written (refl, view-put chain path wid (some attr) t t' own reads)

    create-Refines :
        (chain : ℕ) (path : String) (wid : ℕ) (attr : A) (t : List (ChainAccounts A))
        (old : Option A)
        → chain_of parse path ≡ ok chain
        → Refines t (create_at chain path wid attr t old) (created path wid attr (view t) old)
    unfolding create_at
    create-Refines chain path wid attr t none own = write-Refines chain path wid attr t own
    create-Refines chain path wid attr t (some old) own = (refl, refl)

    delete-Refines :
        (chain : ℕ) (path : String) (wid : ℕ) (t : List (ChainAccounts A))
        (row : Option (ChainAccounts A)) (old : Option A)
        → chain_of parse path ≡ ok chain
        → find user_rows chain t ≡ row
        → account_at path wid row ≡ old
        → Refines t (delete_at chain path wid t row old) (deleted path wid (view t) old)
    unfolding delete_at
    delete-Refines chain path wid t row none own f o = (refl, refl)
    delete-Refines chain path wid t none (some old) own f o = unfold account_at in cc o
    delete-Refines chain path wid t (some r) (some old) own f o =
        let (t', written, reads) = delete-account_in chain path wid r t f in
        rw written (refl, view-put chain path wid none t t' own reads)

    -- what a path's chain decides
    by_chain :
        (path : String) (t : List (ChainAccounts A))
        (next : ℕ → Result (Bool × List (ChainAccounts A)))
        (s : Option A → Result Bool × Accounts A) (wid : ℕ)
        → ((chain : ℕ)
            → chain_of parse path ≡ ok chain
            → Refines t (next chain) (s (account_in chain path wid t)))
        → Refines t
            (chain_of parse path >>= next)
            (on_chain (chain_of parse path) (view t) (s (view t path wid)))
    unfolding view
    by_chain path t next s wid h = go (chain_of parse path) refl
      where
        go :
            (r : Result ℕ)
            → chain_of parse path ≡ r
            → Refines t (r >>= next) (on_chain r (view t) (s (seen r path wid t)))
        go (err e) own = (refl, refl)
        go (ok chain) own = h chain own

    -- Each call answers as the abstract accounts do, and leaves a table that stands for what they
    -- become.
    call-Refines :
        (op : Op A) (t : List (ChainAccounts A))
        → ((call op t).0 ≡ (spec op (view t)).0) × (view (call op t).1 ≡ (spec op (view t)).1)
    unfolding call create_user_account update_user_account delete_user_account read
    call-Refines (create wid path none) t = (refl, refl)
    call-Refines (create wid path (some attr)) t =
        by_chain path t _ (created path wid attr (view t)) wid
          (λ chain own. create-Refines chain path wid attr t (account_in chain path wid t) own)
    call-Refines (update wid path none) t = (refl, refl)
    call-Refines (update wid path (some attr)) t =
        by_chain path t _ (λ old. (ok true, put path wid (some attr) (view t))) wid
          (λ chain own. write-Refines chain path wid attr t own)
    call-Refines (delete wid path) t =
        by_chain path t _ (deleted path wid (view t)) wid (λ chain own.
          delete-Refines chain path wid t (find user_rows chain t) (account_in chain path wid t) own
            refl refl)

    -- the answers of successive calls, and the table or the accounts after them
    unfoldable pub run :
        List (Op A) → List (ChainAccounts A) → List (Result Bool) × List (ChainAccounts A)
    unfolding call
    run [] t = ([], t)
    run (op ∷ ops) t =
        let (answer, t') = call op t in let (answers, last) = run ops t' in (answer ∷ answers, last)

    unfoldable pub replay : List (Op A) → Accounts A → List (Result Bool) × Accounts A
    replay [] f = ([], f)
    replay (op ∷ ops) f =
        let (answer, g) = spec op f in
        let (answers, last) = replay ops g in (answer ∷ answers, last)

    -- Any calls of createUserAccount, updateUserAccount and deleteUserAccount answer as on a map from
    -- paths and wallet IDs to attributes, errors included, and leave a table that stands for the map
    -- after them.
    pub run-refines :
        (ops : List (Op A)) (t : List (ChainAccounts A))
        → ((run ops t).0 ≡ (replay ops (view t)).0) × (view (run ops t).1 ≡ (replay ops (view t)).1)
    unfolding run replay
    run-refines [] t = (refl, refl)
    run-refines (op ∷ ops) t =
        let (answer, after) = call-Refines op t in
        let (answers, last) = run-refines ops (call op t).1 in
        (
          (λ i. answer i ∷ (answers ∙ ap (λ f. (replay ops f).0) after) i),
          last ∙ ap (λ f. (replay ops f).1) after,
        )

    -- getUserAccount reads the map, and finds nothing at a path that has no chain.
    pub get_user_account-view :
        (wid : ℕ) (path : String) (t : List (ChainAccounts A)) (chain : ℕ)
        → chain_of parse path ≡ ok chain
        → get_user_account parse wid path t
          ≡ elim (view t path wid) [ none ↦ err not_found | some attr ↦ ok attr ]
    unfolding get_user_account view read
    get_user_account-view wid path t chain own = rw own refl
