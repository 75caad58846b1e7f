-- ===== src/Pipeline/Closing.antt =====
-- The stages with which src/trans/cross-chain/eth, erc20 and eos redeem and revoke a crossing. The
-- stages that are not given are those of `base`, a run's own: the creators and signers of data.
use wanchain_js_sdk.Prelude.{ℕ, String, Bool, Option, none, some, str_eq, if◌then◌else◌}
use wanchain_js_sdk.Cross.{
  CrossRecord, Ret, can_redeem, can_revoke, redeem_sending, redeem_sent, redeem_fail,
  revoke_sending, revoke_sent, revoke_fail,
}
use wanchain_js_sdk.Items.{Db, get_item}
use wanchain_js_sdk.Pipeline.{
  Stage, passed, refused, threw, Methods, run, Run, by_hash_x, change_found, change_item,
}

abbrev pub by_x : String → CrossRecord → Bool
by_x x r = str_eq r.x x

-- `transFailed` looks the record up by `input.hashX`, which may be missing
unfoldable pub change_input_item :
    Option String → (CrossRecord → CrossRecord) → Db CrossRecord → Stage × Db CrossRecord
unfolding change_item
change_input_item none change db = (threw, db)
change_input_item (some h) change db = change_item h change db

-- CrossChainEthRedeem: by `input.x`, without a condition
unfoldable pub eth_redeem_methods :
    String → Option String → Methods (Db CrossRecord) → Methods (Db CrossRecord)
unfolding change_found change_input_item
eth_redeem_methods x hash_x base = record base {
  pre_send_trans = change_found (by_x x) (λ r. record r { status = redeem_sending });
  trans_failed = change_input_item hash_x (λ r. record r { status = redeem_fail });
  post_send_trans =
      λ tx. change_found (by_x x) (λ r. record r { status = redeem_sent; redeem_tx_hash = tx });
}

-- CrossChainEthRevoke: by `input.hashX`, without a condition
unfoldable pub eth_revoke_methods : String → Methods (Db CrossRecord) → Methods (Db CrossRecord)
unfolding change_item
eth_revoke_methods h base = record base {
  pre_send_trans = change_item h (λ r. record r { status = revoke_sending });
  trans_failed = change_item h (λ r. record r { status = revoke_fail });
  post_send_trans =
      λ tx. change_item h (λ r. record r { status = revoke_sent; revoke_tx_hash = tx });
}

-- the answer of `canRedeem` or `canRevoke` on the record of a hash, which throws without a record
unfoldable pub checked_by : (CrossRecord → Ret) → Option CrossRecord → Stage
checked_by can none = threw
checked_by can (some r) = if (can r).code then passed else refused

-- CrossChainE20Redeem, and CrossChainEosRedeem with the hash that is in the answer
unfoldable pub token_redeem_methods :
    ℕ → String → Db CrossRecord → Methods (Db CrossRecord) → Methods (Db CrossRecord)
unfolding checked_by change_item
token_redeem_methods now h db base = record base {
  check_pre_condition = checked_by (can_redeem now) (get_item (by_hash_x h) db);
  pre_send_trans = change_item h (λ r. record r { status = redeem_sending });
  trans_failed = change_item h (λ r. record r { status = redeem_fail });
  post_send_trans =
      λ tx. change_item h (λ r. record r { status = redeem_sent; redeem_tx_hash = tx });
}

-- CrossChainE20Revoke, and CrossChainEosRevoke with the hash that is in the answer
unfoldable pub token_revoke_methods :
    ℕ → String → Db CrossRecord → Methods (Db CrossRecord) → Methods (Db CrossRecord)
unfolding checked_by change_item
token_revoke_methods now h db base = record base {
  check_pre_condition = checked_by (can_revoke now) (get_item (by_hash_x h) db);
  pre_send_trans = change_item h (λ r. record r { status = revoke_sending });
  trans_failed = change_item h (λ r. record r { status = revoke_fail });
  post_send_trans =
      λ tx. change_item h (λ r. record r { status = revoke_sent; revoke_tx_hash = tx });
}

-- `run` of a token's redemption and revocation, at the time `now` of the check
unfoldable pub token_redeem :
    ℕ → String → Methods (Db CrossRecord) → ℕ → Db CrossRecord → Run (Db CrossRecord)
unfolding token_redeem_methods
token_redeem now h base tries db = run (token_redeem_methods now h db base) tries db

unfoldable pub token_revoke :
    ℕ → String → Methods (Db CrossRecord) → ℕ → Db CrossRecord → Run (Db CrossRecord)
unfolding token_revoke_methods
token_revoke now h base tries db = run (token_revoke_methods now h db base) tries db
