-- ===== src/Pipeline/Kept.antt =====
-- What every stage that writes the database keeps, a run keeps.
use wanchain_js_sdk.Prelude.{ℕ, String, Option, none, some}
use wanchain_js_sdk.Pipeline.{
  Stage, passed, refused, threw, Methods, Run, early, late, attempts, concluded, posted, failed_by,
  send, staged, run,
}

-- A predicate of the state that `preSendTrans`, `transFailed` and `postSendTrans` keep.
abbrev pub Keeps : {S : Type 0} → (S → Type 0) → Methods S → Type 0
Keeps P m =
    ((s : _) → P s → P (m.pre_send_trans s).1)
    × ((s : _) → P s → P (m.trans_failed s).1)
    × ((h : String) (s : _) → P s → P (m.post_send_trans h s).1)

module _ {S : Type 0} (P : S → Type 0) (m : Methods S) where
  early-kept :
      (stage : Stage) (s : S) (next : Run S) → P s → P next.state → P (early m stage s next).state
  unfolding early
  early-kept passed s next p n = n
  early-kept refused s next p n = p
  early-kept threw s next p n = p

  late-kept :
      (stage : Stage) (s : S) (next : Run S) → P s → P next.state → P (late m stage s next).state
  unfolding late
  late-kept passed s next p n = n
  late-kept refused s next p n = p
  late-kept threw s next p n = p

  posted-kept : (h : String) (r : Stage × S) → P r.1 → P (posted m h r).state
  unfolding posted
  posted-kept h (passed, s) p = p
  posted-kept h (refused, s) p = p
  posted-kept h (threw, s) p = p

  failed_by-kept : (r : Stage × S) → P r.1 → P (failed_by m r).state
  unfolding failed_by
  failed_by-kept (passed, s) p = p
  failed_by-kept (refused, s) p = p
  failed_by-kept (threw, s) p = p

  send-kept : Keeps P m → (n : ℕ) (s : S) → P s → P (send m n s).state
  unfolding send concluded
  send-kept (pre, failed, post) n s p = go (attempts m n 0)
    where
      go : (a : Option String) → P (concluded m a s).state
      go none = failed_by-kept (m.trans_failed s) (failed s p)
      go (some h) = posted-kept h (m.post_send_trans h s) (post h s p)

  pub staged-kept :
      ((s : S) → P s → P (m.pre_send_trans s).1)
      → (next : S → Run S) (s : S) → ((s' : S) → P s' → P (next s').state)
      → P s
      → P (staged m next s).state
  unfolding staged
  staged-kept pre next s keeps p = early-kept m.check_pre_condition s _ p (
      early-kept m.create_trans s _ p (
        early-kept m.create_data_creator s _ p (
          early-kept m.create_data_sign s _ p (
            late-kept m.create_common_data s _ p (
              late-kept m.create_contract_data s _ p (
                late-kept m.sign s _ p (
                  late-kept (m.pre_send_trans s).0 (m.pre_send_trans s).1 _ (pre s p)
                    (keeps (m.pre_send_trans s).1 (pre s p)))))))))

  pub run-kept : Keeps P m → (n : ℕ) (s : S) → P s → P (run m n s).state
  unfolding run
  run-kept k n s p = staged-kept k.0 (send m n) s (send-kept k n) p
