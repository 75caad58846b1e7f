-- ===== src/BtcMonitor/Counting.antt =====
-- How the monitor of BTC counts confirmations on Wanchain: by its own rounds.
use Prim.Native.String.{◌++◌}
use wanchain_js_sdk.Prelude.{
  ℕ, suc, String, ◌+◌, ◌≤◌, ◌<◌, ◌≡◌, ◌≢◌, refl, sym, ap, ◌∙◌, true, false, some, List, [], ◌∷◌,
  leb, length, arith, if◌then◌else◌, All, Bool-cases, inl, inr,
}
use wanchain_js_sdk.Prelude.Result.{ok}
use wanchain_js_sdk.Cross.{Status, lock_sent, locked, buddy_locked}
use wanchain_js_sdk.Monitor.Replies.{Receipt}
use wanchain_js_sdk.BtcMonitor.Replies.{BtcRecord, BtcEnv, is_btc}
use wanchain_js_sdk.BtcMonitor.Online.{check_cross_hash_online}
use wanchain_js_sdk.BtcMonitor.Graph.{
  ◌↝◌, stay, lock_seen, lock_reverted, lock_counted, storeman_counted, refund_pending, refund_seen,
  refund_reverted, refund_counted, revoke_seen, revoke_reverted, revoke_counted, monitor_record-↝,
  monitor_record-chain, online-keeps,
}
use wanchain_js_sdk.BtcMonitor.{
  check_hash_confirm_wan, check_locked, storeman_online, check_cross_hash_confirm_deposit, dispatch,
  monitor_record, wait_block,
}

-- rounds, each with its own replies
unfoldable pub rounds : List BtcEnv → BtcRecord → BtcRecord
rounds [] r = r
rounds (env ∷ envs) r = rounds envs (monitor_record env r).item

-- the record after some rounds that each have seen the receipt of the lock
abbrev pub counted : ℕ → ℕ → BtcRecord → BtcRecord
counted k n r = record r {
  lock_confirmed = r.lock_confirmed + n;
  status = if leb k (r.lock_confirmed + n) then locked else lock_sent;
}

-- Each round asks for `k` confirmations, and its reply to the wait for as many blocks as were
-- counted until then is a receipt of the transaction.
abbrev pub Seen : ℕ → String → ℕ → List BtcEnv → Type 0
Seen k tx n [] = Unit
Seen k tx n (env ∷ envs) =
    (env.confirm_blocks ≡ k)
    × ((rc : Receipt) × (env.wait_confirm tx n ≡ ok (some rc)))
    × Seen k tx (n + 1) envs

hash_confirm-counts :
    (k : ℕ) (env : BtcEnv) (r : BtcRecord) (rc : Receipt)
    → env.confirm_blocks ≡ k
    → env.wait_confirm ("0x" ++ r.lock_tx_hash) r.lock_confirmed ≡ ok (some rc)
    → r.lock_confirmed < k
    → r.status ≡ lock_sent
    → (check_hash_confirm_wan env r).item ≡ counted k 1 r
unfolding check_hash_confirm_wan
hash_confirm-counts k env r rc blocks h below s =
    let waits : wait_block r.lock_confirmed env.confirm_blocks ≡ r.lock_confirmed = ground arith in
    let reply : env.wait_confirm ("0x" ++ r.lock_tx_hash)
          (wait_block r.lock_confirmed env.confirm_blocks)
        ≡ ok (some rc) =
      ap (env.wait_confirm ("0x" ++ r.lock_tx_hash)) waits ∙ h in
    ground arith

lock_sent-counts :
    (k : ℕ) (env : BtcEnv) (r : BtcRecord) (rc : Receipt)
    → env.confirm_blocks ≡ k
    → env.wait_confirm ("0x" ++ r.lock_tx_hash) r.lock_confirmed ≡ ok (some rc)
    → r.lock_confirmed < k
    → is_btc r.chain ≡ false
    → r.status ≡ lock_sent
    → (monitor_record env r).item ≡ counted k 1 r
unfolding monitor_record dispatch
lock_sent-counts k env r rc blocks h below c s =
    ap (λ t. (dispatch t env r).item) s ∙ (rw c (hash_confirm-counts k env r rc blocks h below s))

counted-none :
    (k : ℕ) (r : BtcRecord) → r.lock_confirmed < k → r.status ≡ lock_sent → counted k 0 r ≡ r
counted-none k r below s =
    let same : r.lock_confirmed + 0 ≡ r.lock_confirmed = omega arith in
    let open_lock : (if leb k r.lock_confirmed then locked else lock_sent) ≡ r.status =
      ground arith in
    rw (same, open_lock) refl

counted-counted : (k n : ℕ) (r : BtcRecord) → counted k n (counted k 1 r) ≡ counted k (suc n) r
counted-counted k n r =
    let same : r.lock_confirmed + 1 + n ≡ r.lock_confirmed + suc n = omega arith in rw same refl

-- A lock on Wanchain that is sent, and whose receipt answers in each round the wait for as many
-- blocks as were counted, has one confirmation more after each round and changes in nothing else: it
-- stays sent until as many are counted as each round asks for, and is locked in that round.
pub rounds-counted :
    (k : ℕ) (envs : List BtcEnv) (r : BtcRecord)
    → is_btc r.chain ≡ false
    → r.status ≡ lock_sent
    → r.lock_confirmed < k
    → r.lock_confirmed + length envs ≤ k
    → Seen k ("0x" ++ r.lock_tx_hash) r.lock_confirmed envs
    → rounds envs r ≡ counted k (length envs) r
unfolding rounds
rounds-counted k [] r c s below within seen = sym (counted-none k r below s)
rounds-counted k (env ∷ []) r c s below within (blocks, (rc, h), more) =
    lock_sent-counts k env r rc blocks h below c s
rounds-counted k (env ∷ next ∷ envs) r c s below within (blocks, (rc, h), more) =
    let step = lock_sent-counts k env r rc blocks h below c s in
    let sent_still : (counted k 1 r).status ≡ lock_sent = ground arith in
    ap (rounds (next ∷ envs)) step
    ∙ rounds-counted k (next ∷ envs) (counted k 1 r) c sent_still (omega arith) (omega arith) more
    ∙ counted-counted k (length (next ∷ envs)) r

online_deposit-count :
    (env : BtcEnv) (r : BtcRecord)
    → is_btc r.chain ≡ true
    → (check_cross_hash_online env r).found ≡ true
    → (check_cross_hash_online env r).item.cross_confirmed ≡ some 1
unfolding check_cross_hash_online
online_deposit-count env r c h = ground arith

storeman_online-not_buddy_locked :
    (env : BtcEnv) (r : BtcRecord)
    → is_btc r.chain ≡ true
    → 3 ≤ env.confirm_blocks
    → r.cross_confirmed ≡ some 1
    → r.status ≢ buddy_locked
    → (storeman_online env r).item.status ≢ buddy_locked
unfolding storeman_online check_cross_hash_confirm_deposit
storeman_online-not_buddy_locked env r c n one s = ground arith

check_locked-not_buddy_locked :
    (env : BtcEnv) (r : BtcRecord)
    → is_btc r.chain ≡ true
    → 3 ≤ env.confirm_blocks
    → r.status ≢ buddy_locked
    → (check_locked env r).item.status ≢ buddy_locked
unfolding check_locked
check_locked-not_buddy_locked env r c n s =
    let o = check_cross_hash_online env r in
    let (status, chain) = online-keeps env r in
    let kept : is_btc o.item.chain ≡ true = ap is_btc chain ∙ c in
    let other : o.item.status ≢ buddy_locked = λ h. s (sym status ∙ h) in
    elim (Bool-cases o.found) [
      | inl found ↦ rw found (
          storeman_online-not_buddy_locked env o.item kept n (online_deposit-count env r c found)
            other)
      | inr absent ↦ rw absent other
    ]

entering_buddy_locked : {s t : Status} → s ↝ t → t ≡ buddy_locked → s ≢ buddy_locked → s ≡ locked
entering_buddy_locked storeman_counted h k = refl
entering_buddy_locked stay h k = elim (k h) [ ]
entering_buddy_locked lock_seen h k = cc
entering_buddy_locked lock_reverted h k = cc
entering_buddy_locked lock_counted h k = cc
entering_buddy_locked refund_pending h k = cc
entering_buddy_locked refund_seen h k = cc
entering_buddy_locked refund_reverted h k = cc
entering_buddy_locked refund_counted h k = cc
entering_buddy_locked revoke_seen h k = cc
entering_buddy_locked revoke_reverted h k = cc
entering_buddy_locked revoke_counted h k = cc

monitor-not_buddy_locked :
    (env : BtcEnv) (r : BtcRecord)
    → is_btc r.chain ≡ true
    → 3 ≤ env.confirm_blocks
    → r.status ≢ buddy_locked
    → (monitor_record env r).item.status ≢ buddy_locked
unfolding monitor_record dispatch
monitor-not_buddy_locked env r c n s h =
    let was : r.status ≡ locked = entering_buddy_locked (monitor_record-↝ env r) h s in
    check_locked-not_buddy_locked env r c n s
      (sym (ap (λ t. (dispatch t env r).item.status) was) ∙ h)

-- A deposit of BTC is never found locked by the storeman, after any rounds, whatever the chains
-- answer, if three confirmations or more are asked for: each round counts from 1 again.
pub rounds-not_buddy_locked :
    (envs : List BtcEnv) (r : BtcRecord)
    → All (λ env. 3 ≤ env.confirm_blocks) envs
    → is_btc r.chain ≡ true
    → r.status ≢ buddy_locked
    → (rounds envs r).status ≢ buddy_locked
unfolding rounds
rounds-not_buddy_locked [] r n c s = s
rounds-not_buddy_locked (env ∷ envs) r n c s =
    rounds-not_buddy_locked envs (monitor_record env r).item n.1
      (ap is_btc (monitor_record-chain env r) ∙ c) (monitor-not_buddy_locked env r c n.0 s)
