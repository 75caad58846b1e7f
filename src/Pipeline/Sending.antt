-- ===== src/Pipeline/Sending.antt =====
-- How a run ends whose stages before the sending pass.
use wanchain_js_sdk.Prelude.{ℕ, String, ◌≡◌, refl, ◌∙◌, true, false, none, some}
use wanchain_js_sdk.Pipeline.{
  passed, Methods, Run, early, late, attempts, concluded, posted, failed_by, send, staged, run,
}

-- every stage before the sending
abbrev pub IsReady : {S : Type 0} → Methods S → Type 0
IsReady m =
    (m.check_pre_condition ≡ passed)
    × (m.create_trans ≡ passed)
    × (m.create_data_creator ≡ passed)
    × (m.create_data_sign ≡ passed)
    × (m.create_common_data ≡ passed)
    × (m.create_contract_data ≡ passed)
    × (m.sign ≡ passed)

abbrev pub success : {S : Type 0} → String → S → Run S
success h s = record { code = true; rejected = false; state = s; holes = 0; hash = some h }

pub staged-ready :
    {S : Type 0} (m : Methods S) (next : S → Run S) (s s' : S)
    → IsReady m
    → m.pre_send_trans s ≡ (passed, s')
    → staged m next s ≡ next s'
unfolding staged early late
staged-ready m next s s' (a, b, c, d, e, f, g) pre = rw (a, b, c, d, e, f, g, pre) refl

module _ {S : Type 0} (m : Methods S) (n : ℕ) (s s' : S) (ready : IsReady m)
    (pre : m.pre_send_trans s ≡ (passed, s')) where
  run-sends : run m n s ≡ send m n s'
  unfolding run
  run-sends = staged-ready m (send m n) s s' ready pre

  -- An attempt got a hash, and the stage after the sending passes.
  pub run-success :
      (h : String) (after : S)
      → attempts m n 0 ≡ some h
      → m.post_send_trans h s' ≡ (passed, after)
      → run m n s ≡ success h after
  unfolding send concluded posted
  run-success h after sent post = run-sends ∙ rw (sent, post) refl

  -- No attempt got a hash.
  pub run-failed : attempts m n 0 ≡ none → run m n s ≡ failed_by m (m.trans_failed s')
  unfolding send concluded
  run-failed unsent = run-sends ∙ rw unsent refl
