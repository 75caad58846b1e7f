-- ===== src/Normal/Examples.antt =====
-- A private refund on Wanchain, and the rows of two one-time addresses.
use wanchain_js_sdk.Prelude.{
  ℕ, String, ◌≡◌, refl, false, none, some, List, [], ◌∷◌, string_eq, if◌then◌else◌,
}
use wanchain_js_sdk.Prelude.Result.{Result, ok, err, timeout}
use wanchain_js_sdk.Cross.{eos, wan, is_eos}
use wanchain_js_sdk.Monitor.Replies.{Network, Receipt}
use wanchain_js_sdk.Table.{read, update}
use wanchain_js_sdk.Table.Find.{find, has_key, assign_first}
use wanchain_js_sdk.Normal.{
  NormalRecord, Ota, ota_rows, sent, mark_refund, private_refund, monitor_record,
}
use wanchain_js_sdk.Normal.Outcomes.{refund}
use wanchain_js_sdk.Normal.Round.{visited, monitor_task_normal}
use wanchain_js_sdk.Normal.Marking.{any_refunded, marked_if, find-monitor_task_normal}

abbrev ota : String → Ota
ota h = record {
  txhash = h;
  to_ota = "0x02";
  to_acct_id = "MTptLzQ0";
  value = "10";
  sender = "0x03";
  block_no = 7;
  state = "Found";
}

abbrev otas : List Ota
otas = ota "0xa" ∷ ota "0xb" ∷ []

abbrev refunding : NormalRecord
refunding = record {
  hash_x = "h";
  tx_hash = "0xcc";
  chain_type = wan;
  status = sent;
  sent_time = none;
  success_time = none;
  annotate = some "PrivateRefund";
  ota_tx_hash = some "0xb";
}

abbrev receipt : Receipt
receipt = record { block_number = some 7; status = some "0x1"; block_num = none; trx = none }

abbrev network : Result ℕ → Network
network block = record {
  wait_confirm = λ tx n c. ok (some receipt);
  block_time = λ n c. block;
  encode_topic = λ a. ok a;
  events = λ p inbound k c h a. ok [];
}

-- The other row is left.
marks : mark_refund "0xb" otas ≡ ota "0xa" ∷ refund (ota "0xb") ∷ []
unfolding mark_refund read update find has_key assign_first
marks = refl

-- the time of the block comes for the one refund, and an error for the other
abbrev pending : List NormalRecord
pending =
    refunding
    ∷ record refunding { tx_hash = "0xdd"; chain_type = eos; ota_tx_hash = some "0xa" }
    ∷ []

abbrev networks : NormalRecord → Network
networks r = record (network (ok 1000)) {
  block_time = λ n c. if is_eos c then err timeout else ok 1000;
}

abbrev round : List NormalRecord × List Ota
round = monitor_task_normal false networks 2 pending otas

find-monitor_task_normal_example :
    find ota_rows "0xb" round.1
    ≡ marked_if (any_refunded "0xb" pending round.0) (find ota_rows "0xb" otas)
find-monitor_task_normal_example =
    find-monitor_task_normal "0xb" false networks 2 pending otas (λ s. refl, (λ s. refl, tt))

-- The row of the first is marked, that of the second is not.
round_marks : round.1 ≡ ota "0xa" ∷ refund (ota "0xb") ∷ []
unfolding monitor_task_normal visited monitor_record private_refund mark_refund read update find
    has_key assign_first
round_marks = refl
